-- ===== src/Ledger/Service/Opens.antt =====
-- `CreateAccount`: an account opens at zero, and the tables stay consistent.
use ledger_core.Base.{
  ◌≡◌, refl, [], map, some, none, ◌==◌, true, ◌⊎◌, pos, ◌≤ℤ◌, update, arith, inl, inr, Option-cases,
  Bool-cases, ==_iff, sym, subst, ap, ◌∙◌,
}
use mathlib.Core.Option.{some-injective}
use ledger_core.Errors.{Error, ok, err, Result-cases}
use ledger_core.Ledger.Types.{
  Uuid, AccountType, asset, liability, equity, revenue, expense, other_account_type, normal_balance,
  is_valid_direction,
}
use ledger_core.Ledger.Request.{CreateAccountRequest, validate_account}
use ledger_core.Ledger.Routing.{mem_id}
use ledger_core.Ledger.Routing.Order.{account_ids}
use ledger_core.Ledger.Journal.{
  AreInt64, AreDirected, leg, journal_balance, journal_balance-leg, leg_balance-absent,
}
use ledger_core.Ledger.Posting.{Draws}
use ledger_core.Ledger.Repository.{append_event}
use ledger_core.Ledger.Service.{new_account, opening, create_account}
use ledger_core.Ledger.Consistency.{IsConsistent}
use ledger_core.Postgres.{AccountRow, Db, imbalance}
use ledger_core.Postgres.Runs.{run_tx-err, run_tx-ok}

-- The normal balance of an account type is a direction.
pub normal_balance-valid : (t : AccountType) → is_valid_direction (normal_balance t) ≡ true
unfolding normal_balance is_valid_direction
normal_balance-valid asset = refl
normal_balance-valid liability = refl
normal_balance-valid equity = refl
normal_balance-valid revenue = refl
normal_balance-valid expense = refl
normal_balance-valid (other_account_type s) = refl

-- What opening an account does.
record Opened (req : CreateAccountRequest) (db : Db) (row : AccountRow) (db' : Db) : Type 0 where
  id : Uuid
  free : db.accounts id ≡ none
  result : row ≡ new_account req
  accounts : db'.accounts ≡ update db.accounts id (some (new_account req))
  journal : db'.journal ≡ db.journal

opening-Opened :
    (draws : Draws) (id : Uuid) (req : CreateAccountRequest) (db : Db) {row : AccountRow} {db' : Db}
    → opening draws id req db ≡ ok (row, db')
    → Opened req db row db'
unfolding opening append_event
opening-Opened draws id req db h = elim (Option-cases (db.accounts id)) [
  | inl e ↦ record {
    id = id;
    free = e;
    result = ground arith;
    accounts = ground arith;
    journal = ground arith;
  }
  | inr (old, e) ↦ absurd (ground arith)
]

create_account-Opened :
    (draws : Draws) (req : CreateAccountRequest) (db : Db) {row : AccountRow} {db' : Db}
    → create_account draws req db ≡ (ok row, db')
    → Opened req db row db'
unfolding create_account
create_account-Opened draws req db {row} {db'} h = elim (Result-cases (validate_account req)) [
  | inl (x, e) ↦ absurd (ground arith)
  | inr (_, e) ↦ elim (Option-cases draws.transaction_id) [
    | inl none_drawn ↦ absurd (ground arith)
    | inr (id, drawn) ↦
        opening-Opened draws id req db
          (run_tx-ok (opening draws id req) db row {db' = db'} (ground arith)).0
  ]
]

-- An opening that reports an error has changed nothing.
pub create_account-err :
    (draws : Draws) (req : CreateAccountRequest) (db : Db) (x : Error)
    → (create_account draws req db).0 ≡ err x
    → (create_account draws req db).1 ≡ db
unfolding create_account
create_account-err draws req db x h = elim (Result-cases (validate_account req)) [
  | inl (y, e) ↦ ground arith
  | inr (_, e) ↦ elim (Option-cases draws.transaction_id) [
    | inl none_drawn ↦ ground arith
    | inr (id, drawn) ↦ ground (arith, run_tx-err (opening draws id req) db x)
  ]
]

-- A row of the new table is a row of the old one, or the new one.
row_after :
    (req : CreateAccountRequest) (db : Db) (id j : Uuid) (row : AccountRow)
    → update db.accounts id (some (new_account req)) j ≡ some row
    → (db.accounts j ≡ some row) ⊎ ((id ≡ j) × (row ≡ new_account req))
row_after req db id j row e = elim (Bool-cases (id == j)) [
  | inl same ↦ inr ((==_iff id j).0 same, sym (some-injective _ row (rw same at e)))
  | inr other ↦ inl (rw other at e)
]

still_missing :
    (req : CreateAccountRequest) (db : Db) (id j : Uuid)
    → update db.accounts id (some (new_account req)) j ≡ none
    → db.accounts j ≡ none
still_missing req db id j e = elim (Bool-cases (id == j)) [
  | inl same ↦ absurd (ground arith)
  | inr other ↦ rw other at e
]

-- The journal holds nothing for an account that does not exist.
journal_balance-missing :
    (db : Db) (j : Uuid) (row : AccountRow)
    → IsConsistent db
    → db.accounts j ≡ none
    → journal_balance j row.normal_balance db.journal ≡ pos 0
journal_balance-missing db j row c missing =
    journal_balance-leg j row.normal_balance db.journal
    ∙ leg_balance-absent j row.normal_balance (map leg db.journal) (c.present j missing)

Opened-IsConsistent :
    (req : CreateAccountRequest) (db : Db) (row : AccountRow) (db' : Db)
    → IsConsistent db
    → Opened req db row db'
    → IsConsistent db'
Opened-IsConsistent req db row db' c o =
    let at : (j : Uuid) (r : AccountRow)
        → db'.accounts j ≡ some r
        → (db.accounts j ≡ some r) ⊎ ((o.id ≡ j) × (r ≡ new_account req)) =
      λ j r e. row_after req db o.id j r (ap (λ f. f j) (sym o.accounts) ∙ e) in
    record {
      balances = λ j r e. elim (at j r e) [
        | inl old ↦ c.balances j r old ∙ ap (journal_balance j r.normal_balance) (sym o.journal)
        | inr (p, q) ↦
            ap (λ (x : AccountRow). x.available_minor) q
            ∙ sym (journal_balance-missing db j r c (ap db.accounts (sym p) ∙ o.free))
            ∙ ap (journal_balance j r.normal_balance) (sym o.journal)
      ];
      covered = λ j r e strict. elim (at j r e) [
        | inl old ↦ c.covered j r old strict
        | inr (p, q) ↦ subst (λ (x : AccountRow). pos 0 ≤ℤ x.available_minor) (sym q) (omega arith)
      ];
      balanced = λ tx currency. ap (imbalance tx currency) o.journal ∙ c.balanced tx currency;
      typed = subst AreInt64 (sym o.journal) c.typed;
      directed = subst AreDirected (sym o.journal) c.directed;
      normals = λ j r e. elim (at j r e) [
        | inl old ↦ c.normals j r old
        | inr (p, q) ↦
            ap (λ (x : AccountRow). is_valid_direction x.normal_balance) q
            ∙ normal_balance-valid req.account_type
      ];
      present = λ j missing.
          ap (λ es. mem_id j (account_ids (map leg es))) o.journal
          ∙ c.present j (still_missing req db o.id j (ap (λ f. f j) (sym o.accounts) ∙ missing));
    }

-- A ledger without accounts and entries is consistent.
pub empty-IsConsistent :
    (db : Db) → ((id : Uuid) → db.accounts id ≡ none) → db.journal ≡ [] → IsConsistent db
unfolding imbalance mem_id
empty-IsConsistent db none_yet empty = record {
  balances = λ id row e. absurd (ground (arith, none_yet id));
  covered = λ id row e. absurd (ground (arith, none_yet id));
  balanced = λ tx currency. ap (imbalance tx currency) empty;
  typed = subst AreInt64 (sym empty) tt;
  directed = subst AreDirected (sym empty) tt;
  normals = λ id row e. absurd (ground (arith, none_yet id));
  present = λ id missing. ap (λ es. mem_id id (account_ids (map leg es))) empty;
}

-- Opening an account keeps the tables consistent, whether it succeeds or not: the journal holds
-- nothing for an account that did not exist.
pub create_account-IsConsistent :
    (draws : Draws) (req : CreateAccountRequest) (db : Db)
    → IsConsistent db
    → IsConsistent (create_account draws req db).1
create_account-IsConsistent draws req db c = elim (Result-cases (create_account draws req db).0) [
  | inl (x, e) ↦ subst IsConsistent (sym (create_account-err draws req db x e)) c
  | inr (row, e) ↦
      let d = (create_account draws req db).1 in
      Opened-IsConsistent req db row d c (create_account-Opened draws req db (ap (λ r. (r, d)) e))
]
