-- ===== src/Ledger/Posting/Locking.antt =====
-- `lockAndValidate`: the accounts that it hands on are those of the database, each of them active
-- and of its entries' currency.
use ledger_core.Base.{
  ◌≡◌, refl, List, [], ◌∷◌, true, Option, none, some, ◌==◌, update, arith, ==_iff, Bool-cases,
  Option-cases, inl, inr, sym, ◌∙◌, ap, subst, All,
}
use mathlib.Core.Option.{some-injective}
use ledger_core.Errors.{ok, Result-cases}
use ledger_core.Ledger.Types.{Uuid, is_postable}
use ledger_core.Ledger.Request.{EntryRequest}
use ledger_core.Ledger.Routing.{mem_id, distinct_ids, sort_ids}
use ledger_core.Ledger.Repository.{LockedAccount, locked_account, locked_rows, lock_accounts}
use ledger_core.Ledger.Aggregate.{Accounts, account_at}
use ledger_core.Ledger.Posting.{index_accounts, check_accounts, check_currencies, lock_and_validate}
use ledger_core.Postgres.{AccountRow, Db}

-- An account of the map is the locked row of the database.
abbrev pub IsLocked : Db → Uuid → LockedAccount → Type 0
IsLocked db id a = (row : AccountRow) × (db.accounts id ≡ some row) × (a ≡ locked_account id row)

abbrev AreLocked : Db → List LockedAccount → Type 0
AreLocked db rows = All (λ a. IsLocked db a.id a) rows

locked_rows-AreLocked : (db : Db) (ids : List Uuid) → AreLocked db (locked_rows db ids)
unfolding locked_rows
locked_rows-AreLocked db [] = tt
locked_rows-AreLocked db (id ∷ ids) = go (db.accounts id) refl (locked_rows-AreLocked db ids)
  where
    go :
        (o : Option AccountRow)
        → db.accounts id ≡ o
        → AreLocked db (locked_rows db ids)
        → AreLocked db (elim o [
          | none ↦ locked_rows db ids
          | some row ↦ locked_account id row ∷ locked_rows db ids
        ])
    go none e rest = rest
    go (some row) e rest = ((row, e, refl), rest)

index_accounts-IsLocked :
    (db : Db) (rows : List LockedAccount) (accounts : Accounts)
    → AreLocked db rows
    → ((id : Uuid) (a : LockedAccount) → accounts id ≡ some a → IsLocked db id a)
    → (id : Uuid) (a : LockedAccount) → index_accounts rows accounts id ≡ some a
    → IsLocked db id a
unfolding index_accounts
index_accounts-IsLocked db [] accounts h k id a e = k id a e
index_accounts-IsLocked db (r ∷ rs) accounts h k id a e =
    index_accounts-IsLocked db rs (update accounts r.id (some r)) h.1 extended id a e
  where
    extended :
        (id : Uuid) (a : LockedAccount)
        → update accounts r.id (some r) id ≡ some a
        → IsLocked db id a
    extended id a e = elim (Bool-cases (r.id == id)) [
      | inl same ↦
          let p = (==_iff r.id id).0 same in
          let q : some r ≡ some a = rw same at e in
          subst (λ x. IsLocked db x a) p (subst (IsLocked db r.id) (some-injective r a q) h.0)
      | inr other ↦ k id a (rw other at e)
    ]

-- Every account that passed the check is in the map.
check_accounts-some :
    (accounts : Accounts) (ids : List Uuid) (id : Uuid)
    → check_accounts accounts ids ≡ ok tt
    → mem_id id ids ≡ true
    → (a : LockedAccount) × (accounts id ≡ some a) × (is_postable a.status ≡ true)
unfolding check_accounts mem_id
check_accounts-some accounts [] id h m = cc
check_accounts-some accounts (x ∷ xs) id h m = elim (Option-cases (accounts x)) [
  | inl missing ↦ ground arith
  | inr (a, e) ↦ elim (Bool-cases (x == id)) [
    | inl same ↦ (a, ap accounts (sym ((==_iff x id).0 same)) ∙ e, ground arith)
    | inr other ↦ check_accounts-some accounts xs id (ground arith) (ground arith)
  ]
]

lock_and_validate_inv :
    (order : List Uuid) (requests : List EntryRequest) (db : Db) {accounts : Accounts} {db' : Db}
    → lock_and_validate order requests db ≡ ok (accounts, db')
    → (db' ≡ db)
      × (accounts ≡ index_accounts (locked_rows db (sort_ids (distinct_ids [] order))) (λ _. none))
      × (check_accounts accounts order ≡ ok tt)
      × (check_currencies accounts requests ≡ ok tt)
unfolding lock_and_validate lock_accounts
lock_and_validate_inv order requests db h =
    let m = index_accounts (locked_rows db (sort_ids (distinct_ids [] order))) (λ _. none) in
    elim (Result-cases (check_accounts m order)) [
      | inl (x, e) ↦ ground arith
      | inr (_, e) ↦ elim (Result-cases (check_currencies m requests)) [
        | inl (x, e') ↦ ground arith
        | inr (_, e') ↦ ground arith
      ]
    ]

-- After the locks nothing has changed, and every account of the order is an active row.
pub lock_and_validate_lem :
    (order : List Uuid) (requests : List EntryRequest) (db : Db) {accounts : Accounts} {db' : Db}
    → lock_and_validate order requests db ≡ ok (accounts, db')
    → (db' ≡ db)
      × ((id : Uuid)
          → mem_id id order ≡ true
          → (row : AccountRow) × (db.accounts id ≡ some row)
            × (account_at accounts id ≡ locked_account id row)
            × (is_postable row.status ≡ true))
lock_and_validate_lem order requests db {accounts = accounts} h =
    let (same, built, checked, _) = lock_and_validate_inv order requests db h in
    (
      same,
      λ id m.
          let (a, e, postable) = check_accounts-some accounts order id checked m in
          let (row, found, locked) =
            index_accounts-IsLocked db _ (λ _. none) (locked_rows-AreLocked db _) (λ _ _ q. cc) id a
              (ap (λ f. f id) (sym built) ∙ e) in
          (row, found, ground arith, unfold locked_account in ground arith),
    )
