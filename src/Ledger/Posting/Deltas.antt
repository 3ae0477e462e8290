-- ===== src/Ledger/Posting/Deltas.antt =====
-- The second loop of `applyEntries`: every account of the order moves by its delta, once, and the
-- rest of the database stays as it was.
use ledger_core.Base.{
  ◌≡◌, refl, List, [], ◌∷◌, false, Option, none, some, ◌==◌, if◌then◌else◌, ℤ, pos, ◌+ℤ◌, ◌≤ℤ◌,
  update, arith, +ℤ_zero, zero_+ℤ, +ℤ_assoc, ==_iff, Bool-cases, inl, inr, ◌∙◌, sym, ap, subst,
}
use mathlib.Core.Path.{fun_ext}
use ledger_core.Errors.{ok, Result-cases}
use ledger_core.Ledger.Types.{Uuid}
use ledger_core.Ledger.Routing.{mem_id}
use ledger_core.Ledger.Routing.Order.{NoRepeat}
use ledger_core.Ledger.Repository.{Balance, moved, apply_balance_delta}
use ledger_core.Ledger.Repository.Balances.{apply_balance_delta-Moved}
use ledger_core.Ledger.Aggregate.{Accounts, Aggregate}
use ledger_core.Ledger.Posting.{delta_of, apply_delta, apply_deltas}
use ledger_core.Outbox.{EventBalance}
use ledger_core.Postgres.{AccountRow, Db}

-- A row that moved by an amount; all else that decides later postings is unchanged, and a balance
-- that may not be negative is not made negative.
pub record RowMoved (delta : ℤ) (row row' : AccountRow) : Type 0 where
  pub available : row'.available_minor ≡ row.available_minor +ℤ delta
  pub normal_balance : row'.normal_balance ≡ row.normal_balance
  pub currency : row'.currency ≡ row.currency
  pub status : row'.status ≡ row.status
  pub allow_negative : row'.allow_negative ≡ row.allow_negative
  pub covered :
      row.allow_negative ≡ false → pos 0 ≤ℤ row.available_minor → pos 0 ≤ℤ row'.available_minor

-- An account moved by an amount, or missing before and after.
abbrev pub AccountMoved : ℤ → Option AccountRow → Option AccountRow → Type 0
AccountMoved delta none none = Unit
AccountMoved delta (some row) (some row') = RowMoved delta row row'
AccountMoved delta none (some _) = ⊥
AccountMoved delta (some _) none = ⊥

pub AccountMoved-refl : (a : Option AccountRow) → AccountMoved (pos 0) a a
AccountMoved-refl none = tt
AccountMoved-refl (some row) = grind (arith, +ℤ_zero row.available_minor)

pub AccountMoved-trans :
    (x y : ℤ) (a b c : Option AccountRow)
    → AccountMoved x a b
    → AccountMoved y b c
    → AccountMoved (x +ℤ y) a c
AccountMoved-trans x y none none none h k = tt
AccountMoved-trans x y none none (some c) h k = k
AccountMoved-trans x y none (some b) c h k = absurd h
AccountMoved-trans x y (some a) none c h k = absurd h
AccountMoved-trans x y (some a) (some b) none h k = k
AccountMoved-trans x y (some a) (some b) (some c) h k =
    ground (arith, +ℤ_assoc a.available_minor x y)

-- The movement of every account, and the frame.
pub record AllMoved (delta : Uuid → ℤ) (db db' : Db) : Type 0 where
  pub accounts : (id : Uuid) → AccountMoved (delta id) (db.accounts id) (db'.accounts id)
  pub rest : db' ≡ record db { accounts = db'.accounts }

-- What the delta of an account is while the loop goes through `order`.
abbrev pub within : List Uuid → (Uuid → ℤ) → Uuid → ℤ
within order delta id = if mem_id id order then delta id else pos 0

pub one_moved :
    (id j : Uuid) (delta : ℤ) (row row' : AccountRow) (accounts : Uuid → Option AccountRow)
    → accounts id ≡ some row
    → RowMoved delta row row'
    → AccountMoved
        (if id == j then delta else pos 0)
        (accounts j)
        (update accounts id (some row') j)
one_moved id j delta row row' accounts e m = elim (Bool-cases (id == j)) [
  | inl same ↦ rw same (
      subst (λ a. AccountMoved delta a (some row'))
        (sym (ap accounts (sym ((==_iff id j).0 same)) ∙ e)) m)
  | inr other ↦ rw other (AccountMoved-refl (accounts j))
]

-- The UPDATE that one round of the loop makes.
apply_delta_inv :
    (accounts : Accounts) (g : Aggregate) (id : Uuid) (db : Db) {b : EventBalance} {db' : Db}
    → apply_delta accounts g id db ≡ ok (b, db')
    → (moved_to : Balance) × (apply_balance_delta (delta_of accounts g id) db ≡ ok (moved_to, db'))
      × (b ≡ record { account_id = id; available = moved_to.available; version = moved_to.version })
unfolding apply_delta
apply_delta_inv accounts g id db h =
    elim (Result-cases (apply_balance_delta (delta_of accounts g id) db)) [
      | inl (x, e) ↦ ground arith
      | inr ((moved_to, d), e) ↦ (moved_to, ground arith, ground arith)
    ]

-- One account of the order.
apply_delta-AllMoved :
    (accounts : Accounts) (g : Aggregate) (id : Uuid) (db : Db) {b : EventBalance} {db' : Db}
    → apply_delta accounts g id db ≡ ok (b, db')
    → AllMoved (λ j. if id == j then g.deltas id else pos 0) db db'
apply_delta-AllMoved accounts g id db {db' = db'} h =
    let (moved_to, e, same) = apply_delta_inv accounts g id db h in
    let (row, m) = apply_balance_delta-Moved (delta_of accounts g id) db e in
    subst (AllMoved _ db) (sym m.result) (record {
      accounts = λ j.
          one_moved id j (g.deltas id) row (moved (delta_of accounts g id) row) db.accounts m.found
            (ground (arith, m.covered));
      rest = refl;
    })

AllMoved-trans :
    (x y : Uuid → ℤ) (a b c : Db) → AllMoved x a b → AllMoved y b c → AllMoved (λ j. x j +ℤ y j) a c
AllMoved-trans x y a b c h k = record {
  accounts = λ j. AccountMoved-trans (x j) (y j) _ _ _ (h.accounts j) (k.accounts j);
  rest = k.rest ∙ ap {B = Db} (λ (d : Db). record d { accounts = c.accounts }) h.rest;
}

apply_deltas_inv :
    (accounts : Accounts) (g : Aggregate) (id : Uuid) (ids : List Uuid) (db : Db)
    {bs : List EventBalance} {db' : Db}
    → apply_deltas accounts g (id ∷ ids) db ≡ ok (bs, db')
    → (b : EventBalance) × (rest : List EventBalance) × (d : Db) × (apply_delta accounts g id db
        ≡ ok (b, d))
      × (apply_deltas accounts g ids d ≡ ok (rest, db'))
      × (bs ≡ b ∷ rest)
unfolding apply_deltas
apply_deltas_inv accounts g id ids db h = elim (Result-cases (apply_delta accounts g id db)) [
  | inl (x, e) ↦ ground arith
  | inr ((b, d), e) ↦ elim (Result-cases (apply_deltas accounts g ids d)) [
    | inl (x, e') ↦ ground arith
    | inr ((rest, d'), e') ↦ (b, rest, d, e, ground arith, ground arith)
  ]
]

within-cons :
    (id : Uuid) (ids : List Uuid) (delta : Uuid → ℤ) (j : Uuid)
    → mem_id id ids ≡ false
    → (if id == j then delta id else pos 0) +ℤ within ids delta j ≡ within (id ∷ ids) delta j
unfolding mem_id
within-cons id ids delta j h = elim (Bool-cases (id == j)) [
  | inl same ↦ ground (arith, +ℤ_zero (delta id), zero_+ℤ (delta id))
  | inr other ↦ rw other (zero_+ℤ _)
]

-- After the loop every account of the order has moved by its delta, and no other has.
pub apply_deltas-AllMoved :
    (accounts : Accounts) (g : Aggregate) (order : List Uuid) (db : Db) {bs : List EventBalance}
    {db' : Db}
    → NoRepeat order
    → apply_deltas accounts g order db ≡ ok (bs, db')
    → AllMoved (within order g.deltas) db db'
apply_deltas-AllMoved accounts g [] db n h =
    subst (AllMoved _ db) (stays h)
      (record { accounts = λ j. unfold mem_id in AccountMoved-refl (db.accounts j); rest = refl })
  where
    stays :
        {bs : List EventBalance} {db' : Db}
        → apply_deltas accounts g [] db ≡ ok (bs, db')
        → db ≡ db'
    stays q = unfold apply_deltas in ground arith
apply_deltas-AllMoved accounts g (id ∷ ids) db {db' = db'} n h =
    let (b, rest, d, e, e', same) = apply_deltas_inv accounts g id ids db h in
    subst (λ delta. AllMoved delta db db') (fun_ext (λ j. within-cons id ids g.deltas j n.0))
      (AllMoved-trans _ _ db d db' (apply_delta-AllMoved accounts g id db e)
        (apply_deltas-AllMoved accounts g ids d n.1 e'))
