-- ===== src/Ledger/Repository/Loading.antt =====
-- What `LoadTransactionForUpdate` reads back.
use ledger_core.Base.{
  ◌≡◌, refl, List, [], ◌∷◌, ◌++◌, true, false, some, ◌==◌, if◌then◌else◌, ltb, map, ℤ, pos, ◌+ℤ◌,
  neg_ℤ, int_laws, arith, Bool-cases, Option-cases, inl, inr, All, ◌∙◌, sym, ap,
}
use ledger_core.Errors.{ok, Result-cases}
use ledger_core.Ledger.Money.{new_money}
use ledger_core.Ledger.Types.{
  Uuid, Direction, opposite, is_valid_direction, JournalEntry, Transaction,
}
use ledger_core.Ledger.Request.{mirror}
use ledger_core.Ledger.Journal.{
  signed_for, journal_balance, leg_balance, leg_sign, AreInt64Legs, AreInt64, AreDirected,
}
use ledger_core.Ledger.Repository.{
  insert_by_seq, entries_of, scan_entries, load_transaction_for_update,
}
use ledger_core.Postgres.{Db}

-- The sum over one transaction's entries of one account.
unfoldable pub transaction_balance : Uuid → Uuid → Direction → List JournalEntry → ℤ
transaction_balance tx id normal [] = pos 0
transaction_balance tx id normal (e ∷ es) =
    let rest = transaction_balance tx id normal es in
    if e.transaction_id == tx
    then (if e.account_id == id then signed_for normal e +ℤ rest else rest)
    else rest

abbrev share : Uuid → Direction → JournalEntry → ℤ
share id normal e = if e.account_id == id then signed_for normal e else pos 0

journal_balance-cons :
    (id : Uuid) (normal : Direction) (e : JournalEntry) (es : List JournalEntry)
    → journal_balance id normal (e ∷ es) ≡ share id normal e +ℤ journal_balance id normal es
unfolding journal_balance
journal_balance-cons id normal e es = grind int_laws

journal_balance-insert_by_seq :
    (id : Uuid) (normal : Direction) (e : JournalEntry) (es : List JournalEntry)
    → journal_balance id normal (insert_by_seq e es) ≡ journal_balance id normal (e ∷ es)
unfolding insert_by_seq
journal_balance-insert_by_seq id normal e [] = refl
journal_balance-insert_by_seq id normal e (x ∷ xs) =
    elim (Bool-cases (ltb x.entry_seq e.entry_seq)) [
      | inl h ↦ rw h (
          let a = share id normal e in
          let b = share id normal x in
          let rest = journal_balance id normal xs in
          let swap : b +ℤ (a +ℤ rest) ≡ a +ℤ (b +ℤ rest) = omega int_laws in
          journal_balance-cons id normal x (insert_by_seq e xs)
          ∙ ap (λ r. b +ℤ r)
              (journal_balance-insert_by_seq id normal e xs ∙ journal_balance-cons id normal e xs)
          ∙ swap
          ∙ ap (λ r. a +ℤ r) (sym (journal_balance-cons id normal x xs))
          ∙ sym (journal_balance-cons id normal e (x ∷ xs)))
      | inr h ↦ rw h refl
    ]

pub journal_balance-entries_of :
    (tx id : Uuid) (normal : Direction) (es : List JournalEntry)
    → journal_balance id normal (entries_of tx es) ≡ transaction_balance tx id normal es
unfolding entries_of transaction_balance journal_balance
journal_balance-entries_of tx id normal [] = refl
journal_balance-entries_of tx id normal (e ∷ es) = elim (Bool-cases (e.transaction_id == tx)) [
  | inl q ↦ rw q (
      journal_balance-insert_by_seq id normal e (entries_of tx es)
      ∙ ap (λ r. if e.account_id == id then signed_for normal e +ℤ r else r)
          (journal_balance-entries_of tx id normal es))
  | inr q ↦ rw q (journal_balance-entries_of tx id normal es)
]

insert_by_seq-All {κ} :
    (P : JournalEntry → Type κ) (e : JournalEntry) (es : List JournalEntry)
    → P e
    → All P es
    → All P (insert_by_seq e es)
unfolding insert_by_seq
insert_by_seq-All P e [] h k = (h, tt)
insert_by_seq-All P e (x ∷ xs) h k = elim (Bool-cases (ltb x.entry_seq e.entry_seq)) [
  | inl q ↦ rw q (k.0, insert_by_seq-All P e xs h k.1)
  | inr q ↦ rw q (h, k)
]

pub entries_of-All {κ} :
    (P : JournalEntry → Type κ) (tx : Uuid) (es : List JournalEntry)
    → All P es
    → All P (entries_of tx es)
unfolding entries_of
entries_of-All P tx [] h = tt
entries_of-All P tx (e ∷ es) h = elim (Bool-cases (e.transaction_id == tx)) [
  | inl q ↦ rw q (insert_by_seq-All P e (entries_of tx es) h.0 (entries_of-All P tx es h.1))
  | inr q ↦ rw q (entries_of-All P tx es h.1)
]

scan_entries-same :
    (es : List JournalEntry) {es' : List JournalEntry} → scan_entries es ≡ ok es' → es' ≡ es
unfolding scan_entries new_money
scan_entries-same [] h = ground arith
scan_entries-same (e ∷ es) h = elim (Result-cases (scan_entries es)) [
  | inl (x, q) ↦ absurd (ground arith)
  | inr (rest, q) ↦ ground (arith, scan_entries-same es q)
]

-- A loaded transaction has the header that is stored and the entries of its id.
pub load_transaction_lem :
    (tx : Uuid) (db : Db) {t : Transaction} {d : Db}
    → load_transaction_for_update tx db ≡ ok (t, d)
    → (header : Transaction) × (db.transactions tx ≡ some header)
      × (t ≡ record header { principal_id = ""; entries = entries_of tx db.journal })
unfolding load_transaction_for_update
load_transaction_lem tx db h = elim (Option-cases (db.transactions tx)) [
  | inl e ↦ absurd (ground arith)
  | inr (x, e) ↦ elim (Result-cases (scan_entries (entries_of tx db.journal))) [
    | inl (y, q) ↦ absurd (ground arith)
    | inr (es, q) ↦ (x, e, ground (arith, scan_entries-same (entries_of tx db.journal) q))
  ]
]

pub mirror-AreInt64Legs : (es : List JournalEntry) → AreInt64 es → AreInt64Legs (map mirror es)
mirror-AreInt64Legs [] h = tt
mirror-AreInt64Legs (e ∷ es) h = (h.0, mirror-AreInt64Legs es h.1)

neg_neg : (a : ℤ) → a ≡ neg_ℤ (neg_ℤ a)
neg_neg a = omega int_laws

neg_+ℤ : (a b : ℤ) → neg_ℤ a +ℤ neg_ℤ b ≡ neg_ℤ (a +ℤ b)
neg_+ℤ a b = omega int_laws

-- Turned round, every leg counts the other way.
mirror-leg_sign :
    (normal : Direction) (e : JournalEntry)
    → is_valid_direction normal ≡ true
    → is_valid_direction e.direction ≡ true
    → leg_sign normal (mirror e) ≡ neg_ℤ (signed_for normal e)
unfolding is_valid_direction opposite
mirror-leg_sign normal e h k = ground (arith, neg_neg e.amount.amount_minor)

pub leg_balance-mirror :
    (id : Uuid) (normal : Direction) (es : List JournalEntry)
    → is_valid_direction normal ≡ true
    → AreDirected es
    → leg_balance id normal (map mirror es) ≡ neg_ℤ (journal_balance id normal es)
unfolding leg_balance journal_balance
leg_balance-mirror id normal [] h k = unfold neg_ℤ in refl
leg_balance-mirror id normal (e ∷ es) h k =
    let sign = mirror-leg_sign normal e h k.0 in
    let rest = leg_balance-mirror id normal es h k.1 in
    elim (Bool-cases (e.account_id == id)) [
      | inl q ↦ rw q (
          ap (λ x. x +ℤ leg_balance id normal (map mirror es)) sign
          ∙ ap (λ x. neg_ℤ (signed_for normal e) +ℤ x) rest
          ∙ neg_+ℤ (signed_for normal e) (journal_balance id normal es))
      | inr q ↦ rw q rest
    ]

-- Rows of another transaction are not read.
pub entries_of-other :
    (tx owner : Uuid) (xs ys : List JournalEntry)
    → (owner == tx) ≡ false
    → All (λ e. e.transaction_id ≡ owner) ys
    → entries_of tx (xs ++ ys) ≡ entries_of tx xs
unfolding entries_of
entries_of-other tx owner [] [] other h = refl
entries_of-other tx owner [] (y ∷ ys) other h =
    grind (arith, entries_of-other tx owner [] ys other h.1, h.0)
entries_of-other tx owner (x ∷ xs) ys other h =
    ap (λ rest. if x.transaction_id == tx then insert_by_seq x rest else rest)
      (entries_of-other tx owner xs ys other h)

-- What a transaction loads as depends on its header and its entries alone.
pub load_transaction_ok :
    (tx : Uuid) (db db' : Db) (header : Transaction) {t : Transaction}
    → load_transaction_for_update tx db ≡ ok (t, db)
    → db'.transactions tx ≡ some header
    → entries_of tx db'.journal ≡ entries_of tx db.journal
    → load_transaction_for_update tx db'
      ≡ ok (record header { principal_id = ""; entries = entries_of tx db.journal }, db')
unfolding load_transaction_for_update
load_transaction_ok tx db db' header h found same = elim (Option-cases (db.transactions tx)) [
  | inl e ↦ absurd (ground arith)
  | inr (x, e) ↦ elim (Result-cases (scan_entries (entries_of tx db.journal))) [
    | inl (y, q) ↦ absurd (ground arith)
    | inr (es, q) ↦ ground (arith, scan_entries-same (entries_of tx db.journal) q)
  ]
]
