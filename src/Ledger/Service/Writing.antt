-- ===== src/Ledger/Service/Writing.antt =====
-- `write_transaction`: what posting and reversing write before their events.
use ledger_core.Base.{
  ℕ, ◌+◌, ◌≡◌, refl, List, [], ◌∷◌, ◌++◌, true, false, Option, none, some, map, update, All, ℤ,
  arith, ◌∙◌, ap, sym, subst, inl, inr, Bool-cases, Option-cases,
}
use ledger_core.Errors.{ok, Result-cases}
use ledger_core.Ledger.Types.{Uuid, is_postable, Direction, debit, JournalEntry, Transaction}
use ledger_core.Ledger.Request.{EntryRequest}
use ledger_core.Ledger.Routing.{mem_id, sorted_account_ids}
use ledger_core.Ledger.Routing.Order.{
  account_ids, sorted_account_ids_lem, sorted_account_ids-NoRepeat,
}
use ledger_core.Ledger.Journal.{
  leg, leg_balance, leg_balance-absent, journal_balance-leg, AreInt64Legs, AreInt64-of_legs,
  AreDirected,
}
use ledger_core.Ledger.Repository.{insert_transaction, insert_entries, locked_account, stamped}
use ledger_core.Ledger.Repository.Entries.{at_now, insert_entries_lem}
use ledger_core.Ledger.Aggregate.{Accounts, account_at, aggregate_entries, Aggregate, no_deltas}
use ledger_core.Ledger.Aggregate.Totals.{no_deltas-exact}
use ledger_core.Ledger.Posting.{
  Draws, lock_and_validate, build_entries, build_entries_from, apply_entries, apply_deltas,
}
use ledger_core.Ledger.Posting.Deltas.{AccountMoved, within, apply_deltas-AllMoved}
use ledger_core.Ledger.Posting.Locking.{lock_and_validate_lem}
use ledger_core.Ledger.Service.{write_transaction}
use ledger_core.Outbox.{EventBalance}
use ledger_core.Postgres.{AccountRow, Db}

insert_transaction_lem :
    (t : Transaction) (db : Db) {stored : Transaction} {db' : Db}
    → insert_transaction t db ≡ ok (stored, db')
    → (db.transactions t.id ≡ none)
      × (stored ≡ stamped db.now t)
      × (db'.transactions ≡ update db.transactions t.id (some stored))
      × (db'
          ≡ record db { transactions = db'.transactions; transaction_keys = db'.transaction_keys })
unfolding insert_transaction
insert_transaction_lem t db h = elim (Option-cases (db.transactions t.id)) [
  | inl e ↦ ground arith
  | inr (old, e) ↦ ground arith
]

build_entries_from_lem :
    (tx_id : Uuid) (entry_id : ℕ → Option Uuid) (i : ℕ) (rs : List EntryRequest)
    {es : List JournalEntry}
    → build_entries_from tx_id entry_id i rs ≡ ok es
    → (map leg es ≡ rs) × All (λ e. e.transaction_id ≡ tx_id) es
unfolding build_entries_from
build_entries_from_lem tx_id entry_id i [] h = ground arith
build_entries_from_lem tx_id entry_id i (r ∷ rs) h = elim (Option-cases (entry_id i)) [
  | inl e ↦ ground arith
  | inr (id, e) ↦ elim (Result-cases (build_entries_from tx_id entry_id (i + 1) rs)) [
    | inl (x, q) ↦ ground arith
    | inr (rest, q) ↦ ground (arith, build_entries_from_lem tx_id entry_id (i + 1) rs q)
  ]
]

build_entries_lem :
    (tx_id : Uuid) (entry_id : ℕ → Option Uuid) (rs : List EntryRequest) {es : List JournalEntry}
    → build_entries tx_id entry_id rs ≡ ok es
    → (map leg es ≡ rs) × All (λ e. e.transaction_id ≡ tx_id) es
unfolding build_entries
build_entries_lem tx_id entry_id rs h = build_entries_from_lem tx_id entry_id 0 rs h

map-leg-at_now : (now : ℕ) (es : List JournalEntry) → map leg (map (at_now now) es) ≡ map leg es
map-leg-at_now now [] = refl
map-leg-at_now now (e ∷ es) = ap (λ rest. leg e ∷ rest) (map-leg-at_now now es)

All-at_now :
    (id : Uuid) (now : ℕ) (es : List JournalEntry)
    → All (λ e. e.transaction_id ≡ id) es
    → All (λ e. e.transaction_id ≡ id) (map (at_now now) es)
All-at_now id now [] h = tt
All-at_now id now (e ∷ es) h = (h.0, All-at_now id now es h.1)

-- The steps of a transaction that was written.
record Steps (draws : Draws) (header : Transaction) (requests : List EntryRequest) (db : Db)
    (written : Transaction × List EventBalance) (db' : Db) : Type 0 where
  accounts : Accounts
  d1 : Db
  locked : lock_and_validate (sorted_account_ids requests) requests db ≡ ok (accounts, d1)
  stored : Transaction
  d2 : Db
  inserted : insert_transaction header d1 ≡ ok (stored, d2)
  built : List JournalEntry
  numbered : build_entries header.id draws.entry_id requests ≡ ok built
  entries : List JournalEntry
  d3 : Db
  appended : insert_entries built d2 ≡ ok (entries, d3)
  balances : List EventBalance
  applied : apply_entries entries accounts (sorted_account_ids requests) d3 ≡ ok (balances, db')
  result : written ≡ (record stored { entries = entries }, balances)

write_transaction-Steps :
    (draws : Draws) (header : Transaction) (requests : List EntryRequest) (db : Db)
    {written : Transaction × List EventBalance} {db' : Db}
    → write_transaction draws header requests db ≡ ok (written, db')
    → Steps draws header requests db written db'
unfolding write_transaction
write_transaction-Steps draws header requests db {written} {db'} h =
    elim (Result-cases (lock_and_validate (sorted_account_ids requests) requests db)) [
      | inl (x, e) ↦ absurd (ground arith)
      | inr ((accounts, d1), e1) ↦ elim (Result-cases (insert_transaction header d1)) [
        | inl (x, e) ↦ absurd (ground arith)
        | inr ((stored, d2), e2) ↦
            elim (Result-cases (build_entries header.id draws.entry_id requests)) [
              | inl (x, e) ↦ absurd (ground arith)
              | inr (built, e3) ↦ elim (Result-cases (insert_entries built d2)) [
                | inl (x, e) ↦ absurd (ground arith)
                | inr ((entries, d3), e4) ↦
                    elim (Result-cases
                      (apply_entries entries accounts (sorted_account_ids requests) d3)) [
                        | inl (x, e) ↦ absurd (ground arith)
                        | inr ((balances, d4), e5) ↦ record {
                          accounts = accounts;
                          d1 = d1;
                          locked = e1;
                          stored = stored;
                          d2 = d2;
                          inserted = e2;
                          built = built;
                          numbered = e3;
                          entries = entries;
                          d3 = d3;
                          appended = e4;
                          balances = balances;
                          applied = ground arith;
                          result = ground arith;
                        }
                      ]
              ]
            ]
      ]
    ]

apply_entries_inv :
    (entries : List JournalEntry) (accounts : Accounts) (order : List Uuid) (db : Db)
    {bs : List EventBalance} {db' : Db}
    → apply_entries entries accounts order db ≡ ok (bs, db')
    → (g : Aggregate) × (aggregate_entries accounts entries no_deltas ≡ ok g)
      × (apply_deltas accounts g order db ≡ ok (bs, db'))
unfolding apply_entries
apply_entries_inv entries accounts order db h =
    elim (Result-cases (aggregate_entries accounts entries no_deltas)) [
      | inl (x, e) ↦ absurd (ground arith)
      | inr (g, e) ↦ (g, e, ground arith)
    ]

-- The normal balance of an account; of a missing one, any.
abbrev pub normal_of : Option AccountRow → Direction
normal_of none = debit
normal_of (some row) = row.normal_balance

-- The signed sum of a request's legs for each account of the database.
abbrev pub leg_delta : Db → List EntryRequest → Uuid → ℤ
leg_delta db requests id = leg_balance id (normal_of (db.accounts id)) requests

-- What a written transaction did: new entries with the requested legs under the header's id, and
-- every account moved by the signed sum of its legs.
pub record Written (header : Transaction) (requests : List EntryRequest) (db : Db) (t : Transaction)
    (db' : Db) : Type 0 where
  pub header_new : db.transactions header.id ≡ none
  pub stored : t ≡ record (stamped db.now header) { entries = t.entries }
  pub legs : map leg t.entries ≡ requests
  pub owned : All (λ e. e.transaction_id ≡ header.id) t.entries
  pub directed : AreDirected t.entries
  pub journal : db'.journal ≡ db.journal ++ t.entries
  pub moved :
      (id : Uuid) → AccountMoved (leg_delta db requests id) (db.accounts id) (db'.accounts id)
  pub active :
      (id : Uuid)
      → mem_id id (account_ids requests) ≡ true
      → (row : AccountRow) × (db.accounts id ≡ some row) × (is_postable row.status ≡ true)
  pub present : (id : Uuid) → db.accounts id ≡ none → mem_id id (account_ids requests) ≡ false
  pub transactions :
      db'.transactions ≡ update db.transactions header.id (some (stamped db.now header))
  pub rest : db' ≡ record db {
    accounts = db'.accounts;
    journal = db'.journal;
    transactions = db'.transactions;
    transaction_keys = db'.transaction_keys;
  }

-- The delta of every account is the signed sum of the legs that name it.
delta_lem :
    (requests : List EntryRequest) (entries : List JournalEntry) (db d1 : Db) (accounts : Accounts)
    (g : Aggregate) (id : Uuid)
    → AreInt64Legs requests
    → map leg entries ≡ requests
    → lock_and_validate (sorted_account_ids requests) requests db ≡ ok (accounts, d1)
    → aggregate_entries accounts entries no_deltas ≡ ok g
    → within (sorted_account_ids requests) g.deltas id ≡ leg_delta db requests id
delta_lem requests entries db d1 accounts g id typed legs locked aggregated =
    elim (Bool-cases (mem_id id (sorted_account_ids requests))) [
      | inl named ↦
          let (row, found, held, _) = (lock_and_validate_lem _ requests db locked).1 id named in
          let exact =
            no_deltas-exact accounts entries id
              (AreInt64-of_legs entries (subst AreInt64Legs (sym legs) typed)) aggregated in
          let normal : (account_at accounts id).normal_balance ≡ normal_of (db.accounts id) =
            unfold locked_account in (ap (λ a. a.normal_balance) held ∙ sym (ap normal_of found)) in
          rw named (
            exact
            ∙ journal_balance-leg id _ entries
            ∙ ap (λ n. leg_balance id n (map leg entries)) normal
            ∙ ap (leg_balance id _) legs)
      | inr absent ↦ rw absent (
          sym (
            leg_balance-absent id _ requests
              (sym ((sorted_account_ids_lem requests).1 id) ∙ absent)))
    ]

-- A missing account stops a transaction that names it.
locked_present :
    (requests : List EntryRequest) (db d1 : Db) (accounts : Accounts) (id : Uuid)
    → lock_and_validate (sorted_account_ids requests) requests db ≡ ok (accounts, d1)
    → db.accounts id ≡ none
    → mem_id id (account_ids requests) ≡ false
locked_present requests db d1 accounts id locked missing =
    elim (Bool-cases (mem_id id (sorted_account_ids requests))) [
      | inl named ↦
          let (row, found, _, _) = (lock_and_validate_lem _ requests db locked).1 id named in
          absurd (ground arith)
      | inr absent ↦ sym ((sorted_account_ids_lem requests).1 id) ∙ absent
    ]

pub write_transaction-Written :
    (draws : Draws) (header : Transaction) (requests : List EntryRequest) (db : Db)
    {written : Transaction × List EventBalance} {db' : Db}
    → AreInt64Legs requests
    → write_transaction draws header requests db ≡ ok (written, db')
    → Written header requests db written.0 db'
write_transaction-Written draws header requests db {written} {db'} typed h =
    let s = write_transaction-Steps draws header requests db h in
    let (same1, _) = lock_and_validate_lem _ requests db s.locked in
    let (fresh, stored, transactions, rest2) = insert_transaction_lem header s.d1 s.inserted in
    let (legs, owned) = build_entries_lem header.id draws.entry_id requests s.numbered in
    let (entries, rest3, directed) = insert_entries_lem s.built s.d2 s.appended in
    let (g, aggregated, looped) = apply_entries_inv s.entries s.accounts _ s.d3 s.applied in
    let all =
      apply_deltas-AllMoved s.accounts g _ s.d3 (sorted_account_ids-NoRepeat requests) looped in
    let legs' : map leg s.entries ≡ requests =
      ap (map leg) entries ∙ map-leg-at_now s.d2.now s.built ∙ legs in
    let result : written.0.entries ≡ s.entries =
      ap (λ (w : Transaction × List EventBalance). w.0.entries) s.result in
    let rows : s.d3.accounts ≡ db.accounts = ground arith in
    record {
      header_new = ap (λ (d : Db). d.transactions header.id) (sym same1) ∙ fresh;
      stored = ground arith;
      legs = ap (map leg) result ∙ legs';
      owned =
          subst (All {A = JournalEntry} (λ e. e.transaction_id ≡ header.id))
            (sym (result ∙ entries)) (All-at_now header.id s.d2.now s.built owned);
      directed = subst AreDirected (sym result) directed;
      journal = ground (arith, all.rest);
      moved = λ id.
          subst (λ x. AccountMoved x (db.accounts id) (db'.accounts id))
            (delta_lem requests s.entries db s.d1 s.accounts g id typed legs' s.locked aggregated)
            (subst
              (λ (f : Uuid → Option AccountRow).
                AccountMoved (within (sorted_account_ids requests) g.deltas id) (f id)
                  (db'.accounts id))
              rows (all.accounts id));
      active = λ id named.
          let (row, found, _, postable) =
            (lock_and_validate_lem _ requests db s.locked).1 id
              ((sorted_account_ids_lem requests).1 id ∙ named) in
          (row, found, postable);
      present = λ id missing. locked_present requests db s.d1 s.accounts id s.locked missing;
      transactions =
          ap (λ (d : Db). d.transactions)
            (all.rest ∙ ap {B = Db} (λ (d : Db). record d { accounts = db'.accounts }) rest3)
          ∙ transactions
          ∙ ap (λ x. update s.d1.transactions header.id (some x)) stored
          ∙ ap (λ (d : Db). update d.transactions header.id (some (stamped d.now header))) same1;
      rest = ground (arith, all.rest);
    }
