-- ===== src/Ledger/Repository/Entries.antt =====
-- What `InsertEntries` appends to the journal.
use ledger_core.Base.{inl, inr, ℕ, ◌≡◌, List, [], ◌∷◌, ◌++◌, true, map, arith}
use ledger_core.Errors.{ok, Result-cases}
use mathlib.Core.List.{append-nil, append_assoc}
use ledger_core.Ledger.Types.{JournalEntry, is_valid_direction}
use ledger_core.Ledger.Journal.{AreDirected}
use ledger_core.Ledger.Repository.{insert_entry, insert_entries, account_has_currency}
use ledger_core.Postgres.{Db}

abbrev pub at_now : ℕ → JournalEntry → JournalEntry
at_now now e = record e { created_at = now }

abbrev pub with_journal : List JournalEntry → Db → Db
with_journal es db = record db { journal = es }

insert_entry_lem :
    (e : JournalEntry) (db : Db) {stored : JournalEntry} {db' : Db}
    → insert_entry e db ≡ ok (stored, db')
    → (stored ≡ at_now db.now e)
      × (db' ≡ with_journal (db.journal ++ (at_now db.now e ∷ [])) db)
      × (account_has_currency db e ≡ true)
      × (is_valid_direction e.direction ≡ true)
unfolding insert_entry
insert_entry_lem e db h = ground arith

insert_entries_inv :
    (e : JournalEntry) (es : List JournalEntry) (db : Db) {stored : List JournalEntry} {db' : Db}
    → insert_entries (e ∷ es) db ≡ ok (stored, db')
    → (first : JournalEntry) × (rest : List JournalEntry) × (d : Db) × (insert_entry e db
        ≡ ok (first, d))
      × (insert_entries es d ≡ ok (rest, db'))
      × (stored ≡ first ∷ rest)
unfolding insert_entries
insert_entries_inv e es db h = elim (Result-cases (insert_entry e db)) [
  | inl (x, q) ↦ ground arith
  | inr ((first, d), q) ↦ elim (Result-cases (insert_entries es d)) [
    | inl (x, q') ↦ ground arith
    | inr ((rest, d'), q') ↦ (first, rest, d, q, ground arith, ground arith)
  ]
]

-- The rows are the entries, stamped with the time of the transaction and appended in order.
pub insert_entries_lem :
    (es : List JournalEntry) (db : Db) {stored : List JournalEntry} {db' : Db}
    → insert_entries es db ≡ ok (stored, db')
    → (stored ≡ map (at_now db.now) es)
      × (db' ≡ with_journal (db.journal ++ stored) db)
      × AreDirected stored
insert_entries_lem [] db h = unfold insert_entries in ground (arith, append-nil db.journal)
insert_entries_lem (e ∷ es) db h =
    let (first, rest, d, q, q', same) = insert_entries_inv e es db h in
    let (hf, hd, _, valid) = insert_entry_lem e db q in
    let (hr, hd', valids) = insert_entries_lem es d q' in
    ground (arith, append_assoc db.journal (first ∷ []) rest)
