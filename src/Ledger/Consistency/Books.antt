-- ===== src/Ledger/Consistency/Books.antt =====
-- The statements that leave the journal and the available balances alone: events, the status of a
-- transaction, the stored response, the pending column.
use ledger_core.Base.{
  ℕ, ◌+◌, ◌≡◌, refl, String, List, [], ◌∷◌, Option, none, some, update, pos, ◌+ℤ◌, arith,
  Option-cases, inl, inr, ◌∙◌, sym, subst,
}
use ledger_core.Errors.{ok, Result-cases}
use ledger_core.Ledger.Types.{Uuid, Transaction, reversed}
use ledger_core.Ledger.Request.{Recorder, Idempotent}
use ledger_core.Ledger.Repository.{mark_reversed, append_event}
use ledger_core.Ledger.Posting.Deltas.{AccountMoved, AccountMoved-refl, AccountMoved-trans}
use ledger_core.Ledger.Events.{
  balance_event, posting_event, transaction_event, append_balance_updated_events,
  append_transaction_event, complete_idempotency,
}
use ledger_core.Ledger.Service.{run_recorder}
use ledger_core.Idempotency.Types.{Completion}
use ledger_core.Idempotency.Pgidem.{complete}
use ledger_core.Outbox.{Event, EventBalance, EventType}
use ledger_core.Postgres.{AccountRow, Db}

pub record SameBooks (db db' : Db) : Type 0 where
  pub accounts : (id : Uuid) → AccountMoved (pos 0) (db.accounts id) (db'.accounts id)
  pub journal : db'.journal ≡ db.journal

-- The headers of the transactions as well.
pub record Untouched (db db' : Db) : Type 0 where
  pub books : SameBooks db db'
  pub transactions : db'.transactions ≡ db.transactions

-- Work of a caller that touches none of these, whatever it is given.
abbrev pub KeepsBooks : Recorder → Type 0
KeepsBooks recorder =
    (t : Transaction) (db db' : Db) → recorder t db ≡ ok (tt, db') → Untouched db db'

pub SameBooks-refl : (db : Db) → SameBooks db db
SameBooks-refl db = record { accounts = λ id. AccountMoved-refl (db.accounts id); journal = refl }

pub SameBooks-trans : (a b c : Db) → SameBooks a b → SameBooks b c → SameBooks a c
unfolding ◌+ℤ◌
SameBooks-trans a b c h k = record {
  accounts = λ id.
      AccountMoved-trans (pos 0) (pos 0) (a.accounts id) (b.accounts id) (c.accounts id)
        (h.accounts id) (k.accounts id);
  journal = k.journal ∙ h.journal;
}

-- Equal accounts and journal are the same books.
pub SameBooks-of_eq :
    (db db' : Db) → db'.accounts ≡ db.accounts → db'.journal ≡ db.journal → SameBooks db db'
SameBooks-of_eq db db' a j = record {
  accounts = λ id.
      subst (λ (f : Uuid → Option AccountRow). AccountMoved (pos 0) (db.accounts id) (f id)) (sym a)
        (AccountMoved-refl (db.accounts id));
  journal = j;
}

pub Untouched-trans : (a b c : Db) → Untouched a b → Untouched b c → Untouched a c
Untouched-trans a b c h k = record {
  books = SameBooks-trans a b c h.books k.books;
  transactions = k.transactions ∙ h.transactions;
}

pub Untouched-of_eq :
    (db db' : Db)
    → db'.accounts ≡ db.accounts
    → db'.journal ≡ db.journal
    → db'.transactions ≡ db.transactions
    → Untouched db db'
Untouched-of_eq db db' a j t = record { books = SameBooks-of_eq db db' a j; transactions = t }

-- Marking changes one header.
pub mark_reversed_lem :
    (id : Uuid) (db db' : Db)
    → mark_reversed id db ≡ ok (tt, db')
    → (t : Transaction) × (db.transactions id ≡ some t)
      × (db'.transactions ≡ update db.transactions id (some (record t { status = reversed })))
      × SameBooks db db'
unfolding mark_reversed
mark_reversed_lem id db db' h = elim (Option-cases (db.transactions id)) [
  | inl e ↦ absurd (ground arith)
  | inr (t, e) ↦ (t, e, ground arith, SameBooks-of_eq db db' (ground arith) (ground arith))
]

pub append_event-Untouched :
    (drawn : Option Uuid) (e : Event) (db db' : Db)
    → append_event drawn e db ≡ ok (tt, db')
    → Untouched db db'
unfolding append_event
append_event-Untouched drawn e db db' h =
    Untouched-of_eq db db' (ground arith) (ground arith) (ground arith)

append_balance_updated_events-Untouched :
    (event_id : ℕ → Option Uuid) (i : ℕ) (t : Transaction) (bs : List EventBalance) (db db' : Db)
    → append_balance_updated_events event_id i t bs db ≡ ok (tt, db')
    → Untouched db db'
unfolding append_balance_updated_events
append_balance_updated_events-Untouched event_id i t [] db db' h =
    Untouched-of_eq db db' (ground arith) (ground arith) (ground arith)
append_balance_updated_events-Untouched event_id i t (b ∷ bs) db db' h =
    elim (Result-cases (append_event (event_id i) (balance_event t b) db)) [
      | inl (x, e) ↦ absurd (ground arith)
      | inr ((_, d), e) ↦
          Untouched-trans db d db' (append_event-Untouched (event_id i) (balance_event t b) db d e)
            (append_balance_updated_events-Untouched event_id (i + 1) t bs d db' (ground arith))
    ]

pub append_transaction_event-Untouched :
    (event_id : ℕ → Option Uuid) (event_type : EventType) (t : Transaction) (bs : List EventBalance)
    (reverses : Option Uuid) (reason : String) (db db' : Db)
    → append_transaction_event event_id event_type t bs reverses reason db ≡ ok (tt, db')
    → Untouched db db'
unfolding append_transaction_event
append_transaction_event-Untouched event_id event_type t bs reverses reason db db' h =
    let e = posting_event event_type t (transaction_event t bs reverses reason) in
    elim (Result-cases (append_event (event_id 0) e db)) [
      | inl (x, q) ↦ absurd (ground arith)
      | inr ((_, d), q) ↦
          Untouched-trans db d db' (append_event-Untouched (event_id 0) e db d q)
            (append_balance_updated_events-Untouched event_id 1 t bs d db' (ground arith))
    ]

complete-Untouched :
    (c : Completion) (db db' : Db) → complete c db ≡ ok (tt, db') → Untouched db db'
unfolding complete
complete-Untouched c db db' h = Untouched-of_eq db db' (ground arith) (ground arith) (ground arith)

pub complete_idempotency-Untouched :
    (idem : Option Idempotent) (t : Transaction) (db db' : Db)
    → complete_idempotency idem t db ≡ ok (tt, db')
    → Untouched db db'
unfolding complete_idempotency complete
complete_idempotency-Untouched none t db db' h =
    Untouched-of_eq db db' (ground arith) (ground arith) (ground arith)
complete_idempotency-Untouched (some idem) t db db' h =
    Untouched-of_eq db db' (ground arith) (ground arith) (ground arith)

pub run_recorder-Untouched :
    (recorder : Option Recorder) (t : Transaction) (db db' : Db)
    → ((r : Recorder) → recorder ≡ some r → KeepsBooks r)
    → run_recorder recorder t db ≡ ok (tt, db')
    → Untouched db db'
run_recorder-Untouched none t db db' k h =
    Untouched-of_eq db db' (ground arith) (ground arith) (ground arith)
run_recorder-Untouched (some r) t db db' k h = k r refl t db db' h
