-- ===== src/Ledger/Service/Posts.antt =====
-- `postTransaction`: what a posting does to the tables, and what a failed one does not.
use ledger_core.Base.{
  ◌≡◌, Option, some, map, ◌++◌, true, arith, inl, inr, Option-cases, sym, subst, ap, ◌∙◌,
}
use ledger_core.Errors.{Error, ok, err, Result-cases}
use ledger_core.Ledger.Types.{Uuid, is_postable, Transaction}
use ledger_core.Ledger.Request.{Recorder, TransactionRequest, validate}
use ledger_core.Ledger.Journal.{AreInt64Legs, leg}
use ledger_core.Ledger.Routing.{mem_id}
use ledger_core.Ledger.Routing.Order.{account_ids}
use ledger_core.Ledger.Posting.{Draws}
use ledger_core.Ledger.Posting.Deltas.{AccountMoved}
use ledger_core.Ledger.Routing.Shards.{route_entries-AreInt64Legs}
use ledger_core.Ledger.Service.{posting, posting_header, post_transaction}
use ledger_core.Ledger.Service.Steps.{Finished, PostingSteps, posting-PostingSteps, routed_entries}
use ledger_core.Ledger.Service.Writing.{Written, write_transaction-Written, leg_delta}
use ledger_core.Ledger.Consistency.{IsConsistent}
use ledger_core.Ledger.Consistency.Books.{
  KeepsBooks, Untouched, Untouched-trans, append_transaction_event-Untouched,
  run_recorder-Untouched, complete_idempotency-Untouched,
}
use ledger_core.Ledger.Consistency.Step.{moved_after, step-IsConsistent}
use ledger_core.Outbox.{EventType}
use ledger_core.Postgres.{AccountRow, Db, commit_check}
use ledger_core.Postgres.Runs.{run_tx-err, run_tx-ok}

-- The caller's work inside the transaction, if any, keeps the books.
abbrev pub RecorderKeeps : Option Recorder → Type 0
RecorderKeeps recorder = (r : Recorder) → recorder ≡ some r → KeepsBooks r

pub Finished-Untouched :
    {draws : Draws} {event_type : EventType} {reverses : Option Uuid} {reason : _}
    {recorder : Option Recorder} {idem : _} {t : Transaction} {balances : _} (db db' : Db)
    → RecorderKeeps recorder
    → Finished draws event_type reverses reason recorder idem t balances db db'
    → Untouched db db'
Finished-Untouched {draws} {event_type} {reverses} {reason} {recorder} {idem} {t} {balances} db db'
      k f =
    Untouched-trans db f.announced db'
      (append_transaction_event-Untouched draws.event_id event_type t balances reverses reason db
        f.announced f.event)
      (Untouched-trans f.announced f.recorded db'
        (run_recorder-Untouched recorder t f.announced f.recorded k f.recording)
        (complete_idempotency-Untouched idem t f.recorded db' f.completion))

-- A posting that returned a transaction.
pub record Posted (draws : Draws) (req : TransactionRequest) (db : Db) (t : Transaction) (db' : Db)
    : Type 0 where
  pub valid : validate req ≡ ok tt
  pub tx_id : Uuid
  pub steps : PostingSteps draws tx_id req db t db'
  pub committed : commit_check db db' ≡ true

pub post_transaction-Posted :
    (draws : Draws) (req : TransactionRequest) (db : Db) {t : Transaction} {db' : Db}
    → post_transaction draws req db ≡ (ok t, db')
    → Posted draws req db t db'
unfolding post_transaction
post_transaction-Posted draws req db {t} {db'} h = elim (Result-cases (validate req)) [
  | inl (x, e) ↦ absurd (ground arith)
  | inr (_, e) ↦ elim (Option-cases draws.transaction_id) [
    | inl none_drawn ↦ absurd (ground arith)
    | inr (tx_id, drawn) ↦
        let (ran, committed) =
          run_tx-ok (posting draws tx_id req) db t {db' = db'} (ground arith) in
        record {
          valid = e;
          tx_id = tx_id;
          steps = posting-PostingSteps draws tx_id req db ran;
          committed = committed;
        }
  ]
]

-- A posting that reports an error has rolled back.
pub post_transaction-err :
    (draws : Draws) (req : TransactionRequest) (db : Db) (x : Error)
    → (post_transaction draws req db).0 ≡ err x
    → (post_transaction draws req db).1 ≡ db
unfolding post_transaction
post_transaction-err draws req db x h = elim (Result-cases (validate req)) [
  | inl (y, e) ↦ ground arith
  | inr (_, e) ↦ elim (Option-cases draws.transaction_id) [
    | inl none_drawn ↦ ground arith
    | inr (tx_id, drawn) ↦ ground (arith, run_tx-err (posting draws tx_id req) db x)
  ]
]

-- What a posting writes before its events.
pub Posted-Written :
    (draws : Draws) (req : TransactionRequest) (db : Db) {t : Transaction} {db' : Db}
    → AreInt64Legs req.entries
    → (p : Posted draws req db t db')
    → Written
        (posting_header p.tx_id req)
        (routed_entries draws db req.entries)
        db
        t
        p.steps.written
Posted-Written draws req db typed p =
    write_transaction-Written draws (posting_header p.tx_id req)
      (routed_entries draws db req.entries) db
      (route_entries-AreInt64Legs draws.rand_int_n _ req.entries typed) p.steps.writing

-- A posted transaction has as its entries exactly the routed legs of the request, appends exactly
-- those entries to the journal, and moves every account by the signed sum of the legs that were
-- routed to it, under the same assumptions on the amounts and the recorder.
pub post_transaction_moves :
    (draws : Draws) (req : TransactionRequest) (db : Db) {t : Transaction} {db' : Db}
    → AreInt64Legs req.entries
    → RecorderKeeps req.recorder
    → post_transaction draws req db ≡ (ok t, db')
    → (map leg t.entries ≡ routed_entries draws db req.entries)
      × (db'.journal ≡ db.journal ++ t.entries)
      × ((id : Uuid)
          → AccountMoved
              (leg_delta db (routed_entries draws db req.entries) id)
              (db.accounts id)
              (db'.accounts id))
post_transaction_moves draws req db {t} {db'} typed k h =
    let p = post_transaction-Posted draws req db h in
    let w = Posted-Written draws req db typed p in
    let s = (Finished-Untouched p.steps.written db' k p.steps.finished).books in
    (
      w.legs,
      s.journal ∙ w.journal,
      moved_after (posting_header p.tx_id req) (routed_entries draws db req.entries) db
          p.steps.written db' w s,
    )

-- Posting keeps the tables consistent, whether it returns a transaction or an error: where every
-- available balance is the signed sum of the account's journal entries, no account that may not be
-- negative is, every transaction balances in every currency and the amounts of the request are
-- int64, all this holds after post_transaction too, given that a recorder, if there is one, leaves
-- accounts, journal and transactions alone.
pub post_transaction-IsConsistent :
    (draws : Draws) (req : TransactionRequest) (db : Db)
    → AreInt64Legs req.entries
    → RecorderKeeps req.recorder
    → IsConsistent db
    → IsConsistent (post_transaction draws req db).1
post_transaction-IsConsistent draws req db typed k c =
    elim (Result-cases (post_transaction draws req db).0) [
      | inl (x, e) ↦ subst IsConsistent (sym (post_transaction-err draws req db x e)) c
      | inr (t, e) ↦
          let d = (post_transaction draws req db).1 in
          let p = post_transaction-Posted draws req db (ap (λ r. (r, d)) e) in
          step-IsConsistent (posting_header p.tx_id req) (routed_entries draws db req.entries) db
            p.steps.written d c (route_entries-AreInt64Legs draws.rand_int_n _ req.entries typed)
            (Posted-Written draws req db typed p)
            (Finished-Untouched p.steps.written d k p.steps.finished).books p.committed
    ]

-- Every account that an entry of a posted transaction names existed before the posting and was
-- ACTIVE, for a request with int64 amounts.
pub post_transaction_active :
    (draws : Draws) (req : TransactionRequest) (db : Db) {t : Transaction} {db' : Db} (id : Uuid)
    → AreInt64Legs req.entries
    → post_transaction draws req db ≡ (ok t, db')
    → mem_id id (account_ids (map leg t.entries)) ≡ true
    → (row : AccountRow) × (db.accounts id ≡ some row) × (is_postable row.status ≡ true)
post_transaction_active draws req db id typed h named =
    let w = Posted-Written draws req db typed (post_transaction-Posted draws req db h) in
    w.active id (ap (λ rs. mem_id id (account_ids rs)) (sym w.legs) ∙ named)
