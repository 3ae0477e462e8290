-- ===== src/Saga/Recorded.antt =====
-- Where the recorder of a posting or a reversal runs: after everything else, on tables whose sagas
-- are still those of the beginning.
use ledger_core.Base.{
  ◌≡◌, refl, Option, none, some, arith, Option-cases, inl, inr, ◌∙◌, sym, ap, subst, String,
}
use ledger_core.Errors.{ok}
use ledger_core.Ledger.Consistency.{IsConsistent}
use ledger_core.Ledger.Events.{complete_idempotency}
use ledger_core.Ledger.Journal.{AreInt64Legs}
use ledger_core.Ledger.Posting.{Draws}
use ledger_core.Ledger.Repository.{mark_reversed}
use ledger_core.Ledger.Request.{Recorder, Idempotent, TransactionRequest}
use ledger_core.Ledger.Service.{post_transaction, reverse, run_recorder}
use ledger_core.Ledger.Service.Posts.{post_transaction-Posted, Posted-Written}
use ledger_core.Ledger.Service.Reverses.{reverse-Reversed, Reversed-Written}
use ledger_core.Ledger.Service.Steps.{Finished}
use ledger_core.Ledger.Types.{Uuid, Transaction}
use ledger_core.Outbox.{EventType}
use ledger_core.Postgres.{Db}
use ledger_core.Saga.Recording.{append_transaction_event-sagas}

-- The recorder's run.
pub record Recorded (recorder : Recorder) (t : Transaction) (db db' : Db) : Type 0 where
  pub before : Db
  pub sagas : before.saga_instances ≡ db.saga_instances
  pub ran : recorder t before ≡ ok (tt, db')

mark_reversed-sagas :
    (id : Uuid) (db db' : Db)
    → mark_reversed id db ≡ ok (tt, db')
    → db'.saga_instances ≡ db.saga_instances
unfolding mark_reversed
mark_reversed-sagas id db db' h = elim (Option-cases (db.transactions id)) [
  | inl e ↦ absurd (ground arith)
  | inr (t, e) ↦ ground arith
]

Finished-Recorded :
    {draws : Draws} {event_type : EventType} {reverses : Option Uuid} {reason : String}
    {recorder : Option Recorder} {idem : Option Idempotent} {t : Transaction} {balances : _}
    (r : Recorder) (db db' : Db)
    → recorder ≡ some r
    → idem ≡ none
    → Finished draws event_type reverses reason recorder idem t balances db db'
    → Recorded r t db db'
unfolding complete_idempotency
Finished-Recorded {draws} {event_type} {reverses} {reason} {recorder} {idem} {t} {balances} r db db'
      given keyless f =
    record {
      before = f.announced;
      sagas =
          append_transaction_event-sagas draws.event_id event_type t balances reverses reason db
            f.announced f.event;
      ran =
          ap (λ (o : Option Recorder). run_recorder o t f.announced) (sym given)
          ∙ f.recording
          ∙ subst (λ (o : Option Idempotent). complete_idempotency o t f.recorded ≡ ok (tt, db'))
              keyless f.completion;
    }

pub post_transaction-Recorded :
    (draws : Draws) (req : TransactionRequest) (db : Db) (r : Recorder) {t : Transaction} {db' : Db}
    → AreInt64Legs req.entries
    → req.recorder ≡ some r
    → req.idempotency ≡ none
    → post_transaction draws req db ≡ (ok t, db')
    → Recorded r t db db'
post_transaction-Recorded draws req db r {t} {db'} typed given keyless h =
    let p = post_transaction-Posted draws req db h in
    let w = Posted-Written draws req db typed p in
    let recorded = Finished-Recorded r p.steps.written db' given keyless p.steps.finished in
    record {
      before = recorded.before;
      sagas = recorded.sagas ∙ ap (λ (d : Db). d.saga_instances) w.rest;
      ran = recorded.ran;
    }

pub reverse-Recorded :
    (show : Uuid → String) (draws : Draws) (original : Uuid) (reason : String) (r : Recorder)
    (db : Db) {t : Transaction} {db' : Db}
    → IsConsistent db
    → reverse show draws original reason none (some r) db ≡ (ok t, db')
    → Recorded r t db db'
reverse-Recorded show draws original reason r db {t} {db'} c h =
    let p = reverse-Reversed show draws original reason none (some r) db h in
    let w = Reversed-Written show draws original reason none (some r) db c p in
    let marked = mark_reversed-sagas original p.steps.written p.steps.marked p.steps.marking in
    let recorded = Finished-Recorded r p.steps.marked db' refl refl p.steps.finished in
    record {
      before = recorded.before;
      sagas = recorded.sagas ∙ marked ∙ ap (λ (d : Db). d.saga_instances) w.rest;
      ran = recorded.ran;
    }
