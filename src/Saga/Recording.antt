-- ===== src/Saga/Recording.antt =====
-- A saga's step inside the posting that does its work: both commit, or neither.
use ledger_core.Base.{
  ℕ, ◌+◌, Bool, ◌≡◌, String, List, [], ◌∷◌, Option, none, some, true, false, arith, Option-cases,
  inl, inr, ◌∙◌, sym, ap, subst,
}
use ledger_core.Errors.{Error, ok, err, Result-cases}
use ledger_core.Ledger.Types.{Uuid, Transaction}
use ledger_core.Ledger.Request.{Recorder, TransactionRequest}
use ledger_core.Ledger.Journal.{AreInt64Legs}
use ledger_core.Ledger.Posting.{Draws}
use ledger_core.Ledger.Repository.{append_event}
use ledger_core.Ledger.Events.{
  append_balance_updated_events, append_transaction_event, balance_event, posting_event,
  transaction_event,
}
use ledger_core.Ledger.Consistency.Books.{Untouched, Untouched-of_eq, KeepsBooks}
use ledger_core.Ledger.Service.{post_transaction, run_recorder}
use ledger_core.Ledger.Service.Posts.{post_transaction-err, post_transaction-Posted, Posted-Written}
use ledger_core.Outbox.{EventBalance, EventType}
use ledger_core.Saga.Types.{Instance, StepCommit, Attempt, Transition}
use ledger_core.Saga.Pgsaga.{status_eq, advance, insert_attempt, commit_step}
use ledger_core.Postgres.{Db}

pub advance_lem :
    (t : Transition) (db db' : Db)
    → advance t db ≡ ok (tt, db')
    → (saga : Instance) × (db.saga_instances t.saga_id ≡ some saga)
      × (status_eq saga.status t.from ≡ true)
      × (db' ≡ record db { saga_instances = db'.saga_instances })
unfolding advance
advance_lem t db db' h = elim (Option-cases (db.saga_instances t.saga_id)) [
  | inl e ↦ absurd (ground arith)
  | inr (saga, e) ↦ (saga, e, ground arith, ground arith)
]

pub insert_attempt_lem :
    (b : Bool) (a : Attempt) (db db' : Db)
    → insert_attempt b a db ≡ ok (tt, db')
    → db' ≡ record db { saga_steps = db'.saga_steps }
unfolding insert_attempt
insert_attempt_lem b a db db' h = ground arith

-- What `CommitStep` needs and what it leaves alone.
pub commit_step_lem :
    (c : StepCommit) (db db' : Db)
    → commit_step c db ≡ ok (tt, db')
    → ((saga : Instance) × (db.saga_instances c.transition.saga_id ≡ some saga)
        × (status_eq saga.status c.transition.from ≡ true))
      × Untouched db db'
unfolding commit_step
commit_step_lem c db db' h = elim (Result-cases (insert_attempt true c.attempt db)) [
  | inl (x, e) ↦ absurd (ground arith)
  | inr ((_, d), e) ↦
      let kept = insert_attempt_lem true c.attempt db d e in
      let (saga, found, guarded, rest) = advance_lem c.transition d db' (ground arith) in
      (
        (saga, ap (λ (x : Db). x.saga_instances c.transition.saga_id) (sym kept) ∙ found, guarded),
        Untouched-of_eq db db' (ground arith) (ground arith) (ground arith),
      )
]

-- CommitStep is a recorder that the theorems on posting and reversing allow: whatever step it
-- records, it leaves accounts, journal and transactions alone.
pub commit_step-KeepsBooks : (c : Transaction → StepCommit) → KeepsBooks (λ t. commit_step (c t))
commit_step-KeepsBooks c t db db' h = (commit_step_lem (c t) db db' h).1

append_balance_updated_events-sagas :
    (event_id : ℕ → Option Uuid) (i : ℕ) (t : Transaction) (bs : List EventBalance) (db db' : Db)
    → append_balance_updated_events event_id i t bs db ≡ ok (tt, db')
    → db'.saga_instances ≡ db.saga_instances
unfolding append_balance_updated_events append_event
append_balance_updated_events-sagas event_id i t [] db db' h = ground arith
append_balance_updated_events-sagas event_id i t (b ∷ bs) db db' h =
    elim (Result-cases (append_event (event_id i) (balance_event t b) db)) [
      | inl (x, e) ↦ absurd (ground arith)
      | inr ((_, d), e) ↦
          append_balance_updated_events-sagas event_id (i + 1) t bs d db' (ground arith)
          ∙ ground arith
    ]

pub append_transaction_event-sagas :
    (event_id : ℕ → Option Uuid) (event_type : EventType) (t : Transaction) (bs : List EventBalance)
    (reverses : Option Uuid) (reason : String) (db db' : Db)
    → append_transaction_event event_id event_type t bs reverses reason db ≡ ok (tt, db')
    → db'.saga_instances ≡ db.saga_instances
unfolding append_transaction_event append_event
append_transaction_event-sagas event_id event_type t bs reverses reason db db' h =
    let e = posting_event event_type t (transaction_event t bs reverses reason) in
    elim (Result-cases (append_event (event_id 0) e db)) [
      | inl (x, q) ↦ absurd (ground arith)
      | inr ((_, d), q) ↦
          append_balance_updated_events-sagas event_id 1 t bs d db' (ground arith) ∙ ground arith
    ]

-- The saga was where its step expected it when the posting began.
step_guarded :
    (draws : Draws) (req : TransactionRequest) (db : Db) (c : Transaction → StepCommit)
    {t : Transaction} {db' : Db}
    → AreInt64Legs req.entries
    → req.recorder ≡ some (λ x. commit_step (c x))
    → post_transaction draws req db ≡ (ok t, db')
    → (saga : Instance) × (db.saga_instances (c t).transition.saga_id ≡ some saga)
      × (status_eq saga.status (c t).transition.from ≡ true)
step_guarded draws req db c {t} {db'} typed recorder h =
    let p = post_transaction-Posted draws req db h in
    let f = p.steps.finished in
    let w = Posted-Written draws req db typed p in
    let announced =
      append_transaction_event-sagas draws.event_id _ t p.steps.balances none "" p.steps.written
        f.announced f.event in
    let recording =
      subst (λ (r : Option Recorder). run_recorder r t f.announced ≡ ok (tt, f.recorded)) recorder
        f.recording in
    let ((saga, found, guarded), _) = commit_step_lem (c t) f.announced f.recorded recording in
    (
      saga,
      ap (λ (g : Uuid → Option Instance). g (c t).transition.saga_id)
            (sym (announced ∙ ap (λ (d : Db). d.saga_instances) w.rest))
          ∙ found,
      guarded,
    )

-- A posting that records a saga step whose transition does not start at the saga's status reports
-- an error and moves no money: the database is as it was. The request has int64 amounts, and its
-- recorder is CommitStep of some step.
pub stale_step_posts_nothing :
    (draws : Draws) (req : TransactionRequest) (db : Db) (c : Transaction → StepCommit)
    → AreInt64Legs req.entries
    → req.recorder ≡ some (λ x. commit_step (c x))
    → ((t : Transaction) (saga : Instance)
        → db.saga_instances (c t).transition.saga_id ≡ some saga
        → status_eq saga.status (c t).transition.from ≡ false)
    → (x : Error) × (post_transaction draws req db ≡ (err x, db))
stale_step_posts_nothing draws req db c typed recorder moved_on =
    elim (Result-cases (post_transaction draws req db).0) [
      | inl (x, e) ↦ (
        x,
        ap (λ r. (r, (post_transaction draws req db).1)) e
            ∙ ap (λ d. (err x, d)) (post_transaction-err draws req db x e),
      )
      | inr (t, e) ↦
          let (saga, found, guarded) =
            step_guarded draws req db c typed recorder
              (ap (λ r. (r, (post_transaction draws req db).1)) e) in
          absurd (ground (arith, moved_on t saga found))
    ]
