-- ===== src/Saga/Pgsaga.antt =====
-- internal/saga/pgsaga/tx.go, and BeginStep and Escalate of internal/saga/pgsaga/store.go: the
-- guarded transition of a saga, and the attempts recorded with it, under the constraints of
-- migrations/000015_saga.up.sql.
use ledger_core.Base.{
  ℕ, ◌+◌, [], ◌∷◌, ◌++◌, Bool, true, false, not, ◌&&◌, Option, none, some, ◌==◌, ltb, if◌then◌else◌,
  all, update,
}
use ledger_core.Errors.{require, or_error, stale_transition, database_failed}
use ledger_core.Ledger.Types.{Uuid}
use ledger_core.Ledger.Repository.{transaction_exists, append_event}
use ledger_core.Outbox.{Event}
use ledger_core.Saga.Types.{
  Status, Step, reserve, gateway, settle, done, StepDirection, forward, compensation, StepStatus,
  attempted, Instance, Transition, Attempt, StepCommit,
}
use ledger_core.Postgres.{Db, Tx, ◌>>=◌, ◌>>◌, lift, gets, modify}

abbrev pub status_code : Status → ℕ
status_code Status.pending = 0
status_code Status.reserved = 1
status_code Status.gateway_pending = 2
status_code Status.gateway_succeeded = 3
status_code Status.gateway_failed = 4
status_code Status.compensating = 5
status_code Status.completed = 6
status_code Status.compensated = 7
status_code Status.failed = 8
status_code Status.needs_manual_review = 9

abbrev pub status_eq : Status → Status → Bool
status_eq a b = status_code a == status_code b

abbrev pub step_code : Step → ℕ
step_code reserve = 0
step_code gateway = 1
step_code settle = 2
step_code done = 3

abbrev pub direction_code : StepDirection → ℕ
direction_code forward = 0
direction_code compensation = 1

abbrev pub is_attempted : StepStatus → Bool
is_attempted attempted = true
is_attempted _ = false

-- The row after the UPDATE of `advance`; `NULLIF` of last_error is the empty text here.
abbrev pub advanced : ℕ → Transition → Instance → Instance
advanced now t i = record i {
  status = t.to;
  current_step = t.current_step;
  step_deadline_at = now + t.step_timeout;
  retry_count = t.retry_count;
  last_error = t.last_error;
  lease_owner = if t.release_lease then none else i.lease_owner;
  lease_expires_at = if t.release_lease then none else i.lease_expires_at;
}

-- `advance`: `WHERE id = $1 AND status = $2`
unfoldable pub advance : Transition → Tx (Unit {0})
advance t = do
  saga ← (λ db. lift (or_error (db.saga_instances t.saga_id) stale_transition) db)
  lift (require (status_eq saga.status t.from) stale_transition)
  modify (λ db. record db {
    saga_instances = update db.saga_instances t.saga_id (some (advanced db.now t saga));
  })

abbrev saga_exists : Db → Uuid → Bool
saga_exists db id = elim (db.saga_instances id) [ none ↦ false | some _ ↦ true ]

abbrev names_transaction : Db → Option Uuid → Bool
names_transaction db id = elim id [ none ↦ true | some x ↦ transaction_exists db x ]

-- saga_steps_attempt_key, and the primary key.
abbrev attempt_is_new : Db → Attempt → Bool
attempt_is_new db a =
    all
      (λ r.
        not (r.id == a.id)
        && not (
            (r.saga_id == a.saga_id)
            && (step_code r.step == step_code a.step)
            && (direction_code r.direction == direction_code a.direction)
            && (r.number == a.number)))
      db.saga_steps

-- `INSERT INTO saga_steps`, with or without a time of its end.
unfoldable pub insert_attempt : Bool → Attempt → Tx (Unit {0})
insert_attempt finished a = do
  lift (require (not (step_code a.step == 3) && not (ltb a.number 1)) database_failed)
  lift (
      require (if finished then not (is_attempted a.status) else is_attempted a.status)
        database_failed)
  lift (require (← gets (λ db. saga_exists db a.saga_id)) database_failed)
  lift (require (← gets (λ db. names_transaction db a.transaction_id)) database_failed)
  lift (require (← gets (λ db. attempt_is_new db a)) database_failed)
  modify (λ db. record db { saga_steps = db.saga_steps ++ (a ∷ []) })

-- `CommitStep`
unfoldable pub commit_step : StepCommit → Tx (Unit {0})
commit_step c = do insert_attempt true c.attempt; advance c.transition

-- `BeginStep`, inside its transaction.
unfoldable pub begin_step : Attempt → Transition → Tx (Unit {0})
begin_step a t = do
  insert_attempt false (record a { status = attempted; transaction_id = none; error = "" })
  advance t

-- `Escalate`, inside its transaction; the event takes the id that is drawn.
unfoldable pub escalate : Option Uuid → Transition → Event → Tx (Unit {0})
escalate drawn t alert = do advance t; append_event drawn alert
