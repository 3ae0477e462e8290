-- ===== src/Saga/Payout/Outcomes.antt =====
-- internal/saga/payout/steps.go: what becomes of a step that failed, and of an answer of the
-- gateway. Counters and log lines are left out.
use ledger_core.Base.{ℕ, ◌+◌, String, true, not, ◌||◌, Option, none, some, ltb, if◌then◌else◌}
use ledger_core.Errors.{Error, Result, ok, err, panicked}
use ledger_core.Gateway.{Payment, conclusive}
use ledger_core.Gateway
use ledger_core.Ledger.Types.{Uuid}
use ledger_core.Outbox
use ledger_core.Outbox.{Event}
use ledger_core.Postgres.{run_tx}
use ledger_core.Saga.Payout.{Config}
use ledger_core.Saga.Payout.Run.{
  Env, Run, ◌>>=◌, ◌>>◌, lift, try, truncate, storing, Allocated, finish, terminal_ledger_error,
}
use ledger_core.Saga.Pgsaga
use ledger_core.Saga.Pgsaga.{advance}
use ledger_core.Saga.Store.{record_attempt}
use ledger_core.Saga.Types.{
  Status, Step, reserve, gateway, settle, done, StepDirection, forward, compensation, StepStatus,
  Instance, Transition, Attempt,
}

pub record Escalation : Type 0 where
  pub from : Status
  pub step : Step
  pub reason : String
  pub last_err : String
  pub attempts : ℕ

abbrev pub escalation_transition : Config → Instance → Escalation → Transition
escalation_transition cfg saga e = record {
  saga_id = saga.id;
  from = e.from;
  to = Status.needs_manual_review;
  current_step = e.step;
  step_timeout = cfg.step_timeout;
  retry_count = e.attempts;
  last_error = truncate e.last_err 1000;
  release_lease = true;
}

abbrev pub alert : Instance → Escalation → ℕ → Event
alert saga e now = record {
  aggregate_type = Outbox.saga;
  aggregate_id = saga.id;
  event_type = Outbox.saga_needs_manual_review;
  event_version = 1;
  occurred_at = now;
  payload = Outbox.review_payload (record {
    saga_id = saga.id;
    saga_type = saga.saga_type;
    step = e.step;
    reason = e.reason;
    last_error = truncate e.last_err 1000;
    attempts = e.attempts;
  });
}

-- `escalate`
unfoldable pub escalate : Env → Instance → Escalation → Run (Unit {0})
escalate env saga e = storing e.last_err 1000 (λ db.
    run_tx
      (Pgsaga.escalate env.alert_event_id (escalation_transition env.config saga e)
        (alert saga e db.now))
      db)

-- The transition of the saga that every outcome below makes, handing the lease back.
abbrev pub releasing : Env → Instance → Status → Status → Step → ℕ → String → Transition
releasing env saga from to step retries last_error = record {
  saga_id = saga.id;
  from = from;
  to = to;
  current_step = step;
  step_timeout = env.config.step_timeout;
  retry_count = retries;
  last_error = last_error;
  release_lease = true;
}

abbrev pub failed_attempt : Instance → Step → StepDirection → Allocated → String → Attempt
failed_attempt saga step direction attempt error = record {
  id = attempt.attempt_id;
  saga_id = saga.id;
  step = step;
  number = attempt.number;
  direction = direction;
  status = StepStatus.step_failed;
  transaction_id = none;
  gateway_key = "";
  error = error;
}

abbrev pub failed_status : Step → Status
failed_status reserve = Status.failed
failed_status _ = Status.compensating

-- Where a terminal failure of the step goes: `step == saga.StepReserve` moved nothing.
abbrev pub giving_up : Env → Instance → Step → ℕ → String → Transition
giving_up env saga step attempts text = elim step [
  | reserve ↦ releasing env saga saga.status Status.failed done attempts text
  | _ ↦ releasing env saga saga.status Status.compensating reserve 0 text
]

-- `failForwardStep`: an attempt that cannot be recorded is only logged. It and the transition store
-- the same text.
unfoldable pub fail_forward_step : Env → Instance → Step → Allocated → Error → Run (Unit {0})
fail_forward_step env saga step attempt cause = storing (env.error_text cause) 1000 (do
  _ ← try (
      run_tx (
        record_attempt
          (failed_attempt saga step forward attempt (truncate (env.error_text cause) 1000))))
  if terminal_ledger_error cause || not (ltb (saga.retry_count + 1) env.config.max_step_attempts)
      then run_tx (
          advance
            (giving_up env saga step (saga.retry_count + 1) (truncate (env.error_text cause) 1000)))
      else run_tx (
          advance (
            releasing env saga saga.status saga.status step (saga.retry_count + 1)
              (truncate (env.error_text cause) 1000))))

-- `failCompensation`
unfoldable pub fail_compensation : Env → Instance → Allocated → Error → Run (Unit {0})
fail_compensation env saga attempt cause = storing (env.error_text cause) 1000 (do
  _ ← try (
      run_tx (
        record_attempt (
          failed_attempt saga reserve compensation attempt (truncate (env.error_text cause) 1000))))
  if not (ltb (saga.retry_count + 1) env.config.max_compensation_attempts)
      then escalate env saga (record {
        from = Status.compensating;
        step = reserve;
        reason = "compensation_exhausted";
        last_err = env.error_text cause;
        attempts = saga.retry_count + 1;
      })
      else run_tx (
          advance (
            releasing env saga Status.compensating Status.compensating reserve
              (saga.retry_count + 1) (truncate (env.error_text cause) 1000))))

abbrev detail : Env → Option Error → String
detail env none = "gateway did not respond"
detail env (some x) = env.error_text x

-- `deferAmbiguity`
unfoldable pub defer_ambiguity : Env → Instance → Option Error → Run (Unit {0})
defer_ambiguity env saga call_err =
    if not (ltb (saga.retry_count + 1) env.config.max_probes)
    then escalate env saga (record {
      from = Status.gateway_pending;
      step = gateway;
      reason = "gateway_outcome_unknown";
      last_err = detail env call_err;
      attempts = saga.retry_count + 1;
    })
    else run_tx (
        advance (
          releasing env saga Status.gateway_pending Status.gateway_pending gateway
            (saga.retry_count + 1) (detail env call_err)))

-- `settleGatewayOutcome`. An answer without an error that is no success makes `callErr.Error()`
-- panic.
unfoldable pub settle_gateway_outcome : Env → Instance → Uuid → Result Payment → Run (Unit {0})
settle_gateway_outcome env saga attempt_id answer = elim answer [
  | ok payment ↦
      if Gateway.succeeded payment
      then (finish attempt_id StepStatus.succeeded none ""
          >> run_tx (
              advance
                (releasing env saga Status.gateway_pending Status.gateway_succeeded settle 0 "")))
      else lift (err panicked)
  | err x ↦
      if conclusive (some x)
      then (finish attempt_id StepStatus.step_failed none (env.error_text x)
          >> run_tx (
              advance (
                releasing env saga Status.gateway_pending Status.gateway_failed gateway 0
                  (env.error_text x))))
      else defer_ambiguity env saga (some x)
]
