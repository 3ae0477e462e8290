-- ===== src/Saga/Payout/Progress.antt =====
-- A drive that ends well moves its saga on: one transition of the machine, or two.
use ledger_core.Base.{
  ◌≡◌, refl, ℕ, ◌+◌, ◌<◌, String, Bool, false, not, ◌||◌, Option, none, some, arith, ◌∙◌, sym, ap,
  subst, ltb,
}
use mathlib.Core.Option.{some-injective}
use ledger_core.Errors.{Error, Result, ok, err}
use ledger_core.Gateway.{Payment, conclusive}
use ledger_core.Gateway
use ledger_core.Ledger.Types.{Uuid}
use ledger_core.Postgres.{Db, run_tx}
use ledger_core.Saga.Payout.{Config}
use ledger_core.Saga.Payout.Machine
use ledger_core.Saga.Payout.Machine.{
  Edge, Leads, budget, along, again, once, pays, declines, gives_up_probing, gives_up_refunding,
}
use ledger_core.Saga.Payout.Moves.{Moved, Moved-arrives, advance-Moved, escalate-Moved}
use ledger_core.Saga.Payout.Outcomes.{
  Escalation, escalate, escalation_transition, alert, failed_status, giving_up, fail_forward_step,
  fail_compensation, defer_ambiguity, settle_gateway_outcome,
}
use ledger_core.Saga.Payout.Run.{Env, Allocated, ◌>>◌, finish, terminal_ledger_error}
use ledger_core.Saga.Payout.Runs.{
  Ensures, >>=-Ensures, err-Ensures, storing-Ensures, if-Ensures, run_tx-Ensures, finish-Ensures,
  record_attempt-Ensures,
}
use ledger_core.Saga.Pgsaga.{advance, advanced}
use ledger_core.Saga.Types.{Status, Step, StepStatus, Instance, Transition}

-- The row of a saga after a drive, of the row that was driven.
pub record Arrived (cfg : Config) (saga : Instance) (db' : Db) : Type 0 where
  pub row : Instance
  pub found : db'.saga_instances saga.id ≡ some row
  pub leads : Leads cfg saga.status saga.retry_count row.status row.retry_count
  pub same_id : row.id ≡ saga.id
  pub same_type : row.saga_type ≡ saga.saga_type
  pub same_payload : row.payload ≡ saga.payload

-- The row of a saga is still the one that the drive was given.
abbrev pub Current : Instance → Db → Type 0
Current saga db = db.saga_instances saga.id ≡ some saga

module _ (cfg : Config) (saga : Instance) where
  pub Moved-Arrived :
      (t : Transition) (db db' : Db)
      → t.saga_id ≡ saga.id
      → Machine.Step cfg t.from saga.retry_count t.to t.retry_count
      → Current saga db
      → Moved t db db'
      → Arrived cfg saga db'
  Moved-Arrived t db db' named step at m =
      let same : m.row ≡ saga =
        some-injective m.row saga (sym m.found ∙ ap db.saga_instances named ∙ at) in
      record {
        row = advanced m.at t m.row;
        found = ap db'.saga_instances (sym named) ∙ Moved-arrives t db db' m;
        leads =
            subst (λ (s : Status). Leads cfg s saga.retry_count t.to t.retry_count)
              (sym m.guarded ∙ ap (λ (i : Instance). i.status) same) (once step);
        same_id = ap (λ (i : Instance). i.id) same;
        same_type = ap (λ (i : Instance). i.saga_type) same;
        same_payload = ap (λ (i : Instance). i.payload) same;
      }

  pub advance-Arrived :
      (t : Transition) (db : Db)
      → t.saga_id ≡ saga.id
      → Machine.Step cfg t.from saga.retry_count t.to t.retry_count
      → Current saga db
      → Ensures db (run_tx (advance t)) (λ _ d. Arrived cfg saga d)
  advance-Arrived t db named step at = record {
    holds = λ a d e.
        Moved-Arrived t db d named step at
          (advance-Moved t db d ((run_tx-Ensures (advance t) db).holds a d e));
  }

-- What `escalate` does, from the status where the saga is.
pub escalate-Arrived :
    (env : Env) (saga : Instance) (e : Escalation) (db : Db)
    → Edge e.from Status.needs_manual_review
    → Current saga db
    → Ensures db (escalate env saga e) (λ _ d. Arrived env.config saga d)
unfolding escalate
escalate-Arrived env saga e db edge at =
    let t = escalation_transition env.config saga e in
    storing-Ensures e.last_err 1000 _ db (record {
      holds = λ a d h. Moved-Arrived env.config saga t db d refl (along edge) at (
          escalate-Moved env.alert_event_id t (alert saga e db.now) db d
            ((run_tx-Ensures _ db).holds a d h));
    })

-- The test of a budget.
within_budget : (x : Bool) (n r : ℕ) → (x || not (ltb (r + 1) n)) ≡ false → r + 1 < n
within_budget x n r h = ground arith

giving_up-Arrived :
    (env : Env) (saga : Instance) (step : Step) (n : ℕ) (text : String) (db : Db)
    → Edge saga.status (failed_status step)
    → Current saga db
    → Ensures db
        (run_tx (advance (giving_up env saga step n text)))
        (λ _ d. Arrived env.config saga d)
giving_up-Arrived env saga Step.reserve n text db edge at =
    advance-Arrived env.config saga _ db refl (along edge) at
giving_up-Arrived env saga Step.gateway n text db edge at =
    advance-Arrived env.config saga _ db refl (along edge) at
giving_up-Arrived env saga Step.settle n text db edge at =
    advance-Arrived env.config saga _ db refl (along edge) at
giving_up-Arrived env saga Step.done n text db edge at =
    advance-Arrived env.config saga _ db refl (along edge) at

pub fail_forward_step-Arrived :
    (env : Env) (saga : Instance) (step : Step) (attempt : Allocated) (cause : Error) (db : Db)
    → Edge saga.status (failed_status step)
    → budget env.config saga.status ≡ env.config.max_step_attempts
    → Current saga db
    → Ensures db (fail_forward_step env saga step attempt cause) (λ _ d. Arrived env.config saga d)
unfolding fail_forward_step
fail_forward_step-Arrived env saga step attempt cause db edge spends at =
    storing-Ensures (env.error_text cause) 1000 _ db (
      >>=-Ensures db _ _ (record_attempt-Ensures _ db) (λ _ d kept.
        let at' = ap (λ (f : Uuid → Option Instance). f saga.id) kept ∙ at in
        if-Ensures d
          (terminal_ledger_error cause
            || not (ltb (saga.retry_count + 1) env.config.max_step_attempts))
          _ _ (λ _. giving_up-Arrived env saga step _ _ d edge at')
          (λ b.
            advance-Arrived env.config saga _ d refl
              (again (
                subst (λ n. saga.retry_count + 1 < n) (sym spends)
                  (within_budget _ env.config.max_step_attempts saga.retry_count b)))
              at')))

pub fail_compensation-Arrived :
    (env : Env) (saga : Instance) (attempt : Allocated) (cause : Error) (db : Db)
    → Current saga db
    → Ensures db (fail_compensation env saga attempt cause) (λ _ d. Arrived env.config saga d)
unfolding fail_compensation
fail_compensation-Arrived env saga attempt cause db at =
    storing-Ensures (env.error_text cause) 1000 _ db (
      >>=-Ensures db _ _ (record_attempt-Ensures _ db) (λ _ d kept.
        let at' = ap (λ (f : Uuid → Option Instance). f saga.id) kept ∙ at in
        if-Ensures d (not (ltb (saga.retry_count + 1) env.config.max_compensation_attempts)) _ _
          (λ _. escalate-Arrived env saga _ d gives_up_refunding at')
          (λ b.
            advance-Arrived env.config saga _ d refl
              (again (within_budget false env.config.max_compensation_attempts saga.retry_count b))
              at')))

defer_ambiguity-Arrived :
    (env : Env) (saga : Instance) (call_err : Option Error) (db : Db)
    → Current saga db
    → Ensures db (defer_ambiguity env saga call_err) (λ _ d. Arrived env.config saga d)
unfolding defer_ambiguity
defer_ambiguity-Arrived env saga call_err db at =
    if-Ensures db (not (ltb (saga.retry_count + 1) env.config.max_probes)) _ _
      (λ _. escalate-Arrived env saga _ db gives_up_probing at)
      (λ b.
        advance-Arrived env.config saga _ db refl
          (again (within_budget false env.config.max_probes saga.retry_count b)) at)

finish-Arrived :
    (env : Env) (saga : Instance) (attempt_id : Uuid) (status : StepStatus) (text : String)
    (t : Transition) (db : Db)
    → t.saga_id ≡ saga.id
    → Edge t.from t.to
    → Current saga db
    → Ensures db
        (finish attempt_id status none text >> run_tx (advance t))
        (λ _ d. Arrived env.config saga d)
finish-Arrived env saga attempt_id status text t db named edge at =
    >>=-Ensures db _ _ (finish-Ensures attempt_id status none text db) (λ _ d kept.
      advance-Arrived env.config saga t d named (along edge)
        (ap (λ (f : Uuid → Option Instance). f saga.id) kept ∙ at))

pub settle_gateway_outcome-Arrived :
    (env : Env) (saga : Instance) (attempt_id : Uuid) (answer : Result Payment) (db : Db)
    → Current saga db
    → Ensures db
        (settle_gateway_outcome env saga attempt_id answer)
        (λ _ d. Arrived env.config saga d)
unfolding settle_gateway_outcome
settle_gateway_outcome-Arrived env saga attempt_id (ok payment) db at =
    if-Ensures db (Gateway.succeeded payment) _ _
      (λ _. finish-Arrived env saga attempt_id _ _ _ db refl pays at) (λ _. err-Ensures _ db)
settle_gateway_outcome-Arrived env saga attempt_id (err x) db at =
    if-Ensures db (conclusive (some x)) _ _
      (λ _. finish-Arrived env saga attempt_id _ _ _ db refl declines at)
      (λ _. defer_ambiguity-Arrived env saga (some x) db at)
