-- ===== src/Saga/Payout/Compensating.antt =====
-- What a drive of a saga that runs backwards does to it, where it ends well.
use ledger_core.Base.{
  ◌≡◌, refl, ℤ, String, none, some, arith, ◌∙◌, sym, ap, subst, ◌==◌, wrap64, neg_ℤ,
}
use mathlib.Core.Option.{some-injective}
use ledger_core.Errors.{Error, Result, ok, err, already_reversed, stale_transition}
use ledger_core.Ledger.Consistency.{IsConsistent}
use ledger_core.Ledger.Service.{reverse}
use ledger_core.Ledger.Service.Reverses.{reverse-err}
use ledger_core.Ledger.Types.{Uuid, nil_uuid, Transaction}
use ledger_core.Postgres.{Db}
use ledger_core.Saga.Payout.Machine.{Edge, along, turns_back, refunds, gives_up_refunding}
use ledger_core.Saga.Payout.Moves.{Recorded-Moved}
use ledger_core.Saga.Payout.Progress.{
  Arrived, Current, Moved-Arrived, advance-Arrived, escalate-Arrived, fail_compensation-Arrived,
}
use ledger_core.Saga.Payout.Run
use ledger_core.Saga.Payout.Run.{Env, Run, Allocated, Commit, record_step, commit_transition}
use ledger_core.Saga.Payout.Runs.{
  Ensures, >>=-Ensures, pure-Ensures, try-Ensures, if-Ensures, next_attempt-Ensures,
  reserve_transaction_id-Ensures, get-Ensures,
}
use ledger_core.Saga.Payout.Steps.{
  begin_compensation, confirm_compensated, compensate_commit, compensation_reason,
  compensation_failed, compensate,
}
use ledger_core.Saga.Pgsaga.{status_eq}
use ledger_core.Saga.Recorded.{reverse-Recorded}
use ledger_core.Saga.Types.{Status, Payload, Instance}

pub begin_compensation-Arrived :
    (env : Env) (saga : Instance) (db : Db)
    → Current saga db
    → Ensures db (begin_compensation env saga) (λ _ d. Arrived env.config saga d)
unfolding begin_compensation
begin_compensation-Arrived env saga db at =
    advance-Arrived env.config saga _ db refl (along turns_back) at

confirm_compensated-Arrived :
    (env : Env) (saga : Instance) (cause : Error) (db : Db)
    → saga.status ≡ Status.compensating
    → Current saga db
    → Ensures db (confirm_compensated env saga cause) (λ _ d. Arrived env.config saga d)
unfolding confirm_compensated
confirm_compensated-Arrived env saga cause db here at =
    >>=-Ensures db _ _ (get-Ensures saga.id db) (λ current d (found, e).
      let still : current.status ≡ Status.compensating =
        ap (λ (i : Instance). i.status) (some-injective current saga (sym found ∙ at)) ∙ here in
      if-Ensures d (status_eq current.status Status.compensated) _ _
        (λ b. absurd (ground (arith, ap (λ s. status_eq s Status.compensated) still)))
        (λ _.
          escalate-Arrived env saga _ d
            (subst (λ s. Edge s Status.needs_manual_review) (sym still) gives_up_refunding)
            (ap (λ (x : Db). x.saga_instances saga.id) e ∙ at)))

compensation_failed-Arrived :
    (env : Env) (saga : Instance) (attempt : Allocated) (cause : Error) (db : Db)
    → saga.status ≡ Status.compensating
    → Current saga db
    → Ensures db (compensation_failed env saga attempt cause) (λ _ d. Arrived env.config saga d)
compensation_failed-Arrived env saga attempt already_reversed db here at =
    confirm_compensated-Arrived env saga already_reversed db here at
compensation_failed-Arrived env saga attempt stale_transition db here at =
    confirm_compensated-Arrived env saga stale_transition db here at
compensation_failed-Arrived env saga attempt cause db here at =
    fail_compensation-Arrived env saga attempt cause db at

reversed-Arrived :
    (env : Env) (saga : Instance) (original : Uuid) (reason : String) (id : Uuid) (delta : ℤ)
    (attempt : Allocated) (db : Db) (posted : Result Transaction) (d : Db)
    → IsConsistent db
    → saga.status ≡ Status.compensating
    → Current saga db
    → reverse env.show env.draws original reason none
        (some (λ t. record_step env saga id delta (compensate_commit attempt t)))
        db
      ≡ (posted, d)
    → Ensures d
        (elim posted [
          | ok _ ↦ Run.pure tt
          | err cause ↦ compensation_failed env saga attempt cause
        ])
        (λ _ d'. Arrived env.config saga d')
reversed-Arrived env saga original reason id delta attempt db (ok t) d c here at h =
    pure-Ensures tt d (
      Moved-Arrived env.config saga
        (commit_transition env.config saga (compensate_commit attempt t)) db d refl (along refunds)
        at
        (Recorded-Moved env saga id delta (compensate_commit attempt) db d
          (reverse-Recorded env.show env.draws original reason _ db c h)))
reversed-Arrived env saga original reason id delta attempt db (err x) d c here at h =
    let same : d ≡ db =
      sym (ap (λ r. r.1) h)
      ∙ reverse-err env.show env.draws original reason none _ db x (ap (λ r. r.0) h) in
    compensation_failed-Arrived env saga attempt x d here
      (ap (λ (y : Db). y.saga_instances saga.id) same ∙ at)

pub compensate-Arrived :
    (env : Env) (saga : Instance) (p : Payload) (db : Db)
    → IsConsistent db
    → saga.status ≡ Status.compensating
    → Current saga db
    → Ensures db (compensate env saga p) (λ _ d. Arrived env.config saga d)
unfolding compensate
compensate-Arrived env saga p db c here at =
    >>=-Ensures db _ _ (reserve_transaction_id-Ensures saga.id db) (λ original d1 e1.
      let at' = ap (λ (d : Db). d.saga_instances saga.id) e1 ∙ at in
      if-Ensures d1 (original == nil_uuid) _ _
        (λ _. advance-Arrived env.config saga _ d1 refl (along refunds) at')
        (λ _. >>=-Ensures d1 _ _ (next_attempt-Ensures env saga.id _ _ d1) (λ attempt d2 e2.
          >>=-Ensures d2 _ _ (try-Ensures _ d2) (λ posted d3 h.
            reversed-Arrived env saga original (compensation_reason env saga) p.suspense_id
              (wrap64 (neg_ℤ p.amount_minor)) attempt d2 posted d3
              (subst IsConsistent (sym (e2 ∙ e1)) c) here
              (ap (λ (d : Db). d.saga_instances saga.id) e2 ∙ at') h))))
