-- ===== src/Saga/Payout/Books.antt =====
-- A drive of a payout keeps the ledger's tables consistent, wherever it stops.
use ledger_core.Base.{
  ℕ, String, ◌≡◌, ℤ, pos, ◌-ℤ◌, ltb_ℤ, wrap64-IsInt64, IsInt64, Bool-cases, List, Option, none,
  some, arith, inl, inr, sym, subst,
}
use mathlib.Core.Option.{some-injective}
use ledger_core.Errors.{Error, Result, ok, err, Result-cases, already_reversed, stale_transition}
use ledger_core.Gateway.{Payment}
use ledger_core.Ledger.Consistency.{IsConsistent}
use ledger_core.Ledger.Consistency.Books.{
  Untouched, Untouched-of_eq, Untouched-trans, append_event-Untouched, KeepsBooks,
}
use ledger_core.Ledger.Journal.{AreInt64Legs}
use ledger_core.Ledger.Money.{Money, new_money, matches_currency_pattern}
use ledger_core.Ledger.Posting.{Draws}
use ledger_core.Ledger.Repository.{PendingDelta, apply_pending_delta}
use ledger_core.Ledger.Request.{EntryRequest, Recorder, TransactionRequest}
use ledger_core.Ledger.Service.{post_transaction, reverse}
use ledger_core.Ledger.Service.Posts.{RecorderKeeps, post_transaction-IsConsistent}
use ledger_core.Ledger.Service.Reverses.{reverse-IsConsistent}
use ledger_core.Ledger.Types.{Uuid, Transaction}
use ledger_core.Postgres.{Db}
use ledger_core.Saga.Payout.{merchant_minor}
use ledger_core.Saga.Payout.Keeps.{
  Keeps, >>=-Keeps, pure-Keeps, lift-Keeps, try-Keeps, if-Keeps, given-Keeps, run_tx-Keeps,
  gets-Keeps, advance-Keeps, record_attempt-Keeps, escalate-Untouched, begin_step-Untouched,
  apply_pending_delta-Untouched,
}
use ledger_core.Saga.Payout.Outcomes.{
  Escalation, escalate, fail_forward_step, fail_compensation, defer_ambiguity,
  settle_gateway_outcome, escalation_transition, alert,
}
use ledger_core.Saga.Payout.Run
use ledger_core.Saga.Payout.Run.{
  storing, cuts_character, Env, Run, Allocated, Commit, next_attempt, record_step, finish,
  reserve_transaction_id, must_new_money, commit_attempt, commit_transition, step_event,
}
use ledger_core.Saga.Payout.Steps.{
  reserve, reserve_entries, reserve_request, reserve_commit, call_gateway, gateway_attempt, intent,
  resolve_gateway, settlement, settle_entries, settle_commit, settle_request, settle,
  begin_compensation, confirm_compensated, compensate_commit, compensation_reason, compensate,
  compensation_failed, drive_status, drive_one,
}
use ledger_core.Saga.Pgsaga
use ledger_core.Saga.Store
use ledger_core.Saga.Recording.{commit_step_lem}
use ledger_core.Saga.Types.{Status, Step, StepDirection, StepStatus, Payload, Instance, StepCommit}

record_step-Untouched :
    (env : Env) (saga : Instance) (id : Uuid) (delta : ℤ) (c : Commit) (db db' : Db)
    → record_step env saga id delta c db ≡ ok (tt, db')
    → Untouched db db'
unfolding record_step Run.commit_step
record_step-Untouched env saga id delta c db db' h =
    let step : StepCommit = record {
      attempt = commit_attempt saga c;
      transition = commit_transition env.config saga c;
    } in
    let pending : PendingDelta = record { account_id = id; delta_minor = delta } in
    elim (Result-cases (apply_pending_delta pending db)) [
      | inl (x, q) ↦ absurd (ground arith)
      | inr ((_, d), q) ↦ elim (Result-cases (Pgsaga.commit_step step d)) [
        | inl (x, q') ↦ absurd (ground arith)
        | inr ((_, d'), q') ↦
            Untouched-trans db d db' (apply_pending_delta-Untouched pending db d q) (
              Untouched-trans d d' db' (commit_step_lem step d d' q').1 (
                append_event-Untouched env.step_event_id (step_event saga c d'.now) d' db'
                  (ground arith)))
      ]
    ]

-- The recorder of a step, as the ledger takes it.
pub record_step-RecorderKeeps :
    (env : Env) (saga : Instance) (id : Uuid) (delta : ℤ) (c : Transaction → Commit)
    → RecorderKeeps (some (λ posted. record_step env saga id delta (c posted)))
record_step-RecorderKeeps env saga id delta c r e =
    subst KeepsBooks (some-injective (λ posted. record_step env saga id delta (c posted)) r e)
      (λ t db db' h. record_step-Untouched env saga id delta (c t) db db' h)

next_attempt-Keeps :
    (env : Env) (id : Uuid) (step : Step) (direction : StepDirection)
    → Keeps (next_attempt env id step direction)
unfolding next_attempt Store.next_attempt_number
next_attempt-Keeps env id step direction =
    >>=-Keeps _ _ (gets-Keeps _) (λ number. >>=-Keeps _ _ (lift-Keeps _) (λ drawn. pure-Keeps _))

storing-Keeps : (s : String) (max : ℕ) (m : Run (Unit {0})) → Keeps m → Keeps (storing s max m)
storing-Keeps s max m k = if-Keeps (cuts_character s max) _ m (lift-Keeps _) k

finish-Keeps :
    (id : Uuid) (status : StepStatus) (tx_id : Option Uuid) (failure : _)
    → Keeps (finish id status tx_id failure)
unfolding finish Store.finish_attempt
finish-Keeps id status tx_id failure = if-Keeps _ _ _ (pure-Keeps tt) (
    storing-Keeps failure 1000 _ (
      run_tx-Keeps _
        (λ a db db' h. Untouched-of_eq db db' (ground arith) (ground arith) (ground arith))))

escalate-Keeps : (env : Env) (saga : Instance) (e : Escalation) → Keeps (escalate env saga e)
unfolding escalate
escalate-Keeps env saga e = storing-Keeps e.last_err 1000 _ (record {
  kept = λ db c.
      (run_tx-Keeps _ (λ a d d' h.
          escalate-Untouched env.alert_event_id (escalation_transition env.config saga e)
            (alert saga e db.now) d d' h)).kept
        db c;
})

fail_forward_step-Keeps :
    (env : Env) (saga : Instance) (step : Step) (attempt : Allocated) (cause : Error)
    → Keeps (fail_forward_step env saga step attempt cause)
unfolding fail_forward_step
fail_forward_step-Keeps env saga step attempt cause = storing-Keeps (env.error_text cause) 1000 _ (
    >>=-Keeps _ _ (try-Keeps _ (record_attempt-Keeps _))
      (λ _. if-Keeps _ _ _ (advance-Keeps _) (advance-Keeps _)))

fail_compensation-Keeps :
    (env : Env) (saga : Instance) (attempt : Allocated) (cause : Error)
    → Keeps (fail_compensation env saga attempt cause)
unfolding fail_compensation
fail_compensation-Keeps env saga attempt cause = storing-Keeps (env.error_text cause) 1000 _ (
    >>=-Keeps _ _ (try-Keeps _ (record_attempt-Keeps _))
      (λ _. if-Keeps _ _ _ (escalate-Keeps env saga _) (advance-Keeps _)))

defer_ambiguity-Keeps :
    (env : Env) (saga : Instance) (call_err : Option Error)
    → Keeps (defer_ambiguity env saga call_err)
unfolding defer_ambiguity
defer_ambiguity-Keeps env saga call_err =
    if-Keeps _ _ _ (escalate-Keeps env saga _) (advance-Keeps _)

settle_gateway_outcome-Keeps :
    (env : Env) (saga : Instance) (attempt_id : Uuid) (answer : Result Payment)
    → Keeps (settle_gateway_outcome env saga attempt_id answer)
unfolding settle_gateway_outcome
settle_gateway_outcome-Keeps env saga attempt_id (ok payment) =
    if-Keeps _ _ _ (>>=-Keeps _ _ (finish-Keeps attempt_id _ _ _) (λ _. advance-Keeps _))
      (lift-Keeps _)
settle_gateway_outcome-Keeps env saga attempt_id (err x) =
    if-Keeps _ _ _ (>>=-Keeps _ _ (finish-Keeps attempt_id _ _ _) (λ _. advance-Keeps _))
      (defer_ambiguity-Keeps env saga (some x))

amount-IsInt64 :
    (a : ℤ) (currency : _) {m : Money} → must_new_money a currency ≡ ok m → m.amount_minor ≡ a
unfolding must_new_money new_money
amount-IsInt64 a currency h = ground arith

-- The recorder of a reservation or a settlement keeps the books, and its legs are int64.
post-Keeps :
    (draws : Draws) (req : TransactionRequest)
    → AreInt64Legs req.entries
    → RecorderKeeps req.recorder
    → Keeps (post_transaction draws req)
post-Keeps draws req typed k = record {
  kept = λ db c. post_transaction-IsConsistent draws req db typed k c;
}

posted-Keeps :
    (posted : Result Transaction) (handle : Error → Run (Unit {0}))
    → ((x : Error) → Keeps (handle x))
    → Keeps (elim posted [ ok _ ↦ Run.pure tt | err cause ↦ handle cause ])
posted-Keeps (ok t) handle k = pure-Keeps tt
posted-Keeps (err x) handle k = k x

pub reserve_entries-AreInt64Legs :
    (p : Payload) (amount : Money)
    → IsInt64 p.amount_minor
    → must_new_money p.amount_minor p.currency ≡ ok amount
    → AreInt64Legs (reserve_entries p amount)
reserve_entries-AreInt64Legs p amount typed made =
    let int64 = subst IsInt64 (sym (amount-IsInt64 p.amount_minor p.currency made)) typed in
    (int64, (int64, tt))

reserve-Keeps :
    (env : Env) (saga : Instance) (p : Payload)
    → IsInt64 p.amount_minor
    → Keeps (reserve env saga p)
unfolding reserve
reserve-Keeps env saga p typed = >>=-Keeps _ _ (next_attempt-Keeps env saga.id _ _) (λ attempt.
    given-Keeps _ _ (λ amount made.
      >>=-Keeps _ _
        (try-Keeps _ (
          post-Keeps env.draws (reserve_request env saga p attempt amount)
            (reserve_entries-AreInt64Legs p amount typed made)
            (record_step-RecorderKeeps env saga p.suspense_id p.amount_minor
              (reserve_commit attempt))))
        (λ posted.
          posted-Keeps posted _ (λ x. fail_forward_step-Keeps env saga Step.reserve attempt x))))

call_gateway-Keeps : (env : Env) (saga : Instance) (p : Payload) → Keeps (call_gateway env saga p)
unfolding call_gateway
call_gateway-Keeps env saga p = >>=-Keeps _ _ (next_attempt-Keeps env saga.id _ _) (λ attempt.
    >>=-Keeps _ _
      (run_tx-Keeps _ (λ a db db' h.
        begin_step-Untouched (gateway_attempt env saga attempt) (intent env saga) db db' h))
      (λ _. settle_gateway_outcome-Keeps env saga _ _))

resolve_gateway-Keeps : (env : Env) (saga : Instance) → Keeps (resolve_gateway env saga)
unfolding resolve_gateway Store.unresolved_attempt
resolve_gateway-Keeps env saga =
    >>=-Keeps _ _ (gets-Keeps _) (λ unresolved. settle_gateway_outcome-Keeps env saga _ _)

-- The legs of a settlement, where there are any.
pub settle_entries_lem :
    (p : Payload) (entries : List EntryRequest)
    → settle_entries p ≡ ok entries
    → entries ≡ settlement p
unfolding settle_entries must_new_money new_money
settle_entries_lem p entries h = elim (Bool-cases (matches_currency_pattern p.currency)) [
  | inl m ↦ ground arith
  | inr m ↦ absurd (ground arith)
]

settlement-AreInt64Legs :
    (p : Payload) → IsInt64 p.amount_minor → IsInt64 p.fee_minor → AreInt64Legs (settlement p)
unfolding merchant_minor
settlement-AreInt64Legs p a f =
    let merchant = wrap64-IsInt64 (p.amount_minor -ℤ p.fee_minor) in
    elim (Bool-cases (ltb_ℤ (pos 0) p.fee_minor)) [
      | inl charged ↦ rw charged (a, (merchant, (f, tt)))
      | inr free ↦ rw free (a, (merchant, tt))
    ]

pub settled-AreInt64Legs :
    (p : Payload) (entries : List EntryRequest)
    → IsInt64 p.amount_minor
    → IsInt64 p.fee_minor
    → settle_entries p ≡ ok entries
    → AreInt64Legs entries
settled-AreInt64Legs p entries a f made =
    subst AreInt64Legs (sym (settle_entries_lem p entries made)) (settlement-AreInt64Legs p a f)

settle-Keeps :
    (env : Env) (saga : Instance) (p : Payload)
    → IsInt64 p.amount_minor
    → IsInt64 p.fee_minor
    → Keeps (settle env saga p)
unfolding settle
settle-Keeps env saga p a f = >>=-Keeps _ _ (next_attempt-Keeps env saga.id _ _) (λ attempt.
    given-Keeps _ _ (λ entries made.
      >>=-Keeps _ _
        (try-Keeps _ (
          post-Keeps env.draws (settle_request env saga p attempt entries)
            (settled-AreInt64Legs p entries a f made)
            (record_step-RecorderKeeps env saga p.suspense_id _ (settle_commit attempt))))
        (λ posted.
          posted-Keeps posted _ (λ x. fail_forward_step-Keeps env saga Step.settle attempt x))))

confirm_compensated-Keeps :
    (env : Env) (saga : Instance) (cause : Error) → Keeps (confirm_compensated env saga cause)
unfolding confirm_compensated Store.get
confirm_compensated-Keeps env saga cause =
    >>=-Keeps _ _
      (run_tx-Keeps _
        (λ a db db' h. Untouched-of_eq db db' (ground arith) (ground arith) (ground arith)))
      (λ current. if-Keeps _ _ _ (pure-Keeps tt) (escalate-Keeps env saga _))

compensation_failed-Keeps :
    (env : Env) (saga : Instance) (attempt : Allocated) (cause : Error)
    → Keeps (compensation_failed env saga attempt cause)
compensation_failed-Keeps env saga attempt already_reversed =
    confirm_compensated-Keeps env saga already_reversed
compensation_failed-Keeps env saga attempt stale_transition =
    confirm_compensated-Keeps env saga stale_transition
compensation_failed-Keeps env saga attempt cause = fail_compensation-Keeps env saga attempt cause

reverse-Keeps :
    (env : Env) (original : Uuid) (reason : _) (recorder : Option Recorder)
    → RecorderKeeps recorder
    → Keeps (reverse env.show env.draws original reason none recorder)
reverse-Keeps env original reason recorder k = record {
  kept = λ db c. reverse-IsConsistent env.show env.draws original reason none recorder db k c;
}

compensate-Keeps : (env : Env) (saga : Instance) (p : Payload) → Keeps (compensate env saga p)
unfolding compensate reserve_transaction_id Store.attempts
compensate-Keeps env saga p =
    >>=-Keeps _ _ (>>=-Keeps _ _ (gets-Keeps _) (λ found. pure-Keeps _)) (λ original.
      if-Keeps _ _ _ (advance-Keeps _) (
        >>=-Keeps _ _ (next_attempt-Keeps env saga.id _ _) (λ attempt.
          >>=-Keeps _ _
            (try-Keeps _ (
              reverse-Keeps env original (compensation_reason env saga) _
                (record_step-RecorderKeeps env saga p.suspense_id _ (compensate_commit attempt))))
            (λ posted. posted-Keeps posted _ (λ x. compensation_failed-Keeps env saga attempt x)))))

begin_compensation-Keeps : (env : Env) (saga : Instance) → Keeps (begin_compensation env saga)
unfolding begin_compensation
begin_compensation-Keeps env saga = advance-Keeps _

drive_status-Keeps :
    (env : Env) (saga : Instance) (status : Status)
    → IsInt64 saga.payload.amount_minor
    → IsInt64 saga.payload.fee_minor
    → Keeps (drive_status env saga status)
unfolding drive_status
drive_status-Keeps env saga Status.pending a f = reserve-Keeps env saga saga.payload a
drive_status-Keeps env saga Status.reserved a f = call_gateway-Keeps env saga saga.payload
drive_status-Keeps env saga Status.gateway_pending a f = resolve_gateway-Keeps env saga
drive_status-Keeps env saga Status.gateway_succeeded a f = settle-Keeps env saga saga.payload a f
drive_status-Keeps env saga Status.gateway_failed a f = begin_compensation-Keeps env saga
drive_status-Keeps env saga Status.compensating a f = compensate-Keeps env saga saga.payload
drive_status-Keeps env saga Status.completed a f = pure-Keeps tt
drive_status-Keeps env saga Status.compensated a f = pure-Keeps tt
drive_status-Keeps env saga Status.failed a f = pure-Keeps tt
drive_status-Keeps env saga Status.needs_manual_review a f = pure-Keeps tt

-- One drive of a saga, by any orchestrator and however it ends, keeps the ledger's tables
-- consistent: the instance may be out of date, and its amounts are int64.
pub drive_one-IsConsistent :
    (env : Env) (saga : Instance) (db : Db)
    → IsInt64 saga.payload.amount_minor
    → IsInt64 saga.payload.fee_minor
    → IsConsistent db
    → IsConsistent (drive_one env saga db).1
unfolding drive_one
drive_one-IsConsistent env saga db a f c =
    (if-Keeps _ _ _ (drive_status-Keeps env saga saga.status a f) (pure-Keeps tt)).kept db c
