-- ===== src/Saga/Payout/Steps.antt =====
-- internal/saga/payout/steps.go and driveOne of run.go: the steps of a payout, from an instance
-- that was read before and may be out of date.
use ledger_core.Base.{
  ℤ, String, false, List, [], ◌∷◌, ◌++◌, pos, neg_ℤ, ltb_ℤ, wrap64, none, some, ◌==◌, str_eq,
  if◌then◌else◌,
}
use Prim.Native.String.{◌++◌ as push_str}
use ledger_core.Errors.{Error, Result, ok, err, already_reversed, stale_transition}
use ledger_core.Ledger.Money.{Money}
use ledger_core.Ledger.Types.{Uuid, nil_uuid, Direction, debit, credit, payout, Transaction}
use ledger_core.Ledger.Request.{EntryRequest, TransactionRequest}
use ledger_core.Ledger.Service.{post_transaction, reverse}
use ledger_core.Errors
use ledger_core.Postgres
use ledger_core.Postgres.{run_tx}
use ledger_core.Saga.Payout.{merchant_minor, gateway_key, step_key}
use ledger_core.Saga.Payout.Outcomes.{
  escalate, releasing, fail_forward_step, fail_compensation, settle_gateway_outcome,
}
use ledger_core.Saga.Payout.Run.{
  Env, Run, ◌>>=◌, ◌>>◌, pure, lift, try, truncate, must_new_money, Allocated, next_attempt, Commit,
  record_step, reserve_transaction_id, external_ref,
}
use ledger_core.Saga.Pgsaga.{advance, begin_step, status_eq}
use ledger_core.Saga.Store.{get, unresolved_attempt}
use ledger_core.Saga.Types.{
  Status, Step, forward, compensation, StepStatus, Payload, Instance, Transition, Attempt,
}

abbrev pub entry : Uuid → Direction → Money → EntryRequest
entry id direction amount = record { account_id = id; direction = direction; amount = amount }

abbrev pub reserve_entries : Payload → Money → List EntryRequest
reserve_entries p amount =
    entry p.customer_wallet_id debit amount ∷ entry p.suspense_id credit amount ∷ []

abbrev pub step_request :
    Env
    → Instance
    → Payload
    → Step
    → String
    → List EntryRequest
    → (Transaction → Postgres.Tx (Unit {0}))
    → TransactionRequest
step_request env saga p step name entries recorder = record {
  principal_id = saga.principal_id;
  transaction_type = payout;
  external_ref = external_ref p;
  metadata = ("saga_id", env.show saga.id) ∷ ("saga_step", name) ∷ [];
  entries = entries;
  idempotency_key = some (step_key env.show saga.id step forward);
  idempotency = none;
  recorder = some recorder;
}

-- What they are when the currency is valid.
abbrev pub reservation : Payload → List EntryRequest
reservation p = reserve_entries p (record { amount_minor = p.amount_minor; currency = p.currency })

abbrev pub reserve_commit : Allocated → Transaction → Commit
reserve_commit attempt posted = record {
  attempt = attempt;
  step = Step.reserve;
  direction = forward;
  transaction_id = some posted.id;
  from = Status.pending;
  to = Status.reserved;
  next_step = Step.gateway;
}

abbrev pub reserve_request : Env → Instance → Payload → Allocated → Money → TransactionRequest
reserve_request env saga p attempt amount =
    step_request env saga p Step.reserve "RESERVE" (reserve_entries p amount)
      (λ posted. record_step env saga p.suspense_id p.amount_minor (reserve_commit attempt posted))

-- `reserve`
unfoldable pub reserve : Env → Instance → Payload → Run (Unit {0})
reserve env saga p = do
  attempt ← next_attempt env saga.id Step.reserve forward
  amount ← lift (must_new_money p.amount_minor p.currency)
  posted ← try (post_transaction env.draws (reserve_request env saga p attempt amount))
  elim posted [ ok _ ↦ pure tt | err cause ↦ fail_forward_step env saga Step.reserve attempt cause ]

abbrev pub gateway_attempt : Env → Instance → Allocated → Attempt
gateway_attempt env saga attempt = record {
  id = attempt.attempt_id;
  saga_id = saga.id;
  step = Step.gateway;
  number = attempt.number;
  direction = forward;
  status = StepStatus.attempted;
  transaction_id = none;
  gateway_key = gateway_key env.show saga.id;
  error = "";
}

abbrev pub intent : Env → Instance → Transition
intent env saga = record {
  saga_id = saga.id;
  from = Status.reserved;
  to = Status.gateway_pending;
  current_step = Step.gateway;
  step_timeout = env.config.step_timeout;
  retry_count = saga.retry_count;
  last_error = "";
  release_lease = false;
}

-- `callGateway`: the intent is committed before the call is made.
unfoldable pub call_gateway : Env → Instance → Payload → Run (Unit {0})
call_gateway env saga p = do
  attempt ← next_attempt env saga.id Step.gateway forward
  run_tx (begin_step (gateway_attempt env saga attempt) (intent env saga))
  settle_gateway_outcome env saga attempt.attempt_id (
      env.client.pay (record {
        idempotency_key = gateway_key env.show saga.id;
        amount_minor = p.amount_minor;
        currency = p.currency;
        reference = p.external_ref;
      }))

-- `resolveGateway`
unfoldable pub resolve_gateway : Env → Instance → Run (Unit {0})
resolve_gateway env saga = do
  unresolved ← run_tx (unresolved_attempt saga.id Step.gateway)
  settle_gateway_outcome env saga (elim unresolved [ none ↦ nil_uuid | some a ↦ a.id ])
      (env.client.probe (gateway_key env.show saga.id))

-- The legs of `settle`: a zero fee has none.
unfoldable pub settle_entries : Payload → Result (List EntryRequest)
settle_entries p = Errors.◌>>=◌ (must_new_money p.amount_minor p.currency) (λ amount.
    Errors.◌>>=◌ (must_new_money (merchant_minor p) p.currency) (λ merchant.
      let both =
        entry p.suspense_id debit amount ∷ entry p.merchant_payable_id credit merchant ∷ [] in
      if ltb_ℤ (pos 0) p.fee_minor
      then Errors.◌>>=◌ (must_new_money p.fee_minor p.currency)
          (λ fee. ok (both ++ (entry p.fee_revenue_id credit fee ∷ [])))
      else ok both))

-- What they are when the currency is valid.
abbrev pub settlement : Payload → List EntryRequest
settlement p =
    let money : ℤ → Money = λ a. record { amount_minor = a; currency = p.currency } in
    entry p.suspense_id debit (money p.amount_minor)
    ∷ entry p.merchant_payable_id credit (money (merchant_minor p))
    ∷ (if ltb_ℤ (pos 0) p.fee_minor
        then entry p.fee_revenue_id credit (money p.fee_minor) ∷ []
        else [])

abbrev pub settle_commit : Allocated → Transaction → Commit
settle_commit attempt posted = record {
  attempt = attempt;
  step = Step.settle;
  direction = forward;
  transaction_id = some posted.id;
  from = Status.gateway_succeeded;
  to = Status.completed;
  next_step = Step.done;
}

abbrev pub settle_request :
    Env → Instance → Payload → Allocated → List EntryRequest → TransactionRequest
settle_request env saga p attempt entries =
    step_request env saga p Step.settle "SETTLE" entries (λ posted.
      record_step env saga p.suspense_id (wrap64 (neg_ℤ p.amount_minor))
        (settle_commit attempt posted))

-- `settle`
unfoldable pub settle : Env → Instance → Payload → Run (Unit {0})
settle env saga p = do
  attempt ← next_attempt env saga.id Step.settle forward
  entries ← lift (settle_entries p)
  posted ← try (post_transaction env.draws (settle_request env saga p attempt entries))
  elim posted [ ok _ ↦ pure tt | err cause ↦ fail_forward_step env saga Step.settle attempt cause ]

-- `beginCompensation`
unfoldable pub begin_compensation : Env → Instance → Run (Unit {0})
begin_compensation env saga = run_tx (
    advance
      (releasing env saga Status.gateway_failed Status.compensating Step.reserve 0 saga.last_error))

-- `confirmCompensated`
unfoldable pub confirm_compensated : Env → Instance → Error → Run (Unit {0})
confirm_compensated env saga cause = do
  current ← run_tx (get saga.id)
  if status_eq current.status Status.compensated
      then pure tt
      else escalate env saga (record {
        from = current.status;
        step = Step.reserve;
        reason = "reserve_reversed_outside_saga";
        last_err = env.error_text cause;
        attempts = saga.retry_count;
      })

abbrev pub compensate_commit : Allocated → Transaction → Commit
compensate_commit attempt posted = record {
  attempt = attempt;
  step = Step.reserve;
  direction = compensation;
  transaction_id = some posted.id;
  from = Status.compensating;
  to = Status.compensated;
  next_step = Step.done;
}

abbrev pub compensation_reason : Env → Instance → String
compensation_reason env saga =
    push_str "saga "
      (push_str (env.show saga.id) (push_str " compensating: " (truncate saga.last_error 200)))

-- The `switch` on the error of the reversal.
abbrev pub compensation_failed : Env → Instance → Allocated → Error → Run (Unit {0})
compensation_failed env saga attempt already_reversed =
    confirm_compensated env saga already_reversed
compensation_failed env saga attempt stale_transition =
    confirm_compensated env saga stale_transition
compensation_failed env saga attempt cause = fail_compensation env saga attempt cause

-- `compensate`
unfoldable pub compensate : Env → Instance → Payload → Run (Unit {0})
compensate env saga p = do
  reserve_tx_id ← reserve_transaction_id saga.id
  if reserve_tx_id == nil_uuid
      then run_tx
          (advance (releasing env saga Status.compensating Status.compensated Step.done 0 ""))
      else do
        attempt ← next_attempt env saga.id Step.reserve compensation
        posted ← try (
            reverse env.show env.draws reserve_tx_id (compensation_reason env saga) none (
              some (λ posted.
                record_step env saga p.suspense_id (wrap64 (neg_ℤ p.amount_minor))
                  (compensate_commit attempt posted))))
        elim posted [ ok _ ↦ pure tt | err cause ↦ compensation_failed env saga attempt cause ]

-- The `switch` of `driveOne` on the status.
unfoldable pub drive_status : Env → Instance → Status → Run (Unit {0})
drive_status env saga Status.pending = reserve env saga saga.payload
drive_status env saga Status.reserved = call_gateway env saga saga.payload
drive_status env saga Status.gateway_pending = resolve_gateway env saga
drive_status env saga Status.gateway_succeeded = settle env saga saga.payload
drive_status env saga Status.gateway_failed = begin_compensation env saga
drive_status env saga Status.compensating = compensate env saga saga.payload
drive_status env saga _ = pure tt

-- `driveOne`, with the error that it logs as its result. The payload decodes to the record that the
-- instance carries.
unfoldable pub drive_one : Env → Instance → Run (Unit {0})
drive_one env saga =
    if str_eq saga.saga_type env.config.saga_type
    then drive_status env saga saga.status
    else pure tt
