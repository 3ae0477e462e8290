-- ===== src/Saga/Payout.antt =====
-- internal/saga/payout/payout.go: the input of a payout, and how one is started.
pub mod Run
pub mod Outcomes
pub mod Steps
pub mod Keeps
pub mod Books
pub mod Moves
pub mod Machine
pub mod Runs
pub mod Progress
pub mod Driving
pub mod Compensating
pub mod Termination
pub mod Together
pub mod Valid
pub mod Tests
pub mod Examples
use ledger_core.Base.{
  ℕ, ◌+◌, ℤ, pos, ◌-ℤ◌, String, [], ◌∷◌, not, ◌||◌, Option, none, ◌==◌, ltb, str_eq, leb_ℤ, ltb_ℤ,
  if◌then◌else◌, wrap64,
}
use Prim.Native.String.{◌++◌}
use ledger_core.Errors.{
  Result, ok, err, require, ◌>>◌, invalid_entry, invalid_currency, random_failed,
}
use ledger_core.Ledger.Types.{Uuid, nil_uuid}
use ledger_core.Saga.Types.{
  Status, Step, reserve, gateway, settle, done, StepDirection, forward, compensation, Payload,
  Instance,
}
use ledger_core.Saga.Store.{create}
use ledger_core.Postgres.{Db, run_tx}

-- The orchestrator's bounds; a deployment's intervals and batch only say when it works.
pub record Config : Type 0 where
  pub saga_type : String
  pub step_timeout : ℕ
  pub max_step_attempts : ℕ
  pub max_compensation_attempts : ℕ
  pub max_probes : ℕ

-- `Payload.validate`
unfoldable pub validate : Payload → Result (Unit {0})
validate p = do
  require
      (not (
        (p.customer_wallet_id == nil_uuid)
        || ((p.suspense_id == nil_uuid)
            || ((p.merchant_payable_id == nil_uuid) || (p.fee_revenue_id == nil_uuid)))))
      invalid_entry
  require (not (leb_ℤ p.amount_minor (pos 0))) invalid_entry
  require (not (ltb_ℤ p.fee_minor (pos 0))) invalid_entry
  require (not (leb_ℤ p.amount_minor p.fee_minor)) invalid_entry
  require (not (str_eq p.currency "")) invalid_currency

-- `merchantMinor`
unfoldable pub merchant_minor : Payload → ℤ
merchant_minor p = wrap64 (p.amount_minor -ℤ p.fee_minor)

-- `New`, of the two settings it defaults that the model has.
unfoldable pub with_defaults : Config → Config
with_defaults cfg = record cfg {
  max_probes = if ltb 0 cfg.max_probes then cfg.max_probes else 6;
  saga_type = if str_eq cfg.saga_type "" then "MARKETPLACE_PAYOUT" else cfg.saga_type;
}

-- The PENDING row that `Start` asks for, at the clock of this process.
abbrev pub first_instance : Config → ℕ → Uuid → Payload → String → Option String → Instance
first_instance cfg now id p principal_id idempotency_key = record {
  id = id;
  saga_type = cfg.saga_type;
  principal_id = principal_id;
  current_step = reserve;
  status = Status.pending;
  payload = p;
  retry_count = 0;
  last_error = "";
  idempotency_key = idempotency_key;
  lease_owner = none;
  lease_expires_at = none;
  step_deadline_at = now + cfg.step_timeout;
}

-- `Start`, with the id that it draws.
unfoldable pub start :
    Config → Option Uuid → Payload → String → Option String → Db → Result Instance × Db
start cfg drawn p principal_id idempotency_key db = elim (validate p) [
  | err x ↦ (err x, db)
  | ok _ ↦ elim drawn [
    | none ↦ (err random_failed, db)
    | Option.some id ↦
        run_tx (create (first_instance cfg db.now id p principal_id idempotency_key)) db
  ]
]

-- `gatewayKey`; `show` is uuid.String.
unfoldable pub gateway_key : (Uuid → String) → Uuid → String
gateway_key show saga_id = show saga_id ++ ":GATEWAY"

abbrev step_text : Step → String
step_text reserve = "RESERVE"
step_text gateway = "GATEWAY"
step_text settle = "SETTLE"
step_text done = "DONE"

abbrev direction_text : StepDirection → String
direction_text forward = "FORWARD"
direction_text compensation = "COMPENSATION"

-- `stepKey`
unfoldable pub step_key : (Uuid → String) → Uuid → Step → StepDirection → String
step_key show saga_id step direction =
    show saga_id ++ (":" ++ (step_text step ++ (":" ++ direction_text direction)))
