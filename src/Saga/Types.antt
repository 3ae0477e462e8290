-- ===== src/Saga/Types.antt =====
-- internal/saga/status.go and instance.go: the states of a saga, its steps, and the records that
-- the store reads and writes.
use ledger_core.Base.{ℕ, ℤ, String, Bool, true, false, Option}
use ledger_core.Ledger.Types.{Uuid}

pub data Status : Type 0 where
  pending reserved gateway_pending gateway_succeeded gateway_failed : Status
  compensating completed compensated failed needs_manual_review : Status

-- `Status.Terminal`
unfoldable pub is_terminal : Status → Bool
is_terminal completed = true
is_terminal compensated = true
is_terminal failed = true
is_terminal needs_manual_review = true
is_terminal _ = false

pub Status-discrete : Discrete Status
Status-discrete = hlevel

pub data Step : Type 0 where
  reserve gateway settle done : Step

pub data StepDirection : Type 0 where
  forward compensation : StepDirection

pub data StepStatus : Type 0 where
  attempted succeeded step_failed : StepStatus

-- The parameters of one payout, which the instance carries as JSON.
pub record Payload : Type 0 where
  pub customer_wallet_id : Uuid
  pub suspense_id : Uuid
  pub merchant_payable_id : Uuid
  pub fee_revenue_id : Uuid
  pub amount_minor : ℤ
  pub fee_minor : ℤ
  pub currency : String
  pub external_ref : String

pub record Instance : Type 0 where
  pub id : Uuid
  pub saga_type : String
  pub principal_id : String
  pub current_step : Step
  pub status : Status
  pub payload : Payload
  pub retry_count : ℕ
  pub last_error : String
  pub idempotency_key : Option String
  pub lease_owner : Option String
  pub lease_expires_at : Option ℕ
  pub step_deadline_at : ℕ

pub record Transition : Type 0 where
  pub saga_id : Uuid
  pub from : Status
  pub to : Status
  pub current_step : Step
  pub step_timeout : ℕ
  pub retry_count : ℕ
  pub last_error : String
  pub release_lease : Bool

pub record Attempt : Type 0 where
  pub id : Uuid
  pub saga_id : Uuid
  pub step : Step
  pub number : ℕ
  pub direction : StepDirection
  pub status : StepStatus
  pub transaction_id : Option Uuid
  pub gateway_key : String
  pub error : String

pub record StepCommit : Type 0 where
  pub attempt : Attempt
  pub transition : Transition
