-- ===== src/Saga/Tests.antt =====
-- A payout whose reservation is posted late, when another orchestrator has moved it on.
use ledger_core.Base.{◌≡◌, refl, false, none, some, pos, arith, subst}
use mathlib.Core.Option.{some-injective}
use ledger_core.Errors.{Error, err}
use ledger_core.Ledger.Types.{Transaction}
use ledger_core.Ledger.Request.{TransactionRequest}
use ledger_core.Ledger.Service.{post_transaction}
use ledger_core.Ledger.Tests.Book.{drawn, opened, pay}
use ledger_core.Saga.Types.{Status, Step, StepDirection, StepStatus, Instance, StepCommit}
use ledger_core.Saga.Pgsaga.{status_eq, commit_step}
use ledger_core.Saga.Recording.{stale_step_posts_nothing}
use ledger_core.Postgres.{Db}

-- The only saga, already RESERVED.
abbrev pub payout : Instance
payout = record {
  id = 90;
  saga_type = "payout";
  principal_id = "shop";
  current_step = Step.gateway;
  status = Status.reserved;
  payload = record {
    customer_wallet_id = 2;
    suspense_id = 1;
    merchant_payable_id = 1;
    fee_revenue_id = 1;
    amount_minor = pos 500;
    fee_minor = pos 0;
    currency = "USD";
    external_ref = "p90";
  };
  retry_count = 0;
  last_error = "";
  idempotency_key = none;
  lease_owner = some "b";
  lease_expires_at = some 500;
  step_deadline_at = 500;
}

abbrev with_payout : Db
with_payout = record opened { saga_instances = λ id. some payout }

-- The step of the orchestrator that still believes the saga PENDING.
abbrev pub late_step : Transaction → StepCommit
late_step t = record {
  attempt = record {
    id = 95;
    saga_id = 90;
    step = Step.reserve;
    number = 1;
    direction = StepDirection.forward;
    status = StepStatus.succeeded;
    transaction_id = some t.id;
    gateway_key = "";
    error = "";
  };
  transition = record {
    saga_id = 90;
    from = Status.pending;
    to = Status.reserved;
    current_step = Step.gateway;
    step_timeout = 60;
    retry_count = 0;
    last_error = "";
    release_lease = false;
  };
}

abbrev late_pay : TransactionRequest
late_pay = record pay { recorder = some (λ t. commit_step (late_step t)) }

moved_on :
    (t : Transaction) (saga : Instance)
    → some payout ≡ some saga
    → status_eq saga.status (late_step t).transition.from ≡ false
moved_on t saga e =
    subst (λ (s : Instance). status_eq s.status Status.pending ≡ false)
      (some-injective payout saga e) refl

stale_step_posts_nothing_example :
    (x : Error) × (post_transaction (drawn 20) late_pay with_payout ≡ (err x, with_payout))
stale_step_posts_nothing_example =
    stale_step_posts_nothing (drawn 20) late_pay with_payout late_step (ground arith) refl moved_on
