-- ===== src/Outbox.antt =====
-- internal/outbox/writer.go: events written in the transaction of the change that they describe.
-- A payload is the Go struct that json.Marshal is given; its bytes are not modelled, so the test
-- for an empty payload cannot fail.
use ledger_core.Base.{ℕ, String, Bool, List, Option}
use ledger_core.Ledger.Money.{Money}
use ledger_core.Ledger.Types.{
  Uuid, Direction, AccountType, TransactionStatus, TransactionType, JournalEntry,
}
use ledger_core.Saga.Types.{Status, Step, StepDirection}

pub data AggregateType : Type 0 where
  transaction account saga : AggregateType

pub data EventType : Type 0 where
  transaction_posted transaction_reversed account_created balance_updated : EventType
  saga_step_completed saga_needs_manual_review : EventType

-- An account's balance as an event reports it, with the version that made it.
pub record EventBalance : Type 0 where
  pub account_id : Uuid
  pub available : Money
  pub version : ℕ

pub record TransactionEvent : Type 0 where
  pub transaction_id : Uuid
  pub transaction_type : TransactionType
  pub status : TransactionStatus
  pub currency : String
  pub created_at : ℕ
  pub posted_at : Option ℕ
  pub reverses : Option Uuid
  pub reason : String
  pub entries : List JournalEntry
  pub balances : List EventBalance

pub record AccountCreatedEvent : Type 0 where
  pub account_id : Uuid
  pub external_ref : String
  pub account_type : AccountType
  pub normal_balance : Direction
  pub currency : String
  pub owner_id : Option String
  pub allow_negative : Bool

pub record BalanceUpdatedEvent : Type 0 where
  pub account_id : Uuid
  pub transaction_id : Uuid
  pub available : Money
  pub version : ℕ

pub record StepCompletedEvent : Type 0 where
  pub saga_id : Uuid
  pub saga_type : String
  pub step : Step
  pub direction : StepDirection
  pub attempt : ℕ
  pub status : Status
  pub transaction_id : Option Uuid

pub record ManualReviewEvent : Type 0 where
  pub saga_id : Uuid
  pub saga_type : String
  pub step : Step
  pub reason : String
  pub last_error : String
  pub attempts : ℕ

pub data Payload : Type 0 where
  transaction_payload : TransactionEvent → Payload
  account_payload : AccountCreatedEvent → Payload
  balance_payload : BalanceUpdatedEvent → Payload
  step_payload : StepCompletedEvent → Payload
  review_payload : ManualReviewEvent → Payload

pub record Event : Type 0 where
  pub aggregate_type : AggregateType
  pub aggregate_id : Uuid
  pub event_type : EventType
  pub event_version : ℕ
  pub occurred_at : ℕ
  pub payload : Payload

-- An outbox row: the event under the id that `Append` draws for it.
pub record Envelope : Type 0 where
  pub event_id : Uuid
  pub event : Event
