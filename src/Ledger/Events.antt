-- ===== src/Ledger/Events.antt =====
-- internal/ledger/service.go: the outbox events of a transaction, and the stored response.
-- json.Marshal fails on these payloads only where Money.MarshalJSON does, on a currency that is
-- not three upper-case letters.
use ledger_core.Base.{
  ℕ, ◌+◌, String, List, [], ◌∷◌, Bool, true, ◌&&◌, Option, none, some, str_eq, if◌then◌else◌, all,
}
use ledger_core.Errors.{require, or_error, missing_renderer, encoding_failed}
use ledger_core.Ledger.Money.{Money, matches_currency_pattern}
use ledger_core.Ledger.Types.{Uuid, JournalEntry, Transaction}
use ledger_core.Ledger.Request.{Idempotent}
use ledger_core.Ledger.Repository.{append_event}
use ledger_core.Idempotency.Pgidem.{complete}
use ledger_core.Outbox.{AggregateType, EventType, EventBalance, TransactionEvent, Payload, Event}
use ledger_core.Outbox
use ledger_core.Postgres.{Tx, ◌>>=◌, ◌>>◌, pure, lift}

abbrev pub event_version : ℕ
event_version = 1

abbrev same_currency_as : String → List JournalEntry → Bool
same_currency_as currency [] = true
same_currency_as currency (e ∷ es) =
    str_eq e.amount.currency currency && same_currency_as currency es

unfoldable pub uniform_currency : List JournalEntry → String
uniform_currency [] = ""
uniform_currency (e ∷ es) = if same_currency_as e.amount.currency es then e.amount.currency else ""

abbrev encodes : Money → Bool
encodes m = matches_currency_pattern m.currency

-- `PostedAt` where there is one, else `CreatedAt`.
abbrev pub occurred_at : Transaction → ℕ
occurred_at t = elim t.posted_at [ none ↦ t.created_at | some at ↦ at ]

abbrev pub balance_event : Transaction → EventBalance → Event
balance_event header b = record {
  aggregate_type = Outbox.account;
  aggregate_id = b.account_id;
  event_type = Outbox.balance_updated;
  event_version = event_version;
  occurred_at = occurred_at header;
  payload = Outbox.balance_payload (record {
    account_id = b.account_id;
    transaction_id = header.id;
    available = b.available;
    version = b.version;
  });
}

-- One BalanceUpdated event for each account, from event number i.
unfoldable pub append_balance_updated_events :
    (ℕ → Option Uuid) → ℕ → Transaction → List EventBalance → Tx (Unit {0})
append_balance_updated_events event_id i header [] = pure tt
append_balance_updated_events event_id i header (b ∷ bs) = do
  lift (require (encodes b.available) encoding_failed)
  append_event (event_id i) (balance_event header b)
  append_balance_updated_events event_id (i + 1) header bs

-- The payload of TransactionPosted and TransactionReversed.
abbrev pub transaction_event :
    Transaction → List EventBalance → Option Uuid → String → TransactionEvent
transaction_event header balances reverses reason = record {
  transaction_id = header.id;
  transaction_type = header.transaction_type;
  status = header.status;
  currency = uniform_currency header.entries;
  created_at = header.created_at;
  posted_at = header.posted_at;
  reverses = reverses;
  reason = reason;
  entries = header.entries;
  balances = balances;
}

abbrev pub posting_event : EventType → Transaction → TransactionEvent → Event
posting_event event_type header payload = record {
  aggregate_type = Outbox.transaction;
  aggregate_id = header.id;
  event_type = event_type;
  event_version = event_version;
  occurred_at = occurred_at header;
  payload = Outbox.transaction_payload payload;
}

unfoldable pub append_transaction_event :
    (ℕ → Option Uuid)
    → EventType
    → Transaction
    → List EventBalance
    → Option Uuid
    → String
    → Tx (Unit {0})
append_transaction_event event_id event_type header balances reverses reason = do
  lift (
      require
        (all (λ e. encodes e.amount) header.entries && all (λ b. encodes b.available) balances)
        encoding_failed)
  append_event (event_id 0)
      (posting_event event_type header (transaction_event header balances reverses reason))
  append_balance_updated_events event_id 1 header balances

unfoldable pub complete_idempotency : Option Idempotent → Transaction → Tx (Unit {0})
complete_idempotency none header = pure tt
complete_idempotency (some idem) header = do
  render ← lift (or_error idem.render missing_renderer)
  response ← lift (or_error (render header) encoding_failed)
  complete (record {
    principal_id = idem.principal_id;
    key = idem.key;
    response_status = response.0;
    response_body = response.1;
    transaction_id = header.id;
  })
