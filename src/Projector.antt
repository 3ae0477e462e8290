-- ===== src/Projector.antt =====
-- internal/projector/apply.go: the read model of balances, fed by transaction events in any order
-- and more than once. json.Unmarshal gives back what the writer of the event marshalled, and reads no
-- balances from the payload of another kind of event.
pub mod Order
pub mod Tests
use ledger_core.Base.{
  ℕ, String, List, [], ◌∷◌, Bool, true, false, Option, none, some, ◌==◌, ltb, if◌then◌else◌, all, ℤ,
}
use ledger_core.Errors.{Result, ok, err, unknown_event_type, database_failed}
use ledger_core.Ledger.Types.{Uuid}
use ledger_core.Ledger.Routing.{mem_id}
use ledger_core.Outbox.{
  EventType, transaction_posted, transaction_reversed, EventBalance, Payload, transaction_payload,
  Envelope,
}

-- A row of balance_projections.
pub record Projection : Type 0 where
  pub available_minor : ℤ
  pub currency : String
  pub version : ℕ
  pub last_event_id : Uuid

-- The tables that `Apply` touches. account_id references accounts, which the ledger fills.
pub record Projections : Type 0 where
  pub accounts : Uuid → Bool
  pub processed : List Uuid
  pub balances : Uuid → Option Projection

abbrev pub is_transaction_event : EventType → Bool
is_transaction_event transaction_posted = true
is_transaction_event transaction_reversed = true
is_transaction_event _ = false

-- The `balances` of the decoded payload.
abbrev pub payload_balances : Payload → List EventBalance
payload_balances (transaction_payload e) = e.balances
payload_balances _ = []

abbrev pub projection : Uuid → EventBalance → Projection
projection event_id b = record {
  available_minor = b.available.amount_minor;
  currency = b.available.currency;
  version = b.version;
  last_event_id = event_id;
}

-- The row after the INSERT, or after the DO UPDATE with its WHERE, which leaves the currency.
unfoldable pub upsert_row : Uuid → EventBalance → Option Projection → Option Projection
upsert_row event_id b none = some (projection event_id b)
upsert_row event_id b (some row) =
    if ltb row.version b.version
    then some (record (projection event_id b) { currency = row.currency })
    else some row

-- `applyBalance`
unfoldable pub apply_balance :
    Uuid → EventBalance → (Uuid → Option Projection) → Uuid → Option Projection
apply_balance event_id b rows id =
    if b.account_id == id then upsert_row event_id b (rows id) else rows id

unfoldable pub apply_balances :
    Uuid → List EventBalance → (Uuid → Option Projection) → Uuid → Option Projection
apply_balances event_id [] rows = rows
apply_balances event_id (b ∷ bs) rows = apply_balances event_id bs (apply_balance event_id b rows)

-- `Apply`: whether the event was applied now.
unfoldable pub apply : Envelope → Projections → Result Bool × Projections
apply envelope s =
    if is_transaction_event envelope.event.event_type
    then if mem_id envelope.event_id s.processed
      then (ok false, s)
      else if all (λ b. s.accounts b.account_id) (payload_balances envelope.event.payload)
      then (
        ok true,
        record s {
          processed = envelope.event_id ∷ s.processed;
          balances =
              apply_balances envelope.event_id (payload_balances envelope.event.payload) s.balances;
        },
      )
      else (err database_failed, s)
    else (err unknown_event_type, s)
