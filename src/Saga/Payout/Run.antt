-- ===== src/Saga/Payout/Run.antt =====
-- internal/saga/payout/run.go: what the steps of a payout share. A step is a sequence of database
-- transactions, so an error in the middle keeps what was committed before it.
use Prim.Native.Char.{len_utf8}
use Prim.Native.String.{◌++◌, len}
use ledger_core.Base.{
  ℕ, zero, suc, ◌-◌, ℤ, String, Bool, not, ◌&&◌, true, false, List, [], ◌∷◌, Option, none, some,
  leb, str_eq, if◌then◌else◌, ◌==◌,
}
use ledger_core.Errors.{
  Error, Result, ok, err, or_error, random_failed, database_failed, panicked, insufficient_funds,
  account_not_postable, account_not_found, currency_mismatch, mixed_currency, invalid_currency,
  scale_mismatch, invalid_entry, too_few_entries, unbalanced_transaction, money_overflow,
  invalid_transaction_type, duplicate_idempotency_key, already_reversed, transaction_not_posted,
}
use ledger_core.Gateway.{Client}
use ledger_core.Ledger.Money.{Money, new_money}
use ledger_core.Ledger.Types.{Uuid, nil_uuid}
use ledger_core.Ledger.Posting.{Draws}
use ledger_core.Ledger.Repository.{append_event, apply_pending_delta}
use ledger_core.Outbox
use ledger_core.Outbox.{Event}
use ledger_core.Postgres
use ledger_core.Postgres.{Db, Tx, run_tx}
use ledger_core.Saga.Payout.{Config}
use ledger_core.Saga.Pgsaga
use ledger_core.Saga.Store.{next_attempt_number, finish_attempt, attempts}
use ledger_core.Saga.Types.{
  Status, Step, reserve, StepDirection, forward, StepStatus, Payload, Instance, Transition, Attempt,
}

-- What one drive of a saga takes from outside: its settings, the gateway, the text of an error,
-- and the random ids.
pub record Env : Type 0 where
  pub config : Config
  pub client : Client
  pub show : Uuid → String  -- uuid.String
  pub error_text : Error → String  -- error.Error
  pub attempt_id : Option Uuid
  pub draws : Draws
  pub step_event_id : Option Uuid
  pub alert_event_id : Option Uuid

-- Several database transactions, one after another.
abbrev pub Run : Type 0 → Type 0
Run A = Db → Result A × Db

infixl 5 ◌>>=◌ ◌>>◌
unfoldable pub ◌>>=◌ : {A B : Type 0} → Run A → (A → Run B) → Run B
◌>>=◌ m f db = let r = m db in elim r.0 [ ok a ↦ f a r.1 | err x ↦ (err x, r.1) ]

abbrev pub ◌>>◌ : {B : Type 0} → Run (Unit {0}) → Run B → Run B
m >> k = m >>= λ _. k

unfoldable pub pure : {A : Type 0} → A → Run A
pure a db = (ok a, db)

unfoldable pub lift : {A : Type 0} → Result A → Run A
lift r db = (r, db)

-- The result as a value: a call whose error is looked at.
unfoldable pub try : {A : Type 0} → Run A → Run (Result A)
try m db = (ok (m db).0, (m db).1)

-- Bytes of a piece of a character, each of which encoding/json writes as U+FFFD.
unfoldable pub broken : ℕ → String
broken zero = ""
broken (suc n) = "�" ++ broken n

-- `s[:n]`, for a text of more than n bytes.
unfoldable pub prefix : ℕ → String → String
unfolding broken
prefix n String.[] = String.[]
prefix n (String.◌∷◌ c s) =
    let rest = prefix (n - len_utf8 c) s in
    if leb (len_utf8 c) n then String.◌∷◌ c rest else broken n

-- Whether `s[:n]` ends inside a character.
unfoldable pub ends_inside : ℕ → String → Bool
ends_inside n String.[] = false
ends_inside n (String.◌∷◌ c s) =
    let rest = ends_inside (n - len_utf8 c) s in if leb (len_utf8 c) n then rest else not (n == 0)

unfoldable pub cuts_character : String → ℕ → Bool
unfolding ends_inside
cuts_character s max = not (leb (len s) max) && ends_inside max s

-- Statements that store a truncated text: PostgreSQL refuses a text that is not UTF-8, and then
-- none of them takes effect.
abbrev pub storing : String → ℕ → Run (Unit {0}) → Run (Unit {0})
storing s max statements = if cuts_character s max then lift (err database_failed) else statements

-- `truncate`, which cuts at a byte; as JSON, where that is inside a character.
unfoldable pub truncate : String → ℕ → String
unfolding prefix
truncate s max = if leb (len s) max then s else prefix max s ++ "…"

-- `MustNewMoney`
unfoldable pub must_new_money : ℤ → String → Result Money
must_new_money amount_minor currency = elim (new_money amount_minor currency) [
  | ok m ↦ ok m
  | err x ↦ err panicked
]

pub record Allocated : Type 0 where
  pub attempt_id : Uuid
  pub number : ℕ

-- `nextAttempt`
unfoldable pub next_attempt : Env → Uuid → Step → StepDirection → Run Allocated
next_attempt env id step direction = do
  number ← run_tx (next_attempt_number id step direction)
  drawn ← lift (or_error env.attempt_id random_failed)
  pure (record { attempt_id = drawn; number = number })

pub record Commit : Type 0 where
  pub attempt : Allocated
  pub step : Step
  pub direction : StepDirection
  pub transaction_id : Option Uuid
  pub from : Status
  pub to : Status
  pub next_step : Step

abbrev pub commit_attempt : Instance → Commit → Attempt
commit_attempt saga c = record {
  id = c.attempt.attempt_id;
  saga_id = saga.id;
  step = c.step;
  number = c.attempt.number;
  direction = c.direction;
  status = StepStatus.succeeded;
  transaction_id = c.transaction_id;
  gateway_key = "";
  error = "";
}

abbrev pub commit_transition : Config → Instance → Commit → Transition
commit_transition cfg saga c = record {
  saga_id = saga.id;
  from = c.from;
  to = c.to;
  current_step = c.next_step;
  step_timeout = cfg.step_timeout;
  retry_count = 0;
  last_error = "";
  release_lease = true;
}

abbrev pub step_event : Instance → Commit → ℕ → Event
step_event saga c now = record {
  aggregate_type = Outbox.saga;
  aggregate_id = saga.id;
  event_type = Outbox.saga_step_completed;
  event_version = 1;
  occurred_at = now;
  payload = Outbox.step_payload (record {
    saga_id = saga.id;
    saga_type = saga.saga_type;
    step = c.step;
    direction = c.direction;
    attempt = c.attempt.number;
    status = c.to;
    transaction_id = c.transaction_id;
  });
}

-- `commitStep`, inside the ledger's transaction.
unfoldable pub commit_step : Env → Instance → Commit → Tx (Unit {0})
commit_step env saga c =
    Postgres.◌>>=◌
      (Pgsaga.commit_step (record {
        attempt = commit_attempt saga c;
        transition = commit_transition env.config saga c;
      }))
      (λ _ db. append_event env.step_event_id (step_event saga c db.now) db)

-- The closure that a step gives the ledger as its recorder: the pending delta of the suspense
-- account, then the step.
unfoldable pub record_step : Env → Instance → Uuid → ℤ → Commit → Tx (Unit {0})
record_step env saga suspense_id delta_minor c =
    Postgres.◌>>=◌
      (apply_pending_delta (record { account_id = suspense_id; delta_minor = delta_minor }))
      (λ _. commit_step env saga c)

-- `finish`
unfoldable pub finish : Uuid → StepStatus → Option Uuid → String → Run (Unit {0})
finish attempt_id status tx_id failure =
    if attempt_id == nil_uuid
    then pure tt
    else storing failure 1000 (
        run_tx (
          finish_attempt (record {
            id = attempt_id;
            status = status;
            transaction_id = tx_id;
            error = truncate failure 1000;
          })))

-- A forward reserve that succeeded with a transaction.
abbrev reserved_by : Attempt → Option Uuid
reserved_by a = elim a.step [
  | reserve ↦ elim a.direction [
    | forward ↦ elim a.status [ StepStatus.succeeded ↦ a.transaction_id | _ ↦ none ]
    | _ ↦ none
  ]
  | _ ↦ none
]

unfoldable pub first_reserve : List Attempt → Uuid
first_reserve [] = nil_uuid
first_reserve (a ∷ as') = elim (reserved_by a) [ none ↦ first_reserve as' | some id ↦ id ]

-- `reserveTransactionID`
unfoldable pub reserve_transaction_id : Uuid → Run Uuid
reserve_transaction_id id = do found ← run_tx (attempts id); pure (first_reserve found)

-- `terminalLedgerError`
unfoldable pub terminal_ledger_error : Error → Bool
terminal_ledger_error insufficient_funds = true
terminal_ledger_error account_not_postable = true
terminal_ledger_error account_not_found = true
terminal_ledger_error currency_mismatch = true
terminal_ledger_error mixed_currency = true
terminal_ledger_error invalid_currency = true
terminal_ledger_error scale_mismatch = true
terminal_ledger_error invalid_entry = true
terminal_ledger_error too_few_entries = true
terminal_ledger_error unbalanced_transaction = true
terminal_ledger_error money_overflow = true
terminal_ledger_error invalid_transaction_type = true
terminal_ledger_error duplicate_idempotency_key = true
terminal_ledger_error already_reversed = true
terminal_ledger_error transaction_not_posted = true
terminal_ledger_error _ = false

-- `externalRef`
unfoldable pub external_ref : Payload → Option String
external_ref p = if str_eq p.external_ref "" then none else some p.external_ref
