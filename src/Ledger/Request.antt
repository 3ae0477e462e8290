-- ===== src/Ledger/Request.antt =====
-- internal/ledger/service.go: the requests, and what is checked before the database is touched.
pub mod Totals
use ledger_core.Base.{
  ℕ, String, List, [], ◌∷◌, Bool, not, Option, ◌==◌, ltb, str_eq, leb_ℤ, if◌then◌else◌, length, pos,
}
use ledger_core.Errors.{
  Result, ok, require, ◌>>=◌, ◌>>◌, invalid_transaction_type, too_few_entries, invalid_entry,
  mixed_currency, unbalanced_transaction, invalid_account_type,
}
use ledger_core.Ledger.Money.{Money, new_money, add, equal}
use ledger_core.Ledger.Money
use ledger_core.Ledger.Types.{
  Uuid, nil_uuid, Direction, debit, direction_eq, is_valid_direction, opposite, AccountType,
  is_valid_account_type, Transaction, TransactionType, is_valid_transaction_type, JournalEntry,
}
use ledger_core.Postgres.{Tx}

pub record EntryRequest : Type 0 where
  pub account_id : Uuid
  pub direction : Direction
  pub amount : Money

-- The HTTP layer's callback: none where rendering fails.
abbrev pub ResponseRenderer : Type 0
ResponseRenderer = Transaction → Option (ℕ × String)

-- Work of the caller inside the transaction.
abbrev pub Recorder : Type 0
Recorder = Transaction → Tx (Unit {0})

pub record Idempotent : Type 0 where
  pub principal_id : String
  pub key : String
  pub render : Option ResponseRenderer

pub record TransactionRequest : Type 0 where
  pub principal_id : String
  pub transaction_type : TransactionType
  pub external_ref : Option String
  pub metadata : List (String × String)
  pub entries : List EntryRequest
  pub idempotency_key : Option String
  pub idempotency : Option Idempotent
  pub recorder : Option Recorder

-- One round of the loop in `TransactionRequest.validate`, over the two totals.
unfoldable pub validate_entry : String → EntryRequest → Money × Money → Result (Money × Money)
validate_entry currency e (debits, credits) = do
  require (not (e.account_id == nil_uuid)) invalid_entry
  require (is_valid_direction e.direction) invalid_entry
  Money.validate e.amount
  require (not (leb_ℤ e.amount.amount_minor (pos 0))) invalid_entry
  require (str_eq e.amount.currency currency) mixed_currency
  if direction_eq e.direction debit
      then (add debits e.amount >>= λ total. ok (total, credits))
      else (add credits e.amount >>= λ total. ok (debits, total))

unfoldable pub validate_entries :
    String → List EntryRequest → Money × Money → Result (Money × Money)
validate_entries currency [] totals = ok totals
validate_entries currency (e ∷ es) totals =
    validate_entry currency e totals >>= λ totals'. validate_entries currency es totals'

abbrev pub first_currency : List EntryRequest → String
first_currency [] = ""
first_currency (e ∷ _) = e.amount.currency

-- `TransactionRequest.validate`
unfoldable pub validate : TransactionRequest → Result (Unit {0})
validate r = do
  require (is_valid_transaction_type r.transaction_type) invalid_transaction_type
  require (not (ltb (length r.entries) 2)) too_few_entries
  zero_total ← new_money (pos 0) (first_currency r.entries)
  totals ← validate_entries (first_currency r.entries) r.entries (zero_total, zero_total)
  require (equal totals.0 totals.1) unbalanced_transaction

pub record CreateAccountRequest : Type 0 where
  pub external_ref : String
  pub account_type : AccountType
  pub currency : String
  pub owner_id : Option String
  pub allow_negative : Bool

-- `CreateAccountRequest.validate`
unfoldable pub validate_account : CreateAccountRequest → Result (Unit {0})
validate_account r = do
  require (not (str_eq r.external_ref "")) invalid_entry
  require (is_valid_account_type r.account_type) invalid_account_type
  new_money (pos 0) r.currency >>= λ _. ok tt

-- A leg with its direction turned round, as `doReverse` mirrors it.
abbrev pub mirror : JournalEntry → EntryRequest
mirror e = record { account_id = e.account_id; direction = opposite e.direction; amount = e.amount }
