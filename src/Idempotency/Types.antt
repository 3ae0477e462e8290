-- ===== src/Idempotency/Types.antt =====
-- internal/idempotency/record.go: the states of a key, its stored record, and the requests on it.
-- Response bodies and fingerprints are opaque texts.
use ledger_core.Base.{ℕ, String, Bool, true, false, ◌&&◌, ◌||◌, not, Option, ◌==◌, str_eq}
use ledger_core.Errors.{Result, require, corrupt_record}
use ledger_core.Ledger.Types.{Uuid}

pub data Status : Type 0 where
  in_progress completed failed : Status

-- `Status.Terminal`
unfoldable pub is_terminal : Status → Bool
is_terminal in_progress = false
is_terminal completed = true
is_terminal failed = true

pub record Record : Type 0 where
  pub principal_id : String
  pub key : String
  pub fingerprint : String
  pub status : Status
  pub response_status : ℕ
  pub response_body : String
  pub transaction_id : Option Uuid
  pub method : String
  pub route : String
  pub created_at : ℕ
  pub expires_at : ℕ
  pub lease_expires_at : ℕ

pub record Reservation : Type 0 where
  pub principal_id : String
  pub key : String
  pub fingerprint : String
  pub method : String
  pub route : String
  pub ttl : ℕ
  pub lease : ℕ

pub record Completion : Type 0 where
  pub principal_id : String
  pub key : String
  pub response_status : ℕ
  pub response_body : String
  pub transaction_id : Uuid

-- `Record.validate`
unfoldable pub validate : Record → Result (Unit {0})
validate r =
    require (not (is_terminal r.status && ((r.response_status == 0) || str_eq r.response_body "")))
      corrupt_record

-- The row of one principal's key, as `WHERE principal_id = $1 AND key = $2` finds it.
abbrev pub names_row : String → String → Record → Bool
names_row principal key r = str_eq r.principal_id principal && str_eq r.key key
