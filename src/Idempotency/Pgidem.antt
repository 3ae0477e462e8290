-- ===== src/Idempotency/Pgidem.antt =====
-- internal/idempotency/pgidem/store.go: the statements on idempotency_keys, whose primary key is
-- (principal_id, key). Each of them but `Complete`, which joins the ledger's transaction, is a
-- database transaction of its own.
use ledger_core.Base.{
  ℕ, ◌+◌, String, List, [], ◌∷◌, ◌++◌, Bool, true, false, ◌&&◌, Option, none, some, ltb, leb,
  if◌then◌else◌,
}
use ledger_core.Errors.{Result, ok, err, lease_lost}
use ledger_core.Idempotency.Types.{
  Record, Reservation, Completion, Status, in_progress, completed, failed, names_row,
}
use ledger_core.Postgres.{Tx}

abbrev pub is_in_progress : Status → Bool
is_in_progress in_progress = true
is_in_progress _ = false

-- The record under a principal's key.
unfoldable pub find_record : String → String → List Record → Option Record
find_record principal key [] = none
find_record principal key (r ∷ rs) =
    if names_row principal key r then some r else find_record principal key rs

-- `UPDATE ... WHERE principal_id = $1 AND key = $2`, for the one row that has this key.
unfoldable pub map_record : String → String → (Record → Record) → List Record → List Record
map_record principal key f [] = []
map_record principal key f (r ∷ rs) =
    if names_row principal key r then f r ∷ rs else r ∷ map_record principal key f rs

unfoldable pub erase_record : String → String → List Record → List Record
erase_record principal key [] = []
erase_record principal key (r ∷ rs) =
    if names_row principal key r then rs else r ∷ erase_record principal key rs

abbrev pub min_time : ℕ → ℕ → ℕ
min_time a b = if ltb b a then b else a

abbrev reserved_record : ℕ → Reservation → Record
reserved_record now r = record {
  principal_id = r.principal_id;
  key = r.key;
  fingerprint = r.fingerprint;
  status = in_progress;
  response_status = 0;
  response_body = "";
  transaction_id = none;
  method = r.method;
  route = r.route;
  created_at = now;
  expires_at = now + r.ttl;
  lease_expires_at = now + r.lease;
}

-- `INSERT ... ON CONFLICT DO NOTHING`: whether the row was inserted.
unfoldable pub reserve : ℕ → Reservation → List Record → Bool × List Record
unfolding find_record
reserve now r table = elim (find_record r.principal_id r.key table) [
  | none ↦ (true, table ++ (reserved_record now r ∷ []))
  | some _ ↦ (false, table)
]

unfoldable pub lookup : String → String → List Record → Option Record
unfolding find_record
lookup principal key table = find_record principal key table

-- Whether a lapsed lease was taken over; the new lease ends with the record at the latest.
unfoldable pub reclaim : ℕ → String → String → ℕ → List Record → Bool × List Record
unfolding find_record map_record
reclaim now principal key lease table = elim (find_record principal key table) [
  | none ↦ (false, table)
  | some r ↦
      if is_in_progress r.status && leb r.lease_expires_at now
      then (
        true,
        map_record principal key
            (λ x. record x { lease_expires_at = min_time (now + lease) x.expires_at }) table,
      )
      else (false, table)
]

unfoldable pub fail : String → String → ℕ → String → List Record → Result (Unit {0}) × List Record
unfolding find_record map_record
fail principal key response_status response_body table = elim (find_record principal key table) [
  | none ↦ (err lease_lost, table)
  | some r ↦
      if is_in_progress r.status
      then (
        ok tt,
        map_record principal key
            (λ x. record x {
              status = failed;
              response_status = response_status;
              response_body = response_body;
            })
            table,
      )
      else (err lease_lost, table)
]

unfoldable pub release : String → String → List Record → List Record
unfolding find_record erase_record
release principal key table = elim (find_record principal key table) [
  | none ↦ table
  | some r ↦ if is_in_progress r.status then erase_record principal key table else table
]

abbrev pub finished : Completion → Record → Record
finished c r = record r {
  status = completed;
  response_status = c.response_status;
  response_body = c.response_body;
  transaction_id = some c.transaction_id;
}

-- `Complete`, a statement of the ledger's transaction.
unfoldable pub complete : Completion → Tx (Unit {0})
unfolding find_record map_record
complete c db = elim (find_record c.principal_id c.key db.idempotency_keys) [
  | none ↦ err lease_lost
  | some r ↦
      if is_in_progress r.status
      then ok (
        tt,
        record db {
          idempotency_keys = map_record c.principal_id c.key (finished c) db.idempotency_keys;
        },
      )
      else err lease_lost
]
