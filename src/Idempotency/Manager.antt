-- ===== src/Idempotency/Manager.antt =====
-- internal/idempotency/store.go: what a request does that finds its key free, held or used. The
-- cache is code behind an interface: what its Get answers is an argument. A statement that fails
-- ends the call in its error; here the statements succeed. Times are nanoseconds.
pub mod Outcomes
use ledger_core.Base.{
  ℕ, ◌+◌, ◌-◌, ◌*◌, ◌/◌, String, List, Bool, true, false, not, Option, none, some, ltb, leb, str_eq,
  if◌then◌else◌,
}
use ledger_core.Errors.{Error, Result, ok, err, key_expired}
use ledger_core.Idempotency.Types.{Record, Reservation, is_terminal, validate}
use ledger_core.Idempotency.Pgidem.{reserve, lookup, reclaim}

-- The result of `Acquire`: the disposition, or one of its errors.
pub data Outcome : Type 0 where
  proceed : Outcome
  replay : Record → Outcome
  conflict : String → String → Outcome
  busy : ℕ → Outcome
  refused : Error → Outcome

abbrev second : ℕ
second = 1000000000

-- `retryAfter`: never below one second, else rounded to whole seconds.
unfoldable pub retry_after : ℕ → ℕ → ℕ
retry_after deadline now =
    let remaining = deadline - now in
    if ltb remaining second then second else (remaining + second / 2) / second * second

-- The `ttl` and the `lease` of the manager.
pub record Manager : Type 0 where
  pub ttl : ℕ
  pub lease : ℕ

abbrev pub default_ttl : ℕ
default_ttl = 24 * 3600 * second

abbrev pub default_lease : ℕ
default_lease = 30 * second

unfoldable pub new_manager : ℕ → ℕ → Manager
new_manager ttl lease = record {
  ttl = if leb ttl 0 then default_ttl else ttl;
  lease = if leb lease 0 then default_lease else lease;
}

-- `resolveExisting`, by the clock of the process; `now` is that of the database.
unfoldable pub resolve_existing : ℕ → ℕ → Record → Reservation → List Record → Outcome × List Record
resolve_existing clock now existing r table =
    if not (str_eq existing.fingerprint r.fingerprint)
    then (conflict existing.method existing.route, table)
    else elim (validate existing) [
      | err x ↦ (refused x, table)
      | ok _ ↦
          if not (ltb clock existing.expires_at)
          then (refused key_expired, table)
          else if is_terminal existing.status
          then (replay existing, table)
          else if ltb clock existing.lease_expires_at
          then (busy (retry_after existing.lease_expires_at clock), table)
          else let (won, table') = reclaim now existing.principal_id existing.key r.lease table in
            (if won then proceed else busy (retry_after (clock + r.lease) clock), table')
    ]

abbrev pub with_defaults : Manager → Reservation → Reservation
with_defaults m r = record r {
  ttl = if leb r.ttl 0 then m.ttl else r.ttl;
  lease = if leb r.lease 0 then m.lease else r.lease;
}

-- `Acquire`
unfoldable pub acquire :
    Manager → ℕ → ℕ → Option Record → Reservation → List Record → Outcome × List Record
acquire m clock now cached request table =
    let r = with_defaults m request in
    elim cached [
      | some c ↦ resolve_existing clock now c r table
      | none ↦
          let (won, table') = reserve now r table in
          if won then (proceed, table') else elim (lookup r.principal_id r.key table') [
            | none ↦ (busy second, table')
            | some existing ↦ resolve_existing clock now existing r table'
          ]
    ]
