-- ===== src/Idempotency/Tests.antt =====
-- A key that is held, finished and swept.
use ledger_core.Base.{
  length, ◌≤◌, ◌⊎◌, true, ℕ, ◌<◌, ◌≡◌, ◌≢◌, refl, String, List, [], ◌∷◌, none, some,
}
use ledger_core.Errors.{ok}
use ledger_core.Idempotency.Types.{
  Record, Reservation, Completion, Status, in_progress, completed, is_terminal, validate,
}
use ledger_core.Idempotency.Pgidem.{
  find_record, map_record, finished, reserve, lookup, reclaim, complete,
}
use ledger_core.Idempotency.Manager.{
  Manager, Outcome, proceed, replay, conflict, acquire, resolve_existing, retry_after,
}
use ledger_core.Idempotency.Manager.Outcomes.{MayRun, acquire_runs, complete_replays}
use ledger_core.Idempotency.Sweep.{
  insert_by_expiry, expired_records, swept_keys, delete_keys, sweep, has_expired, count_expired,
  sweep_lem,
}
use ledger_core.Ledger.Tests.Book.{no_rows}
use ledger_core.Postgres.{Db}

abbrev manager : Manager
manager = record { ttl = 1000; lease = 30 }

abbrev request : Reservation
request = record {
  principal_id = "shop";
  key = "k";
  fingerprint = "f";
  method = "POST";
  route = "/transactions";
  ttl = 0;
  lease = 0;
}

abbrev row : String → Status → ℕ → ℕ → Record
row principal status lease_ends ends = record {
  principal_id = principal;
  key = "k";
  fingerprint = "f";
  status = status;
  response_status = 0;
  response_body = "";
  transaction_id = none;
  method = "POST";
  route = "/transactions";
  created_at = 5;
  expires_at = ends;
  lease_expires_at = lease_ends;
}

abbrev held : List Record
held = row "shop" in_progress 40 1000 ∷ []

-- After the lease another request takes the key over; before, it waits.
held_outcomes :
    (acquire manager 50 50 none request held ≡ (proceed, row "shop" in_progress 80 1000 ∷ []))
    × (acquire manager 30 30 none request held ≡ (Outcome.busy 1000000000, held))
unfolding acquire resolve_existing reserve lookup reclaim find_record map_record is_terminal
    validate retry_after
held_outcomes = (refl, refl)

acquire_runs_example : MayRun 50 request held
acquire_runs_example = acquire_runs manager 50 50 none request held (λ c e. cc) held_outcomes.0

abbrev completion : Completion
completion = record {
  principal_id = "shop";
  key = "k";
  response_status = 201;
  response_body = "done";
  transaction_id = 20;
}

abbrev holding : Db
holding = record no_rows { idempotency_keys = held }

abbrev completed_db : Db
completed_db = record no_rows {
  idempotency_keys = finished completion (row "shop" in_progress 40 1000) ∷ [];
}

completes : complete completion holding ≡ ok (tt, completed_db)
unfolding complete find_record map_record
completes = refl

complete_replays_example :
    (r : Record) × (find_record "shop" "k" held ≡ some r)
    × (r.fingerprint ≡ "f"
        → 60 < r.expires_at
        → acquire manager 60 60 none request completed_db.idempotency_keys
          ≡ (replay (finished completion r), completed_db.idempotency_keys))
    × (r.fingerprint ≢ "f"
        → acquire manager 60 60 none request completed_db.idempotency_keys
          ≡ (conflict r.method r.route, completed_db.idempotency_keys))
complete_replays_example =
    complete_replays manager 60 60 completion holding completed_db request completes refl refl refl
      refl

-- The expired row of one principal, and the live row of another under the same key.
abbrev shared : List Record
shared = row "bank" completed 10 10 ∷ row "shop" in_progress 1000 1000 ∷ []

sweep_lem_example :
    (length (swept_keys 50 100 shared) ≤ 100)
    × ((find_record "shop" "k" (sweep 50 100 shared).1 ≡ find_record "shop" "k" shared)
        ⊎ ((find_record "shop" "k" (sweep 50 100 shared).1 ≡ none)
            × (has_expired 50 "k" shared ≡ true)))
    × ((r : Record)
        → find_record "shop" "k" shared ≡ some r
        → r.expires_at < 50
        → count_expired 50 shared ≤ 100
        → find_record "shop" "k" (sweep 50 100 shared).1 ≡ none)
sweep_lem_example = sweep_lem 50 100 "shop" "k" shared

-- The live row goes with the expired one.
sweep_takes_live :
    (find_record "shop" "k" (sweep 50 100 shared).1 ≡ none) × ((sweep 50 100 shared).0 ≡ 2)
unfolding sweep delete_keys swept_keys expired_records insert_by_expiry find_record
sweep_takes_live = (refl, refl)
