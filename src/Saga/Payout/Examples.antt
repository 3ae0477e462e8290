-- ===== src/Saga/Payout/Examples.antt =====
-- The theorems on payouts at the payout of the tests.
use ledger_core.Base.{
  ◌≡◌, refl, ap, Bool, true, false, ℕ, zero, suc, List, [], ◌∷◌, Option, none, some, arith, wrap64,
  ◌+ℤ◌, ◌-ℤ◌, neg_ℤ, ◌+◌, ◌*◌,
}
use ledger_core.Errors.{Result, ok}
use ledger_core.Saga.Payout.Keeps.{start-IsConsistent}
use ledger_core.Saga.Types.{is_terminal, Status, Step, Instance}
use ledger_core.Ledger.Consistency.{IsConsistent}
use ledger_core.Ledger.Service.Opens.{create_account-IsConsistent}
use ledger_core.Ledger.Service.{create_account}
use ledger_core.Ledger.Tests.{paid-IsConsistent}
use ledger_core.Ledger.Tests.Book.{drawn, paid}
use ledger_core.Postgres.{Db}
use ledger_core.Saga.Payout.{first_instance}
use ledger_core.Saga.Payout.Books.{drive_one-IsConsistent}
use ledger_core.Saga.Payout.Progress.{Arrived}
use ledger_core.Saga.Payout.Run.{Env}
use ledger_core.Saga.Payout.Steps.{drive_one, reservation, settlement, settle_request}
use ledger_core.Saga.Payout.Termination.{drive_one-Arrived, drives_end, drives, SameConfig, Ended}
use ledger_core.Ledger.Request
use ledger_core.Saga.Payout.Valid.{settlement_accepted}
use ledger_core.Saga.Payout.Together.{Together, reserve-Together, settle-Together}
use ledger_core.Saga.Payout.Tests.{
  called, account, ready, begun, config, env, paid_out, payload, first,
}
use ledger_core.Ledger.Money
use ledger_core.Saga.Payout
use ledger_core.Saga.Pgsaga
use ledger_core.Saga.Payout.Run
use ledger_core.Saga.Payout.Outcomes
use ledger_core.Saga.Payout.Steps
use ledger_core.Gateway.{conclusive, succeeded}
use ledger_core.Ledger.Aggregate.{aggregate_entries, aggregate_entry}
use ledger_core.Ledger.Events.{
  append_balance_updated_events, append_transaction_event, complete_idempotency, uniform_currency,
}
use ledger_core.Ledger.Money.{
  add, add_int64, equal, matches_currency_pattern, new_money, same_currency,
}
use ledger_core.Ledger.Posting.{
  apply_delta, apply_deltas, apply_entries, build_entries, build_entries_from, check_accounts,
  check_currencies, index_accounts, lock_and_validate, route_to_shards,
}
use ledger_core.Ledger.Repository.{
  active_shards, append_event, apply_balance_delta, apply_pending_delta, entries_of, insert_by_seq,
  insert_entries, insert_entry, insert_transaction, load_transaction_for_update, lock_accounts,
  locked_account, locked_rows, mark_reversed, resolve_shards, scan_entries,
}
use ledger_core.Ledger.Request.{validate, validate_account, validate_entries, validate_entry}
use ledger_core.Ledger.Routing.{
  choose_shard, distinct_ids, insert_id, mem_id, route_entries, route_entry, sort_ids,
  sorted_account_ids,
}
use ledger_core.Ledger.Service.{
  opening, post_transaction, posting, reverse, reversing, write_transaction,
}
use ledger_core.Ledger.Types.{
  is_postable, is_valid_account_type, is_valid_direction, is_valid_transaction_type, normal_balance,
  opposite, signed_amount,
}
use ledger_core.Postgres.{commit_check, imbalance, run_tx}
use ledger_core.Saga.Payout.{gateway_key, merchant_minor, start, step_key}
use ledger_core.Saga.Payout.Outcomes.{
  defer_ambiguity, fail_compensation, fail_forward_step, settle_gateway_outcome,
}
use ledger_core.Saga.Payout.Run.{
  external_ref, finish, first_reserve, must_new_money, next_attempt, prefix, record_step,
  reserve_transaction_id, terminal_ledger_error, truncate, cuts_character, ends_inside,
}
use ledger_core.Saga.Payout.Steps.{
  begin_compensation, call_gateway, compensate, confirm_compensated, drive_status, resolve_gateway,
  settle, settle_entries,
}
use ledger_core.Saga.Pgsaga.{advance, begin_step, insert_attempt}
use ledger_core.Saga.Store.{
  attempts, create, finish_attempt, finish_rows, get, max_number, next_attempt_number,
  record_attempt, rows_of, unresolved_attempt, where_attempts, where_rows,
}

ready-IsConsistent : IsConsistent ready
ready-IsConsistent = create_account-IsConsistent (drawn 5) (account "fees") _ (
    create_account-IsConsistent (drawn 4) (account "merchant") _
      (create_account-IsConsistent (drawn 3) (account "suspense") paid paid-IsConsistent))

begun-IsConsistent : IsConsistent begun
begun-IsConsistent =
    start-IsConsistent config (some 90) payload "shop" none ready ready-IsConsistent

drive_one-IsConsistent_example : IsConsistent (drive_one (env 100 paid_out) (first payload) begun).1
drive_one-IsConsistent_example =
    drive_one-IsConsistent (env 100 paid_out) (first payload) begun (ground arith) (ground arith)
      begun-IsConsistent

abbrev reserving : Result (Unit {0}) × Db
reserving = drive_one (env 100 paid_out) (first payload) begun

reserving-ok : reserving.0 ≡ ok tt
unfolding Run.◌>>=◌ Run.try Run.lift Run.pure drive_status wrap64 ◌+ℤ◌ ◌-ℤ◌ neg_ℤ
    matches_currency_pattern new_money add add_int64 equal same_currency is_valid_direction opposite
    is_valid_account_type normal_balance is_postable is_valid_transaction_type signed_amount
    validate_entry validate_entries validate validate_account mem_id distinct_ids insert_id sort_ids
    sorted_account_ids choose_shard route_entry route_entries active_shards resolve_shards
    locked_account locked_rows lock_accounts insert_transaction insert_entry insert_entries
    apply_balance_delta insert_by_seq entries_of scan_entries load_transaction_for_update
    mark_reversed append_event aggregate_entry aggregate_entries route_to_shards index_accounts
    check_accounts check_currencies lock_and_validate build_entries_from build_entries apply_delta
    apply_deltas apply_entries uniform_currency append_balance_updated_events
    append_transaction_event complete_idempotency write_transaction posting post_transaction
    reversing reverse opening create_account Money.validate imbalance commit_check run_tx advance
    insert_attempt begin_step record_step next_attempt next_attempt_number max_number where_attempts
    finish finish_attempt finish_rows must_new_money truncate prefix cuts_character ends_inside
    first_reserve attempts reserve_transaction_id unresolved_attempt get create rows_of where_rows
    apply_pending_delta terminal_ledger_error external_ref fail_forward_step fail_compensation
    defer_ambiguity settle_gateway_outcome settle call_gateway resolve_gateway settle_entries
    begin_compensation confirm_compensated compensate drive_one start merchant_minor gateway_key
    step_key conclusive succeeded record_attempt Pgsaga.commit_step Run.commit_step Pgsaga.escalate
    Outcomes.escalate Steps.reserve Payout.validate
reserving-ok = refl

begun_saga : begun.saga_instances 90 ≡ some (first payload)
unfolding Run.◌>>=◌ Run.try Run.lift Run.pure drive_status wrap64 ◌+ℤ◌ ◌-ℤ◌ neg_ℤ
    matches_currency_pattern new_money add add_int64 equal same_currency is_valid_direction opposite
    is_valid_account_type normal_balance is_postable is_valid_transaction_type signed_amount
    validate_entry validate_entries validate validate_account mem_id distinct_ids insert_id sort_ids
    sorted_account_ids choose_shard route_entry route_entries active_shards resolve_shards
    locked_account locked_rows lock_accounts insert_transaction insert_entry insert_entries
    apply_balance_delta insert_by_seq entries_of scan_entries load_transaction_for_update
    mark_reversed append_event aggregate_entry aggregate_entries route_to_shards index_accounts
    check_accounts check_currencies lock_and_validate build_entries_from build_entries apply_delta
    apply_deltas apply_entries uniform_currency append_balance_updated_events
    append_transaction_event complete_idempotency write_transaction posting post_transaction
    reversing reverse opening create_account Money.validate imbalance commit_check run_tx advance
    insert_attempt begin_step record_step next_attempt next_attempt_number max_number where_attempts
    finish finish_attempt finish_rows must_new_money truncate prefix cuts_character ends_inside
    first_reserve attempts reserve_transaction_id unresolved_attempt get create rows_of where_rows
    apply_pending_delta terminal_ledger_error external_ref fail_forward_step fail_compensation
    defer_ambiguity settle_gateway_outcome settle call_gateway resolve_gateway settle_entries
    begin_compensation confirm_compensated compensate drive_one start merchant_minor gateway_key
    step_key conclusive succeeded record_attempt Pgsaga.commit_step Run.commit_step Pgsaga.escalate
    Outcomes.escalate Steps.reserve Payout.validate
begun_saga = refl

drive_one-Arrived_example : Arrived config (first payload) reserving.1
unfolding is_terminal
drive_one-Arrived_example =
    drive_one-Arrived (env 100 paid_out) (first payload) begun reserving.1 (ground arith)
      (ground arith) begun-IsConsistent refl refl begun_saga
      (ap (λ r. (r, reserving.1)) reserving-ok)

-- As many drives as the measure of a new payout asks for, and the database after them.
abbrev many : ℕ → List Env
many zero = []
many (suc n) = env (100 + n * 100) paid_out ∷ many n

many-config : (n : ℕ) → SameConfig config (many n)
many-config zero = tt
many-config (suc n) = (refl, many-config n)

abbrev all_driven : Option Db
all_driven = drives (many 55) 90 begun

abbrev given : Option Db → Db
given none = begun
given (some db) = db

abbrev is_given : Option Db → Bool
is_given none = false
is_given (some db) = true

given_lem : (o : Option Db) → is_given o ≡ true → o ≡ some (given o)
given_lem none h = cc
given_lem (some db) h = refl

all_driven_ok : is_given all_driven ≡ true
unfolding drives is_terminal Run.◌>>=◌ Run.try Run.lift Run.pure drive_status wrap64 ◌+ℤ◌ ◌-ℤ◌ neg_ℤ
    matches_currency_pattern new_money add add_int64 equal same_currency is_valid_direction opposite
    is_valid_account_type normal_balance is_postable is_valid_transaction_type signed_amount
    validate_entry validate_entries validate validate_account mem_id distinct_ids insert_id sort_ids
    sorted_account_ids choose_shard route_entry route_entries active_shards resolve_shards
    locked_account locked_rows lock_accounts insert_transaction insert_entry insert_entries
    apply_balance_delta insert_by_seq entries_of scan_entries load_transaction_for_update
    mark_reversed append_event aggregate_entry aggregate_entries route_to_shards index_accounts
    check_accounts check_currencies lock_and_validate build_entries_from build_entries apply_delta
    apply_deltas apply_entries uniform_currency append_balance_updated_events
    append_transaction_event complete_idempotency write_transaction posting post_transaction
    reversing reverse opening create_account Money.validate imbalance commit_check run_tx advance
    insert_attempt begin_step record_step next_attempt next_attempt_number max_number where_attempts
    finish finish_attempt finish_rows must_new_money truncate prefix cuts_character ends_inside
    first_reserve attempts reserve_transaction_id unresolved_attempt get create rows_of where_rows
    apply_pending_delta terminal_ledger_error external_ref fail_forward_step fail_compensation
    defer_ambiguity settle_gateway_outcome settle call_gateway resolve_gateway settle_entries
    begin_compensation confirm_compensated compensate drive_one start merchant_minor gateway_key
    step_key conclusive succeeded record_attempt Pgsaga.commit_step Run.commit_step Pgsaga.escalate
    Outcomes.escalate Steps.reserve Payout.validate
all_driven_ok = refl

drives_end_example : Ended 90 (given all_driven)
drives_end_example =
    drives_end config (many 55) (first payload) begun (given all_driven) (many-config 55)
      (ground arith) (ground arith) refl begun-IsConsistent begun_saga (ground arith)
      (given_lem all_driven all_driven_ok)

abbrev reserve_run : Result (Unit {0}) × Db
reserve_run = Steps.reserve (env 100 paid_out) (first payload) payload begun

reserve_run-ok : reserve_run.0 ≡ ok tt
unfolding Run.◌>>=◌ Run.try Run.lift Run.pure drive_status wrap64 ◌+ℤ◌ ◌-ℤ◌ neg_ℤ
    matches_currency_pattern new_money add add_int64 equal same_currency is_valid_direction opposite
    is_valid_account_type normal_balance is_postable is_valid_transaction_type signed_amount
    validate_entry validate_entries validate validate_account mem_id distinct_ids insert_id sort_ids
    sorted_account_ids choose_shard route_entry route_entries active_shards resolve_shards
    locked_account locked_rows lock_accounts insert_transaction insert_entry insert_entries
    apply_balance_delta insert_by_seq entries_of scan_entries load_transaction_for_update
    mark_reversed append_event aggregate_entry aggregate_entries route_to_shards index_accounts
    check_accounts check_currencies lock_and_validate build_entries_from build_entries apply_delta
    apply_deltas apply_entries uniform_currency append_balance_updated_events
    append_transaction_event complete_idempotency write_transaction posting post_transaction
    reversing reverse opening create_account Money.validate imbalance commit_check run_tx advance
    insert_attempt begin_step record_step next_attempt next_attempt_number max_number where_attempts
    finish finish_attempt finish_rows must_new_money truncate prefix cuts_character ends_inside
    first_reserve attempts reserve_transaction_id unresolved_attempt get create rows_of where_rows
    apply_pending_delta terminal_ledger_error external_ref fail_forward_step fail_compensation
    defer_ambiguity settle_gateway_outcome settle call_gateway resolve_gateway settle_entries
    begin_compensation confirm_compensated compensate drive_one start merchant_minor gateway_key
    step_key conclusive succeeded record_attempt Pgsaga.commit_step Run.commit_step Pgsaga.escalate
    Outcomes.escalate Steps.reserve Payout.validate
reserve_run-ok = refl

reserve-Together_example :
    Together
      (env 100 paid_out)
      (first payload)
      (reservation payload)
      Status.reserved
      Status.failed
      begun
      reserve_run.1
reserve-Together_example =
    reserve-Together (env 100 paid_out) (first payload) payload begun reserve_run.1 (ground arith)
      (ap (λ r. (r, reserve_run.1)) reserve_run-ok)

-- The row is read again before the settlement.
abbrev paid_saga : Instance
paid_saga = record (first payload) { status = Status.gateway_succeeded; current_step = Step.settle }

abbrev settle_run : Result (Unit {0}) × Db
settle_run = Steps.settle (env 300 paid_out) paid_saga payload called

settle_run-ok : settle_run.0 ≡ ok tt
unfolding Run.◌>>=◌ Run.try Run.lift Run.pure drive_status wrap64 ◌+ℤ◌ ◌-ℤ◌ neg_ℤ
    matches_currency_pattern new_money add add_int64 equal same_currency is_valid_direction opposite
    is_valid_account_type normal_balance is_postable is_valid_transaction_type signed_amount
    validate_entry validate_entries validate validate_account mem_id distinct_ids insert_id sort_ids
    sorted_account_ids choose_shard route_entry route_entries active_shards resolve_shards
    locked_account locked_rows lock_accounts insert_transaction insert_entry insert_entries
    apply_balance_delta insert_by_seq entries_of scan_entries load_transaction_for_update
    mark_reversed append_event aggregate_entry aggregate_entries route_to_shards index_accounts
    check_accounts check_currencies lock_and_validate build_entries_from build_entries apply_delta
    apply_deltas apply_entries uniform_currency append_balance_updated_events
    append_transaction_event complete_idempotency write_transaction posting post_transaction
    reversing reverse opening create_account Money.validate imbalance commit_check run_tx advance
    insert_attempt begin_step record_step next_attempt next_attempt_number max_number where_attempts
    finish finish_attempt finish_rows must_new_money truncate prefix cuts_character ends_inside
    first_reserve attempts reserve_transaction_id unresolved_attempt get create rows_of where_rows
    apply_pending_delta terminal_ledger_error external_ref fail_forward_step fail_compensation
    defer_ambiguity settle_gateway_outcome settle call_gateway resolve_gateway settle_entries
    begin_compensation confirm_compensated compensate drive_one start merchant_minor gateway_key
    step_key conclusive succeeded record_attempt Pgsaga.commit_step Run.commit_step Pgsaga.escalate
    Outcomes.escalate Steps.reserve Payout.validate
settle_run-ok = refl

settle-Together_example :
    Together
      (env 300 paid_out)
      paid_saga
      (settlement payload)
      Status.completed
      Status.compensating
      called
      settle_run.1
settle-Together_example =
    settle-Together (env 300 paid_out) paid_saga payload called settle_run.1 (ground arith)
      (ground arith) (ap (λ r. (r, settle_run.1)) settle_run-ok)

settlement_accepted_example :
    Request.validate (
      settle_request
        (env 300 paid_out)
        paid_saga
        payload
        (record { attempt_id = 330; number = 1 })
        (settlement payload))
    ≡ ok tt
unfolding Payout.validate matches_currency_pattern
settlement_accepted_example =
    settlement_accepted (env 300 paid_out) paid_saga payload
      (record { attempt_id = 330; number = 1 }) (ground arith) (ground arith) refl refl
