-- ===== src/Saga/Payout/Tests.antt =====
-- One payout of 300 with a fee of 20, driven step by step, and the ways it can go wrong.
use ledger_core.Base.{true, false}
use ledger_core.Base.{ℕ, ◌+◌, ◌≡◌, refl, String, Option, none, some, pos, wrap64, ◌+ℤ◌, ◌-ℤ◌, neg_ℤ}
use ledger_core.Ledger.Money
use ledger_core.Saga.Payout
use ledger_core.Saga.Pgsaga
use ledger_core.Saga.Payout.Run
use ledger_core.Saga.Payout.Outcomes
use ledger_core.Saga.Payout.Steps
use ledger_core.Errors.{Result, err, gateway_unavailable, ok, payment_declined}
use ledger_core.Gateway.{Client, Payment, conclusive, payment_succeeded, succeeded}
use ledger_core.Ledger.Aggregate.{aggregate_entries, aggregate_entry}
use ledger_core.Ledger.Events.{
  append_balance_updated_events, append_transaction_event, complete_idempotency, uniform_currency,
}
use ledger_core.Ledger.Money.{
  add, add_int64, equal, matches_currency_pattern, new_money, same_currency,
}
use ledger_core.Ledger.Posting.{
  apply_delta, apply_deltas, apply_entries, build_entries, build_entries_from, check_accounts,
  check_currencies, index_accounts, lock_and_validate, route_to_shards,
}
use ledger_core.Ledger.Repository.{
  active_shards, append_event, apply_balance_delta, apply_pending_delta, entries_of, insert_by_seq,
  insert_entries, insert_entry, insert_transaction, load_transaction_for_update, lock_accounts,
  locked_account, locked_rows, mark_reversed, resolve_shards, scan_entries,
}
use ledger_core.Ledger.Request.{
  CreateAccountRequest, validate, validate_account, validate_entries, validate_entry,
}
use ledger_core.Ledger.Routing.{
  choose_shard, distinct_ids, insert_id, mem_id, route_entries, route_entry, sort_ids,
  sorted_account_ids,
}
use ledger_core.Ledger.Service.{
  create_account, opening, post_transaction, posting, reverse, reversing, write_transaction,
}
use ledger_core.Ledger.Tests.Book.{alice, available, drawn, paid}
use ledger_core.Ledger.Types.{
  is_postable, is_valid_account_type, is_valid_direction, is_valid_transaction_type, normal_balance,
  opposite, signed_amount,
}
use ledger_core.Postgres.{Db, commit_check, imbalance, run_tx}
use ledger_core.Saga.Payout.{Config, gateway_key, merchant_minor, start, step_key}
use ledger_core.Saga.Payout.Outcomes.{
  defer_ambiguity, fail_compensation, fail_forward_step, settle_gateway_outcome,
}
use ledger_core.Saga.Payout.Run.{
  Env, external_ref, finish, first_reserve, must_new_money, next_attempt, prefix, record_step,
  reserve_transaction_id, terminal_ledger_error, truncate, cuts_character, ends_inside, broken,
}
use ledger_core.Saga.Payout.Steps.{
  drive_status, begin_compensation, call_gateway, compensate, confirm_compensated, drive_one,
  resolve_gateway, settle, settle_entries,
}
use ledger_core.Saga.Pgsaga.{advance, begin_step, insert_attempt}
use ledger_core.Saga.Store.{
  attempts, create, finish_attempt, finish_rows, get, max_number, next_attempt_number,
  record_attempt, rows_of, unresolved_attempt, where_attempts, where_rows,
}
use ledger_core.Saga.Types.{Instance, Payload, Status}

abbrev pub account : String → CreateAccountRequest
account ref = record alice { external_ref = ref }

-- Suspense 3, merchant 4 and fees 5, beside the customer 2, who has 500.
abbrev pub ready : Db
ready =
    (create_account (drawn 5) (account "fees")
      (create_account (drawn 4) (account "merchant")
        (create_account (drawn 3) (account "suspense") paid).1).1).1

abbrev pub config : Config
config = record {
  saga_type = "MARKETPLACE_PAYOUT";
  step_timeout = 60;
  max_step_attempts = 2;
  max_compensation_attempts = 3;
  max_probes = 2;
}

abbrev pub answering : Result Payment → Client
answering a = record { pay = λ _. a; probe = λ _. a }

abbrev pub env : ℕ → Result Payment → Env
env n answer = record {
  config = config;
  client = answering answer;
  show = λ _. "id";
  error_text = λ _. "error";
  attempt_id = some (n + 30);
  draws = drawn n;
  step_event_id = some (n + 31);
  alert_event_id = some (n + 32);
}

abbrev pub paid_out : Result Payment
paid_out = ok (record {
  key = "";
  reference = "";
  status = payment_succeeded;
  reason = "";
  amount_minor = pos 300;
  currency = "USD";
})

abbrev pub payload : Payload
payload = record {
  customer_wallet_id = 2;
  suspense_id = 3;
  merchant_payable_id = 4;
  fee_revenue_id = 5;
  amount_minor = pos 300;
  fee_minor = pos 20;
  currency = "USD";
  external_ref = "p90";
}

abbrev pub first : Payload → Instance
first p = Payout.first_instance config 100 90 p "shop" none

abbrev pub begun : Db
begun = (start config (some 90) payload "shop" none ready).1

-- One drive of the saga as it now stands.
abbrev pub driven : Env → Db → Db
driven e db = elim (db.saga_instances 90) [ none ↦ db | some saga ↦ (drive_one e saga db).1 ]

abbrev pub status_of : Db → Option Status
status_of db = elim (db.saga_instances 90) [ none ↦ none | some saga ↦ some saga.status ]

abbrev pub reserved : Db
reserved = driven (env 100 paid_out) begun

abbrev pub called : Db
called = driven (env 200 paid_out) reserved

abbrev pub settled : Db
settled = driven (env 300 paid_out) called

settled-completed : status_of settled ≡ some Status.completed
unfolding Run.◌>>=◌ Run.try Run.lift Run.pure drive_status wrap64 ◌+ℤ◌ ◌-ℤ◌ neg_ℤ
    matches_currency_pattern new_money add add_int64 equal same_currency is_valid_direction opposite
    is_valid_account_type normal_balance is_postable is_valid_transaction_type signed_amount
    validate_entry validate_entries validate validate_account mem_id distinct_ids insert_id sort_ids
    sorted_account_ids choose_shard route_entry route_entries active_shards resolve_shards
    locked_account locked_rows lock_accounts insert_transaction insert_entry insert_entries
    apply_balance_delta insert_by_seq entries_of scan_entries load_transaction_for_update
    mark_reversed append_event aggregate_entry aggregate_entries route_to_shards index_accounts
    check_accounts check_currencies lock_and_validate build_entries_from build_entries apply_delta
    apply_deltas apply_entries uniform_currency append_balance_updated_events
    append_transaction_event complete_idempotency write_transaction posting post_transaction
    reversing reverse opening create_account Money.validate imbalance commit_check run_tx advance
    insert_attempt begin_step record_step next_attempt next_attempt_number max_number where_attempts
    finish finish_attempt finish_rows must_new_money truncate prefix cuts_character ends_inside
    first_reserve attempts reserve_transaction_id unresolved_attempt get create rows_of where_rows
    apply_pending_delta terminal_ledger_error external_ref fail_forward_step fail_compensation
    defer_ambiguity settle_gateway_outcome settle call_gateway resolve_gateway settle_entries
    begin_compensation confirm_compensated compensate drive_one start merchant_minor gateway_key
    step_key conclusive succeeded record_attempt Pgsaga.commit_step Run.commit_step Pgsaga.escalate
    Outcomes.escalate Steps.reserve Payout.validate
settled-completed = refl

abbrev pub unanswered : Result Payment
unanswered = err gateway_unavailable

-- Reserved with no answer to the call or to any probe: after the second one a person decides.
abbrev pub lost : Db
lost =
    driven (env 400 unanswered) (driven (env 300 unanswered) (driven (env 200 unanswered) reserved))

lost-review : status_of lost ≡ some Status.needs_manual_review
unfolding Run.◌>>=◌ Run.try Run.lift Run.pure drive_status wrap64 ◌+ℤ◌ ◌-ℤ◌ neg_ℤ
    matches_currency_pattern new_money add add_int64 equal same_currency is_valid_direction opposite
    is_valid_account_type normal_balance is_postable is_valid_transaction_type signed_amount
    validate_entry validate_entries validate validate_account mem_id distinct_ids insert_id sort_ids
    sorted_account_ids choose_shard route_entry route_entries active_shards resolve_shards
    locked_account locked_rows lock_accounts insert_transaction insert_entry insert_entries
    apply_balance_delta insert_by_seq entries_of scan_entries load_transaction_for_update
    mark_reversed append_event aggregate_entry aggregate_entries route_to_shards index_accounts
    check_accounts check_currencies lock_and_validate build_entries_from build_entries apply_delta
    apply_deltas apply_entries uniform_currency append_balance_updated_events
    append_transaction_event complete_idempotency write_transaction posting post_transaction
    reversing reverse opening create_account Money.validate imbalance commit_check run_tx advance
    insert_attempt begin_step record_step next_attempt next_attempt_number max_number where_attempts
    finish finish_attempt finish_rows must_new_money truncate prefix cuts_character ends_inside
    first_reserve attempts reserve_transaction_id unresolved_attempt get create rows_of where_rows
    apply_pending_delta terminal_ledger_error external_ref fail_forward_step fail_compensation
    defer_ambiguity settle_gateway_outcome settle call_gateway resolve_gateway settle_entries
    begin_compensation confirm_compensated compensate drive_one start merchant_minor gateway_key
    step_key conclusive succeeded record_attempt Pgsaga.commit_step Run.commit_step Pgsaga.escalate
    Outcomes.escalate Steps.reserve Payout.validate
lost-review = refl

-- Declined: turned back and refunded.
abbrev pub declined : Db
declined =
    driven (env 400 paid_out)
      (driven (env 300 paid_out) (driven (env 200 (err payment_declined)) reserved))

declined-compensated :
    (status_of declined ≡ some Status.compensated) × (available 2 declined ≡ some (pos 500))
unfolding Run.◌>>=◌ Run.try Run.lift Run.pure drive_status wrap64 ◌+ℤ◌ ◌-ℤ◌ neg_ℤ
    matches_currency_pattern new_money add add_int64 equal same_currency is_valid_direction opposite
    is_valid_account_type normal_balance is_postable is_valid_transaction_type signed_amount
    validate_entry validate_entries validate validate_account mem_id distinct_ids insert_id sort_ids
    sorted_account_ids choose_shard route_entry route_entries active_shards resolve_shards
    locked_account locked_rows lock_accounts insert_transaction insert_entry insert_entries
    apply_balance_delta insert_by_seq entries_of scan_entries load_transaction_for_update
    mark_reversed append_event aggregate_entry aggregate_entries route_to_shards index_accounts
    check_accounts check_currencies lock_and_validate build_entries_from build_entries apply_delta
    apply_deltas apply_entries uniform_currency append_balance_updated_events
    append_transaction_event complete_idempotency write_transaction posting post_transaction
    reversing reverse opening create_account Money.validate imbalance commit_check run_tx advance
    insert_attempt begin_step record_step next_attempt next_attempt_number max_number where_attempts
    finish finish_attempt finish_rows must_new_money truncate prefix cuts_character ends_inside
    first_reserve attempts reserve_transaction_id unresolved_attempt get create rows_of where_rows
    apply_pending_delta terminal_ledger_error external_ref fail_forward_step fail_compensation
    defer_ambiguity settle_gateway_outcome settle call_gateway resolve_gateway settle_entries
    begin_compensation confirm_compensated compensate drive_one start merchant_minor gateway_key
    step_key conclusive succeeded record_attempt Pgsaga.commit_step Run.commit_step Pgsaga.escalate
    Outcomes.escalate Steps.reserve Payout.validate
declined-compensated = (refl, refl)

settled-balances :
    (available 2 settled ≡ some (pos 200))
    × (available 3 settled ≡ some (pos 0))
    × (available 4 settled ≡ some (pos 280))
    × (available 5 settled ≡ some (pos 20))
unfolding Run.◌>>=◌ Run.try Run.lift Run.pure drive_status wrap64 ◌+ℤ◌ ◌-ℤ◌ neg_ℤ
    matches_currency_pattern new_money add add_int64 equal same_currency is_valid_direction opposite
    is_valid_account_type normal_balance is_postable is_valid_transaction_type signed_amount
    validate_entry validate_entries validate validate_account mem_id distinct_ids insert_id sort_ids
    sorted_account_ids choose_shard route_entry route_entries active_shards resolve_shards
    locked_account locked_rows lock_accounts insert_transaction insert_entry insert_entries
    apply_balance_delta insert_by_seq entries_of scan_entries load_transaction_for_update
    mark_reversed append_event aggregate_entry aggregate_entries route_to_shards index_accounts
    check_accounts check_currencies lock_and_validate build_entries_from build_entries apply_delta
    apply_deltas apply_entries uniform_currency append_balance_updated_events
    append_transaction_event complete_idempotency write_transaction posting post_transaction
    reversing reverse opening create_account Money.validate imbalance commit_check run_tx advance
    insert_attempt begin_step record_step next_attempt next_attempt_number max_number where_attempts
    finish finish_attempt finish_rows must_new_money truncate prefix cuts_character ends_inside
    first_reserve attempts reserve_transaction_id unresolved_attempt get create rows_of where_rows
    apply_pending_delta terminal_ledger_error external_ref fail_forward_step fail_compensation
    defer_ambiguity settle_gateway_outcome settle call_gateway resolve_gateway settle_entries
    begin_compensation confirm_compensated compensate drive_one start merchant_minor gateway_key
    step_key conclusive succeeded record_attempt Pgsaga.commit_step Run.commit_step Pgsaga.escalate
    Outcomes.escalate Steps.reserve Payout.validate
settled-balances = (refl, refl, refl, refl)

-- A text that is cut inside a character is not stored.
cut_text :
    (cuts_character "aé" 2 ≡ true) × (truncate "aé" 2 ≡ "a�…") × (cuts_character "aé" 1 ≡ false)
unfolding cuts_character ends_inside truncate prefix broken
cut_text = (refl, refl, refl)
