-- ===== src/Ledger/Statements/Tests.antt =====
-- A statement of a small transfer, in one page and cut after its first line.
use ledger_core.Base.{length, ◌≤◌}
use ledger_core.Ledger.Statements.Running.{AreRunning, statement_reconciles}
use ledger_core.Base.{none, subst, arith}
use ledger_core.Base.{◌≡◌, refl, pos, wrap64, ◌+ℤ◌, ◌-ℤ◌, neg_ℤ}
use ledger_core.Errors.{ok, err, panicked}
use ledger_core.Ledger.Money
use ledger_core.Ledger.Tests.Book.{paid}
use ledger_core.Base.Int.{neg_ℤ}
use ledger_core.Base.Int64.{wrap64}
use ledger_core.Ledger.Aggregate.{aggregate_entry, aggregate_entries}
use ledger_core.Ledger.Events.{
  uniform_currency, append_balance_updated_events, append_transaction_event, complete_idempotency,
}
use ledger_core.Ledger.Money.{
  matches_currency_pattern, new_money, add, add_int64, equal, same_currency,
}
use ledger_core.Ledger.Posting.{
  route_to_shards, index_accounts, check_accounts, check_currencies, lock_and_validate,
  build_entries_from, build_entries, apply_delta, apply_deltas, apply_entries,
}
use ledger_core.Ledger.Repository.{
  active_shards, resolve_shards, locked_account, locked_rows, lock_accounts, insert_transaction,
  insert_entry, insert_entries, apply_balance_delta, insert_by_seq, entries_of, scan_entries,
  load_transaction_for_update, mark_reversed, append_event,
}
use ledger_core.Ledger.Request.{validate_entry, validate_entries, validate, validate_account}
use ledger_core.Ledger.Routing.{
  mem_id, distinct_ids, insert_id, sort_ids, sorted_account_ids, choose_shard, route_entry,
  route_entries,
}
use ledger_core.Ledger.Service.{
  write_transaction, posting, post_transaction, reversing, reverse, opening, create_account,
}
use ledger_core.Ledger.Types.{
  is_valid_direction, opposite, is_valid_account_type, normal_balance, is_postable,
  is_valid_transaction_type, signed_amount,
}
use ledger_core.Postgres.{imbalance, commit_check, run_tx}
use ledger_core.Ledger.Reads.{get_balance_as_of}
use ledger_core.Ledger.Statements.{
  StatementQuery, Statement, get_statement, opening_minor, entries_after, insert_by_time, by_time,
  scan_lines, closing_balance, cut_page,
}
use ledger_core.Ledger.Statements.Closing.{closing_as_of}

abbrev whole : StatementQuery
whole = record { account_id = 2; from = 0; to = 1000; limit = 10; after = none }

whole_statement :
    (s : Statement) × (get_statement paid whole ≡ ok s)
    × (s.next_cursor ≡ none)
    × (s.closing ≡ record { amount_minor = pos 500; currency = "USD" })
unfolding get_statement opening_minor entries_after insert_by_time by_time scan_lines
    closing_balance cut_page matches_currency_pattern new_money add add_int64 equal same_currency
    is_valid_direction opposite is_valid_account_type normal_balance is_postable
    is_valid_transaction_type signed_amount validate_entry validate_entries validate
    validate_account mem_id distinct_ids insert_id sort_ids sorted_account_ids choose_shard
    route_entry route_entries active_shards resolve_shards locked_account locked_rows lock_accounts
    insert_transaction insert_entry insert_entries apply_balance_delta insert_by_seq entries_of
    scan_entries load_transaction_for_update mark_reversed append_event aggregate_entry
    aggregate_entries route_to_shards index_accounts check_accounts check_currencies
    lock_and_validate build_entries_from build_entries apply_delta apply_deltas apply_entries
    uniform_currency append_balance_updated_events append_transaction_event complete_idempotency
    write_transaction posting post_transaction reversing reverse opening create_account
    Money.validate imbalance commit_check run_tx wrap64 ◌+ℤ◌ ◌-ℤ◌ neg_ℤ
whole_statement = (_, refl, refl, refl)

no_room : get_statement paid (record whole { limit = 0 }) ≡ err panicked
unfolding get_statement opening_minor entries_after insert_by_time by_time scan_lines
    closing_balance cut_page matches_currency_pattern new_money add add_int64 equal same_currency
    is_valid_direction opposite is_valid_account_type normal_balance is_postable
    is_valid_transaction_type signed_amount validate_entry validate_entries validate
    validate_account mem_id distinct_ids insert_id sort_ids sorted_account_ids choose_shard
    route_entry route_entries active_shards resolve_shards locked_account locked_rows lock_accounts
    insert_transaction insert_entry insert_entries apply_balance_delta insert_by_seq entries_of
    scan_entries load_transaction_for_update mark_reversed append_event aggregate_entry
    aggregate_entries route_to_shards index_accounts check_accounts check_currencies
    lock_and_validate build_entries_from build_entries apply_delta apply_deltas apply_entries
    uniform_currency append_balance_updated_events append_transaction_event complete_idempotency
    write_transaction posting post_transaction reversing reverse opening create_account
    Money.validate imbalance commit_check run_tx wrap64 ◌+ℤ◌ ◌-ℤ◌ neg_ℤ
no_room = refl

closing_as_of_example :
    get_balance_as_of paid 2 1000 ≡ ok (record { amount_minor = pos 500; currency = "USD" })
closing_as_of_example =
    let (s, got, last, closing) = whole_statement in
    subst (λ m. get_balance_as_of paid 2 1000 ≡ ok m) closing
      (closing_as_of paid whole s (omega arith) got last)

statement_reconciles_example :
    (length whole_statement.0.lines ≤ 10)
    × AreRunning whole_statement.0.opening.amount_minor whole_statement.0.lines
statement_reconciles_example = statement_reconciles paid whole whole_statement.0 whole_statement.1
