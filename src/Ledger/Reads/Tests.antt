-- ===== src/Ledger/Reads/Tests.antt =====
-- The reads on the books of a small transfer, with an account that has a shard.
use ledger_core.Base.{◌≡◌, refl, some, pos, All, leb, true, wrap64, ◌+ℤ◌, ◌-ℤ◌, neg_ℤ}
use ledger_core.Errors.{ok, err, account_not_found}
use ledger_core.Ledger.Reads.{
  physical, sum_entries, balance_rows, sum_rows, sum_versions, get_balance, read_balance,
  get_balance_as_of, page_limit,
}
use ledger_core.Ledger.Reads.Agreement.{AreShards, get_balance_agrees}
use ledger_core.Ledger.Money
use ledger_core.Ledger.Routing.Order.{NoRepeat}
use ledger_core.Postgres.{AccountRow}
use ledger_core.Ledger.Tests.{paid-IsConsistent}
use ledger_core.Ledger.Tests.Book.{paid}
use ledger_core.Ledger.Types.{JournalEntry}
use ledger_core.Base.Int.{neg_ℤ}
use ledger_core.Base.Int64.{wrap64}
use ledger_core.Ledger.Aggregate.{aggregate_entry, aggregate_entries}
use ledger_core.Ledger.Events.{
  uniform_currency, append_balance_updated_events, append_transaction_event, complete_idempotency,
}
use ledger_core.Ledger.Money.{
  matches_currency_pattern, new_money, add, add_int64, equal, same_currency,
}
use ledger_core.Ledger.Posting.{
  route_to_shards, index_accounts, check_accounts, check_currencies, lock_and_validate,
  build_entries_from, build_entries, apply_delta, apply_deltas, apply_entries,
}
use ledger_core.Ledger.Repository.{
  active_shards, resolve_shards, locked_account, locked_rows, lock_accounts, insert_transaction,
  insert_entry, insert_entries, apply_balance_delta, insert_by_seq, entries_of, scan_entries,
  load_transaction_for_update, mark_reversed, append_event,
}
use ledger_core.Ledger.Request.{validate_entry, validate_entries, validate, validate_account}
use ledger_core.Ledger.Routing.{
  mem_id, distinct_ids, insert_id, sort_ids, sorted_account_ids, choose_shard, route_entry,
  route_entries,
}
use ledger_core.Ledger.Service.{
  write_transaction, posting, post_transaction, reversing, reverse, opening, create_account,
}
use ledger_core.Ledger.Types.{
  is_valid_direction, opposite, is_valid_account_type, normal_balance, is_postable,
  is_valid_transaction_type, signed_amount,
}
use ledger_core.Postgres.{imbalance, commit_check, run_tx}

paid_reads :
    (get_balance paid 2
      ≡ ok (record {
        account_id = 2;
        available = record { amount_minor = pos 500; currency = "USD" };
        pending = record { amount_minor = pos 0; currency = "USD" };
        version = 1;
      }))
    × (get_balance paid 9 ≡ err account_not_found)
    × (page_limit 0 ≡ 100)
    × (page_limit 1001 ≡ 1000)
unfolding get_balance read_balance balance_rows sum_rows sum_versions get_balance_as_of sum_entries
    page_limit matches_currency_pattern new_money add add_int64 equal same_currency
    is_valid_direction opposite is_valid_account_type normal_balance is_postable
    is_valid_transaction_type signed_amount validate_entry validate_entries validate
    validate_account mem_id distinct_ids insert_id sort_ids sorted_account_ids choose_shard
    route_entry route_entries active_shards resolve_shards locked_account locked_rows lock_accounts
    insert_transaction insert_entry insert_entries apply_balance_delta insert_by_seq entries_of
    scan_entries load_transaction_for_update mark_reversed append_event aggregate_entry
    aggregate_entries route_to_shards index_accounts check_accounts check_currencies
    lock_and_validate build_entries_from build_entries apply_delta apply_deltas apply_entries
    uniform_currency append_balance_updated_events append_transaction_event complete_idempotency
    write_transaction posting post_transaction reversing reverse opening create_account
    Money.validate imbalance commit_check run_tx wrap64 ◌+ℤ◌ ◌-ℤ◌ neg_ℤ
paid_reads = (refl, refl, refl, refl)

paid_entries :
    (row : AccountRow) × (paid.accounts 2 ≡ some row)
    × NoRepeat (physical paid 2)
    × AreShards paid row.normal_balance (physical paid 2)
    × All (λ (e : JournalEntry). leb e.created_at 1000 ≡ true) paid.journal
unfolding matches_currency_pattern new_money add add_int64 equal same_currency is_valid_direction
    opposite is_valid_account_type normal_balance is_postable is_valid_transaction_type
    signed_amount validate_entry validate_entries validate validate_account mem_id distinct_ids
    insert_id sort_ids sorted_account_ids choose_shard route_entry route_entries active_shards
    resolve_shards locked_account locked_rows lock_accounts insert_transaction insert_entry
    insert_entries apply_balance_delta insert_by_seq entries_of scan_entries
    load_transaction_for_update mark_reversed append_event aggregate_entry aggregate_entries
    route_to_shards index_accounts check_accounts check_currencies lock_and_validate
    build_entries_from build_entries apply_delta apply_deltas apply_entries uniform_currency
    append_balance_updated_events append_transaction_event complete_idempotency write_transaction
    posting post_transaction reversing reverse opening create_account Money.validate imbalance
    commit_check run_tx wrap64 ◌+ℤ◌ ◌-ℤ◌ neg_ℤ
paid_entries = (_, refl, (refl, tt), ((_, refl, refl), tt), (refl, (refl, tt)))

get_balance_agrees_example :
    get_balance_as_of paid 2 1000 ≡ ok (record { amount_minor = pos 500; currency = "USD" })
get_balance_agrees_example =
    let (row, found, distinct, shards, before) = paid_entries in
    get_balance_agrees paid 2 1000 row _ paid-IsConsistent found distinct shards before paid_reads.0
