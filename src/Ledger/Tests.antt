-- ===== src/Ledger/Tests.antt =====
-- The service on a small book.
pub mod Book
pub mod Parts
use ledger_core.Base.{
  ℕ, ◌+◌, ◌≡◌, refl, List, [], ◌∷◌, ◌++◌, map, Option, none, some, true, false, pos, ℤ, ◌-ℤ◌, arith,
  neg_ℤ, ◌+ℤ◌, wrap64,
}
use ledger_core.Errors.{
  Result, ok, err, already_reversed, insufficient_funds, transaction_not_found, invalid_entry,
}
use ledger_core.Ledger.Types.{
  Uuid, Direction, asset, liability, debit, credit, transfer, posted, reversed, Transaction,
}
use ledger_core.Ledger.Request.{CreateAccountRequest, EntryRequest, TransactionRequest}
use ledger_core.Ledger.Journal.{leg, AreInt64Legs}
use ledger_core.Ledger.Repository.Loading.{transaction_balance}
use ledger_core.Ledger.Posting.{Draws}
use ledger_core.Ledger.Posting.Deltas.{AccountMoved}
use ledger_core.Ledger.Service.Opens.{
  create_account-err, empty-IsConsistent, create_account-IsConsistent,
}
use ledger_core.Ledger.Routing.Order.{account_ids}
use ledger_core.Ledger.Service.Posts.{
  post_transaction_active, RecorderKeeps, post_transaction-err, post_transaction_moves,
  post_transaction-IsConsistent,
}
use ledger_core.Ledger.Service.Reverses.{
  reverse-err, reverse-IsConsistent, reverse_undoes, reverse_once,
}
use ledger_core.Ledger.Money.{
  matches_currency_pattern, new_money, add, add_int64, equal, same_currency,
}
use ledger_core.Ledger.Types.{
  is_valid_direction, opposite, is_valid_account_type, normal_balance, is_postable,
  is_valid_transaction_type, signed_amount,
}
use ledger_core.Ledger.Request.{validate_entry, validate_entries, validate, validate_account}
use ledger_core.Ledger.Routing.{
  mem_id, distinct_ids, insert_id, sort_ids, sorted_account_ids, choose_shard, route_entry,
  route_entries,
}
use ledger_core.Ledger.Repository.{
  active_shards, resolve_shards, locked_account, locked_rows, lock_accounts, insert_transaction,
  insert_entry, insert_entries, apply_balance_delta, insert_by_seq, entries_of, scan_entries,
  load_transaction_for_update, mark_reversed, append_event,
}
use ledger_core.Ledger.Aggregate.{aggregate_entry, aggregate_entries}
use ledger_core.Ledger.Posting.{
  route_to_shards, index_accounts, check_accounts, check_currencies, lock_and_validate,
  build_entries_from, build_entries, apply_delta, apply_deltas, apply_entries,
}
use ledger_core.Ledger.Events.{
  uniform_currency, append_balance_updated_events, append_transaction_event, complete_idempotency,
}
use ledger_core.Ledger.Service.Steps.{routed_entries}
use ledger_core.Ledger.Service.Writing.{leg_delta}
use ledger_core.Ledger.Service.{
  posting_header, write_transaction, posting, post_transaction, reversing, reverse, opening,
  create_account,
}
use ledger_core.Ledger.Money
use ledger_core.Ledger.Consistency.{IsConsistent}
use ledger_core.Postgres.{AccountRow, Db, imbalance, commit_check, run_tx}
use ledger_core.Ledger.Service.Accepts.{post_transaction_commits}
use ledger_core.Ledger.Tests.Book.{
  no_rows, drawn, house, alice, opened, entry, request, pay, overdraw, result_of, available, paid,
  pay_tx, refund, refunded, refund_tx,
}

pay_moves :
    (post_transaction (drawn 20) pay opened ≡ (ok pay_tx, paid))
    × (available 1 paid ≡ some (pos 500))
    × (available 2 paid ≡ some (pos 500))
    × ((post_transaction (drawn 20) overdraw opened).0 ≡ err insufficient_funds)
unfolding matches_currency_pattern new_money add add_int64 equal same_currency is_valid_direction
    opposite is_valid_account_type normal_balance is_postable is_valid_transaction_type
    signed_amount validate_entry validate_entries validate validate_account mem_id distinct_ids
    insert_id sort_ids sorted_account_ids choose_shard route_entry route_entries active_shards
    resolve_shards locked_account locked_rows lock_accounts insert_transaction insert_entry
    insert_entries apply_balance_delta insert_by_seq entries_of scan_entries
    load_transaction_for_update mark_reversed append_event aggregate_entry aggregate_entries
    route_to_shards index_accounts check_accounts check_currencies lock_and_validate
    build_entries_from build_entries apply_delta apply_deltas apply_entries uniform_currency
    append_balance_updated_events append_transaction_event complete_idempotency write_transaction
    posting post_transaction reversing reverse opening create_account Money.validate imbalance
    commit_check run_tx wrap64 ◌+ℤ◌ ◌-ℤ◌ neg_ℤ
pay_moves = (refl, refl, refl, refl)

refund_moves :
    (refund ≡ (ok refund_tx, refunded))
    × (available 1 refunded ≡ some (pos 0))
    × (available 2 refunded ≡ some (pos 0))
    × (transaction_balance 20 2 credit paid.journal ≡ pos 500)
    × ((reverse (λ _. "99") (drawn 60) 99 "mistake" none none paid).0 ≡ err transaction_not_found)
unfolding matches_currency_pattern new_money add add_int64 equal same_currency is_valid_direction
    opposite is_valid_account_type normal_balance is_postable is_valid_transaction_type
    signed_amount validate_entry validate_entries validate validate_account mem_id distinct_ids
    insert_id sort_ids sorted_account_ids choose_shard route_entry route_entries active_shards
    resolve_shards locked_account locked_rows lock_accounts insert_transaction insert_entry
    insert_entries apply_balance_delta insert_by_seq entries_of scan_entries
    load_transaction_for_update mark_reversed append_event aggregate_entry aggregate_entries
    route_to_shards index_accounts check_accounts check_currencies lock_and_validate
    build_entries_from build_entries apply_delta apply_deltas apply_entries uniform_currency
    append_balance_updated_events append_transaction_event complete_idempotency write_transaction
    posting post_transaction reversing reverse opening create_account Money.validate imbalance
    commit_check run_tx wrap64 ◌+ℤ◌ ◌-ℤ◌ neg_ℤ transaction_balance
refund_moves = (refl, refl, refl, refl, refl)

no_recorder : RecorderKeeps none
no_recorder r e = cc

pay_typed : AreInt64Legs pay.entries
pay_typed = ground arith

no_rows-IsConsistent : IsConsistent no_rows
no_rows-IsConsistent = empty-IsConsistent no_rows (λ id. refl) refl

opened_book-IsConsistent : IsConsistent opened
opened_book-IsConsistent =
    create_account-IsConsistent (drawn 2) alice (create_account (drawn 1) house no_rows).1
      (create_account-IsConsistent (drawn 1) house no_rows no_rows-IsConsistent)

pub paid-IsConsistent : IsConsistent paid
paid-IsConsistent =
    post_transaction-IsConsistent (drawn 20) pay opened pay_typed no_recorder
      opened_book-IsConsistent

create_account-IsConsistent_example : IsConsistent (create_account (drawn 1) house no_rows).1
create_account-IsConsistent_example =
    create_account-IsConsistent (drawn 1) house no_rows no_rows-IsConsistent

post_transaction-IsConsistent_example : IsConsistent (post_transaction (drawn 20) pay opened).1
post_transaction-IsConsistent_example =
    post_transaction-IsConsistent (drawn 20) pay opened pay_typed no_recorder
      opened_book-IsConsistent

post_transaction_moves_example :
    (map leg pay_tx.entries ≡ routed_entries (drawn 20) opened pay.entries)
    × (paid.journal ≡ opened.journal ++ pay_tx.entries)
    × ((id : Uuid)
        → AccountMoved
            (leg_delta opened (routed_entries (drawn 20) opened pay.entries) id)
            (opened.accounts id)
            (paid.accounts id))
post_transaction_moves_example =
    post_transaction_moves (drawn 20) pay opened pay_typed no_recorder pay_moves.0

reverse-IsConsistent_example : IsConsistent refunded
reverse-IsConsistent_example =
    reverse-IsConsistent (λ _. "20") (drawn 40) 20 "mistake" none none paid no_recorder
      paid-IsConsistent

reverse_undoes_example :
    ((id : Uuid) (row : AccountRow)
      → paid.accounts id ≡ some row
      → (row' : AccountRow) × (refunded.accounts id ≡ some row')
        × (row'.available_minor
            ≡ row.available_minor -ℤ transaction_balance 20 id row.normal_balance paid.journal))
    × ((header : Transaction) × (paid.transactions 20 ≡ some header)
        × (header.status ≡ posted)
        × (refunded.transactions 20 ≡ some (record header { status = reversed })))
reverse_undoes_example =
    reverse_undoes (λ _. "20") (drawn 40) 20 "mistake" none none paid paid-IsConsistent no_recorder
      refund_moves.0

reverse_once_example :
    reverse (λ _. "20") (drawn 60) 20 "again" none none refunded ≡ (err already_reversed, refunded)
reverse_once_example =
    reverse_once (λ _. "20") (drawn 40) 20 "mistake" none none paid (drawn 60) "again" none none 60
      paid-IsConsistent no_recorder refund_moves.0 refl refl

nameless :
    (create_account (drawn 3) (record house { external_ref = "" }) opened).0 ≡ err invalid_entry
unfolding create_account validate_account
nameless = refl

create_account-err_example :
    (create_account (drawn 3) (record house { external_ref = "" }) opened).1 ≡ opened
create_account-err_example =
    create_account-err (drawn 3) (record house { external_ref = "" }) opened invalid_entry nameless

posted_steps : (validate pay ≡ ok tt) × (posting (drawn 20) 20 pay opened ≡ ok (pay_tx, paid))
unfolding matches_currency_pattern new_money add add_int64 equal same_currency is_valid_direction
    opposite is_valid_account_type normal_balance is_postable is_valid_transaction_type
    signed_amount validate_entry validate_entries validate validate_account mem_id distinct_ids
    insert_id sort_ids sorted_account_ids choose_shard route_entry route_entries active_shards
    resolve_shards locked_account locked_rows lock_accounts insert_transaction insert_entry
    insert_entries apply_balance_delta insert_by_seq entries_of scan_entries
    load_transaction_for_update mark_reversed append_event aggregate_entry aggregate_entries
    route_to_shards index_accounts check_accounts check_currencies lock_and_validate
    build_entries_from build_entries apply_delta apply_deltas apply_entries uniform_currency
    append_balance_updated_events append_transaction_event complete_idempotency write_transaction
    posting post_transaction reversing reverse opening create_account Money.validate imbalance
    commit_check run_tx wrap64 ◌+ℤ◌ ◌-ℤ◌ neg_ℤ
posted_steps = (refl, refl)

post_transaction_commits_example : post_transaction (drawn 20) pay opened ≡ (ok pay_tx, paid)
post_transaction_commits_example =
    post_transaction_commits (drawn 20) 20 pay opened opened_book-IsConsistent pay_typed no_recorder
      posted_steps.0 refl posted_steps.1

pay_names : mem_id 2 (account_ids (map leg pay_tx.entries)) ≡ true
unfolding matches_currency_pattern new_money add add_int64 equal same_currency is_valid_direction
    opposite is_valid_account_type normal_balance is_postable is_valid_transaction_type
    signed_amount validate_entry validate_entries validate validate_account mem_id distinct_ids
    insert_id sort_ids sorted_account_ids choose_shard route_entry route_entries active_shards
    resolve_shards locked_account locked_rows lock_accounts insert_transaction insert_entry
    insert_entries apply_balance_delta insert_by_seq entries_of scan_entries
    load_transaction_for_update mark_reversed append_event aggregate_entry aggregate_entries
    route_to_shards index_accounts check_accounts check_currencies lock_and_validate
    build_entries_from build_entries apply_delta apply_deltas apply_entries uniform_currency
    append_balance_updated_events append_transaction_event complete_idempotency write_transaction
    posting post_transaction reversing reverse opening create_account Money.validate imbalance
    commit_check run_tx wrap64 ◌+ℤ◌ ◌-ℤ◌ neg_ℤ
pay_names = refl

post_transaction_active_example :
    (row : AccountRow) × (opened.accounts 2 ≡ some row) × (is_postable row.status ≡ true)
post_transaction_active_example =
    post_transaction_active (drawn 20) pay opened 2 pay_typed pay_moves.0 pay_names
