-- ===== src/Ledger/Posting.antt =====
-- internal/ledger/service.go: the mechanics that posting and reversing share.
pub mod Deltas
pub mod Locking
pub mod Routes
use ledger_core.Base.{
  ℕ, ◌+◌, List, [], ◌∷◌, false, not, ◌&&◌, Option, none, some, str_eq, ltb_ℤ, if◌then◌else◌, update,
  ℤ, pos,
}
use ledger_core.Errors.{
  Result, ok, err, require, or_error, insufficient_funds, currency_mismatch, account_not_found,
  account_not_postable, money_overflow, random_failed,
}
use ledger_core.Ledger.Money.{add_int64}
use ledger_core.Ledger.Types.{
  Uuid, nil_uuid, other_direction, other_account_type, other_account_status, is_postable,
  JournalEntry, signed_amount,
}
use ledger_core.Ledger.Request.{EntryRequest}
use ledger_core.Ledger.Routing.{sorted_account_ids, route_entries}
use ledger_core.Ledger.Repository.{
  BalanceDelta, LockedAccount, resolve_shards, lock_accounts, apply_balance_delta,
}
use ledger_core.Ledger.Aggregate.{Accounts, account_at, Aggregate, aggregate_entries, no_deltas}
use ledger_core.Outbox.{EventBalance}
use ledger_core.Postgres.{Tx, ◌>>=◌, ◌>>◌, pure, lift}

-- What the random sources answer in one call: uuid.NewV7 (none where it fails) for the
-- transaction, for each entry and for each event, and rand.IntN for each sharded account.
pub record Draws : Type 0 where
  pub transaction_id : Option Uuid
  pub entry_id : ℕ → Option Uuid
  pub event_id : ℕ → Option Uuid
  pub rand_int_n : Uuid → ℕ → ℕ

unfoldable pub route_to_shards : Draws → List EntryRequest → Tx (List EntryRequest)
route_to_shards draws entries = do
  shards ← resolve_shards (sorted_account_ids entries)
  pure (route_entries draws.rand_int_n shards entries)

unfoldable pub index_accounts : List LockedAccount → Accounts → Accounts
index_accounts [] accounts = accounts
index_accounts (a ∷ as') accounts = index_accounts as' (update accounts a.id (some a))

unfoldable pub check_accounts : Accounts → List Uuid → Result (Unit {0})
check_accounts accounts [] = ok tt
check_accounts accounts (id ∷ ids) = elim (accounts id) [
  | none ↦ err account_not_found
  | some a ↦ if is_postable a.status then check_accounts accounts ids else err account_not_postable
]

unfoldable pub check_currencies : Accounts → List EntryRequest → Result (Unit {0})
check_currencies accounts [] = ok tt
check_currencies accounts (e ∷ es) =
    if str_eq e.amount.currency (account_at accounts e.account_id).currency
    then check_currencies accounts es
    else err currency_mismatch

unfoldable pub lock_and_validate : List Uuid → List EntryRequest → Tx Accounts
lock_and_validate account_ids entries = do
  locked ← lock_accounts account_ids
  let accounts = index_accounts locked (λ _. none)
  lift (check_accounts accounts account_ids)
  lift (check_currencies accounts entries)
  pure accounts

-- The loop of `buildEntries`, at entry number i. created_at is set when the rows are inserted.
unfoldable pub build_entries_from :
    Uuid → (ℕ → Option Uuid) → ℕ → List EntryRequest → Result (List JournalEntry)
build_entries_from tx_id entry_id i [] = ok []
build_entries_from tx_id entry_id i (r ∷ rs) = elim (entry_id i) [
  | none ↦ err random_failed
  | some id ↦ elim (build_entries_from tx_id entry_id (i + 1) rs) [
    | err x ↦ err x
    | ok rest ↦ ok (
        record {
          id = id;
          transaction_id = tx_id;
          account_id = r.account_id;
          direction = r.direction;
          amount = r.amount;
          entry_seq = i;
          created_at = 0;
        }
        ∷ rest)
  ]
]

unfoldable pub build_entries :
    Uuid → (ℕ → Option Uuid) → List EntryRequest → Result (List JournalEntry)
unfolding build_entries_from
build_entries tx_id entry_id requests = build_entries_from tx_id entry_id 0 requests

abbrev pub delta_of : Accounts → Aggregate → Uuid → BalanceDelta
delta_of accounts g id = record {
  account_id = id;
  delta_minor = g.deltas id;
  expected_version = (account_at accounts id).version;
  last_entry_id = g.last_entry id;
}

unfoldable pub apply_delta : Accounts → Aggregate → Uuid → Tx EventBalance
apply_delta accounts g id = do
  projected ←
      lift
        (or_error (add_int64 (account_at accounts id).available_minor (g.deltas id)) money_overflow)
  lift (
      require (not (ltb_ℤ projected (pos 0) && not (account_at accounts id).allow_negative))
        insufficient_funds)
  balance ← apply_balance_delta (delta_of accounts g id)
  pure (record { account_id = id; available = balance.available; version = balance.version })

unfoldable pub apply_deltas : Accounts → Aggregate → List Uuid → Tx (List EventBalance)
apply_deltas accounts g [] = pure []
apply_deltas accounts g (id ∷ ids) = do
  b ← apply_delta accounts g id
  bs ← apply_deltas accounts g ids
  pure (b ∷ bs)

unfoldable pub apply_entries : List JournalEntry → Accounts → List Uuid → Tx (List EventBalance)
apply_entries entries accounts order = do
  g ← lift (aggregate_entries accounts entries no_deltas)
  apply_deltas accounts g order
