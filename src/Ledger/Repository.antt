-- ===== src/Ledger/Repository.antt =====
-- internal/ledger/pgledger/repository.go: the statements of one ledger transaction, with the
-- constraints of migrations/000002 to 000006 that `mapError` turns into ledger errors. Row and
-- advisory locks only decide who waits; here a transaction runs alone.
pub mod Balances
pub mod Entries
pub mod Loading
use ledger_core.Base.{
  ℕ, String, List, [], ◌∷◌, ◌++◌, Bool, true, false, not, ◌&&◌, ◌||◌, Option, none, some, ◌==◌, ltb,
  str_eq, leb_ℤ, ltb_ℤ, if◌then◌else◌, all, update, ℤ, pos, ◌+◌, ◌+ℤ◌, int64_min, int64_max,
}
use ledger_core.Errors.{
  Result, ok, err, require, or_error, insufficient_funds, currency_mismatch, account_not_found,
  transaction_not_found, transaction_not_posted, invalid_entry, duplicate_idempotency_key,
  balance_version_conflict, database_failed, random_failed,
}
use ledger_core.Ledger.Money.{Money, new_money}
use ledger_core.Ledger.Types.{
  Uuid, Direction, is_valid_direction, AccountType, AccountStatus, JournalEntry, Transaction,
  TransactionStatus, pending, posted, reversed, is_postable,
}
use ledger_core.Ledger.Routing.{distinct_ids, sort_ids, mem_id}
use ledger_core.Outbox.{Event}
use ledger_core.Postgres.{AccountRow, Db, Tx, ◌>>=◌, ◌>>◌, pure, lift, gets, modify}

pub record LockedAccount : Type 0 where
  pub id : Uuid
  pub currency : String
  pub account_type : AccountType
  pub normal_balance : Direction
  pub status : AccountStatus
  pub allow_negative : Bool
  pub available_minor : ℤ
  pub pending_minor : ℤ
  pub version : ℕ

pub record BalanceDelta : Type 0 where
  pub account_id : Uuid
  pub delta_minor : ℤ
  pub expected_version : ℕ
  pub last_entry_id : Uuid

pub record PendingDelta : Type 0 where
  pub account_id : Uuid
  pub delta_minor : ℤ

pub record Balance : Type 0 where
  pub account_id : Uuid
  pub available : Money
  pub pending : Money
  pub version : ℕ

abbrev pub fits_bigint : ℤ → Bool
fits_bigint a = leb_ℤ int64_min a && leb_ℤ a int64_max

-- `status = 'ACTIVE'` of the child rows, in shard_index order.
unfoldable pub active_shards : Db → List Uuid → List Uuid
active_shards db [] = []
active_shards db (s ∷ ss) =
    let rest = active_shards db ss in
    elim (db.accounts s) [
      | none ↦ rest
      | some row ↦ if is_postable row.status then s ∷ rest else rest
    ]

-- `ResolveShards`, for each of the given parents; an account that is not among them has none.
unfoldable pub resolve_shards : List Uuid → Tx (Uuid → List Uuid)
unfolding active_shards
resolve_shards ids = gets (λ db id. if mem_id id ids then active_shards db (db.shards id) else [])

unfoldable pub locked_account : Uuid → AccountRow → LockedAccount
locked_account id row = record {
  id = id;
  currency = row.currency;
  account_type = row.account_type;
  normal_balance = row.normal_balance;
  status = row.status;
  allow_negative = row.allow_negative;
  available_minor = row.available_minor;
  pending_minor = row.pending_minor;
  version = row.version;
}

unfoldable pub locked_rows : Db → List Uuid → List LockedAccount
unfolding locked_account
locked_rows db [] = []
locked_rows db (id ∷ ids) =
    let rest = locked_rows db ids in
    elim (db.accounts id) [ none ↦ rest | some row ↦ locked_account id row ∷ rest ]

-- `WHERE a.id = ANY(ids) ORDER BY a.id`
unfoldable pub lock_accounts : List Uuid → Tx (List LockedAccount)
lock_accounts ids = gets (λ db. locked_rows db (sort_ids (distinct_ids [] ids)))

-- The key of a transaction that has one, in transactions_idempotency_key_key.
abbrev has_key : String → String → List (String × String) → Bool
has_key principal key [] = false
has_key principal key ((p, k) ∷ keys) =
    (str_eq p principal && str_eq k key) || has_key principal key keys

abbrev key_entries : Transaction → List (String × String)
key_entries t = elim t.idempotency_key [ none ↦ [] | some key ↦ (t.principal_id, key) ∷ [] ]

abbrev is_pending : TransactionStatus → Bool
is_pending pending = true
is_pending _ = false

-- The row as `RETURNING created_at, posted_at` completes it.
abbrev pub stamped : ℕ → Transaction → Transaction
stamped now t = record t {
  created_at = now;
  posted_at = if is_pending t.status then none else some now;
}

abbrev is_new_transaction : Db → Transaction → Bool
is_new_transaction db t = elim (db.transactions t.id) [ none ↦ true | some _ ↦ false ]

abbrev key_is_free : Db → Transaction → Bool
key_is_free db t = elim t.idempotency_key [
  | none ↦ true
  | some key ↦ not (has_key t.principal_id key db.transaction_keys)
]

unfoldable pub insert_transaction : Transaction → Tx Transaction
insert_transaction t = do
  lift (require (← gets (λ db. is_new_transaction db t)) database_failed)
  lift (require (← gets (λ db. key_is_free db t)) duplicate_idempotency_key)
  stored ← gets (λ db. stamped db.now t)
  modify (λ db. record db {
    transactions = update db.transactions t.id (some stored);
    transaction_keys = key_entries t ++ db.transaction_keys;
  })
  pure stored

abbrev pub transaction_exists : Db → Uuid → Bool
transaction_exists db id = elim (db.transactions id) [ none ↦ false | some _ ↦ true ]

abbrev pub account_has_currency : Db → JournalEntry → Bool
account_has_currency db e = elim (db.accounts e.account_id) [
  | none ↦ false
  | some row ↦ str_eq row.currency e.amount.currency
]

-- No row has this id, nor this number in its transaction.
abbrev entry_is_new : Db → JournalEntry → Bool
entry_is_new db e =
    all
      (λ r.
        not (r.id == e.id)
        && not ((r.transaction_id == e.transaction_id) && (r.entry_seq == e.entry_seq)))
      db.journal

-- One row of `InsertEntries`; created_at is now(), the same for every row of a transaction.
unfoldable pub insert_entry : JournalEntry → Tx JournalEntry
insert_entry e = do
  lift (require (ltb_ℤ (pos 0) e.amount.amount_minor) invalid_entry)
  lift (require (is_valid_direction e.direction) database_failed)
  lift (require (← gets (λ db. entry_is_new db e)) database_failed)
  lift (require (← gets (λ db. account_has_currency db e)) currency_mismatch)
  lift (require (← gets (λ db. transaction_exists db e.transaction_id)) transaction_not_found)
  stored ← gets (λ db. record e { created_at = db.now })
  modify (λ db. record db { journal = db.journal ++ (stored ∷ []) })
  pure stored

unfoldable pub insert_entries : List JournalEntry → Tx (List JournalEntry)
insert_entries [] = pure []
insert_entries (e ∷ es) = do stored ← insert_entry e; rest ← insert_entries es; pure (stored ∷ rest)

abbrev pub set_account : Uuid → AccountRow → Db → Db
set_account id row db = record db { accounts = update db.accounts id (some row) }

-- The row after the UPDATE.
abbrev pub moved : BalanceDelta → AccountRow → AccountRow
moved d row = record row {
  available_minor = row.available_minor +ℤ d.delta_minor;
  version = row.version + 1;
  last_entry_id = some d.last_entry_id;
}

unfoldable pub apply_balance_delta : BalanceDelta → Tx Balance
apply_balance_delta d = do
  row ← (λ db. lift (or_error (db.accounts d.account_id) balance_version_conflict) db)
  lift (require (row.version == d.expected_version) balance_version_conflict)
  lift (require (fits_bigint (moved d row).available_minor) database_failed)
  lift (
      require (row.allow_negative || leb_ℤ (pos 0) (moved d row).available_minor)
        insufficient_funds)
  modify (set_account d.account_id (moved d row))
  available ← lift (new_money (moved d row).available_minor row.currency)
  pending_balance ← lift (new_money row.pending_minor row.currency)
  pure (record {
    account_id = d.account_id;
    available = available;
    pending = pending_balance;
    version = row.version + 1;
  })

abbrev pub pended : PendingDelta → AccountRow → AccountRow
pended d row = record row { pending_minor = row.pending_minor +ℤ d.delta_minor }

-- Only the pending column: neither the balance nor the version. account_balances_pending_check
-- keeps it from falling below zero.
unfoldable pub apply_pending_delta : PendingDelta → Tx (Unit {0})
apply_pending_delta d = do
  row ← (λ db. lift (or_error (db.accounts d.account_id) account_not_found) db)
  lift (require (fits_bigint (pended d row).pending_minor) database_failed)
  lift (require (leb_ℤ (pos 0) (pended d row).pending_minor) database_failed)
  modify (set_account d.account_id (pended d row))

-- `WHERE transaction_id = $1 ORDER BY entry_seq`
unfoldable pub insert_by_seq : JournalEntry → List JournalEntry → List JournalEntry
insert_by_seq e [] = e ∷ []
insert_by_seq e (x ∷ xs) =
    if ltb x.entry_seq e.entry_seq then x ∷ insert_by_seq e xs else e ∷ x ∷ xs

unfoldable pub entries_of : Uuid → List JournalEntry → List JournalEntry
unfolding insert_by_seq
entries_of id [] = []
entries_of id (e ∷ es) =
    let rest = entries_of id es in if e.transaction_id == id then insert_by_seq e rest else rest

-- Each scanned amount goes through NewMoney.
unfoldable pub scan_entries : List JournalEntry → Result (List JournalEntry)
scan_entries [] = ok []
scan_entries (e ∷ es) = elim (new_money e.amount.amount_minor e.amount.currency) [
  | ok amount ↦ elim (scan_entries es) [
    | ok rest ↦ ok (record e { amount = amount } ∷ rest)
    | err x ↦ err x
  ]
  | err x ↦ err x
]

-- The SELECT does not read principal_id.
unfoldable pub load_transaction_for_update : Uuid → Tx Transaction
unfolding entries_of scan_entries
load_transaction_for_update id = do
  header ← (λ db. lift (or_error (db.transactions id) transaction_not_found) db)
  entries ← (λ db. lift (scan_entries (entries_of id db.journal)) db)
  pure (record header { principal_id = ""; entries = entries })

abbrev is_posted : TransactionStatus → Bool
is_posted posted = true
is_posted _ = false

-- `SET status = 'REVERSED' WHERE id = $1 AND status = 'POSTED'`
unfoldable pub mark_reversed : Uuid → Tx (Unit {0})
mark_reversed id = do
  row ← (λ db. lift (or_error (db.transactions id) transaction_not_posted) db)
  lift (require (is_posted row.status) transaction_not_posted)
  modify (λ db. record db {
    transactions = update db.transactions id (some (record row { status = reversed }));
  })

-- `outbox.Append`, under the id that uuid.NewV7 gives it, if it gives one.
unfoldable pub append_event : Option Uuid → Event → Tx (Unit {0})
append_event drawn e = do
  lift (require (not (ltb e.event_version 1)) database_failed)
  lift (require (not (e.occurred_at == 0)) database_failed)
  event_id ← lift (or_error drawn random_failed)
  modify
      (λ db. record db { outbox = db.outbox ++ (record { event_id = event_id; event = e } ∷ []) })
