-- ===== src/Ledger/Reads.antt =====
-- The reads of internal/ledger/pgledger/repository.go that do not lock, and the limits that
-- internal/ledger/service.go sets on a page. An account that is sharded is read together with its
-- shards.
pub mod Agreement
mod Tests
use ledger_core.Base.{
  ℕ, ◌+◌, ℤ, pos, ◌+ℤ◌, neg_ℤ, leb_ℤ, ltb_ℤ, String, List, [], ◌∷◌, Bool, true, false, ◌&&◌, Option,
  none, some, ◌==◌, leb, ltb, if◌then◌else◌, str_eq, get_elem?, length,
}
use ledger_core.Errors.{
  Result, ok, err, require, or_error, account_not_found, transaction_not_found, invalid_entry,
  database_failed,
}
use ledger_core.Errors
use ledger_core.Ledger.Money.{Money, new_money}
use ledger_core.Ledger.Repository.{Balance, fits_bigint, entries_of, scan_entries}
use ledger_core.Ledger.Routing.{mem_id}
use ledger_core.Ledger.Types.{
  Uuid, nil_uuid, Direction, direction_eq, JournalEntry, Transaction, TransactionStatus,
  TransactionType,
}
use ledger_core.Postgres.{AccountRow, Db}

-- `physical`: the account and its shards.
abbrev pub physical : Db → Uuid → List Uuid
physical db id = id ∷ db.shards id

-- JOIN account_balances
unfoldable pub balance_rows : Db → List Uuid → List AccountRow
balance_rows db [] = []
balance_rows db (id ∷ ids) =
    let rest = balance_rows db ids in elim (db.accounts id) [ none ↦ rest | some row ↦ row ∷ rest ]

unfoldable pub sum_rows : (AccountRow → ℤ) → List AccountRow → ℤ
sum_rows f [] = pos 0
sum_rows f (row ∷ rows) = f row +ℤ sum_rows f rows

unfoldable pub sum_versions : List AccountRow → ℕ
sum_versions [] = 0
sum_versions (row ∷ rows) = row.version + sum_versions rows

-- A column that is scanned into an int64.
abbrev pub scan_int64 : ℤ → Result ℤ
scan_int64 a = if fits_bigint a then ok a else err database_failed

-- What `GetBalance` reads for an account that it finds.
unfoldable pub read_balance : Db → Uuid → AccountRow → Result Balance
read_balance db id account =
    let rows = balance_rows db (physical db id) in
    Errors.◌>>=◌ (scan_int64 (sum_rows (λ r. r.available_minor) rows)) (λ available_minor.
      Errors.◌>>=◌ (scan_int64 (sum_rows (λ r. r.pending_minor) rows)) (λ pending_minor.
        Errors.◌>>=◌ (new_money available_minor account.currency) (λ available.
          Errors.◌>>=◌ (new_money pending_minor account.currency) (λ pending. ok (record {
            account_id = id;
            available = available;
            pending = pending;
            version = sum_versions rows;
          })))))

-- `GetBalance`
unfoldable pub get_balance : Db → Uuid → Result Balance
get_balance db id = Errors.◌>>=◌ (or_error (db.accounts id) account_not_found) (read_balance db id)

-- `CASE WHEN je.direction = a.normal_balance`
abbrev pub signed_minor : Direction → JournalEntry → ℤ
signed_minor normal e =
    if direction_eq e.direction normal then e.amount.amount_minor else neg_ℤ e.amount.amount_minor

-- `SUM` over the entries of these accounts up to an instant.
unfoldable pub sum_entries : Direction → List Uuid → ℕ → List JournalEntry → ℤ
sum_entries normal ids at [] = pos 0
sum_entries normal ids at (e ∷ es) =
    let rest = sum_entries normal ids at es in
    if mem_id e.account_id ids && leb e.created_at at then signed_minor normal e +ℤ rest else rest

-- `GetBalanceAsOf`, with its constant baseline.
unfoldable pub get_balance_as_of : Db → Uuid → ℕ → Result Money
get_balance_as_of db id at = Errors.◌>>=◌ (or_error (db.accounts id) account_not_found) (λ account.
    Errors.◌>>=◌
      (scan_int64 (pos 0 +ℤ sum_entries account.normal_balance (physical db id) at db.journal))
      (λ balance_minor. new_money balance_minor account.currency))

-- `GetTransaction`
unfoldable pub get_transaction : Db → Uuid → Result Transaction
get_transaction db id =
    Errors.◌>>=◌ (or_error (db.transactions id) transaction_not_found) (λ header.
      Errors.◌>>=◌ (scan_entries (entries_of id db.journal))
        (λ entries. ok (record header { principal_id = ""; entries = entries })))

-- `DefaultStatementLimit` and `DefaultSearchLimit`, `MaxStatementLimit` and `MaxSearchLimit`; a
-- limit that is not positive is 0 here.
unfoldable pub page_limit : ℕ → ℕ
page_limit n = if n == 0 then 100 else if ltb 1000 n then 1000 else n
