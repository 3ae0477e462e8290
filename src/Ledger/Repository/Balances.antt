-- ===== src/Ledger/Repository/Balances.antt =====
-- What a balance UPDATE leaves behind.
use ledger_core.Base.{◌+◌, ◌≡◌, false, some, pos, ◌+ℤ◌, ◌≤ℤ◌, arith, Option-cases, inl, inr}
use ledger_core.Errors.{ok}
use ledger_core.Ledger.Money.{new_money}
use ledger_core.Ledger.Repository.{BalanceDelta, Balance, moved, set_account, apply_balance_delta}
use ledger_core.Postgres.{AccountRow, Db}

-- An update that succeeds moved the one row it names by the delta, under the expected version, and
-- without an overdraft on an account that forbids one.
pub record Moved (d : BalanceDelta) (db : Db) (b : Balance) (db' : Db) (row : AccountRow)
    : Type 0 where
  pub found : db.accounts d.account_id ≡ some row
  pub result : db' ≡ set_account d.account_id (moved d row) db
  pub at_version : row.version ≡ d.expected_version
  pub covered : row.allow_negative ≡ false → pos 0 ≤ℤ row.available_minor +ℤ d.delta_minor
  pub reported : b.available.amount_minor ≡ row.available_minor +ℤ d.delta_minor
  pub reported_version : b.version ≡ row.version + 1

pub apply_balance_delta-Moved :
    (d : BalanceDelta) (db : Db) {b : Balance} {db' : Db}
    → apply_balance_delta d db ≡ ok (b, db')
    → (row : AccountRow) × Moved d db b db' row
unfolding apply_balance_delta new_money
apply_balance_delta-Moved d db h = elim (Option-cases (db.accounts d.account_id)) [
  | inl missing ↦ ground arith
  | inr (row, e) ↦ (row, ground arith)
]
