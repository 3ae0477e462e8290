-- ===== src/Ledger/Consistency.antt =====
-- The invariant of the ledger's tables: stored balances equal the journal, no account that may not
-- be negative is, and every transaction balances in every currency.
pub mod Commit
pub mod Books
pub mod Step
pub mod Accepted
use ledger_core.Base.{
  ℕ, ◌≡◌, String, List, Bool, true, false, Option, none, some, map, ℤ, pos, ◌≤ℤ◌,
}
use ledger_core.Ledger.Types.{Uuid, is_valid_direction}
use ledger_core.Ledger.Routing.{mem_id}
use ledger_core.Ledger.Routing.Order.{account_ids}
use ledger_core.Ledger.Journal.{journal_balance, AreInt64, AreDirected, leg}
use ledger_core.Ledger.Posting.Deltas.{AccountMoved}
use ledger_core.Postgres.{AccountRow, Db, imbalance}

pub record IsConsistent (db : Db) : Type 0 where
  pub balances :
      (id : Uuid) (row : AccountRow)
      → db.accounts id ≡ some row
      → row.available_minor ≡ journal_balance id row.normal_balance db.journal
  pub covered :
      (id : Uuid) (row : AccountRow)
      → db.accounts id ≡ some row
      → row.allow_negative ≡ false
      → pos 0 ≤ℤ row.available_minor
  pub balanced : (tx_id : Uuid) (currency : String) → imbalance tx_id currency db.journal ≡ pos 0
  pub typed : AreInt64 db.journal
  pub directed : AreDirected db.journal
  pub normals :
      (id : Uuid) (row : AccountRow)
      → db.accounts id ≡ some row
      → is_valid_direction row.normal_balance ≡ true
  pub present :
      (id : Uuid) → db.accounts id ≡ none → mem_id id (account_ids (map leg db.journal)) ≡ false
