-- ===== src/Postgres.antt =====
-- The tables of migrations/*.up.sql as one state, and the database transactions over it
-- (internal/ledger/pgledger/repository.go, runTx). A table that the code reads by its primary key
-- is a function from keys to rows, so a key names one row; the other tables are lists in the order
-- of insertion. An accounts row and its account_balances row, which a trigger keeps one to one,
-- are one row here. bigint columns are checked to be in range where the code adds to them; a
-- version only counts up by one and is a number.
pub mod Runs
use ledger_core.Base.{
  ℕ, String, List, [], ◌∷◌, Bool, true, ◌&&◌, Option, ◌==◌, str_eq, if◌then◌else◌, length, drop,
  all, ℤ, pos, ◌+ℤ◌, neg_ℤ, eqb_ℤ, ◌≡◌, refl,
}
use ledger_core.Errors.{Result, ok, err, unbalanced_transaction}
use ledger_core.Ledger.Types.{
  Uuid, Direction, debit, direction_eq, AccountType, AccountStatus, JournalEntry, Transaction,
}
use ledger_core.Saga.Types.{Instance, Attempt}
use ledger_core.Idempotency.Types.{Record}
use ledger_core.Outbox.{Envelope}

pub record AccountRow : Type 0 where
  pub external_ref : String
  pub account_type : AccountType
  pub normal_balance : Direction
  pub currency : String
  pub owner_id : Option String
  pub status : AccountStatus
  pub allow_negative : Bool
  pub available_minor : ℤ
  pub pending_minor : ℤ
  pub version : ℕ
  pub last_entry_id : Option Uuid

pub record Db : Type 0 where
  pub now : ℕ  -- now(), the start of the current transaction
  pub accounts : Uuid → Option AccountRow
  pub external_refs : List String  -- accounts_external_ref_key
  pub shards : Uuid → List Uuid  -- the accounts whose parent_account_id this is, by shard_index
  pub transactions : Uuid → Option Transaction  -- headers: their `entries` are in `journal`
  pub transaction_keys : List (String × String)  -- transactions_idempotency_key_key
  pub journal : List JournalEntry
  pub outbox : List Envelope
  pub idempotency_keys : List Record
  pub saga_instances : Uuid → Option Instance
  pub saga_ids : List Uuid  -- their keys, by created_at
  pub saga_steps : List Attempt

-- Statements inside one database transaction. An error carries no state: the transaction that it
-- aborts is rolled back.
abbrev pub Tx : Type 0 → Type 0
Tx A = Db → Result (A × Db)

infixl 5 ◌>>=◌ ◌>>◌
abbrev pub ◌>>=◌ : {A B : Type 0} → Tx A → (A → Tx B) → Tx B
◌>>=◌ m f db = elim (m db) [ ok (a, db') ↦ f a db' | err e ↦ err e ]

abbrev pub ◌>>◌ : {B : Type 0} → Tx (Unit {0}) → Tx B → Tx B
m >> k = m >>= λ _. k

abbrev pub pure : {A : Type 0} → A → Tx A
pure a db = ok (a, db)

abbrev pub lift : {A : Type 0} → Result A → Tx A
lift (ok a) db = ok (a, db)
lift (err e) db = err e

abbrev pub gets : {A : Type 0} → (Db → A) → Tx A
gets f db = ok (f db, db)

abbrev pub modify : (Db → Db) → Tx (Unit {0})
modify f db = ok (tt, f db)

-- The sign of an entry in its transaction: DEBIT = +, CREDIT = -.
abbrev pub transaction_sign : JournalEntry → ℤ
transaction_sign e =
    if direction_eq e.direction debit then e.amount.amount_minor else neg_ℤ e.amount.amount_minor

-- `SUM(CASE WHEN direction = 'DEBIT' ...)` over one (transaction_id, currency) group.
unfoldable pub imbalance : Uuid → String → List JournalEntry → ℤ
imbalance id currency [] = pos 0
imbalance id currency (e ∷ es) =
    let rest = imbalance id currency es in
    if (e.transaction_id == id) && str_eq e.amount.currency currency
    then transaction_sign e +ℤ rest
    else rest

-- ledger_assert_transaction_balanced for one inserted row: every currency among the rows of its
-- transaction sums to zero.
abbrev pub trigger_passes : List JournalEntry → JournalEntry → Bool
trigger_passes journal inserted =
    all
      (λ e.
        if e.transaction_id == inserted.transaction_id
        then eqb_ℤ (imbalance inserted.transaction_id e.amount.currency journal) (pos 0)
        else true)
      journal

-- COMMIT: the deferred trigger journal_entries_balanced runs for each row inserted since BEGIN.
unfoldable pub commit_check : Db → Db → Bool
commit_check begun db = all (trigger_passes db.journal) (drop (length begun.journal) db.journal)

-- `runTx`: BEGIN, the statements, COMMIT; an error anywhere rolls back. A COMMIT that fails for
-- another reason than the trigger, such as a lost connection, is not modelled: its outcome is unknown.
unfoldable pub run_tx : {A : Type 0} → Tx A → Db → Result A × Db
run_tx fn db = elim (fn db) [
  | ok (a, db') ↦ if commit_check db db' then (ok a, db') else (err unbalanced_transaction, db)
  | err e ↦ (err e, db)
]
