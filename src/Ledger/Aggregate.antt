-- ===== src/Ledger/Aggregate.antt =====
-- internal/ledger/service.go: the locked accounts of a transaction, and the first loop of
-- `applyEntries`, which sums the entries into one delta per account.
pub mod Totals
use ledger_core.Base.{ℕ, List, [], ◌∷◌, false, Option, none, some, update, ℤ, pos}
use ledger_core.Errors.{Result, ok, or_error, money_overflow, ◌>>=◌}
use ledger_core.Ledger.Money.{add_int64}
use ledger_core.Ledger.Types.{
  Uuid, nil_uuid, other_direction, other_account_type, other_account_status, JournalEntry,
  signed_amount,
}
use ledger_core.Ledger.Repository.{LockedAccount}

-- A Go map from ids to locked accounts; a missing key reads as the zero struct.
abbrev pub Accounts : Type 0
Accounts = Uuid → Option LockedAccount

abbrev zero_account : LockedAccount
zero_account = record {
  id = nil_uuid;
  currency = "";
  account_type = other_account_type "";
  normal_balance = other_direction "";
  status = other_account_status "";
  allow_negative = false;
  available_minor = pos 0;
  pending_minor = pos 0;
  version = 0;
}

abbrev pub account_at : Accounts → Uuid → LockedAccount
account_at accounts id = elim (accounts id) [ none ↦ zero_account | some a ↦ a ]

-- `deltas` and `lastEntry` of `applyEntries`, which read as zero where nothing was stored.
pub record Aggregate : Type 0 where
  pub deltas : Uuid → ℤ
  pub last_entry : Uuid → Uuid

abbrev pub no_deltas : Aggregate
no_deltas = record { deltas = λ _. pos 0; last_entry = λ _. nil_uuid }

unfoldable pub aggregate_entry : Accounts → JournalEntry → Aggregate → Result Aggregate
aggregate_entry accounts e g = do
  signed ←
      signed_amount e.direction (account_at accounts e.account_id).normal_balance
        e.amount.amount_minor
  total ← or_error (add_int64 (g.deltas e.account_id) signed) money_overflow
  ok (record {
    deltas = update g.deltas e.account_id total;
    last_entry = update g.last_entry e.account_id e.id;
  })

unfoldable pub aggregate_entries : Accounts → List JournalEntry → Aggregate → Result Aggregate
aggregate_entries accounts [] g = ok g
aggregate_entries accounts (e ∷ es) g =
    aggregate_entry accounts e g >>= λ g'. aggregate_entries accounts es g'
