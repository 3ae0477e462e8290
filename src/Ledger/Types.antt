-- ===== src/Ledger/Types.antt =====
-- internal/ledger/types.go: the vocabulary of the ledger. A Go string type with named constants is
-- a data type with a constructor for each constant and one for any other string. Ids are the
-- 128-bit numbers of their UUIDs, with 0 for uuid.Nil; the canonical text of a UUID has a fixed
-- width, so its order is the order of the numbers.
use ledger_core.Base.{
  ℕ, String, List, Bool, true, false, not, Option, str_eq, leb_ℤ, neg_ℤ, if◌then◌else◌, ℤ, pos,
  wrap64,
}
use ledger_core.Errors.{Result, ok, require, invalid_entry, ◌>>◌}
use ledger_core.Ledger.Money.{Money}

-- uuid.UUID
abbrev pub Uuid : Type 0
Uuid = ℕ

abbrev pub nil_uuid : Uuid
nil_uuid = 0

pub data Direction : Type 0 where
  debit credit : Direction
  other_direction : String → Direction

-- `Direction.Valid`
unfoldable pub is_valid_direction : Direction → Bool
is_valid_direction debit = true
is_valid_direction credit = true
is_valid_direction (other_direction _) = false

unfoldable pub opposite : Direction → Direction
opposite debit = credit
opposite (other_direction _) = debit
opposite credit = debit

-- `==` on directions.
abbrev pub direction_eq : Direction → Direction → Bool
direction_eq debit debit = true
direction_eq credit credit = true
direction_eq (other_direction s) (other_direction t) = str_eq s t
direction_eq _ _ = false

pub data AccountType : Type 0 where
  asset liability equity revenue expense : AccountType
  other_account_type : String → AccountType

unfoldable pub is_valid_account_type : AccountType → Bool
is_valid_account_type (other_account_type _) = false
is_valid_account_type _ = true

unfoldable pub normal_balance : AccountType → Direction
normal_balance asset = debit
normal_balance expense = debit
normal_balance _ = credit

pub data AccountStatus : Type 0 where
  active frozen closed : AccountStatus
  other_account_status : String → AccountStatus

-- `AccountStatus.Postable`
unfoldable pub is_postable : AccountStatus → Bool
is_postable active = true
is_postable _ = false

pub data TransactionStatus : Type 0 where
  pending posted reversed : TransactionStatus
  other_transaction_status : String → TransactionStatus

pub data TransactionType : Type 0 where
  transfer payin payout fee fx reversal adjustment : TransactionType
  other_transaction_type : String → TransactionType

unfoldable pub is_valid_transaction_type : TransactionType → Bool
is_valid_transaction_type (other_transaction_type _) = false
is_valid_transaction_type _ = true

-- One leg of a transaction; timestamps are numbers of some unit.
pub record JournalEntry : Type 0 where
  pub id : Uuid
  pub transaction_id : Uuid
  pub account_id : Uuid
  pub direction : Direction
  pub amount : Money
  pub entry_seq : ℕ
  pub created_at : ℕ

pub record Transaction : Type 0 where
  pub id : Uuid
  pub idempotency_key : Option String
  pub principal_id : String
  pub transaction_type : TransactionType
  pub status : TransactionStatus
  pub external_ref : Option String
  pub metadata : List (String × String)
  pub created_at : ℕ
  pub posted_at : Option ℕ
  pub entries : List JournalEntry

-- The delta of one entry for an account of the given normal balance.
unfoldable pub signed_amount : Direction → Direction → ℤ → Result ℤ
unfolding is_valid_direction
signed_amount direction normal amount_minor = do
  require (is_valid_direction direction) invalid_entry
  require (is_valid_direction normal) invalid_entry
  require (not (leb_ℤ amount_minor (pos 0))) invalid_entry
  ok (if direction_eq direction normal then amount_minor else wrap64 (neg_ℤ amount_minor))
