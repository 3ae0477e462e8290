-- ===== src/Ledger/Journal.antt =====
-- What the journal says an account holds: the independent description against which the stored
-- balances are proved.
use ledger_core.Base.{
  map, List, [], ◌∷◌, ◌++◌, ◌≡◌, true, false, ◌==◌, if◌then◌else◌, ℤ, pos, ◌+ℤ◌, neg_ℤ, int_laws,
  arith, +ℤ_assoc, zero_+ℤ, All, IsInt64, sym, refl,
}
use ledger_core.Ledger.Request.{EntryRequest}
use ledger_core.Ledger.Routing.{mem_id}
use ledger_core.Ledger.Routing.Order.{account_ids}
use ledger_core.Ledger.Types.{Uuid, Direction, direction_eq, is_valid_direction, JournalEntry}

-- An entry's sign for an account: plus on the account's normal side, minus on the other.
abbrev pub signed_for : Direction → JournalEntry → ℤ
signed_for normal e =
    if direction_eq e.direction normal then e.amount.amount_minor else neg_ℤ e.amount.amount_minor

-- The sum over the entries of one account.
unfoldable pub journal_balance : Uuid → Direction → List JournalEntry → ℤ
journal_balance id normal [] = pos 0
journal_balance id normal (e ∷ es) =
    let rest = journal_balance id normal es in
    if e.account_id == id then signed_for normal e +ℤ rest else rest

pub journal_balance-append :
    (id : Uuid) (normal : Direction) (xs ys : List JournalEntry)
    → journal_balance id normal (xs ++ ys)
      ≡ journal_balance id normal xs +ℤ journal_balance id normal ys
unfolding journal_balance
journal_balance-append id normal [] ys = sym (zero_+ℤ _)
journal_balance-append id normal (e ∷ es) ys =
    grind (int_laws, journal_balance-append id normal es ys, +ℤ_assoc)

-- The amounts of journal entries are int64.
abbrev pub AreInt64 : List JournalEntry → Type 0
AreInt64 es = All (λ e. IsInt64 e.amount.amount_minor) es

-- The directions of journal entries are DEBIT and CREDIT.
abbrev pub AreDirected : List JournalEntry → Type 0
AreDirected es = All (λ e. is_valid_direction e.direction ≡ true) es

-- An entry without its ids and its timestamp.
abbrev pub leg : JournalEntry → EntryRequest
leg e = record { account_id = e.account_id; direction = e.direction; amount = e.amount }

abbrev pub leg_sign : Direction → EntryRequest → ℤ
leg_sign normal e =
    if direction_eq e.direction normal then e.amount.amount_minor else neg_ℤ e.amount.amount_minor

-- The signed sum of the legs of one account.
unfoldable pub leg_balance : Uuid → Direction → List EntryRequest → ℤ
leg_balance id normal [] = pos 0
leg_balance id normal (e ∷ es) =
    let rest = leg_balance id normal es in
    if e.account_id == id then leg_sign normal e +ℤ rest else rest

pub journal_balance-leg :
    (id : Uuid) (normal : Direction) (es : List JournalEntry)
    → journal_balance id normal es ≡ leg_balance id normal (map leg es)
unfolding journal_balance leg_balance
journal_balance-leg id normal [] = refl
journal_balance-leg id normal (e ∷ es) = ground (arith, journal_balance-leg id normal es)

-- An account that no leg names gets nothing.
pub leg_balance-absent :
    (id : Uuid) (normal : Direction) (es : List EntryRequest)
    → mem_id id (account_ids es) ≡ false
    → leg_balance id normal es ≡ pos 0
unfolding leg_balance mem_id
leg_balance-absent id normal [] h = refl
leg_balance-absent id normal (e ∷ es) h = ground (arith, leg_balance-absent id normal es)

-- The amounts of a request are int64.
abbrev pub AreInt64Legs : List EntryRequest → Type 0
AreInt64Legs es = All (λ e. IsInt64 e.amount.amount_minor) es

pub AreInt64-of_legs : (es : List JournalEntry) → AreInt64Legs (map leg es) → AreInt64 es
AreInt64-of_legs [] h = tt
AreInt64-of_legs (e ∷ es) h = (h.0, AreInt64-of_legs es h.1)

pub All-append {ℓ κ} :
    {A : Type ℓ} (P : A → Type κ) (front back : List A)
    → All P front
    → All P back
    → All P (front ++ back)
All-append P [] back in_front in_back = in_back
All-append P (x ∷ front) back (px, in_front) in_back =
    (px, All-append P front back in_front in_back)
