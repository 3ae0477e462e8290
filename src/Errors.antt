-- ===== src/Errors.antt =====
-- The sentinel errors of internal/ledger/errors.go, internal/saga/errors.go,
-- internal/idempotency/errors.go, internal/gateway/gateway.go and internal/projector/apply.go, and
-- results that carry one.
-- `fmt.Errorf("...: %w", e)` adds a message and keeps what `errors.Is` sees, so a wrapped error is
-- its sentinel. The last group are the failures of code outside the repository: the database
-- driver, the random source behind uuid.NewV7, an encoder, a cancelled context, and a panic, which ends the
-- goroutine with whatever is committed.
use mathlib.Core.Path.{◌≡◌, refl}
use mathlib.Core.Logic.{◌⊎◌, inl, inr}
use mathlib.Core.Bool.{Bool, true, false}
use mathlib.Core.Option.{Option, none, some}

pub data Error : Type 0 where
  insufficient_funds unbalanced_transaction currency_mismatch account_not_found : Error
  account_not_postable immutable_journal transaction_not_found transaction_not_pending : Error
  transaction_not_posted already_reversed reversal_reason_required money_overflow : Error
  invalid_currency scale_mismatch mixed_currency too_few_entries invalid_entry : Error
  invalid_transaction_type invalid_account_type missing_renderer : Error
  duplicate_idempotency_key balance_version_conflict : Error
  saga_not_found stale_transition saga_lease_lost unknown_saga_type : Error
  idempotency_conflict request_in_progress corrupt_record key_expired lease_lost : Error
  payment_declined payment_not_found gateway_unavailable invalid_request : Error
  unknown_event_type : Error
  database_failed random_failed encoding_failed context_done : Error
  panicked : Error

pub data Result {ℓ} (A : Type ℓ) : Type ℓ where
  err : Error → Result A
  ok : A → Result A

abbrev pub is_ok {ℓ} : {A : Type ℓ} → Result A → Bool
is_ok (err e) = false
is_ok (ok a) = true

-- A split on a computed result that keeps the equation.
pub Result-cases {ℓ} :
    {A : Type ℓ} (r : Result A) → ((x : Error) × (r ≡ err x)) ⊎ ((a : A) × (r ≡ ok a))
Result-cases (ok a) = inr (a, refl)
Result-cases (err x) = inl (x, refl)

-- A chain of fallible steps: the first error ends it.
infixl 5 ◌>>=◌ ◌>>◌
abbrev pub ◌>>=◌ {ℓ κ} : {A : Type ℓ} {B : Type κ} → Result A → (A → Result B) → Result B
r >>= next = elim r [ err x ↦ err x | ok a ↦ next a ]

-- `if !c { return e }`
abbrev pub require : Bool → Error → Result (Unit {0})
require true x = ok tt
require false x = err x

abbrev pub or_error {ℓ} : {A : Type ℓ} → Option A → Error → Result A
or_error none e = err e
or_error (some a) e = ok a

abbrev pub ◌>>◌ {ℓ} : {B : Type ℓ} → Result (Unit {0}) → Result B → Result B
first >> then_do = first >>= λ _. then_do

pub or_error-eq-ok {ℓ} :
    {A : Type ℓ} (o : Option A) (x : Error) {a : A} → or_error o x ≡ ok a → o ≡ some a
or_error-eq-ok none x h = cc
or_error-eq-ok (some a) x h = cc

-- A chain that ends well has a first step that ended well.
pub >>=-eq-ok {ℓ κ} :
    {A : Type ℓ} {B : Type κ} (first : Result A) (next : A → Result B) {result : B}
    → (first >>= next) ≡ ok result
    → (a : A) × (first ≡ ok a) × (next a ≡ ok result)
>>=-eq-ok (err x) next ended = cc
>>=-eq-ok (ok a) next ended = (a, refl, ended)
