-- ===== src/Ledger/Money.antt =====
-- internal/ledger/money.go: exact amounts in minor units. `amountMinor int64` is an integer whose
-- sums wrap as Go's do; the currency is a string.
pub mod Bounds
use Prim.Native.Char.{code}
use ledger_core.Base.{
  ℕ, String, List, [], ◌∷◌, Bool, true, false, ◌&&◌, ◌||◌, Option, none, some, leb, str_eq,
  if◌then◌else◌, ℤ, pos, negsuc, ◌+ℤ◌, ◌-ℤ◌, neg_ℤ, ltb_ℤ, eqb_ℤ, int64_min, wrap64,
}
use ledger_core.Errors.{
  Result, ok, err, require, or_error, invalid_currency, currency_mismatch, money_overflow, ◌>>=◌,
  ◌>>◌,
}

pub record Money : Type 0 where
  pub amount_minor : ℤ  -- int64
  pub currency : String

abbrev codes : String → List ℕ
codes String.[] = []
codes (String.◌∷◌ c s) = code c ∷ codes s

abbrev is_upper : ℕ → Bool
is_upper c = leb b'A' c && leb c b'Z'

abbrev three_uppers : List ℕ → Bool
three_uppers (a ∷ b ∷ c ∷ []) = is_upper a && (is_upper b && is_upper c)
three_uppers _ = false

-- `currencyPattern.MatchString`, for ^[A-Z]{3}$
unfoldable pub matches_currency_pattern : String → Bool
matches_currency_pattern s = three_uppers (codes s)

unfoldable pub new_money : ℤ → String → Result Money
new_money amount_minor currency =
    if matches_currency_pattern currency
    then ok (record { amount_minor = amount_minor; currency = currency })
    else err invalid_currency

unfoldable pub validate : Money → Result (Unit {0})
validate m = require (matches_currency_pattern m.currency) invalid_currency

unfoldable pub is_zero : Money → Bool
is_zero m = eqb_ℤ m.amount_minor (pos 0)

unfoldable pub is_negative : Money → Bool
is_negative m = ltb_ℤ m.amount_minor (pos 0)

-- a+b and whether it fits: the sum wraps, and the test reads its sign afterwards.
unfoldable pub add_int64 : ℤ → ℤ → Option ℤ
add_int64 a b =
    let sum : ℤ = wrap64 (a +ℤ b) in
    if (ltb_ℤ (pos 0) a && (ltb_ℤ (pos 0) b && ltb_ℤ sum (pos 0)))
      || (ltb_ℤ a (pos 0) && (ltb_ℤ b (pos 0) && ltb_ℤ (negsuc 0) sum))
    then none
    else some sum

unfoldable pub sub_int64 : ℤ → ℤ → Option ℤ
sub_int64 a b =
    let diff : ℤ = wrap64 (a -ℤ b) in
    if (ltb_ℤ b (pos 0) && ltb_ℤ diff a) || (ltb_ℤ (pos 0) b && ltb_ℤ a diff)
    then none
    else some diff

unfoldable pub same_currency : Money → Money → Result (Unit {0})
same_currency m other = require (str_eq m.currency other.currency) currency_mismatch

unfoldable pub add : Money → Money → Result Money
unfolding same_currency
add m other = do
  same_currency m other
  sum ← or_error (add_int64 m.amount_minor other.amount_minor) money_overflow
  ok (record { amount_minor = sum; currency = m.currency })

unfoldable pub sub : Money → Money → Result Money
unfolding same_currency
sub m other = do
  same_currency m other
  diff ← or_error (sub_int64 m.amount_minor other.amount_minor) money_overflow
  ok (record { amount_minor = diff; currency = m.currency })

-- -m; unary minus on int64 wraps too, which the test rules out.
unfoldable pub neg : Money → Result Money
neg m =
    if eqb_ℤ m.amount_minor int64_min
    then err money_overflow
    else ok (record { amount_minor = wrap64 (neg_ℤ m.amount_minor); currency = m.currency })

unfoldable pub cmp : Money → Money → Result ℤ
unfolding same_currency
cmp m other = do
  same_currency m other
  ok (
      if ltb_ℤ m.amount_minor other.amount_minor
      then negsuc 0
      else if ltb_ℤ other.amount_minor m.amount_minor
      then pos 1
      else pos 0)

unfoldable pub equal : Money → Money → Bool
equal m other = eqb_ℤ m.amount_minor other.amount_minor && str_eq m.currency other.currency
