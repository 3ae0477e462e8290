-- ===== src/Ledger/Money/Bounds.antt =====
-- The overflow tests of money.go against exact integer arithmetic.
use ledger_core.Base.{
  ◌≡◌, ◌⊎◌, none, some, ℤ, pos, negsuc, ◌+ℤ◌, ◌-ℤ◌, IsInt64, wrap64, arith, Option-cases, inl, inr,
  subst, ◌∙◌, ap,
}
use ledger_core.Ledger.Money.{add_int64, sub_int64}

-- In range the wrapped sum is the sum.
pub wrap64-eq : (a : ℤ) → IsInt64 a → wrap64 a ≡ a
unfolding wrap64
wrap64-eq (pos n) h = ground arith
wrap64-eq (negsuc n) h = ground arith

-- addInt64 succeeds exactly when the true sum is an int64.
pub add_int64-some :
    (a b s : ℤ) → IsInt64 a → IsInt64 b → add_int64 a b ≡ some s → (s ≡ a +ℤ b) × IsInt64 s
unfolding add_int64 wrap64 ◌+ℤ◌
add_int64-some (pos m) (pos n) s ha hb e = ground arith
add_int64-some (pos m) (negsuc n) s ha hb e = ground arith
add_int64-some (negsuc m) (pos n) s ha hb e = ground arith
add_int64-some (negsuc m) (negsuc n) s ha hb e = ground arith

pub add_int64-none : (a b : ℤ) → IsInt64 a → IsInt64 b → add_int64 a b ≡ none → ¬ IsInt64 (a +ℤ b)
unfolding add_int64 wrap64 ◌+ℤ◌
add_int64-none (pos m) (pos n) ha hb e h = ground arith
add_int64-none (pos m) (negsuc n) ha hb e h = ground arith
add_int64-none (negsuc m) (pos n) ha hb e h = ground arith
add_int64-none (negsuc m) (negsuc n) ha hb e h = ground arith

pub sub_int64-some :
    (a b s : ℤ) → IsInt64 a → IsInt64 b → sub_int64 a b ≡ some s → (s ≡ a -ℤ b) × IsInt64 s
unfolding sub_int64 wrap64 ◌-ℤ◌
sub_int64-some (pos m) (pos n) s ha hb e = ground arith
sub_int64-some (pos m) (negsuc n) s ha hb e = ground arith
sub_int64-some (negsuc m) (pos n) s ha hb e = ground arith
sub_int64-some (negsuc m) (negsuc n) s ha hb e = ground arith

pub sub_int64-none : (a b : ℤ) → IsInt64 a → IsInt64 b → sub_int64 a b ≡ none → ¬ IsInt64 (a -ℤ b)
unfolding sub_int64 wrap64 ◌-ℤ◌
sub_int64-none (pos m) (pos n) ha hb e h = ground arith
sub_int64-none (pos m) (negsuc n) ha hb e h = ground arith
sub_int64-none (negsuc m) (pos n) ha hb e h = ground arith
sub_int64-none (negsuc m) (negsuc n) ha hb e h = ground arith

-- On int64 arguments add_int64 returns the exact sum when it is an int64, and reports overflow when
-- it is not.
pub add_int64_exact :
    (a b : ℤ)
    → IsInt64 a
    → IsInt64 b
    → ((add_int64 a b ≡ some (a +ℤ b)) × IsInt64 (a +ℤ b))
      ⊎ ((add_int64 a b ≡ none) × (¬ IsInt64 (a +ℤ b)))
add_int64_exact a b ha hb = elim (Option-cases (add_int64 a b)) [
  | inl e ↦ inr (e, add_int64-none a b ha hb e)
  | inr (s, e) ↦ let (q, r) = add_int64-some a b s ha hb e in inl (e ∙ ap some q, subst IsInt64 q r)
]

-- On int64 arguments sub_int64 returns the exact difference when it is an int64, and reports
-- overflow when it is not.
pub sub_int64_exact :
    (a b : ℤ)
    → IsInt64 a
    → IsInt64 b
    → ((sub_int64 a b ≡ some (a -ℤ b)) × IsInt64 (a -ℤ b))
      ⊎ ((sub_int64 a b ≡ none) × (¬ IsInt64 (a -ℤ b)))
sub_int64_exact a b ha hb = elim (Option-cases (sub_int64 a b)) [
  | inl e ↦ inr (e, sub_int64-none a b ha hb e)
  | inr (s, e) ↦ let (q, r) = sub_int64-some a b s ha hb e in inl (e ∙ ap some q, subst IsInt64 q r)
]
