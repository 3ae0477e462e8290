-- ===== src/Saga/Payout/Valid.antt =====
-- The requests of a payout pass the ledger's validation.
use ledger_core.Base.{
  ◌≡◌, refl, String, ◌<◌, ◌≤◌, ◌+◌, ◌-◌, ◌^◌, ℕ, ℤ, pos, negsuc, ◌+ℤ◌, ◌-ℤ◌, ltb, wrap64, IsInt64,
  true, false, some, str_eq, ◌==◌, arith, Bool-cases, inl, inr, ◌⊎◌, eq_iff, List, [], ◌∷◌, length,
  sym, ap, subst, ◌∙◌,
}
use ledger_core.Errors.{ok}
use ledger_core.Ledger.Money
use ledger_core.Ledger.Money.{
  Money, add_int64, add, same_currency, new_money, equal, matches_currency_pattern,
}
use ledger_core.Ledger.Request
use ledger_core.Ledger.Request.{EntryRequest, validate_entry, validate_entries}
use ledger_core.Saga.Payout
use ledger_core.Saga.Payout.{merchant_minor}
use ledger_core.Saga.Payout.Run.{Env, Allocated}
use ledger_core.Ledger.Types.{Uuid, debit, credit, is_valid_direction, is_valid_transaction_type}
use ledger_core.Saga.Payout.Steps.{entry, settlement, settle_request}
use ledger_core.Saga.Types.{Payload, Instance}

str_eq_self : (c : String) → str_eq c c ≡ true
str_eq_self c = (eq_iff c c).1 refl

merchant_lem : (n m : ℕ) → m < n → n ≤ 2 ^ 63 - 1 → wrap64 (pos n -ℤ pos m) ≡ pos (n - m)
unfolding wrap64 ◌-ℤ◌
merchant_lem n m h k = ground arith

add_pos : (x n : ℕ) → x + n ≤ 2 ^ 63 - 1 → add_int64 (pos x) (pos n) ≡ some (pos (x + n))
unfolding add_int64 wrap64 ◌+ℤ◌
add_pos x n h = ground arith

abbrev money : ℕ → String → Money
money n c = record { amount_minor = pos n; currency = c }

add-money :
    (x n : ℕ) (c : String) → x + n ≤ 2 ^ 63 - 1 → add (money x c) (money n c) ≡ ok (money (x + n) c)
unfolding add same_currency
add-money x n c h = let e = add_pos x n h in let s = str_eq_self c in ground arith

debit_accepted :
    (id : Uuid) (x n total : ℕ) (c : String) (credits : Money)
    → (id == 0) ≡ false
    → matches_currency_pattern c ≡ true
    → 0 < n
    → x + n ≡ total
    → total ≤ 2 ^ 63 - 1
    → validate_entry c (entry id debit (money n c)) (money x c, credits)
      ≡ ok (money total c, credits)
unfolding validate_entry Money.validate is_valid_direction
debit_accepted id x n total c credits known m some_n sum fits =
    let e = add-money x n c (omega arith) in let s = str_eq_self c in ground arith

credit_accepted :
    (id : Uuid) (x n total : ℕ) (c : String) (debits : Money)
    → (id == 0) ≡ false
    → matches_currency_pattern c ≡ true
    → 0 < n
    → x + n ≡ total
    → total ≤ 2 ^ 63 - 1
    → validate_entry c (entry id credit (money n c)) (debits, money x c)
      ≡ ok (debits, money total c)
unfolding validate_entry Money.validate is_valid_direction
credit_accepted id x n total c debits known m some_n sum fits =
    let e = add-money x n c (omega arith) in let s = str_eq_self c in ground arith

int-cases : (a : ℤ) → ((n : ℕ) × (a ≡ pos n)) ⊎ ((n : ℕ) × (a ≡ negsuc n))
int-cases (pos n) = inl (n, refl)
int-cases (negsuc n) = inr (n, refl)

-- What a valid payload says of its amounts and accounts.
record Amounts (p : Payload) : Type 0 where
  amount : ℕ
  fee : ℕ
  amount_is : p.amount_minor ≡ pos amount
  fee_is : p.fee_minor ≡ pos fee
  less : fee < amount
  suspense : (p.suspense_id == 0) ≡ false
  merchant : (p.merchant_payable_id == 0) ≡ false
  fees : (p.fee_revenue_id == 0) ≡ false

validate-Amounts : (p : Payload) → Payout.validate p ≡ ok tt → Amounts p
unfolding Payout.validate
validate-Amounts p valid = elim (int-cases p.amount_minor) [
  | inr (n, e) ↦ absurd (ground arith)
  | inl (n, e) ↦ elim (int-cases p.fee_minor) [
    | inr (m, e') ↦ absurd (ground arith)
    | inl (m, e') ↦ record {
      amount = n;
      fee = m;
      amount_is = e;
      fee_is = e';
      less = ground arith;
      suspense = ground arith;
      merchant = ground arith;
      fees = ground arith;
    }
  ]
]

-- The legs over natural numbers.
abbrev with_fee : Payload → ℕ → ℕ → List EntryRequest
with_fee p n m =
    entry p.suspense_id debit (money n p.currency)
    ∷ entry p.merchant_payable_id credit (money (n - m) p.currency)
    ∷ entry p.fee_revenue_id credit (money m p.currency)
    ∷ []

abbrev without_fee : Payload → ℕ → List EntryRequest
without_fee p n =
    entry p.suspense_id debit (money n p.currency)
    ∷ entry p.merchant_payable_id credit (money n p.currency)
    ∷ []

settlement-with_fee :
    (p : Payload) (n m : ℕ)
    → p.amount_minor ≡ pos n
    → p.fee_minor ≡ pos m
    → 0 < m
    → m < n
    → n ≤ 2 ^ 63 - 1
    → settlement p ≡ with_fee p n m
unfolding merchant_minor
settlement-with_fee p n m a f some_m less fits =
    rw (a, f) (let e = merchant_lem n m less fits in ground arith)

settlement-without_fee :
    (p : Payload) (n : ℕ)
    → p.amount_minor ≡ pos n
    → p.fee_minor ≡ pos 0
    → 0 < n
    → n ≤ 2 ^ 63 - 1
    → settlement p ≡ without_fee p n
unfolding merchant_minor
settlement-without_fee p n a f some_n fits =
    rw (a, f) (let e = merchant_lem n 0 some_n fits in ground arith)

with_fee-accepted :
    (p : Payload) (n m : ℕ)
    → Amounts p
    → matches_currency_pattern p.currency ≡ true
    → 0 < m
    → m < n
    → n ≤ 2 ^ 63 - 1
    → validate_entries p.currency (with_fee p n m) (money 0 p.currency, money 0 p.currency)
      ≡ ok (money n p.currency, money n p.currency)
unfolding validate_entries
with_fee-accepted p n m k currency some_m less fits =
    let c = p.currency in
    rw
      (debit_accepted p.suspense_id 0 n n c (money 0 c) k.suspense currency (omega arith)
        (omega arith) fits)
      (rw
        (credit_accepted p.merchant_payable_id 0 (n - m) (n - m) c (money n c) k.merchant currency
          (omega arith) (omega arith) (omega arith))
        (rw
          (credit_accepted p.fee_revenue_id (n - m) m n c (money n c) k.fees currency some_m
            (omega arith) fits)
          refl))

in_range : (a : ℤ) (n : ℕ) → IsInt64 a → a ≡ pos n → n ≤ 2 ^ 63 - 1
in_range a n h e = ground (arith, h.high)

without_fee-accepted :
    (p : Payload) (n : ℕ)
    → Amounts p
    → matches_currency_pattern p.currency ≡ true
    → 0 < n
    → n ≤ 2 ^ 63 - 1
    → validate_entries p.currency (without_fee p n) (money 0 p.currency, money 0 p.currency)
      ≡ ok (money n p.currency, money n p.currency)
unfolding validate_entries
without_fee-accepted p n k currency some_n fits =
    let c = p.currency in
    rw
      (debit_accepted p.suspense_id 0 n n c (money 0 c) k.suspense currency some_n (omega arith)
        fits)
      (rw
        (credit_accepted p.merchant_payable_id 0 n n c (money n c) k.merchant currency some_n
          (omega arith) fits)
        refl)

totals_accepted :
    (env : Env) (saga : Instance) (p : Payload) (attempt : Allocated) (n : ℕ) (id : Uuid) (x : ℕ)
    (second : EntryRequest) (rest : List EntryRequest)
    → matches_currency_pattern p.currency ≡ true
    → validate_entries p.currency
        (entry id debit (money x p.currency) ∷ second ∷ rest)
        (money 0 p.currency, money 0 p.currency)
      ≡ ok (money n p.currency, money n p.currency)
    → Request.validate
        (settle_request env saga p attempt (entry id debit (money x p.currency) ∷ second ∷ rest))
      ≡ ok tt
unfolding Request.validate new_money equal is_valid_transaction_type
totals_accepted env saga p attempt n id x second rest currency h =
    let c = str_eq_self p.currency in
    let long : ltb (length (entry id debit (money x p.currency) ∷ second ∷ rest)) 2 ≡ false =
      ground arith in
    rw long (rw currency (rw h (ground arith)))

-- The ledger's validation accepts the settlement of every payload that the payout's own validation
-- accepts, with or without a fee: the merchant's share and the fee add up to the amount. The
-- amounts are int64 and the currency has the form that the ledger asks for.
pub settlement_accepted :
    (env : Env) (saga : Instance) (p : Payload) (attempt : Allocated)
    → IsInt64 p.amount_minor
    → IsInt64 p.fee_minor
    → matches_currency_pattern p.currency ≡ true
    → Payout.validate p ≡ ok tt
    → Request.validate (settle_request env saga p attempt (settlement p)) ≡ ok tt
settlement_accepted env saga p attempt a f currency valid =
    let k = validate-Amounts p valid in
    let fits = in_range p.amount_minor k.amount a k.amount_is in
    let accepted : List EntryRequest → Type 0 =
      λ es. Request.validate (settle_request env saga p attempt es) ≡ ok tt in
    elim (Bool-cases (ltb 0 k.fee)) [
      | inl charged ↦
          subst accepted
            (sym (
              settlement-with_fee p k.amount k.fee k.amount_is k.fee_is (ground arith) k.less fits))
            (totals_accepted env saga p attempt k.amount p.suspense_id k.amount _ _ currency
              (with_fee-accepted p k.amount k.fee k currency (ground arith) k.less fits))
      | inr free ↦
          let some_amount : 0 < k.amount = omega (arith, k.less) in
          subst accepted
            (sym (
              settlement-without_fee p k.amount k.amount_is (k.fee_is ∙ ap pos (ground arith))
                some_amount fits))
            (totals_accepted env saga p attempt k.amount p.suspense_id k.amount _ _ currency
              (without_fee-accepted p k.amount k currency some_amount fits))
    ]
