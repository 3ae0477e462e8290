-- ===== src/Ledger/Request/Totals.antt =====
-- `TransactionRequest.validate`: what a request that it accepts looks like.
use ledger_core.Base.{
  ◌≡◌, String, List, [], ◌∷◌, Bool, true, false, ℤ, pos, ◌+ℤ◌, ◌<ℤ◌, +ℤ_zero, zero_+ℤ, +ℤ_assoc,
  if◌then◌else◌, arith, All, IsInt64, eq_of_parts, length, ◌≤◌, ◌∙◌, sym, ap, eq_iff, inl, inr,
  Option-cases,
}
use ledger_core.Errors.{ok, Result-cases}
use ledger_core.Ledger.Money.{Money, new_money, add, add_int64, same_currency, equal}
use ledger_core.Ledger.Money.Bounds.{add_int64-some}
use ledger_core.Ledger.Types.{
  Direction, debit, credit, direction_eq, is_valid_direction, is_valid_transaction_type,
}
use ledger_core.Ledger.Request.{
  EntryRequest, TransactionRequest, validate_entry, validate_entries, validate, first_currency,
}
use ledger_core.Ledger.Journal.{AreInt64Legs}

-- The exact sum of the legs of one direction.
unfoldable pub side_total : Direction → List EntryRequest → ℤ
side_total side [] = pos 0
side_total side (e ∷ es) =
    let rest = side_total side es in
    if direction_eq e.direction side then e.amount.amount_minor +ℤ rest else rest

-- A leg that may be posted in a currency.
abbrev pub IsPostable : String → EntryRequest → Type 0
IsPostable currency e =
    (e.amount.currency ≡ currency)
    × (pos 0 <ℤ e.amount.amount_minor)
    × (is_valid_direction e.direction ≡ true)

-- Adding money is exact where it succeeds.
add-exact :
    (a b : Money) {c : Money}
    → IsInt64 a.amount_minor
    → IsInt64 b.amount_minor
    → add a b ≡ ok c
    → (c.amount_minor ≡ a.amount_minor +ℤ b.amount_minor) × IsInt64 c.amount_minor
unfolding add same_currency
add-exact a b ha hb h = elim (Option-cases (add_int64 a.amount_minor b.amount_minor)) [
  | inl e ↦ absurd (ground arith)
  | inr (s, e) ↦ ground (arith, add_int64-some a.amount_minor b.amount_minor s ha hb e)
]

validate_entry_lem :
    (currency : String) (e : EntryRequest) (d c : Money) {d' c' : Money}
    → IsInt64 e.amount.amount_minor
    → IsInt64 d.amount_minor
    → IsInt64 c.amount_minor
    → validate_entry currency e (d, c) ≡ ok (d', c')
    → IsPostable currency e
      × (d'.amount_minor ≡ (
          if direction_eq e.direction debit
          then d.amount_minor +ℤ e.amount.amount_minor
          else d.amount_minor))
      × (c'.amount_minor ≡ (
          if direction_eq e.direction credit
          then c.amount_minor +ℤ e.amount.amount_minor
          else c.amount_minor))
      × IsInt64 d'.amount_minor
      × IsInt64 c'.amount_minor
unfolding validate_entry is_valid_direction
validate_entry_lem currency e d c he hd hc h = elim (Result-cases (add d e.amount)) [
  | inl (x, q) ↦ elim (Result-cases (add c e.amount)) [
    | inl (y, r) ↦ absurd (ground arith)
    | inr (total, r) ↦
        ground (arith, (eq_iff e.amount.currency currency).0, add-exact c e.amount hc he r)
  ]
  | inr (total, q) ↦ elim (Result-cases (add c e.amount)) [
    | inl (y, r) ↦
        ground (arith, (eq_iff e.amount.currency currency).0, add-exact d e.amount hd he q)
    | inr (total', r) ↦ ground (
      arith,
      (eq_iff e.amount.currency currency).0,
      add-exact d e.amount hd he q,
      add-exact c e.amount hc he r,
    )
  ]
]

total_under :
    (counts : Bool) (before amount rest between after : ℤ)
    → between ≡ (if counts then before +ℤ amount else before)
    → after ≡ between +ℤ rest
    → after ≡ before +ℤ (if counts then amount +ℤ rest else rest)
total_under true before amount rest between after h k =
    k ∙ ap (λ x. x +ℤ rest) h ∙ +ℤ_assoc before amount rest
total_under false before amount rest between after h k = k ∙ ap (λ x. x +ℤ rest) h

validate_entries_lem :
    (currency : String) (es : List EntryRequest) (d c : Money) {d' c' : Money}
    → AreInt64Legs es
    → IsInt64 d.amount_minor
    → IsInt64 c.amount_minor
    → validate_entries currency es (d, c) ≡ ok (d', c')
    → All (IsPostable currency) es
      × (d'.amount_minor ≡ d.amount_minor +ℤ side_total debit es)
      × (c'.amount_minor ≡ c.amount_minor +ℤ side_total credit es)
unfolding validate_entries side_total
validate_entries_lem currency [] d c he hd hc h =
    ground (arith, +ℤ_zero d.amount_minor, +ℤ_zero c.amount_minor)
validate_entries_lem currency (e ∷ es) d c {d'} {c'} he hd hc h =
    elim (Result-cases (validate_entry currency e (d, c))) [
      | inl (x, q) ↦ absurd (ground arith)
      | inr ((d1, c1), q) ↦
          let (postable, ed, ec, hd1, hc1) = validate_entry_lem currency e d c he.0 hd hc q in
          let (rest, sd, sc) =
            validate_entries_lem currency es d1 c1 {d' = d'} {c' = c'} he.1 hd1 hc1
              (ground arith) in
          (
            (postable, rest),
            total_under (direction_eq e.direction debit) _ _ _ _ _ ed sd,
            total_under (direction_eq e.direction credit) _ _ _ _ _ ec sc,
          )
    ]

equal-amounts : (a b : Money) → equal a b ≡ true → a.amount_minor ≡ b.amount_minor
unfolding equal
equal-amounts a b h = ground (arith, eq_of_parts a.amount_minor b.amount_minor)

-- What a valid request is.
pub record IsValidRequest (r : TransactionRequest) : Type 0 where
  pub postable : All (IsPostable (first_currency r.entries)) r.entries
  pub balanced : side_total debit r.entries ≡ side_total credit r.entries
  pub several : 2 ≤ length r.entries
  pub known_type : is_valid_transaction_type r.transaction_type ≡ true

-- A request with int64 amounts that validate accepts has at least two legs and a known type, every
-- leg has a positive amount in the first leg's currency and a valid direction, and its exact debits
-- equal its exact credits, although the code totals them with wrapping additions.
pub validate-IsValidRequest :
    (r : TransactionRequest) → AreInt64Legs r.entries → validate r ≡ ok tt → IsValidRequest r
unfolding validate new_money
validate-IsValidRequest r typed h =
    let currency = first_currency r.entries in
    let zero_total : Money = record { amount_minor = pos 0; currency = currency } in
    elim (Result-cases (validate_entries currency r.entries (zero_total, zero_total))) [
      | inl (x, q) ↦ absurd (ground arith)
      | inr ((d, c), q) ↦
          let (postable, ed, ec) =
            validate_entries_lem currency r.entries zero_total zero_total {d' = d} {c' = c} typed
              (ground arith) (ground arith) q in
          let same : equal d c ≡ true = ground arith in
          record {
            postable = postable;
            balanced =
                sym (zero_+ℤ (side_total debit r.entries))
                ∙ sym ed
                ∙ equal-amounts d c same
                ∙ ec
                ∙ zero_+ℤ (side_total credit r.entries);
            several = ground arith;
            known_type = ground arith;
          }
    ]
