-- ===== src/Reconciliation/Verdicts.antt =====
-- When a reference is clean, and what the engine closes by itself.
use ledger_core.Base.{
  ℕ, ◌+◌, ◌-◌, ◌^◌, ℤ, pos, wrap64, neg_ℤ, int64_min, int64_max, eqb_ℤ, leb_ℤ, if◌then◌else◌, ◌≢◌,
  ◌≤◌, ◌<◌, ◌≡◌, ◌⊎◌, refl, List, [], ◌∷◌, true, false, Option, none, some, ltb, length, arith, ◌∙◌,
  ap, Option-cases, Bool-cases, inl, inr, eq_iff, eq_of_parts,
}
use ledger_core.Reconciliation.{
  timing_difference, auto_resolved, PspAggregate, LedgerSide, MatchedRecord, Exception, opened,
  missing_in_psp, missing_in_ledger, duplicate, amount_mismatch, status_mismatch, exception, timed,
  statuses_agree, amounts_agree, gap_between, classify, tally, is_auto_resolved,
}

-- Both sides are there, the statement names the reference once, and they agree on the amount, the
-- currency and the status.
pub record Agrees (m : MatchedRecord) (l : LedgerSide) (p : PspAggregate) : Type 0 where
  pub in_ledger : m.ledger ≡ some l
  pub in_psp : m.psp ≡ some p
  pub once : p.row_count ≤ 1
  pub amount : l.amount_minor ≡ p.amount_minor
  pub currency : l.currency ≡ p.currency
  pub status : statuses_agree l.status p.status ≡ true

amounts_agree_lem :
    (l : LedgerSide) (p : PspAggregate)
    → amounts_agree l p ≡ true
    → (l.amount_minor ≡ p.amount_minor) × (l.currency ≡ p.currency)
amounts_agree_lem l p h =
    ground (arith, eq_of_parts l.amount_minor p.amount_minor, (eq_iff l.currency p.currency).0)

-- What is left to compare once everything but the times has been.
abbrev IsTimed : MatchedRecord → ℕ → ℕ → Option Exception → Type 0
IsTimed m timing_window now result =
    (l : LedgerSide) × (p : PspAggregate) × Agrees m l p
    × (result ≡ (elim l.posted_at [
      | none ↦ none
      | some posted ↦ timed m timing_window now (gap_between posted p.settled_at)
    ]))

classify_sides :
    (m : MatchedRecord) (timing_window now : ℕ)
    → ((e : Exception) × (classify m timing_window now ≡ some e)
        × (e.status ≡ opened)
        × (e.resolved_at ≡ none))
      ⊎ IsTimed m timing_window now (classify m timing_window now)
unfolding classify
classify_sides m w now = elim (Option-cases m.psp) [
  | inl e ↦ inl (exception m missing_in_psp, ground arith, refl, refl)
  | inr (p, e) ↦ elim (Bool-cases (ltb 1 p.row_count)) [
    | inl q ↦ inl (exception m duplicate, ground arith, refl, refl)
    | inr q ↦ elim (Option-cases m.ledger) [
      | inl f ↦ inl (exception m missing_in_ledger, ground arith, refl, refl)
      | inr (l, f) ↦ elim (Bool-cases (amounts_agree l p)) [
        | inr g ↦ inl (exception m amount_mismatch, ground arith, refl, refl)
        | inl g ↦ elim (Bool-cases (statuses_agree l.status p.status)) [
          | inr k ↦ inl (exception m status_mismatch, ground arith, refl, refl)
          | inl k ↦
              let (same, money) = amounts_agree_lem l p g in
              inr (
                l,
                p,
                record {
                  in_ledger = f;
                  in_psp = e;
                  once = ground arith;
                  amount = same;
                  currency = money;
                  status = k;
                },
                stays_timed l p e q f g k,
              )
        ]
      ]
    ]
  ]
]
  where
    stays_timed :
        (l : LedgerSide) (p : PspAggregate)
        → m.psp ≡ some p
        → ltb 1 p.row_count ≡ false
        → m.ledger ≡ some l
        → amounts_agree l p ≡ true
        → statuses_agree l.status p.status ≡ true
        → classify m w now ≡ (elim l.posted_at [
          | none ↦ none
          | some posted ↦ timed m w now (gap_between posted p.settled_at)
        ])
    stays_timed l p e q f g k = elim (Option-cases l.posted_at) [
      | inl missing ↦ ground arith
      | inr (posted, found) ↦ ground arith
    ]

-- How far apart two times are.
abbrev pub distance : ℕ → ℕ → ℕ
distance a b = if ltb a b then b - a else a - b

-- The gap is the distance of the times, if this is a Duration; else the longest Duration where the
-- first time is the later one, and the least, which is negative, where it is the earlier one.
pub gap_between_lem :
    (a b : ℕ)
    → (gap_between a b ≡ pos (distance a b))
      ⊎ (((gap_between a b ≡ int64_max) × (2 ^ 63 ≤ distance a b))
          ⊎ ((gap_between a b ≡ int64_min) × (a + 2 ^ 63 ≤ b)))
unfolding gap_between wrap64 neg_ℤ
gap_between_lem a b = elim (Bool-cases (ltb a b)) [
  | inl p ↦ elim (Bool-cases (ltb (b - a) (2 ^ 63))) [
    | inl q ↦ inl (ground arith)
    | inr q ↦ inr (inr (ground arith))
  ]
  | inr p ↦ elim (Bool-cases (ltb (a - b) (2 ^ 63))) [
    | inl q ↦ inl (ground arith)
    | inr q ↦ inr (inl (ground arith))
  ]
]

no_gap : (a b : ℕ) → eqb_ℤ (gap_between a b) (pos 0) ≡ true → a ≡ b
no_gap a b h = elim (gap_between_lem a b) [
  | inl e ↦ ground arith
  | inr (inl (e, _)) ↦ ground arith
  | inr (inr (e, _)) ↦ ground arith
]

-- A reference that classify reports as clean is in the ledger and, once, in the statement; both
-- agree on amount, currency and status, and it was settled at the time at which the ledger posted
-- it, if it has posted it.
pub classify_clean :
    (m : MatchedRecord) (timing_window now : ℕ)
    → classify m timing_window now ≡ none
    → (l : LedgerSide) × (p : PspAggregate) × Agrees m l p
      × ((l.posted_at ≡ none) ⊎ (l.posted_at ≡ some p.settled_at))
classify_clean m w now h = elim (classify_sides m w now) [
  | inl (e, q, _, _) ↦ absurd (ground arith)
  | inr (l, p, agrees, q) ↦ elim (Option-cases l.posted_at) [
    | inl e ↦ (l, p, agrees, inl e)
    | inr (posted, e) ↦
        (l, p, agrees, inr (e ∙ ap some (no_gap posted p.settled_at (ground arith))))
  ]
]

timed_lem :
    (m : MatchedRecord) (w now : ℕ) (gap : ℤ) (e : Exception)
    → timed m w now gap ≡ some e
    → e.status ≡ auto_resolved
    → (e.category ≡ timing_difference) × (eqb_ℤ gap (pos 0) ≡ false) × (leb_ℤ gap (pos w) ≡ true)
timed_lem m w now gap e h closed = ground arith

same_time : (a : ℕ) → eqb_ℤ (gap_between a a) (pos 0) ≡ true
unfolding gap_between wrap64 neg_ℤ
same_time a = ground arith

near :
    (a b w : ℕ)
    → w < 2 ^ 63 - 1
    → leb_ℤ (gap_between a b) (pos w) ≡ true
    → (distance a b ≤ w) ⊎ (a + 2 ^ 63 ≤ b)
near a b w short h = elim (gap_between_lem a b) [
  | inl e ↦ inl (ground arith)
  | inr (inl (e, _)) ↦ absurd (ground arith)
  | inr (inr (_, late)) ↦ inr late
]

-- An exception that classify closes by itself is a timing difference between sides that agree on
-- everything else, at different times: they are within the window, which is less than the longest
-- Duration, of each other, or the statement settled it so much later that the gap is no Duration.
pub classify_auto_resolved :
    (m : MatchedRecord) (timing_window now : ℕ) (e : Exception)
    → timing_window < 2 ^ 63 - 1
    → classify m timing_window now ≡ some e
    → e.status ≡ auto_resolved
    → (l : LedgerSide) × (p : PspAggregate) × (posted : ℕ) × Agrees m l p
      × (l.posted_at ≡ some posted)
      × (e.category ≡ timing_difference)
      × (posted ≢ p.settled_at)
      × ((distance posted p.settled_at ≤ timing_window) ⊎ (posted + 2 ^ 63 ≤ p.settled_at))
classify_auto_resolved m w now e short h closed = elim (classify_sides m w now) [
  | inl (e', q, still, _) ↦ absurd (ground arith)
  | inr (l, p, agrees, q) ↦ elim (Option-cases l.posted_at) [
    | inl missing ↦ absurd (ground arith)
    | inr (posted, found) ↦
        let (timing, apart, inside) =
          timed_lem m w now (gap_between posted p.settled_at) e (ground arith) closed in
        (
          l,
          p,
          posted,
          agrees,
          found,
          timing,
          (λ same. absurd (ground (arith, same_time posted))),
          near posted p.settled_at w short inside,
        )
  ]
]

-- How many of the saved exceptions say when they were resolved.
pub count_resolved : List Exception → ℕ
count_resolved [] = 0
count_resolved (e ∷ es) = elim e.resolved_at [
  | none ↦ count_resolved es
  | some _ ↦ count_resolved es + 1
]

-- classify resolves an exception by its status and its time at once.
classify-resolved :
    (m : MatchedRecord) (w now : ℕ) (e : Exception)
    → classify m w now ≡ some e
    → ((is_auto_resolved e.status ≡ true) × (e.resolved_at ≡ some now))
      ⊎ ((is_auto_resolved e.status ≡ false) × (e.resolved_at ≡ none))
classify-resolved m w now e h = elim (classify_sides m w now) [
  | inl (e', q, unsolved, unset) ↦ inr (ground arith, ground arith)
  | inr (l, p, agrees, q) ↦ elim (Option-cases l.posted_at) [
    | inl missing ↦ absurd (ground arith)
    | inr (posted, found) ↦ timed-resolved (gap_between posted p.settled_at) (ground arith)
  ]
]
  where
    timed-resolved :
        (gap : ℤ)
        → timed m w now gap ≡ some e
        → ((is_auto_resolved e.status ≡ true) × (e.resolved_at ≡ some now))
          ⊎ ((is_auto_resolved e.status ≡ false) × (e.resolved_at ≡ none))
    timed-resolved gap h = ground arith

-- The counts of a run agree with what it saves: every match is either counted as matched or saved
-- as an exception, and as many exceptions are counted as resolved as are saved with the time at
-- which they were resolved.
pub tally_lem :
    (timing_window now : ℕ) (ms : List MatchedRecord)
    → ((tally timing_window now ms).matched + length (tally timing_window now ms).exceptions
        ≡ length ms)
      × ((tally timing_window now ms).auto_resolved_count
          ≡ count_resolved (tally timing_window now ms).exceptions)
unfolding tally count_resolved
tally_lem w now [] = ground arith
tally_lem w now (m ∷ ms) = elim (Option-cases (classify m w now)) [
  | inl e ↦ ground (arith, tally_lem w now ms)
  | inr (x, e) ↦ elim (classify-resolved m w now x e) [
    | inl (shut, at) ↦ ground (arith, tally_lem w now ms)
    | inr (shut, at) ↦ ground (arith, tally_lem w now ms)
  ]
]
