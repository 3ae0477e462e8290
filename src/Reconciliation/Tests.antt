-- ===== src/Reconciliation/Tests.antt =====
-- A reference that settled an hour late, and one on the second.
use ledger_core.Base.{
  ℕ, ◌≡◌, ◌⊎◌, ◌^◌, ◌≢◌, wrap64, neg_ℤ, arith, ◌≤◌, ◌+◌, length, [], ◌∷◌, refl, none, some, pos,
}
use ledger_core.Reconciliation.{
  auto_resolved, timing_difference, PspAggregate, LedgerSide, MatchedRecord, Exception, exception,
  gap_between, statuses_agree, classify, tally,
}
use ledger_core.Reconciliation.Verdicts.{
  Agrees, distance, count_resolved, classify_clean, classify_auto_resolved, tally_lem,
}

abbrev in_ledger : LedgerSide
in_ledger = record {
  transaction_id = 20;
  amount_minor = pos 500;
  currency = "USD";
  status = "POSTED";
  posted_at = some 1000;
  created_at = 1000;
}

abbrev settled : ℕ → MatchedRecord
settled at = record {
  external_ref = "r1";
  ledger = some in_ledger;
  saga = none;
  psp = some (record {
    amount_minor = pos 500;
    currency = "USD";
    status = "SETTLED";
    settled_at = at;
    row_count = 1;
  });
}

abbrev closed : Exception
closed = record (exception (settled 4600) timing_difference) {
  status = auto_resolved;
  resolved_at = some 9000;
}

verdicts :
    (classify (settled 1000) 7200 9000 ≡ none) × (classify (settled 4600) 7200 9000 ≡ some closed)
unfolding classify statuses_agree gap_between wrap64 neg_ℤ
verdicts = (refl, refl)

classify_clean_example :
    (l : LedgerSide) × (p : PspAggregate) × Agrees (settled 1000) l p
    × ((l.posted_at ≡ none) ⊎ (l.posted_at ≡ some p.settled_at))
classify_clean_example = classify_clean (settled 1000) 7200 9000 verdicts.0

classify_auto_resolved_example :
    (l : LedgerSide) × (p : PspAggregate) × (posted : ℕ) × Agrees (settled 4600) l p
    × (l.posted_at ≡ some posted)
    × (closed.category ≡ timing_difference)
    × (posted ≢ p.settled_at)
    × ((distance posted p.settled_at ≤ 7200) ⊎ (posted + 2 ^ 63 ≤ p.settled_at))
classify_auto_resolved_example =
    classify_auto_resolved (settled 4600) 7200 9000 closed (omega arith) verdicts.1 refl

-- A settlement 2^63 nanoseconds after the posting is taken for one within the window.
far_settlement :
    classify (settled (1000 + 2 ^ 63)) 7200 9000
    ≡ some (record (exception (settled (1000 + 2 ^ 63)) timing_difference) {
      status = auto_resolved;
      resolved_at = some 9000;
    })
unfolding classify statuses_agree gap_between wrap64 neg_ℤ
far_settlement = refl

tally_lem_example :
    let ms = settled 1000 ∷ settled 4600 ∷ [] in
    ((tally 7200 9000 ms).matched + length (tally 7200 9000 ms).exceptions ≡ length ms)
    × ((tally 7200 9000 ms).auto_resolved_count ≡ count_resolved (tally 7200 9000 ms).exceptions)
tally_lem_example = tally_lem 7200 9000 (settled 1000 ∷ settled 4600 ∷ [])
