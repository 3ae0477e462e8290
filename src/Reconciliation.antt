-- ===== src/Reconciliation.antt =====
-- internal/reconciliation/types.go, classify.go and the loop of engine.go: one answer for each
-- external reference that the ledger, a saga or the payment provider's statement names. Details are
-- text for a reader and are left out, as are the ids and times that the engine adds. Times and
-- durations are nanoseconds.
pub mod Verdicts
pub mod Tests
use ledger_core.Base.{
  ℕ, ◌+◌, String, List, [], ◌∷◌, Bool, true, false, not, ◌&&◌, ◌||◌, Option, none, some, ltb,
  str_eq, ℤ, pos, eqb_ℤ, leb_ℤ, ltb_ℤ, neg_ℤ, sub_ℕ, wrap64, int64_min, int64_max, if◌then◌else◌,
}
use ledger_core.Ledger.Types.{Uuid}

pub data Category : Type 0 where
  missing_in_ledger missing_in_psp amount_mismatch : Category
  status_mismatch timing_difference duplicate : Category

pub data ExceptionStatus : Type 0 where
  opened auto_resolved resolved : ExceptionStatus

-- A statement's rows for one reference.
pub record PspAggregate : Type 0 where
  pub amount_minor : ℤ
  pub currency : String
  pub status : String
  pub settled_at : ℕ
  pub row_count : ℕ

pub record LedgerSide : Type 0 where
  pub transaction_id : Uuid
  pub amount_minor : ℤ
  pub currency : String
  pub status : String
  pub posted_at : Option ℕ
  pub created_at : ℕ

pub record SagaSide : Type 0 where
  pub saga_id : Uuid
  pub status : String

pub record MatchedRecord : Type 0 where
  pub external_ref : String
  pub ledger : Option LedgerSide
  pub saga : Option SagaSide
  pub psp : Option PspAggregate

pub record Exception : Type 0 where
  pub external_ref : String
  pub category : Category
  pub status : ExceptionStatus
  pub ledger_transaction_id : Option Uuid
  pub saga_id : Option Uuid
  pub ledger_amount_minor : Option ℤ
  pub psp_amount_minor : Option ℤ
  pub currency : String
  pub ledger_status : String
  pub psp_status : String
  pub resolved_at : Option ℕ

-- `statusesAgree`
unfoldable pub statuses_agree : String → String → Bool
statuses_agree ledger_status psp_status =
    if str_eq ledger_status "POSTED"
    then str_eq psp_status "SETTLED"
    else if str_eq ledger_status "REVERSED"
    then str_eq psp_status "REFUNDED" || str_eq psp_status "FAILED"
    else if str_eq ledger_status "PENDING"
    then str_eq psp_status "PENDING"
    else false

-- The currency of the ledger side, if it names one, else that of the statement.
abbrev exception_currency : Option LedgerSide → Option PspAggregate → String
exception_currency none none = ""
exception_currency none (some p) = p.currency
exception_currency (some l) none = l.currency
exception_currency (some l) (some p) = if str_eq l.currency "" then p.currency else l.currency

-- The exception with what the sides say, under a category and still open.
abbrev pub exception : MatchedRecord → Category → Exception
exception m category = record {
  external_ref = m.external_ref;
  category = category;
  status = opened;
  ledger_transaction_id = elim m.ledger [ none ↦ none | some l ↦ some l.transaction_id ];
  saga_id = elim m.saga [ none ↦ none | some s ↦ some s.saga_id ];
  ledger_amount_minor = elim m.ledger [ none ↦ none | some l ↦ some l.amount_minor ];
  psp_amount_minor = elim m.psp [ none ↦ none | some p ↦ some p.amount_minor ];
  currency = exception_currency m.ledger m.psp;
  ledger_status = elim m.ledger [ none ↦ "" | some l ↦ l.status ];
  psp_status = elim m.psp [ none ↦ "" | some p ↦ p.status ];
  resolved_at = none;
}

-- `Time.Sub`, documented to return the nearest Duration where the difference is none.
abbrev pub sub_time : ℕ → ℕ → ℤ
sub_time a b =
    if ltb_ℤ (sub_ℕ a b) int64_min
    then int64_min
    else if ltb_ℤ int64_max (sub_ℕ a b)
    then int64_max
    else sub_ℕ a b

-- `gap`, negated where it is negative: `-gap` wraps around at the least Duration.
unfoldable pub gap_between : ℕ → ℕ → ℤ
gap_between a b = let gap = sub_time a b in if ltb_ℤ gap (pos 0) then wrap64 (neg_ℤ gap) else gap

abbrev pub amounts_agree : LedgerSide → PspAggregate → Bool
amounts_agree l p = eqb_ℤ l.amount_minor p.amount_minor && str_eq l.currency p.currency

-- The last case of the `switch` that looks at times.
abbrev pub timed : MatchedRecord → ℕ → ℕ → ℤ → Option Exception
timed m timing_window now gap =
    if eqb_ℤ gap (pos 0)
    then none
    else if leb_ℤ gap (pos timing_window)
    then some
        (record (exception m timing_difference) { status = auto_resolved; resolved_at = some now })
    else some (exception m timing_difference)

-- `classify`: none where nothing is left to disagree about.
unfoldable pub classify : MatchedRecord → ℕ → ℕ → Option Exception
classify m timing_window now = elim m.psp [
  | none ↦ some (exception m missing_in_psp)
  | some p ↦ if ltb 1 p.row_count then some (exception m duplicate) else elim m.ledger [
    | none ↦ some (exception m missing_in_ledger)
    | some l ↦
        if not (amounts_agree l p)
        then some (exception m amount_mismatch)
        else if not (statuses_agree l.status p.status)
        then some (exception m status_mismatch)
        else elim l.posted_at [
          | none ↦ none
          | some posted ↦ timed m timing_window now (gap_between posted p.settled_at)
        ]
  ]
]

pub record Tally : Type 0 where
  pub exceptions : List Exception
  pub matched : ℕ
  pub auto_resolved_count : ℕ

abbrev pub is_auto_resolved : ExceptionStatus → Bool
is_auto_resolved auto_resolved = true
is_auto_resolved _ = false

-- The loop of `Engine.Run` over the matches.
unfoldable pub tally : ℕ → ℕ → List MatchedRecord → Tally
tally timing_window now [] = record { exceptions = []; matched = 0; auto_resolved_count = 0 }
tally timing_window now (m ∷ ms) =
    let rest = tally timing_window now ms in
    elim (classify m timing_window now) [
      | none ↦ record rest { matched = rest.matched + 1 }
      | some e ↦ record rest {
        exceptions = e ∷ rest.exceptions;
        auto_resolved_count =
            if is_auto_resolved e.status
            then rest.auto_resolved_count + 1
            else rest.auto_resolved_count;
      }
    ]
