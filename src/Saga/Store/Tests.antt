-- ===== src/Saga/Store/Tests.antt =====
-- Two sagas, two orchestrators.
use ledger_core.Base.{
  ◌≢◌, refl, ℕ, ◌<◌, [], ◌∷◌, none, some, false, ◌==◌, if◌then◌else◌, arith, Bool-cases, inl, inr,
  ==_iff,
}
use ledger_core.Ledger.Types.{Uuid}
use ledger_core.Ledger.Tests.Book.{no_rows, pay_tx}
use ledger_core.Postgres.{Db}
use ledger_core.Saga.Store.{
  Claim, claim_runnable, leased, limit, where_rows, rows_of, lease_rows, next_attempt_number,
  where_attempts, max_number,
}
use ledger_core.Saga.Store.Claims.{Keyed, claims_exclude}
use ledger_core.Saga.Store.Numbers.{next_attempt_number_fresh}
use ledger_core.Saga.Tests.{payout, late_step}
use ledger_core.Saga.Types.{Instance, Step, StepDirection}

abbrev free : Uuid → Instance
free id = record payout { id = id; lease_owner = none; lease_expires_at = none }

abbrev two_sagas : Db
two_sagas = record no_rows {
  saga_instances =
      λ id. if id == 90 then some (free 90) else if id == 91 then some (free 91) else none;
  saga_ids = 90 ∷ 91 ∷ [];
}

abbrev claim_of : ℕ → Claim
claim_of batch = record {
  saga_type = "payout";
  owner = "a";
  lease = 30;
  batch = batch;
  locked = λ _. false;
}

abbrev once_claimed : Db
once_claimed = lease_rows (claim_of 1) (free 90 ∷ []) two_sagas

two_sagas-Keyed : Keyed two_sagas
two_sagas-Keyed id i h = elim (Bool-cases (id == 90)) [
  | inl e ↦ ground (arith, ==_iff id 90)
  | inr e ↦ elim (Bool-cases (id == 91)) [
    | inl e' ↦ ground (arith, ==_iff id 91)
    | inr e' ↦ absurd (ground arith)
  ]
]

claims_exclude_example :
    (leased (claim_of 1) 100 (free 90)).id ≢ (leased (claim_of 5) 120 (free 91)).id
unfolding claim_runnable limit where_rows rows_of lease_rows
claims_exclude_example =
    claims_exclude (claim_of 1) (claim_of 5) two_sagas once_claimed
      (lease_rows (claim_of 5) (free 91 ∷ []) (record once_claimed { now = 120 })) 120
      (leased (claim_of 1) 100 (free 90) ∷ []) (leased (claim_of 5) 120 (free 91) ∷ [])
      (leased (claim_of 1) 100 (free 90)) (leased (claim_of 5) 120 (free 91)) two_sagas-Keyed refl
      (ground arith) refl (inl refl) (inl refl)

-- One attempt of saga 90 at its reservation.
abbrev tried : Db
tried = record two_sagas { saga_steps = (late_step pay_tx).attempt ∷ [] }

next_attempt_number_fresh_example : (late_step pay_tx).attempt.number < 2
unfolding next_attempt_number where_attempts max_number
next_attempt_number_fresh_example =
    next_attempt_number_fresh 90 Step.reserve StepDirection.forward tried 2 tried 0
      (late_step pay_tx).attempt refl refl refl
