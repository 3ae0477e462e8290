-- ===== src/Postgres/Runs.antt =====
-- What `runTx` reports and what it leaves behind.
use ledger_core.Base.{◌≡◌, true, arith, Bool-cases, inl, inr}
use ledger_core.Errors.{Error, ok, err, Result-cases}
use ledger_core.Postgres.{Db, Tx, commit_check, run_tx}

-- A transaction that reports an error has rolled back; one that reports a result has passed the
-- deferred trigger.
pub run_tx-err :
    {A : Type 0} (fn : Tx A) (db : Db) (x : Error)
    → (run_tx fn db).0 ≡ err x
    → (run_tx fn db).1 ≡ db
unfolding run_tx
run_tx-err fn db x h = elim (Result-cases (fn db)) [
  | inl (y, e) ↦ ground arith
  | inr ((a, d), e) ↦ ground arith
]

pub run_tx-ok :
    {A : Type 0} (fn : Tx A) (db : Db) (a : A) {db' : Db}
    → run_tx fn db ≡ (ok a, db')
    → (fn db ≡ ok (a, db')) × (commit_check db db' ≡ true)
unfolding run_tx
run_tx-ok fn db a h = elim (Result-cases (fn db)) [
  | inl (y, e) ↦ absurd (ground arith)
  | inr ((b, d), e) ↦ elim (Bool-cases (commit_check db d)) [
    | inl q ↦ ground arith
    | inr q ↦ absurd (ground arith)
  ]
]
