-- ===== src/Saga/Payout/Runs.antt =====
-- What a run that ended well tells about its parts.
use ledger_core.Base.{
  ℕ, ◌≡◌, refl, String, Bool, true, false, Option, some, arith, Option-cases, inl, inr, ◌∙◌, sym,
  ap, subst, ◌==◌, if◌then◌else◌,
}
use ledger_core.Errors.{Error, Result, ok, err, Result-cases}
use ledger_core.Ledger.Types.{Uuid, nil_uuid}
use ledger_core.Postgres.{Db, Tx, gets, run_tx}
use ledger_core.Postgres.Runs.{run_tx-err, run_tx-ok}
use ledger_core.Saga.Payout.Run.{
  storing, cuts_character, Env, Run, ◌>>=◌, pure, lift, try, next_attempt, finish,
  reserve_transaction_id,
}
use ledger_core.Saga.Recording.{insert_attempt_lem}
use ledger_core.Saga.Store.{
  next_attempt_number, FinishAttempt, finish_attempt, attempts, unresolved_attempt, record_attempt,
  get,
}
use ledger_core.Saga.Types.{Step, StepDirection, StepStatus, Attempt}

-- What holds of the result and the database that a run ends well with.
pub record Ensures {A : Type 0} (db : Db) (m : Run A) (P : A → Db → Type 0) : Type 0 where
  pub holds : (a : A) (d : Db) → m db ≡ (ok a, d) → P a d

pub >>=-Ensures :
    {A B : Type 0} (db : Db) (m : Run A) (f : A → Run B) {P : A → Db → Type 0} {Q : B → Db → Type 0}
    → Ensures db m P
    → ((a : A) (d : Db) → P a d → Ensures d (f a) Q)
    → Ensures db (m >>= f) Q
unfolding ◌>>=◌
>>=-Ensures db m f h k = record {
  holds = λ b db' e. elim (Result-cases (m db).0) [
    | inl (x, q) ↦ absurd (ground arith)
    | inr (a, q) ↦
        (k a (m db).1 (h.holds a (m db).1 (ap (λ r. (r, (m db).1)) q))).holds b db' (ground arith)
  ];
}

pub pure-Ensures :
    {A : Type 0} (a : A) (db : Db) {P : A → Db → Type 0} → P a db → Ensures db (pure a) P
unfolding pure
pure-Ensures {A = A} a db {P = P} p = record {
  holds = λ b d e. subst (λ (r : Result A × Db). elim r.0 [ ok x ↦ P x r.1 | err x ↦ Unit ]) e p;
}

pub lift-Ensures :
    {A : Type 0} (r : Result A) (db : Db) → Ensures db (lift r) (λ a d. (r ≡ ok a) × (d ≡ db))
unfolding lift
lift-Ensures r db = record { holds = λ a d e. (ap (λ x. x.0) e, sym (ap (λ x. x.1) e)) }

pub err-Ensures :
    {A : Type 0} (x : Error) (db : Db) {P : A → Db → Type 0} → Ensures db (lift (err x)) P
unfolding lift
err-Ensures x db = record { holds = λ a d e. absurd (ground arith) }

pub try-Ensures : {A : Type 0} (m : Run A) (db : Db) → Ensures db (try m) (λ r d. m db ≡ (r, d))
unfolding try
try-Ensures m db = record { holds = λ r d e. ground arith }

pub if-Ensures :
    {A : Type 0} (db : Db) (b : Bool) (m n : Run A) {P : A → Db → Type 0}
    → (b ≡ true → Ensures db m P)
    → (b ≡ false → Ensures db n P)
    → Ensures db (if b then m else n) P
if-Ensures db true m n h k = h refl
if-Ensures db false m n h k = k refl

-- Statements with a text that is refused end with an error.
pub storing-Ensures :
    (s : String) (max : ℕ) (m : Run (Unit {0})) (db : Db) {P : Unit {0} → Db → Type 0}
    → Ensures db m P
    → Ensures db (storing s max m) P
storing-Ensures s max m db h =
    if-Ensures db (cuts_character s max) _ m (λ _. err-Ensures _ db) (λ _. h)

-- A statement in a transaction of its own.
pub run_tx-Ensures :
    {A : Type 0} (fn : Tx A) (db : Db) → Ensures db (run_tx fn) (λ a d. fn db ≡ ok (a, d))
run_tx-Ensures fn db = record { holds = λ a d e. (run_tx-ok fn db a e).0 }

pub gets-Ensures :
    {A : Type 0} (f : Db → A) (db : Db) → Ensures db (run_tx (gets f)) (λ a d. d ≡ db)
gets-Ensures f db = record { holds = λ a d e. ground (arith, run_tx-ok (gets f) db a e) }

pub next_attempt-Ensures :
    (env : Env) (id : Uuid) (step : Step) (direction : StepDirection) (db : Db)
    → Ensures db (next_attempt env id step direction) (λ _ d. d ≡ db)
unfolding next_attempt next_attempt_number
next_attempt-Ensures env id step direction db = >>=-Ensures db _ _ (gets-Ensures _ db) (λ n d1 e.
    >>=-Ensures d1 _ _ (lift-Ensures _ d1) (λ drawn d2 (given, e'). pure-Ensures _ d2 (e' ∙ e)))

pub reserve_transaction_id-Ensures :
    (id : Uuid) (db : Db) → Ensures db (reserve_transaction_id id) (λ _ d. d ≡ db)
unfolding reserve_transaction_id attempts
reserve_transaction_id-Ensures id db =
    >>=-Ensures db _ _ (gets-Ensures _ db) (λ found d1 e. pure-Ensures _ d1 e)

pub unresolved_attempt-Ensures :
    (id : Uuid) (step : Step) (db : Db)
    → Ensures db (run_tx (unresolved_attempt id step)) (λ _ d. d ≡ db)
unfolding unresolved_attempt
unresolved_attempt-Ensures id step db = gets-Ensures _ db

pub get-Ensures :
    (id : Uuid) (db : Db)
    → Ensures db (run_tx (get id)) (λ row d. (db.saga_instances id ≡ some row) × (d ≡ db))
unfolding get
get-Ensures id db = record {
  holds = λ row d e. elim (Option-cases (db.saga_instances id)) [
    | inl q ↦ absurd (ground (arith, run_tx-ok (get id) db row e))
    | inr (found, q) ↦ ground (arith, run_tx-ok (get id) db row e)
  ];
}

finish_attempt-sagas :
    (f : FinishAttempt) (db d : Db)
    → finish_attempt f db ≡ ok (tt, d)
    → d.saga_instances ≡ db.saga_instances
unfolding finish_attempt
finish_attempt-sagas f db d h = ground arith

finish_attempt-Ensures :
    (f : FinishAttempt) (db : Db)
    → Ensures db (run_tx (finish_attempt f)) (λ _ d. d.saga_instances ≡ db.saga_instances)
finish_attempt-Ensures f db = record {
  holds = λ a d e. finish_attempt-sagas f db d (run_tx-ok (finish_attempt f) db a e).0;
}

pub finish-Ensures :
    (id : Uuid) (status : StepStatus) (tx_id : Option Uuid) (failure : String) (db : Db)
    → Ensures db (finish id status tx_id failure) (λ _ d. d.saga_instances ≡ db.saga_instances)
unfolding finish
finish-Ensures id status tx_id failure db =
    if-Ensures db (id == nil_uuid) _ _ (λ _. pure-Ensures tt db refl)
      (λ _. storing-Ensures failure 1000 _ db (finish_attempt-Ensures _ db))

record_attempt-sagas :
    (a : Attempt) (db : Db) (r : Result (Unit {0})) (d : Db)
    → run_tx (record_attempt a) db ≡ (r, d)
    → d.saga_instances ≡ db.saga_instances
unfolding record_attempt
record_attempt-sagas a db (err x) d h =
    ap (λ (y : Db). y.saga_instances)
      (sym (ap (λ y. y.1) h) ∙ run_tx-err (record_attempt a) db x (ap (λ y. y.0) h))
record_attempt-sagas a db (ok u) d h =
    ap (λ (y : Db). y.saga_instances)
      (insert_attempt_lem true a db d (run_tx-ok (record_attempt a) db u h).0)

-- An attempt is recorded or not: the sagas stay.
pub record_attempt-Ensures :
    (a : Attempt) (db : Db)
    → Ensures db (try (run_tx (record_attempt a))) (λ _ d. d.saga_instances ≡ db.saga_instances)
record_attempt-Ensures a db = record {
  holds = λ r d e. record_attempt-sagas a db r d ((try-Ensures _ db).holds r d e);
}
