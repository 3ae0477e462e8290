-- ===== src/Saga/Store/Numbers.antt =====
-- The numbers of attempts.
use ledger_core.Base.{
  ◌≡◌, ℕ, ◌<◌, ◌≤◌, List, [], ◌∷◌, Bool, true, ◌&&◌, ◌==◌, arith, Bool-cases, inl, inr, get_elem?,
  some, zero, suc, sym, ap, ◌∙◌,
}
use mathlib.Core.Option.{some-injective}
use ledger_core.Errors.{ok}
use ledger_core.Ledger.Types.{Uuid}
use ledger_core.Postgres.{Db}
use ledger_core.Saga.Pgsaga.{step_code, direction_code}
use ledger_core.Saga.Store.{where_attempts, max_number, next_attempt_number}
use ledger_core.Saga.Types.{Step, StepDirection, Attempt}

-- An attempt at this step of this saga in this direction.
abbrev pub is_of : Uuid → Step → StepDirection → Attempt → Bool
is_of id step direction a =
    (a.saga_id == id)
    && ((step_code a.step == step_code step)
        && (direction_code a.direction == direction_code direction))

max_number_bounds :
    (p : Attempt → Bool) (rows : List Attempt) (i : ℕ) (a : Attempt)
    → get_elem? rows i ≡ some a
    → p a ≡ true
    → a.number ≤ max_number (where_attempts p rows)
unfolding max_number where_attempts
max_number_bounds p [] i a h q = absurd (cc)
max_number_bounds p (x ∷ rows) zero a h q =
    let same : x ≡ a = some-injective x a h in rw (sym same) (rw (ap p same ∙ q) (ground arith))
max_number_bounds p (x ∷ rows) (suc i) a h q =
    let rest = max_number_bounds p rows i a h q in
    elim (Bool-cases (p x)) [ inl e ↦ rw e (ground (arith, rest)) | inr e ↦ rw e rest ]

-- The number that is given to the next attempt is greater than that of every recorded attempt at
-- the same step of the same saga in the same direction.
pub next_attempt_number_fresh :
    (id : Uuid) (step : Step) (direction : StepDirection) (db : Db) (n : ℕ) (db' : Db) (i : ℕ)
    (a : Attempt)
    → next_attempt_number id step direction db ≡ ok (n, db')
    → get_elem? db.saga_steps i ≡ some a
    → is_of id step direction a ≡ true
    → a.number < n
unfolding next_attempt_number
next_attempt_number_fresh id step direction db n db' i a h here q =
    let b = max_number_bounds (is_of id step direction) db.saga_steps i a here q in ground arith
