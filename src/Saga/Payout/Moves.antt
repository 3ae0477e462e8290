-- ===== src/Saga/Payout/Moves.antt =====
-- How the statements of a payout move its row: by the guarded UPDATE of `advance`, or not at all.
use ledger_core.Base.{
  ◌≡◌, refl, ℕ, ℤ, Bool, true, false, Option, none, some, arith, Option-cases, inl, inr, ◌∙◌, sym,
  ap, update, ◌==◌, ==_self, ==_iff, if◌then◌else◌,
}
use ledger_core.Errors.{ok, Result-cases}
use ledger_core.Ledger.Repository.{PendingDelta, apply_pending_delta, append_event}
use ledger_core.Ledger.Types.{Uuid, Transaction}
use ledger_core.Outbox.{Event}
use ledger_core.Postgres.{Db}
use ledger_core.Saga.Payout.Run
use ledger_core.Saga.Payout.Run.{
  Env, Commit, record_step, commit_attempt, commit_transition, step_event, Run, ◌>>=◌,
}
use ledger_core.Saga.Pgsaga.{
  status_code, status_eq, advance, advanced, insert_attempt, commit_step, begin_step, escalate,
}
use ledger_core.Saga.Recorded.{Recorded}
use ledger_core.Saga.Recording.{insert_attempt_lem}
use ledger_core.Saga.Types.{Status, Instance, Transition, Attempt, attempted, StepCommit}

abbrev status_of : ℕ → Status
status_of n =
    if n == 0
    then Status.pending
    else if n == 1
    then Status.reserved
    else if n == 2
    then Status.gateway_pending
    else if n == 3
    then Status.gateway_succeeded
    else if n == 4
    then Status.gateway_failed
    else if n == 5
    then Status.compensating
    else if n == 6
    then Status.completed
    else if n == 7
    then Status.compensated
    else if n == 8
    then Status.failed
    else Status.needs_manual_review

status_of-status_code : (s : Status) → status_of (status_code s) ≡ s
status_of-status_code Status.pending = refl
status_of-status_code Status.reserved = refl
status_of-status_code Status.gateway_pending = refl
status_of-status_code Status.gateway_succeeded = refl
status_of-status_code Status.gateway_failed = refl
status_of-status_code Status.compensating = refl
status_of-status_code Status.completed = refl
status_of-status_code Status.compensated = refl
status_of-status_code Status.failed = refl
status_of-status_code Status.needs_manual_review = refl

pub status_eq_sound : (a b : Status) → status_eq a b ≡ true → a ≡ b
status_eq_sound a b h =
    sym (status_of-status_code a)
    ∙ ap status_of ((==_iff (status_code a) (status_code b)).0 h)
    ∙ status_of-status_code b

-- The row of a transition was where it starts, and is now where it ends.
pub record Moved (t : Transition) (db db' : Db) : Type 0 where
  pub row : Instance
  pub found : db.saga_instances t.saga_id ≡ some row
  pub guarded : row.status ≡ t.from
  pub at : ℕ
  pub after : db'.saga_instances ≡ update db.saga_instances t.saga_id (some (advanced at t row))

pub advance-Moved : (t : Transition) (db db' : Db) → advance t db ≡ ok (tt, db') → Moved t db db'
unfolding advance
advance-Moved t db db' h = elim (Option-cases (db.saga_instances t.saga_id)) [
  | inl e ↦ absurd (ground arith)
  | inr (row, e) ↦ record {
    row = row;
    found = e;
    guarded = status_eq_sound row.status t.from (ground arith);
    at = db.now;
    after = ground arith;
  }
]

-- Between statements that leave the sagas alone.
pub Moved-between :
    (t : Transition) (a b c d : Db)
    → b.saga_instances ≡ a.saga_instances
    → Moved t b c
    → d.saga_instances ≡ c.saga_instances
    → Moved t a d
Moved-between t a b c d before m after = record {
  row = m.row;
  found = ap (λ (f : Uuid → Option Instance). f t.saga_id) (sym before) ∙ m.found;
  guarded = m.guarded;
  at = m.at;
  after = after ∙ m.after ∙ ap (λ f. update f t.saga_id (some (advanced m.at t m.row))) before;
}

append_event-sagas :
    (drawn : Option Uuid) (e : Event) (db db' : Db)
    → append_event drawn e db ≡ ok (tt, db')
    → db'.saga_instances ≡ db.saga_instances
unfolding append_event
append_event-sagas drawn e db db' h = ground arith

pub escalate-Moved :
    (drawn : Option Uuid) (t : Transition) (e : Event) (db db' : Db)
    → escalate drawn t e db ≡ ok (tt, db')
    → Moved t db db'
unfolding escalate
escalate-Moved drawn t e db db' h = elim (Result-cases (advance t db)) [
  | inl (x, q) ↦ absurd (ground arith)
  | inr ((_, d), q) ↦
      Moved-between t db db d db' refl (advance-Moved t db d q)
        (append_event-sagas drawn e d db' (ground arith))
]

inserted-Moved :
    (b : Bool) (a : Attempt) (t : Transition) (db d db' : Db)
    → insert_attempt b a db ≡ ok (tt, d)
    → advance t d ≡ ok (tt, db')
    → Moved t db db'
inserted-Moved b a t db d db' h k =
    Moved-between t db d db' db' (ap (λ (x : Db). x.saga_instances) (insert_attempt_lem b a db d h))
      (advance-Moved t d db' k) refl

pub begin_step-Moved :
    (a : Attempt) (t : Transition) (db db' : Db) → begin_step a t db ≡ ok (tt, db') → Moved t db db'
unfolding begin_step
begin_step-Moved a t db db' h =
    let started = record a { status = attempted; transaction_id = none; error = "" } in
    elim (Result-cases (insert_attempt false started db)) [
      | inl (x, q) ↦ absurd (ground arith)
      | inr ((_, d), q) ↦ inserted-Moved false started t db d db' q (ground arith)
    ]

commit_step-Moved :
    (c : StepCommit) (db db' : Db) → commit_step c db ≡ ok (tt, db') → Moved c.transition db db'
unfolding commit_step
commit_step-Moved c db db' h = elim (Result-cases (insert_attempt true c.attempt db)) [
  | inl (x, q) ↦ absurd (ground arith)
  | inr ((_, d), q) ↦ inserted-Moved true c.attempt c.transition db d db' q (ground arith)
]

pended-sagas :
    (d : _) (db db' : Db)
    → apply_pending_delta d db ≡ ok (tt, db')
    → db'.saga_instances ≡ db.saga_instances
unfolding apply_pending_delta
pended-sagas d db db' h = elim (Option-cases (db.accounts d.account_id)) [
  | inl e ↦ absurd (ground arith)
  | inr (row, e) ↦ ground arith
]

record_step-Moved :
    (env : Env) (saga : Instance) (id : Uuid) (delta : ℤ) (c : Commit) (db db' : Db)
    → record_step env saga id delta c db ≡ ok (tt, db')
    → Moved (commit_transition env.config saga c) db db'
unfolding record_step Run.commit_step
record_step-Moved env saga id delta c db db' h =
    let step : StepCommit = record {
      attempt = commit_attempt saga c;
      transition = commit_transition env.config saga c;
    } in
    let pending : PendingDelta = record { account_id = id; delta_minor = delta } in
    elim (Result-cases (apply_pending_delta pending db)) [
      | inl (x, q) ↦ absurd (ground arith)
      | inr ((_, d), q) ↦ elim (Result-cases (commit_step step d)) [
        | inl (x, q') ↦ absurd (ground arith)
        | inr ((_, d'), q') ↦
            Moved-between step.transition db d d' db' (pended-sagas pending db d q)
              (commit_step-Moved step d d' q')
              (append_event-sagas env.step_event_id (step_event saga c d'.now) d' db'
                (ground arith))
      ]
    ]

pub Recorded-Moved :
    (env : Env) (saga : Instance) (id : Uuid) (delta : ℤ) (c : Transaction → Commit)
    {t : Transaction} (db db' : Db)
    → Recorded (λ posted. record_step env saga id delta (c posted)) t db db'
    → Moved (commit_transition env.config saga (c t)) db db'
Recorded-Moved env saga id delta c {t} db db' r =
    Moved-between (commit_transition env.config saga (c t)) db r.before db' db' r.sagas
      (record_step-Moved env saga id delta (c t) r.before db' r.ran) refl

-- The row itself, afterwards.
pub Moved-arrives :
    (t : Transition) (db db' : Db)
    → (m : Moved t db db') → db'.saga_instances t.saga_id ≡ some (advanced m.at t m.row)
Moved-arrives t db db' m =
    ap (λ (f : Uuid → Option Instance). f t.saga_id) m.after
    ∙ ap (λ b. if b then some (advanced m.at t m.row) else db.saga_instances t.saga_id)
        (==_self t.saga_id)

-- A saga with another id stays as it was.
pub Moved-others :
    (t : Transition) (db db' : Db) (id : Uuid)
    → Moved t db db'
    → (t.saga_id == id) ≡ false
    → db'.saga_instances id ≡ db.saga_instances id
Moved-others t db db' id m other =
    ap (λ (f : Uuid → Option Instance). f id) m.after
    ∙ ap (λ b. if b then some (advanced m.at t m.row) else db.saga_instances id) other
