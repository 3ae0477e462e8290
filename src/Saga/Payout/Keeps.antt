-- ===== src/Saga/Payout/Keeps.antt =====
-- The statements of a payout leave the books alone, except for what the ledger posts.
use ledger_core.Base.{
  ◌≡◌, String, Bool, true, false, Option, none, some, ℤ, pos, +ℤ_zero, refl, arith, Bool-cases,
  Option-cases, inl, inr, sym, subst, ap, if◌then◌else◌, ◌==◌, update,
}
use ledger_core.Errors.{Error, Result, ok, err, Result-cases}
use ledger_core.Ledger.Consistency.{IsConsistent}
use ledger_core.Ledger.Consistency.Books.{
  Untouched, Untouched-of_eq, Untouched-trans, append_event-Untouched,
}
use ledger_core.Ledger.Consistency.Step.{SameBooks-IsConsistent}
use ledger_core.Ledger.Posting.Deltas.{AccountMoved, one_moved, RowMoved}
use ledger_core.Ledger.Repository.{PendingDelta, pended, apply_pending_delta}
use ledger_core.Ledger.Types.{Uuid}
use ledger_core.Postgres.{AccountRow, Db, Tx, gets, run_tx}
use ledger_core.Postgres.Runs.{run_tx-err, run_tx-ok}
use ledger_core.Saga.Payout.Run.{Run, ◌>>=◌, pure, lift, try}
use ledger_core.Saga.Pgsaga.{advance, insert_attempt, begin_step, escalate}
use ledger_core.Saga.Recording.{advance_lem, insert_attempt_lem}
use ledger_core.Saga.Payout.{Config, start, validate, first_instance}
use ledger_core.Saga.Store.{record_attempt, create, keyed, first_row}
use ledger_core.Saga.Types.{Transition, Attempt, attempted, Instance, Payload}
use ledger_core.Outbox.{Event}

pended_moved :
    (d : PendingDelta) (row : AccountRow) (db : Db) (j : Uuid)
    → db.accounts d.account_id ≡ some row
    → (db' : Db) → db'.accounts ≡ update db.accounts d.account_id (some (pended d row))
    → AccountMoved (pos 0) (db.accounts j) (db'.accounts j)
pended_moved d row db j e db' after =
    let m : RowMoved (pos 0) row (pended d row) = grind (arith, +ℤ_zero row.available_minor) in
    let collapse : (if d.account_id == j then pos 0 else pos 0) ≡ pos 0 =
      elim (Bool-cases (d.account_id == j)) [ inl p ↦ rw p refl | inr p ↦ rw p refl ] in
    subst (λ (f : Uuid → Option AccountRow). AccountMoved (pos 0) (db.accounts j) (f j)) (sym after)
      (subst
        (λ (x : ℤ).
          AccountMoved x (db.accounts j) (update db.accounts d.account_id (some (pended d row)) j))
        collapse (one_moved d.account_id j (pos 0) row (pended d row) db.accounts e m))

pub apply_pending_delta-Untouched :
    (d : PendingDelta) (db db' : Db) → apply_pending_delta d db ≡ ok (tt, db') → Untouched db db'
unfolding apply_pending_delta
apply_pending_delta-Untouched d db db' h = elim (Option-cases (db.accounts d.account_id)) [
  | inl e ↦ absurd (ground arith)
  | inr (row, e) ↦ record {
    books = record {
      accounts = λ j. pended_moved d row db j e db' (ground arith);
      journal = ground arith;
    };
    transactions = ground arith;
  }
]

pub advance-Untouched :
    (t : Transition) (db db' : Db) → advance t db ≡ ok (tt, db') → Untouched db db'
advance-Untouched t db db' h =
    let (saga, found, guarded, rest) = advance_lem t db db' h in
    Untouched-of_eq db db' (ground arith) (ground arith) (ground arith)

pub insert_attempt-Untouched :
    (b : Bool) (a : Attempt) (db db' : Db) → insert_attempt b a db ≡ ok (tt, db') → Untouched db db'
insert_attempt-Untouched b a db db' h =
    let rest = insert_attempt_lem b a db db' h in
    Untouched-of_eq db db' (ground arith) (ground arith) (ground arith)

pub escalate-Untouched :
    (drawn : Option Uuid) (t : Transition) (e : Event) (db db' : Db)
    → escalate drawn t e db ≡ ok (tt, db')
    → Untouched db db'
unfolding escalate
escalate-Untouched drawn t e db db' h = elim (Result-cases (advance t db)) [
  | inl (x, q) ↦ absurd (ground arith)
  | inr ((_, d), q) ↦
      Untouched-trans db d db' (advance-Untouched t db d q)
        (append_event-Untouched drawn e d db' (ground arith))
]

pub begin_step-Untouched :
    (a : Attempt) (t : Transition) (db db' : Db)
    → begin_step a t db ≡ ok (tt, db')
    → Untouched db db'
unfolding begin_step
begin_step-Untouched a t db db' h =
    let started = record a { status = attempted; transaction_id = none; error = "" } in
    elim (Result-cases (insert_attempt false started db)) [
      | inl (x, q) ↦ absurd (ground arith)
      | inr ((_, d), q) ↦
          Untouched-trans db d db' (insert_attempt-Untouched false started db d q)
            (advance-Untouched t d db' (ground arith))
    ]

-- A database transaction that touches neither keeps the tables consistent, committed or not.
pub run_tx-IsConsistent :
    {A : Type 0} (fn : Tx A) (db : Db)
    → ((a : A) (db' : Db) → fn db ≡ ok (a, db') → Untouched db db')
    → IsConsistent db
    → IsConsistent (run_tx fn db).1
run_tx-IsConsistent fn db k c = elim (Result-cases (run_tx fn db).0) [
  | inl (x, e) ↦ subst IsConsistent (sym (run_tx-err fn db x e)) c
  | inr (a, e) ↦
      let d = (run_tx fn db).1 in
      SameBooks-IsConsistent db d c (k a d (run_tx-ok fn db a (ap (λ r. (r, d)) e)).0).books
]

>>=-err :
    {A B : Type 0} (m : Run A) (f : A → Run B) (db : Db) {x : Error}
    → (m db).0 ≡ err x
    → (m >>= f) db ≡ (err x, (m db).1)
unfolding ◌>>=◌
>>=-err m f db e = ground arith

>>=-ok :
    {A B : Type 0} (m : Run A) (f : A → Run B) (db : Db) {a : A}
    → (m db).0 ≡ ok a
    → (m >>= f) db ≡ f a (m db).1
unfolding ◌>>=◌
>>=-ok m f db e = ground arith

-- A run that keeps the tables consistent, whatever it reports.
pub record Keeps {A : Type 0} (m : Run A) : Type 0 where
  pub kept : (db : Db) → IsConsistent db → IsConsistent (m db).1

pub >>=-Keeps :
    {A B : Type 0} (m : Run A) (f : A → Run B) → Keeps m → ((a : A) → Keeps (f a)) → Keeps (m >>= f)
>>=-Keeps m f h k = record {
  kept = λ db c. elim (Result-cases (m db).0) [
    | inl (x, e) ↦ subst IsConsistent (ap (λ r. r.1) (sym (>>=-err m f db e))) (h.kept db c)
    | inr (a, e) ↦
        subst IsConsistent (ap (λ r. r.1) (sym (>>=-ok m f db e)))
          ((k a).kept (m db).1 (h.kept db c))
  ];
}

pub pure-Keeps : {A : Type 0} (a : A) → Keeps (pure a)
unfolding pure
pure-Keeps a = record { kept = λ db c. c }

pub lift-Keeps : {A : Type 0} (r : Result A) → Keeps (lift r)
unfolding lift
lift-Keeps r = record { kept = λ db c. c }

-- What follows may use where a lifted result comes from.
pub given-Keeps :
    {A B : Type 0} (r : Result A) (f : A → Run B)
    → ((a : A) → r ≡ ok a → Keeps (f a))
    → Keeps (lift r >>= f)
unfolding lift ◌>>=◌
given-Keeps (err x) f k = record { kept = λ db c. c }
given-Keeps (ok a) f k = record { kept = λ db c. (k a refl).kept db c }

pub try-Keeps : {A : Type 0} (m : Run A) → Keeps m → Keeps (try m)
unfolding try
try-Keeps m h = record { kept = h.kept }

pub if-Keeps :
    {A : Type 0} (b : Bool) (m n : Run A) → Keeps m → Keeps n → Keeps (if b then m else n)
if-Keeps true m n h k = h
if-Keeps false m n h k = k

pub run_tx-Keeps :
    {A : Type 0} (fn : Tx A)
    → ((a : A) (db db' : Db) → fn db ≡ ok (a, db') → Untouched db db')
    → Keeps (run_tx fn)
run_tx-Keeps fn k = record { kept = λ db c. run_tx-IsConsistent fn db (λ a. k a db) c }

-- A statement that only reads.
pub gets-Keeps : {A : Type 0} (f : Db → A) → Keeps (run_tx (gets f))
gets-Keeps f =
    run_tx-Keeps (gets f)
      (λ a db db' h. Untouched-of_eq db db' (ground arith) (ground arith) (ground arith))

pub advance-Keeps : (t : Transition) → Keeps (run_tx (advance t))
advance-Keeps t = run_tx-Keeps (advance t) (λ _ db db' h. advance-Untouched t db db' h)

pub record_attempt-Keeps : (a : Attempt) → Keeps (run_tx (record_attempt a))
unfolding record_attempt
record_attempt-Keeps a =
    run_tx-Keeps (record_attempt a) (λ _ db db' h. insert_attempt-Untouched true a db db' h)

create-Untouched :
    (i : Instance) (db : Db) {row : Instance} {db' : Db}
    → create i db ≡ ok (row, db')
    → Untouched db db'
unfolding create
create-Untouched i db {row} {db'} h =
    elim (Option-cases (first_row (keyed db i.principal_id i.idempotency_key))) [
      | inr (found, e) ↦ Untouched-of_eq db db' (ground arith) (ground arith) (ground arith)
      | inl e ↦ elim (Option-cases (db.saga_instances i.id)) [
        | inr (other, q) ↦ absurd (ground arith)
        | inl q ↦ Untouched-of_eq db db' (ground arith) (ground arith) (ground arith)
      ]
    ]

-- Starting a payout moves no money.
pub start-IsConsistent :
    (cfg : Config) (drawn : Option Uuid) (p : Payload) (principal_id : String) (key : Option String)
    (db : Db)
    → IsConsistent db
    → IsConsistent (start cfg drawn p principal_id key db).1
unfolding start
start-IsConsistent cfg drawn p principal_id key db c = elim (Result-cases (validate p)) [
  | inl (x, e) ↦ subst IsConsistent (ground arith) c
  | inr (u, e) ↦ elim (Option-cases drawn) [
    | inl q ↦ subst IsConsistent (ground arith) c
    | inr (id, q) ↦ subst IsConsistent (ground arith) (
        run_tx-IsConsistent (create (first_instance cfg db.now id p principal_id key)) db
          (λ a db' h. create-Untouched _ db h) c)
  ]
]
