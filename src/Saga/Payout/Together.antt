-- ===== src/Saga/Payout/Together.antt =====
-- The money and the state of a saga move together: a ledger step has posted its legs and moved the
-- saga to its end, or has done neither.
use ledger_core.Base.{
  ◌≡◌, refl, ℕ, ℤ, ◌+◌, String, List, ◌++◌, map, true, not, ◌||◌, ltb, none, some, arith, inl, inr,
  ◌⊎◌, ◌∙◌, sym, ap, subst, IsInt64, wrap64, neg_ℤ,
}
use ledger_core.Errors.{Error, Result, ok, err}
use ledger_core.Ledger.Journal.{AreInt64Legs, leg}
use ledger_core.Ledger.Money.{Money, new_money}
use ledger_core.Ledger.Request.{EntryRequest, TransactionRequest}
use ledger_core.Ledger.Service.{post_transaction}
use ledger_core.Ledger.Service.Posts.{RecorderKeeps, post_transaction-err, post_transaction_moves}
use ledger_core.Ledger.Service.Steps.{routed_entries}
use ledger_core.Ledger.Types.{Uuid, Transaction}
use ledger_core.Postgres.{Db, run_tx}
use ledger_core.Postgres.Runs.{run_tx-err, run_tx-ok}
use ledger_core.Saga.Payout.Books.{
  record_step-RecorderKeeps, reserve_entries-AreInt64Legs, settled-AreInt64Legs, settle_entries_lem,
}
use ledger_core.Saga.Payout.Moves.{Moved-arrives, advance-Moved, Recorded-Moved}
use ledger_core.Saga.Payout.Outcomes.{giving_up, failed_status, fail_forward_step}
use ledger_core.Saga.Payout.Run
use ledger_core.Saga.Payout.Run.{
  Env, Run, Allocated, Commit, record_step, commit_transition, try, terminal_ledger_error, ◌>>=◌,
}
use ledger_core.Saga.Payout.Runs.{
  Ensures, storing-Ensures, >>=-Ensures, pure-Ensures, lift-Ensures, try-Ensures, if-Ensures,
  run_tx-Ensures, next_attempt-Ensures,
}
use ledger_core.Saga.Payout.Steps.{
  reserve, reserve_entries, reservation, reserve_request, reserve_commit, settlement, settle_commit,
  settle_request, settle,
}
use ledger_core.Saga.Pgsaga.{advance, advanced}
use ledger_core.Saga.Recorded.{post_transaction-Recorded}
use ledger_core.Saga.Recording.{advance_lem, insert_attempt_lem}
use ledger_core.Saga.Store.{record_attempt}
use ledger_core.Saga.Types.{Status, Step, Payload, Instance, Transition, Attempt}

-- The status that the database has for a saga.
abbrev pub IsAt : Uuid → Status → Db → Type 0
IsAt id s db = (row : Instance) × (db.saga_instances id ≡ some row) × (row.status ≡ s)

-- The legs are in the journal, as one transaction, and the saga is at the step's end.
abbrev pub Done : Env → Instance → List EntryRequest → Status → Db → Db → Type 0
Done env saga entries to db db' =
    IsAt saga.id to db'
    × ((t : Transaction) × (map leg t.entries ≡ routed_entries env.draws db entries)
        × (db'.journal ≡ db.journal ++ t.entries))

-- No balance and no entry has changed, and the saga waits where it was or gives up.
abbrev pub Undone : Instance → Status → Db → Db → Type 0
Undone saga gives_up db db' =
    (IsAt saga.id saga.status db' ⊎ IsAt saga.id gives_up db')
    × (db'.accounts ≡ db.accounts)
    × (db'.journal ≡ db.journal)

advance-Undone :
    (saga : Instance) (t : Transition) (gives_up : Status) (base db : Db)
    → t.saga_id ≡ saga.id
    → (t.to ≡ saga.status) ⊎ (t.to ≡ gives_up)
    → db.accounts ≡ base.accounts
    → db.journal ≡ base.journal
    → Ensures db (run_tx (advance t)) (λ _ d. Undone saga gives_up base d)
advance-Undone saga t gives_up base db named goes a j = record {
  holds = λ u d e.
      let h = (run_tx-Ensures (advance t) db).holds u d e in
      let m = advance-Moved t db d h in
      let (_, _, _, rest) = advance_lem t db d h in
      let found = ap d.saga_instances (sym named) ∙ Moved-arrives t db d m in
      (
        elim goes [
          | inl s ↦ inl (advanced m.at t m.row, found, s)
          | inr s ↦ inr (advanced m.at t m.row, found, s)
        ],
        ap (λ (x : Db). x.accounts) rest ∙ a,
        ap (λ (x : Db). x.journal) rest ∙ j,
      );
}

recorded-same :
    (a : Attempt) (db : Db) (r : Result (Unit {0})) (d : Db)
    → run_tx (record_attempt a) db ≡ (r, d)
    → (d.accounts ≡ db.accounts) × (d.journal ≡ db.journal)
unfolding record_attempt
recorded-same a db (err x) d h =
    let same : d ≡ db =
      sym (ap (λ y. y.1) h) ∙ run_tx-err (record_attempt a) db x (ap (λ y. y.0) h) in
    (ap (λ (y : Db). y.accounts) same, ap (λ (y : Db). y.journal) same)
recorded-same a db (ok u) d h =
    let same = insert_attempt_lem true a db d (run_tx-ok (record_attempt a) db u h).0 in
    (ap (λ (y : Db). y.accounts) same, ap (λ (y : Db). y.journal) same)

giving_up-Undone :
    (env : Env) (saga : Instance) (step : Step) (n : ℕ) (text : String) (base db : Db)
    → db.accounts ≡ base.accounts
    → db.journal ≡ base.journal
    → Ensures db
        (run_tx (advance (giving_up env saga step n text)))
        (λ _ d. Undone saga (failed_status step) base d)
giving_up-Undone env saga Step.reserve n text base db a j =
    advance-Undone saga _ _ base db refl (inr refl) a j
giving_up-Undone env saga Step.gateway n text base db a j =
    advance-Undone saga _ _ base db refl (inr refl) a j
giving_up-Undone env saga Step.settle n text base db a j =
    advance-Undone saga _ _ base db refl (inr refl) a j
giving_up-Undone env saga Step.done n text base db a j =
    advance-Undone saga _ _ base db refl (inr refl) a j

fail_forward_step-Undone :
    (env : Env) (saga : Instance) (step : Step) (attempt : Allocated) (cause : Error) (db : Db)
    → Ensures db
        (fail_forward_step env saga step attempt cause)
        (λ _ d. Undone saga (failed_status step) db d)
unfolding fail_forward_step
fail_forward_step-Undone env saga step attempt cause db =
    storing-Ensures (env.error_text cause) 1000 _ db (
      >>=-Ensures db _ _ (try-Ensures _ db) (λ r d h.
        let (a, j) = recorded-same _ db r d h in
        if-Ensures d
          (terminal_ledger_error cause
            || not (ltb (saga.retry_count + 1) env.config.max_step_attempts))
          _ _ (λ _. giving_up-Undone env saga step _ _ db d a j)
          (λ _. advance-Undone saga _ _ db d refl (inl refl) a j)))

posted-Together :
    (env : Env) (saga : Instance) (step : Step) (attempt : Allocated) (req : TransactionRequest)
    (id : Uuid) (delta : ℤ) (c : Transaction → Commit) (db : Db) (posted : Result Transaction)
    (d : Db) (to : Status)
    → AreInt64Legs req.entries
    → req.recorder ≡ some (λ t. record_step env saga id delta (c t))
    → req.idempotency ≡ none
    → ((t : Transaction) → (c t).to ≡ to)
    → post_transaction env.draws req db ≡ (posted, d)
    → Ensures d
        (elim posted [
          | ok _ ↦ Run.pure tt
          | err cause ↦ fail_forward_step env saga step attempt cause
        ])
        (λ _ d'. Done env saga req.entries to db d' ⊎ Undone saga (failed_status step) db d')
posted-Together env saga step attempt req id delta c db (ok t) d to typed given keyless ends h =
    let m =
      Recorded-Moved env saga id delta c db d
        (post_transaction-Recorded env.draws req db _ typed given keyless h) in
    let keeps = subst RecorderKeeps (sym given) (record_step-RecorderKeeps env saga id delta c) in
    let (legs, grown, _) = post_transaction_moves env.draws req db typed keeps h in
    pure-Ensures tt d (
      inl (
        (
          advanced m.at (commit_transition env.config saga (c t)) m.row,
          Moved-arrives (commit_transition env.config saga (c t)) db d m,
          ends t,
        ),
        (t, legs, grown),
      ))
posted-Together env saga step attempt req id delta c db (err x) d to typed given keyless ends h =
    let same : d ≡ db =
      sym (ap (λ r. r.1) h) ∙ post_transaction-err env.draws req db x (ap (λ r. r.0) h) in
    let u = fail_forward_step-Undone env saga step attempt x d in
    record {
      holds =
          λ a d' e. inr (subst (λ y. Undone saga (failed_status step) y d') same (u.holds a d' e));
    }

-- A ledger step that ended: together, or not at all.
abbrev pub Together : Env → Instance → List EntryRequest → Status → Status → Db → Db → Type 0
Together env saga entries to gives_up db db' =
    Done env saga entries to db db' ⊎ Undone saga gives_up db db'

Together-of_eq :
    {A : Type 0} {m : Run A} (env : Env) (saga : Instance) {entries entries' : List EntryRequest}
    (to gives_up : Status) {base db d : Db}
    → entries ≡ entries'
    → base ≡ db
    → Ensures d m (λ _ d'. Together env saga entries to gives_up base d')
    → Ensures d m (λ _ d'. Together env saga entries' to gives_up db d')
Together-of_eq env saga {entries = entries} to gives_up {db = db} e b h = record {
  holds = λ a d' q.
      subst (λ es. Together env saga es to gives_up db d') e
        (subst (λ x. Together env saga entries to gives_up x d') b (h.holds a d' q));
}

must_new_money_lem :
    (a : ℤ) (currency : String) {m : Money}
    → Run.must_new_money a currency ≡ ok m
    → m ≡ record { amount_minor = a; currency = currency }
unfolding Run.must_new_money new_money
must_new_money_lem a currency h = ground arith

reserve-Ensures :
    (env : Env) (saga : Instance) (p : Payload) (db : Db)
    → IsInt64 p.amount_minor
    → Ensures db
        (reserve env saga p)
        (λ _ d. Together env saga (reservation p) Status.reserved Status.failed db d)
unfolding reserve
reserve-Ensures env saga p db typed =
    >>=-Ensures db _ _ (next_attempt-Ensures env saga.id _ _ db) (λ attempt d1 e1.
      >>=-Ensures d1 _ _ (lift-Ensures _ d1) (λ amount d2 (made, e2).
        >>=-Ensures d2 _ _ (try-Ensures _ d2) (λ posted d3 h.
          Together-of_eq env saga Status.reserved Status.failed
            (ap (reserve_entries p) (must_new_money_lem p.amount_minor p.currency made)) (e2 ∙ e1)
            (posted-Together env saga Step.reserve attempt
              (reserve_request env saga p attempt amount) p.suspense_id p.amount_minor
              (reserve_commit attempt) d2 posted d3 Status.reserved
              (reserve_entries-AreInt64Legs p amount typed made) refl refl (λ t. refl) h))))

settle-Ensures :
    (env : Env) (saga : Instance) (p : Payload) (db : Db)
    → IsInt64 p.amount_minor
    → IsInt64 p.fee_minor
    → Ensures db
        (settle env saga p)
        (λ _ d. Together env saga (settlement p) Status.completed Status.compensating db d)
unfolding settle
settle-Ensures env saga p db a f =
    >>=-Ensures db _ _ (next_attempt-Ensures env saga.id _ _ db) (λ attempt d1 e1.
      >>=-Ensures d1 _ _ (lift-Ensures _ d1) (λ entries d2 (made, e2).
        >>=-Ensures d2 _ _ (try-Ensures _ d2) (λ posted d3 h.
          Together-of_eq env saga Status.completed Status.compensating
            (settle_entries_lem p entries made) (e2 ∙ e1)
            (posted-Together env saga Step.settle attempt
              (settle_request env saga p attempt entries) p.suspense_id
              (wrap64 (neg_ℤ p.amount_minor)) (settle_commit attempt) d2 posted d3 Status.completed
              (settled-AreInt64Legs p entries a f made) refl refl (λ t. refl) h))))

-- A reservation that ends without an error has moved money and saga together: either its two legs,
-- routed to shards, are in the journal as one new transaction and the saga is RESERVED, or no
-- account and no entry has changed and the saga has the status that the instance had or FAILED. The
-- amount is int64; the instance may be out of date.
pub reserve-Together :
    (env : Env) (saga : Instance) (p : Payload) (db db' : Db)
    → IsInt64 p.amount_minor
    → reserve env saga p db ≡ (ok tt, db')
    → Together env saga (reservation p) Status.reserved Status.failed db db'
reserve-Together env saga p db db' typed h = (reserve-Ensures env saga p db typed).holds tt db' h

-- A settlement that ends without an error has moved money and saga together: either its legs, the
-- merchant's share and the fee, are in the journal as one new transaction and the saga is
-- COMPLETED, or no account and no entry has changed and the saga has the status that the instance
-- had or is COMPENSATING. The amounts are int64; the instance may be out of date.
pub settle-Together :
    (env : Env) (saga : Instance) (p : Payload) (db db' : Db)
    → IsInt64 p.amount_minor
    → IsInt64 p.fee_minor
    → settle env saga p db ≡ (ok tt, db')
    → Together env saga (settlement p) Status.completed Status.compensating db db'
settle-Together env saga p db db' a f h = (settle-Ensures env saga p db a f).holds tt db' h
