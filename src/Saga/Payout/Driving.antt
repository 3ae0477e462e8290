-- ===== src/Saga/Payout/Driving.antt =====
-- What one drive of `driveOne` does to the saga that it was given, where it ends well.
use ledger_core.Base.{◌≡◌, refl, ℕ, ℤ, none, some, ◌∙◌, sym, ap, subst, IsInt64, wrap64, neg_ℤ}
use mathlib.Core.Option.{some-injective}
use ledger_core.Errors.{Error, Result, ok, err}
use ledger_core.Gateway.{Payment}
use ledger_core.Ledger.Journal.{AreInt64Legs}
use ledger_core.Ledger.Request.{TransactionRequest}
use ledger_core.Ledger.Service.{post_transaction}
use ledger_core.Ledger.Service.Posts.{post_transaction-err}
use ledger_core.Ledger.Types.{Uuid, Transaction}
use ledger_core.Postgres.{Db}
use ledger_core.Saga.Payout.Books.{reserve_entries-AreInt64Legs, settled-AreInt64Legs}
use ledger_core.Saga.Payout.Machine.{
  Edge, Leads, budget, along, then, reserves, cannot_reserve, submits, settles, cannot_settle,
}
use ledger_core.Saga.Payout.Moves.{Moved, Moved-arrives, begin_step-Moved, Recorded-Moved}
use ledger_core.Saga.Payout.Outcomes.{escalate, defer_ambiguity, settle_gateway_outcome}
use ledger_core.Saga.Payout.Progress.{
  Arrived, Current, Moved-Arrived, fail_forward_step-Arrived, settle_gateway_outcome-Arrived,
}
use ledger_core.Saga.Payout.Run
use ledger_core.Saga.Payout.Run.{Env, Run, Allocated, Commit, record_step, commit_transition}
use ledger_core.Saga.Payout.Runs.{
  Ensures, >>=-Ensures, pure-Ensures, lift-Ensures, try-Ensures, run_tx-Ensures,
  next_attempt-Ensures, unresolved_attempt-Ensures,
}
use ledger_core.Saga.Payout.Steps.{
  reserve, reserve_request, reserve_commit, call_gateway, gateway_attempt, intent, resolve_gateway,
  settle_commit, settle_request, settle,
}
use ledger_core.Saga.Pgsaga.{advanced}
use ledger_core.Saga.Recorded.{post_transaction-Recorded}
use ledger_core.Saga.Types.{Status, Step, Payload, Instance}

-- A posting with a step as its recorder: along the step's edge, or what follows a failure.
posted-Arrived :
    (env : Env) (saga : Instance) (req : TransactionRequest) (id : Uuid) (delta : ℤ)
    (c : Transaction → Commit) (handle : Error → Run (Unit {0})) (db : Db)
    (posted : Result Transaction) (d : Db)
    → AreInt64Legs req.entries
    → req.recorder ≡ some (λ t. record_step env saga id delta (c t))
    → req.idempotency ≡ none
    → ((t : Transaction) → Edge (c t).from (c t).to)
    → Current saga db
    → ((x : Error) → Ensures db (handle x) (λ _ d'. Arrived env.config saga d'))
    → post_transaction env.draws req db ≡ (posted, d)
    → Ensures d
        (elim posted [ ok _ ↦ Run.pure tt | err cause ↦ handle cause ])
        (λ _ d'. Arrived env.config saga d')
posted-Arrived env saga req id delta c handle db (ok t) d typed given keyless edge at k h =
    pure-Ensures tt d (
      Moved-Arrived env.config saga (commit_transition env.config saga (c t)) db d refl
        (along (edge t)) at
        (Recorded-Moved env saga id delta c db d
          (post_transaction-Recorded env.draws req db _ typed given keyless h)))
posted-Arrived env saga req id delta c handle db (err x) d typed given keyless edge at k h =
    let same : d ≡ db =
      sym (ap (λ r. r.1) h) ∙ post_transaction-err env.draws req db x (ap (λ r. r.0) h) in
    subst (λ (y : Db). Ensures y (handle x) (λ _ d'. Arrived env.config saga d')) (sym same) (k x)

pub reserve-Arrived :
    (env : Env) (saga : Instance) (p : Payload) (db : Db)
    → IsInt64 p.amount_minor
    → saga.status ≡ Status.pending
    → Current saga db
    → Ensures db (reserve env saga p) (λ _ d. Arrived env.config saga d)
unfolding reserve
reserve-Arrived env saga p db typed here at =
    >>=-Ensures db _ _ (next_attempt-Ensures env saga.id _ _ db) (λ attempt d1 e1.
      >>=-Ensures d1 _ _ (lift-Ensures _ d1) (λ amount d2 (made, e2).
        let at' = ap (λ (d : Db). d.saga_instances saga.id) (e2 ∙ e1) ∙ at in
        >>=-Ensures d2 _ _ (try-Ensures _ d2) (λ posted d3 h.
          posted-Arrived env saga (reserve_request env saga p attempt amount) p.suspense_id
            p.amount_minor (reserve_commit attempt) _ d2 posted d3
            (reserve_entries-AreInt64Legs p amount typed made) refl refl (λ t. reserves) at'
            (λ x.
              fail_forward_step-Arrived env saga Step.reserve attempt x d2
                (subst (λ s. Edge s Status.failed) (sym here) cannot_reserve)
                (ap (budget env.config) here) at')
            h)))

pub settle-Arrived :
    (env : Env) (saga : Instance) (p : Payload) (db : Db)
    → IsInt64 p.amount_minor
    → IsInt64 p.fee_minor
    → saga.status ≡ Status.gateway_succeeded
    → Current saga db
    → Ensures db (settle env saga p) (λ _ d. Arrived env.config saga d)
unfolding settle
settle-Arrived env saga p db a f here at =
    >>=-Ensures db _ _ (next_attempt-Ensures env saga.id _ _ db) (λ attempt d1 e1.
      >>=-Ensures d1 _ _ (lift-Ensures _ d1) (λ entries d2 (made, e2).
        let at' = ap (λ (d : Db). d.saga_instances saga.id) (e2 ∙ e1) ∙ at in
        >>=-Ensures d2 _ _ (try-Ensures _ d2) (λ posted d3 h.
          posted-Arrived env saga (settle_request env saga p attempt entries) p.suspense_id
            (wrap64 (neg_ℤ p.amount_minor)) (settle_commit attempt) _ d2 posted d3
            (settled-AreInt64Legs p entries a f made) refl refl (λ t. settles) at'
            (λ x.
              fail_forward_step-Arrived env saga Step.settle attempt x d2
                (subst (λ s. Edge s Status.compensating) (sym here) cannot_settle)
                (ap (budget env.config) here) at')
            h)))

-- The outcome reads of the instance what the intent leaves as it is.
outcome_after_intent :
    (env : Env) (saga : Instance) (at : ℕ) (id : Uuid) (answer : Result Payment)
    → settle_gateway_outcome env (advanced at (intent env saga) saga) id answer
      ≡ settle_gateway_outcome env saga id answer
unfolding settle_gateway_outcome defer_ambiguity escalate
outcome_after_intent env saga at id (ok payment) = refl
outcome_after_intent env saga at id (err x) = refl

then-Arrived :
    (env : Env) (saga : Instance) (at : ℕ) (db : Db)
    → saga.status ≡ Status.reserved
    → Arrived env.config (advanced at (intent env saga) saga) db
    → Arrived env.config saga db
then-Arrived env saga at db here a = record {
  row = a.row;
  found = a.found;
  leads =
      subst (λ (s : Status). Leads env.config s saga.retry_count a.row.status a.row.retry_count)
        (sym here) (then (along submits) a.leads);
  same_id = a.same_id;
  same_type = a.same_type;
  same_payload = a.same_payload;
}

pub call_gateway-Arrived :
    (env : Env) (saga : Instance) (p : Payload) (db : Db)
    → saga.status ≡ Status.reserved
    → Current saga db
    → Ensures db (call_gateway env saga p) (λ _ d. Arrived env.config saga d)
unfolding call_gateway
call_gateway-Arrived env saga p db here at =
    >>=-Ensures db _ _ (next_attempt-Ensures env saga.id _ _ db) (λ attempt d1 e1.
      let at' = ap (λ (d : Db). d.saga_instances saga.id) e1 ∙ at in
      >>=-Ensures d1 _ _ (run_tx-Ensures _ d1) (λ _ d2 h.
        submitted env saga _ _ d1 d2 here at'
          (begin_step-Moved (gateway_attempt env saga attempt) (intent env saga) d1 d2 h)))
  where
    submitted :
        (env : Env) (saga : Instance) (id : Uuid) (answer : Result Payment) (d1 d2 : Db)
        → saga.status ≡ Status.reserved
        → Current saga d1
        → Moved (intent env saga) d1 d2
        → Ensures d2 (settle_gateway_outcome env saga id answer) (λ _ d. Arrived env.config saga d)
    submitted env saga id answer d1 d2 here at m =
        let same : m.row ≡ saga = some-injective m.row saga (sym m.found ∙ at) in
        let there : d2.saga_instances saga.id ≡ some (advanced m.at (intent env saga) saga) =
          Moved-arrives (intent env saga) d1 d2 m
          ∙ ap (λ i. some (advanced m.at (intent env saga) i)) same in
        let next =
          settle_gateway_outcome-Arrived env (advanced m.at (intent env saga) saga) id answer d2
            there in
        record {
          holds = λ a d e. then-Arrived env saga m.at d here (
              next.holds a d (
                ap (λ (f : Run (Unit {0})). f d2) (outcome_after_intent env saga m.at id answer)
                ∙ e));
        }

pub resolve_gateway-Arrived :
    (env : Env) (saga : Instance) (db : Db)
    → Current saga db
    → Ensures db (resolve_gateway env saga) (λ _ d. Arrived env.config saga d)
unfolding resolve_gateway
resolve_gateway-Arrived env saga db at =
    >>=-Ensures db _ _ (unresolved_attempt-Ensures saga.id _ db) (λ unresolved d e.
      settle_gateway_outcome-Arrived env saga _ _ d
        (ap (λ (x : Db). x.saga_instances saga.id) e ∙ at))
