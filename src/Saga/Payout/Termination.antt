-- ===== src/Saga/Payout/Termination.antt =====
-- A payout that is driven again and again comes to an end.
use ledger_core.Base.{
  ◌≡◌, refl, All, ℕ, suc, ◌≤◌, List, [], ◌∷◌, length, true, false, Option, none, some, arith,
  Bool-cases, inl, inr, ◌∙◌, sym, ap, subst, IsInt64, str_eq,
}
use mathlib.Core.Option.{some-injective}
use ledger_core.Errors.{ok, err, Result-cases}
use ledger_core.Ledger.Consistency.{IsConsistent}
use ledger_core.Ledger.Types.{Uuid}
use ledger_core.Postgres.{Db}
use ledger_core.Saga.Payout.{Config}
use ledger_core.Saga.Payout.Books.{drive_one-IsConsistent}
use ledger_core.Saga.Payout.Compensating.{begin_compensation-Arrived, compensate-Arrived}
use ledger_core.Saga.Payout.Driving.{
  reserve-Arrived, call_gateway-Arrived, resolve_gateway-Arrived, settle-Arrived,
}
use ledger_core.Saga.Payout.Machine.{Leads, measure, Leads-measure}
use ledger_core.Saga.Payout.Progress.{Arrived, Current}
use ledger_core.Saga.Payout.Run
use ledger_core.Saga.Payout.Run.{Env, Run}
use ledger_core.Saga.Payout.Runs.{Ensures, if-Ensures}
use ledger_core.Saga.Payout.Steps.{drive_status, drive_one}
use ledger_core.Saga.Types.{Status, is_terminal, Instance, Payload}

drive_status-Arrived :
    (env : Env) (saga : Instance) (db : Db) (status : Status)
    → IsInt64 saga.payload.amount_minor
    → IsInt64 saga.payload.fee_minor
    → IsConsistent db
    → saga.status ≡ status
    → is_terminal status ≡ false
    → Current saga db
    → Ensures db (drive_status env saga status) (λ _ d. Arrived env.config saga d)
unfolding drive_status is_terminal
drive_status-Arrived env saga db Status.pending a f c here live at =
    reserve-Arrived env saga saga.payload db a here at
drive_status-Arrived env saga db Status.reserved a f c here live at =
    call_gateway-Arrived env saga saga.payload db here at
drive_status-Arrived env saga db Status.gateway_pending a f c here live at =
    resolve_gateway-Arrived env saga db at
drive_status-Arrived env saga db Status.gateway_succeeded a f c here live at =
    settle-Arrived env saga saga.payload db a f here at
drive_status-Arrived env saga db Status.gateway_failed a f c here live at =
    begin_compensation-Arrived env saga db at
drive_status-Arrived env saga db Status.compensating a f c here live at =
    compensate-Arrived env saga saga.payload db c here at
drive_status-Arrived env saga db Status.completed a f c here live at = absurd (cc)
drive_status-Arrived env saga db Status.compensated a f c here live at = absurd (cc)
drive_status-Arrived env saga db Status.failed a f c here live at = absurd (cc)
drive_status-Arrived env saga db Status.needs_manual_review a f c here live at = absurd (cc)

-- A drive that reports no error, of a saga of the orchestrator's type that is not terminal and is
-- as the database has it, in consistent tables and with int64 amounts, moves that saga by one
-- transition at least, each along an edge of the state machine, or to one more retry in the same
-- state while the count of retries stays below the budget of that state: the step attempts when
-- reserving and settling, the probes when the gateway is asked, the compensation attempts when
-- compensating. The id, type and payload of the saga stay.
pub drive_one-Arrived :
    (env : Env) (saga : Instance) (db db' : Db)
    → IsInt64 saga.payload.amount_minor
    → IsInt64 saga.payload.fee_minor
    → IsConsistent db
    → str_eq saga.saga_type env.config.saga_type ≡ true
    → is_terminal saga.status ≡ false
    → db.saga_instances saga.id ≡ some saga
    → drive_one env saga db ≡ (ok tt, db')
    → Arrived env.config saga db'
unfolding drive_one
drive_one-Arrived env saga db db' a f c typed live at h =
    (if-Ensures db (str_eq saga.saga_type env.config.saga_type) _ _
        (λ _. drive_status-Arrived env saga db saga.status a f c refl live at)
        (λ b. absurd (ground arith))).holds
      tt db' h

-- One drive after another of the row as it then is, each by some orchestrator; none where one of
-- them reports an error.
unfoldable pub drives : List Env → Uuid → Db → Option Db
drives [] id db = some db
drives (env ∷ envs) id db = elim (db.saga_instances id) [
  | none ↦ none
  | some saga ↦
      let r = drive_one env saga db in
      let rest = drives envs id r.1 in elim r.0 [ ok _ ↦ rest | err x ↦ none ]
]

abbrev pub SameConfig : Config → List Env → Type 0
SameConfig cfg envs = All (λ e. e.config ≡ cfg) envs

-- The saga is finished.
abbrev pub Ended : Uuid → Db → Type 0
Ended id db = (row : Instance) × (db.saga_instances id ≡ some row) × (is_terminal row.status ≡ true)

idle :
    (env : Env) (saga : Instance) (db : Db) (status : Status)
    → is_terminal status ≡ true
    → drive_status env saga status db ≡ (ok tt, db)
unfolding is_terminal drive_status Run.pure
idle env saga db Status.completed over = refl
idle env saga db Status.compensated over = refl
idle env saga db Status.failed over = refl
idle env saga db Status.needs_manual_review over = refl
idle env saga db Status.pending over = absurd (cc)
idle env saga db Status.reserved over = absurd (cc)
idle env saga db Status.gateway_pending over = absurd (cc)
idle env saga db Status.gateway_succeeded over = absurd (cc)
idle env saga db Status.gateway_failed over = absurd (cc)
idle env saga db Status.compensating over = absurd (cc)

-- A drive of a finished saga does nothing.
drive_terminal :
    (env : Env) (saga : Instance) (db : Db)
    → is_terminal saga.status ≡ true
    → drive_one env saga db ≡ (ok tt, db)
unfolding drive_one Run.pure
drive_terminal env saga db over = elim (Bool-cases (str_eq saga.saga_type env.config.saga_type)) [
  | inl b ↦ rw b (idle env saga db saga.status over)
  | inr b ↦ rw b refl
]

-- The drives that follow one of a row.
drives-cons :
    (env : Env) (envs : List Env) (id : Uuid) (saga : Instance) (db : Db) {db' : Db}
    → db.saga_instances id ≡ some saga
    → drives (env ∷ envs) id db ≡ some db'
    → (d : Db) × (drive_one env saga db ≡ (ok tt, d)) × (drives envs id d ≡ some db')
unfolding drives
drives-cons env envs id saga db found h = elim (Result-cases (drive_one env saga db).0) [
  | inl (x, e) ↦ absurd (ground arith)
  | inr (u, e) ↦
      ((drive_one env saga db).1, ap (λ r. (r, (drive_one env saga db).1)) e, ground arith)
]

drives-Ended :
    (envs : List Env) (id : Uuid) (db db' : Db)
    → Ended id db
    → drives envs id db ≡ some db'
    → Ended id db'
unfolding drives
drives-Ended [] id db db' ended h = subst (Ended id) (some-injective db db' h) ended
drives-Ended (env ∷ envs) id db db' (row, found, over) h =
    let (d, driven, rest) = drives-cons env envs id row db found h in
    let same : db ≡ d = ap (λ r. r.1) (sym (drive_terminal env row db over) ∙ driven) in
    drives-Ended envs id d db' (subst (Ended id) same (row, found, over)) rest

measure-positive : (cfg : Config) (s : Status) (r : ℕ) → measure cfg s r ≤ 0 → is_terminal s ≡ true
unfolding is_terminal
measure-positive cfg Status.pending r h = absurd (omega arith)
measure-positive cfg Status.reserved r h = absurd (omega arith)
measure-positive cfg Status.gateway_pending r h = absurd (omega arith)
measure-positive cfg Status.gateway_succeeded r h = absurd (omega arith)
measure-positive cfg Status.gateway_failed r h = absurd (omega arith)
measure-positive cfg Status.compensating r h = absurd (omega arith)
measure-positive cfg Status.completed r h = refl
measure-positive cfg Status.compensated r h = refl
measure-positive cfg Status.failed r h = refl
measure-positive cfg Status.needs_manual_review r h = refl

-- What stays true of the row and the tables from one drive to the next.
record Drivable (cfg : Config) (id : Uuid) (saga : Instance) (db : Db) : Type 0 where
  named : saga.id ≡ id
  amount : IsInt64 saga.payload.amount_minor
  fee : IsInt64 saga.payload.fee_minor
  typed : str_eq saga.saga_type cfg.saga_type ≡ true
  consistent : IsConsistent db
  current : db.saga_instances id ≡ some saga

drive_one-Drivable :
    (env : Env) (id : Uuid) (saga : Instance) (db d : Db)
    → Drivable env.config id saga db
    → drive_one env saga db ≡ (ok tt, d)
    → (a : Arrived env.config saga d) → Drivable env.config id a.row d
drive_one-Drivable env id saga db d k driven a = record {
  named = a.same_id ∙ k.named;
  amount = subst (λ (p : Payload). IsInt64 p.amount_minor) (sym a.same_payload) k.amount;
  fee = subst (λ (p : Payload). IsInt64 p.fee_minor) (sym a.same_payload) k.fee;
  typed = ap (λ s. str_eq s env.config.saga_type) a.same_type ∙ k.typed;
  consistent =
      subst IsConsistent (ap (λ r. r.1) driven)
        (drive_one-IsConsistent env saga db k.amount k.fee k.consistent);
  current = ap d.saga_instances (sym k.named) ∙ a.found;
}

below :
    (cfg c : Config)
    → c ≡ cfg
    → (s s' : Status) (r r' n : ℕ) → Leads c s r s' r'
    → measure cfg s r ≤ suc n
    → measure cfg s' r' ≤ n
below cfg c same s s' r r' n leads enough =
    let lower = Leads-measure cfg (subst (λ x. Leads x s r s' r') same leads) in
    omega (arith, lower)

Drivable-Ended :
    (cfg : Config) (envs : List Env) (id : Uuid) (saga : Instance) (db db' : Db)
    → SameConfig cfg envs
    → Drivable cfg id saga db
    → measure cfg saga.status saga.retry_count ≤ length envs
    → drives envs id db ≡ some db'
    → Ended id db'
Drivable-Ended cfg [] id saga db db' same k enough h =
    drives-Ended [] id db db'
      (saga, k.current, measure-positive cfg saga.status saga.retry_count enough) h
Drivable-Ended cfg (env ∷ envs) id saga db db' (same, others) k enough h =
    elim (Bool-cases (is_terminal saga.status)) [
      | inl over ↦ drives-Ended (env ∷ envs) id db db' (saga, k.current, over) h
      | inr live ↦
          let (d, driven, rest) = drives-cons env envs id saga db k.current h in
          let k' = subst (λ c. Drivable c id saga db) (sym same) k in
          let a =
            drive_one-Arrived env saga db d k'.amount k'.fee k'.consistent k'.typed live
              (ap db.saga_instances k.named ∙ k.current) driven in
          Drivable-Ended cfg envs id a.row d db' others
            (subst (λ c. Drivable c id a.row d) same
              (drive_one-Drivable env id saga db d k' driven a))
            (below cfg env.config same saga.status a.row.status saga.retry_count a.row.retry_count
              (length envs) a.leads enough)
            rest
    ]

-- A payout always comes to an end: when as many drives as the measure of its state, or more, follow
-- one another, each on the row as it then is and none reporting an error, the saga is COMPLETED,
-- COMPENSATED, FAILED or in NEEDS_MANUAL_REVIEW, whatever the gateway answered. The orchestrators
-- share their settings, the saga is of their type, the tables are consistent at first and the
-- amounts are int64.
pub drives_end :
    (cfg : Config) (envs : List Env) (saga : Instance) (db db' : Db)
    → SameConfig cfg envs
    → IsInt64 saga.payload.amount_minor
    → IsInt64 saga.payload.fee_minor
    → str_eq saga.saga_type cfg.saga_type ≡ true
    → IsConsistent db
    → db.saga_instances saga.id ≡ some saga
    → measure cfg saga.status saga.retry_count ≤ length envs
    → drives envs saga.id db ≡ some db'
    → Ended saga.id db'
drives_end cfg envs saga db db' same a f typed c at enough h =
    let k : Drivable cfg saga.id saga db = record {
      named = refl;
      amount = a;
      fee = f;
      typed = typed;
      consistent = c;
      current = at;
    } in
    Drivable-Ended cfg envs saga.id saga db db' same k enough h
