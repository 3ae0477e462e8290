-- ===== src/Saga/Store.antt =====
-- internal/saga/pgsaga/store.go: the statements of the saga store, each in a database transaction
-- of its own. FOR UPDATE SKIP LOCKED passes over the rows that another transaction holds, which is
-- an argument here. The rows of saga_steps stand in the order of started_at.
pub mod Numbers
pub mod Claims
pub mod Tests
use ledger_core.Base.{
  ℕ, ◌+◌, String, List, [], ◌∷◌, ◌++◌, map, Bool, true, false, not, ◌&&◌, Option, none, some, ◌==◌,
  ltb, str_eq, if◌then◌else◌, update,
}
use ledger_core.Errors.{require, or_error, saga_not_found, database_failed, saga_lease_lost}
use ledger_core.Ledger.Types.{Uuid}
use ledger_core.Saga.Types.{Status, is_terminal, Step, StepDirection, StepStatus, Instance, Attempt}
use ledger_core.Saga.Pgsaga.{status_eq, step_code, direction_code, is_attempted, insert_attempt}
use ledger_core.Postgres.{Db, Tx, ◌>>=◌, ◌>>◌, pure, lift, gets, modify}

-- `SELECT ... FROM saga_instances`, by created_at.
unfoldable pub rows_of : (Uuid → Option Instance) → List Uuid → List Instance
rows_of instances [] = []
rows_of instances (id ∷ ids) =
    let rest = rows_of instances ids in elim (instances id) [ none ↦ rest | some i ↦ i ∷ rest ]

unfoldable pub where_rows : (Instance → Bool) → List Instance → List Instance
where_rows p [] = []
where_rows p (i ∷ is') = let rest = where_rows p is' in if p i then i ∷ rest else rest

-- `LIMIT`
unfoldable pub limit {ℓ} : {A : Type ℓ} → ℕ → List A → List A
limit Prim.Native.Nat.zero xs = []
limit (Prim.Native.Nat.suc n) [] = []
limit (Prim.Native.Nat.suc n) (x ∷ xs) = x ∷ limit n xs

abbrev pub has_key : String → String → Instance → Bool
has_key principal_id key i =
    str_eq i.principal_id principal_id
    && elim i.idempotency_key [ none ↦ false | some k ↦ str_eq k key ]

-- The rows of one principal that carry a key: at most one, by the unique index.
abbrev pub keyed : Db → String → Option String → List Instance
keyed db principal_id key = elim key [
  | none ↦ []
  | some k ↦ where_rows (has_key principal_id k) (rows_of db.saga_instances db.saga_ids)
]

abbrev pub first_row : List Instance → Option Instance
first_row [] = none
first_row (i ∷ _) = some i

-- `Create`: ON CONFLICT (principal_id, idempotency_key) DO NOTHING, and the row that has the key.
unfoldable pub create : Instance → Tx Instance
create i = do
  existing ← gets (λ db. first_row (keyed db i.principal_id i.idempotency_key))
  elim existing [
    | some found ↦ pure found
    | none ↦ do
      lift (
          require (← gets (λ db. elim (db.saga_instances i.id) [ none ↦ true | some _ ↦ false ]))
            database_failed)
      modify (λ db. record db {
        saga_instances = update db.saga_instances i.id (some i);
        saga_ids = db.saga_ids ++ (i.id ∷ []);
      })
      pure i
  ]

-- `Get`
unfoldable pub get : Uuid → Tx Instance
get id = (λ db. lift (or_error (db.saga_instances id) saga_not_found) db)

abbrev is_runnable : Status → Bool
is_runnable Status.pending = true
is_runnable Status.reserved = true
is_runnable Status.gateway_succeeded = true
is_runnable Status.gateway_failed = true
is_runnable Status.compensating = true
is_runnable _ = false

-- `lease_expires_at IS NULL OR lease_expires_at < now()`
abbrev pub lease_is_free : ℕ → Instance → Bool
lease_is_free now i = elim i.lease_expires_at [ none ↦ true | some at ↦ ltb at now ]

-- ORDER BY step_deadline_at
unfoldable pub insert_by_deadline : Instance → List Instance → List Instance
insert_by_deadline i [] = i ∷ []
insert_by_deadline i (x ∷ xs) =
    if ltb x.step_deadline_at i.step_deadline_at then x ∷ insert_by_deadline i xs else i ∷ x ∷ xs

unfoldable pub sort_by_deadline : List Instance → List Instance
sort_by_deadline [] = []
sort_by_deadline (i ∷ is') = insert_by_deadline i (sort_by_deadline is')

pub record Claim : Type 0 where
  pub saga_type : String
  pub owner : String
  pub lease : ℕ
  pub batch : ℕ
  pub locked : Uuid → Bool

abbrev pub leased : Claim → ℕ → Instance → Instance
leased c now i = record i { lease_owner = some c.owner; lease_expires_at = some (now + c.lease) }

-- `UPDATE ... RETURNING`: the rows that the subquery took, one after another.
unfoldable pub lease_rows : Claim → List Instance → Db → Db
lease_rows c [] db = db
lease_rows c (i ∷ is') db =
    lease_rows c is'
      (record db { saga_instances = update db.saga_instances i.id (some (leased c db.now i)) })

abbrev pub claim : Claim → (Db → List Instance) → Tx (List Instance)
claim c select db =
    let taken = limit c.batch (select db) in
    pure (map (leased c db.now) taken) (lease_rows c taken db)

abbrev pub can_claim_runnable : Claim → ℕ → Instance → Bool
can_claim_runnable c now i =
    str_eq i.saga_type c.saga_type
    && (is_runnable i.status && (lease_is_free now i && not (c.locked i.id)))

abbrev pub can_claim_expired : Claim → ℕ → Instance → Bool
can_claim_expired c now i =
    str_eq i.saga_type c.saga_type
    && (not (is_terminal i.status)
        && (ltb i.step_deadline_at now && (lease_is_free now i && not (c.locked i.id))))

-- `ClaimRunnable`
unfoldable pub claim_runnable : Claim → Tx (List Instance)
claim_runnable c =
    claim c (λ db. where_rows (can_claim_runnable c db.now) (rows_of db.saga_instances db.saga_ids))

-- `ClaimExpired`
unfoldable pub claim_expired : Claim → Tx (List Instance)
claim_expired c = claim c (λ db.
    sort_by_deadline
      (where_rows (can_claim_expired c db.now) (rows_of db.saga_instances db.saga_ids)))

abbrev owns : String → Instance → Bool
owns owner i = elim i.lease_owner [ none ↦ false | some o ↦ str_eq o owner ]

-- `RenewLease`: `WHERE id = $1 AND lease_owner = $2`
unfoldable pub renew_lease : Uuid → String → ℕ → Tx (Unit {0})
renew_lease id owner lease = do
  saga ← (λ db. lift (or_error (db.saga_instances id) saga_lease_lost) db)
  lift (require (owns owner saga) saga_lease_lost)
  modify (λ db. record db {
    saga_instances =
        update db.saga_instances id
          (some (record saga { lease_expires_at = some (db.now + lease) }));
  })

-- `RecordAttempt`
unfoldable pub record_attempt : Attempt → Tx (Unit {0})
record_attempt a = insert_attempt true a

pub record FinishAttempt : Type 0 where
  pub id : Uuid
  pub status : StepStatus
  pub transaction_id : Option Uuid
  pub error : String

abbrev finished : FinishAttempt → Attempt → Attempt
finished f a = record a { status = f.status; transaction_id = f.transaction_id; error = f.error }

unfoldable pub finish_rows : FinishAttempt → List Attempt → List Attempt
finish_rows f [] = []
finish_rows f (a ∷ as') =
    (if (a.id == f.id) && is_attempted a.status then finished f a else a) ∷ finish_rows f as'

-- `FinishAttempt`: `WHERE id = $1 AND status = 'ATTEMPTED'`
unfoldable pub finish_attempt : FinishAttempt → Tx (Unit {0})
finish_attempt f = modify (λ db. record db { saga_steps = finish_rows f db.saga_steps })

unfoldable pub where_attempts : (Attempt → Bool) → List Attempt → List Attempt
where_attempts p [] = []
where_attempts p (a ∷ as') = let rest = where_attempts p as' in if p a then a ∷ rest else rest

abbrev last_attempt : List Attempt → Option Attempt
last_attempt [] = none
last_attempt (a ∷ as') = elim (last_attempt as') [ none ↦ some a | some b ↦ some b ]

-- `UnresolvedAttempt`: ORDER BY started_at DESC LIMIT 1
unfoldable pub unresolved_attempt : Uuid → Step → Tx (Option Attempt)
unresolved_attempt id step = gets (λ db. last_attempt (
    where_attempts
      (λ a. (a.saga_id == id) && ((step_code a.step == step_code step) && is_attempted a.status))
      db.saga_steps))

-- `Attempts`
unfoldable pub attempts : Uuid → Tx (List Attempt)
attempts id = gets (λ db. where_attempts (λ a. a.saga_id == id) db.saga_steps)

unfoldable pub max_number : List Attempt → ℕ
max_number [] = 0
max_number (a ∷ as') = let rest = max_number as' in if ltb rest a.number then a.number else rest

-- `NextAttemptNumber`: COALESCE(MAX(attempt), 0) + 1
unfoldable pub next_attempt_number : Uuid → Step → StepDirection → Tx ℕ
next_attempt_number id step direction = gets (λ db.
    max_number (
      where_attempts
        (λ a.
          (a.saga_id == id)
          && ((step_code a.step == step_code step)
              && (direction_code a.direction == direction_code direction)))
        db.saga_steps)
    + 1)

unfoldable pub newest_first : List Instance → List Instance
newest_first [] = []
newest_first (i ∷ is') = newest_first is' ++ (i ∷ [])

-- `ListByStatus`: ORDER BY created_at DESC
unfoldable pub list_by_status : Status → ℕ → Tx (List Instance)
list_by_status status n = gets (λ db. limit n (
    newest_first
      (where_rows (λ i. status_eq i.status status) (rows_of db.saga_instances db.saga_ids))))

unfoldable pub count_rows : List Instance → ℕ
count_rows [] = 0
count_rows (_ ∷ is') = count_rows is' + 1

-- `CountByStatus`, as the map it returns.
unfoldable pub count_by_status : Tx (Status → ℕ)
count_by_status = gets (λ db status.
    count_rows
      (where_rows (λ i. status_eq i.status status) (rows_of db.saga_instances db.saga_ids)))
