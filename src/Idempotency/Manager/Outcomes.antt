-- ===== src/Idempotency/Manager/Outcomes.antt =====
-- When a request may run, and what a completed one answers.
use ledger_core.Base.{
  ℕ, ◌≤◌, ◌<◌, ◌≡◌, ◌≢◌, ◌⊎◌, refl, String, List, [], ◌∷◌, true, false, Option, none, some, ◌==◌,
  str_eq, eq_iff, arith, Option-cases, Bool-cases, inl, inr, ◌∙◌, sym, ap,
}
use ledger_core.Errors.{ok, Result-cases}
use ledger_core.Idempotency.Types.{
  Record, Reservation, Completion, Status, in_progress, completed, failed, is_terminal, validate,
  names_row,
}
use ledger_core.Idempotency.Pgidem.{
  find_record, map_record, finished, reserve, lookup, reclaim, complete, is_in_progress,
}
use ledger_core.Idempotency.Manager.{
  Manager, proceed, replay, conflict, with_defaults, resolve_existing, acquire,
}
use ledger_core.Postgres.{Db}

-- What entitles a request to run: a free key, or a row with its fingerprint whose owner has let
-- the lease lapse without finishing.
abbrev pub MayRun : ℕ → Reservation → List Record → Type 0
MayRun now r table =
    (find_record r.principal_id r.key table ≡ none)
    ⊎ ((held : Record) × (find_record r.principal_id r.key table ≡ some held)
        × (held.status ≡ in_progress)
        × (held.fingerprint ≡ r.fingerprint)
        × (held.lease_expires_at ≤ now))

-- A found record stands under the key that was asked for.
find_record-names :
    (principal key : String) (table : List Record) {r : Record}
    → find_record principal key table ≡ some r
    → (r.principal_id ≡ principal) × (r.key ≡ key)
unfolding find_record
find_record-names principal key [] h = cc
find_record-names principal key (x ∷ xs) {r} h = elim (Bool-cases (names_row principal key x)) [
  | inl same ↦ (
    sym (ap (λ (y : Record). y.principal_id) (found same))
        ∙ (eq_iff x.principal_id principal).0 (ground arith),
    sym (ap (λ (y : Record). y.key) (found same)) ∙ (eq_iff x.key key).0 (ground arith),
  )
  | inr other ↦ find_record-names principal key xs {r = r} (ground arith)
]
  where
    found : names_row principal key x ≡ true → x ≡ r
    found same = ground arith

not_terminal : (s : Status) → is_terminal s ≡ false → s ≡ in_progress
unfolding is_terminal
not_terminal in_progress h = refl
not_terminal completed h = cc
not_terminal failed h = cc

-- A reclaimed lease has lapsed.
reclaim-lapsed :
    (now : ℕ) (principal key : String) (lease : ℕ) (table : List Record) (held : Record)
    → find_record principal key table ≡ some held
    → (reclaim now principal key lease table).0 ≡ true
    → held.lease_expires_at ≤ now
unfolding reclaim
reclaim-lapsed now principal key lease table held e h = ground arith

-- Only a lapsed lease lets an existing record run.
resolve_existing-proceed :
    (clock now : ℕ) (existing : Record) (r : Reservation) (table : List Record)
    {table' : List Record}
    → resolve_existing clock now existing r table ≡ (proceed, table')
    → (existing.status ≡ in_progress)
      × (clock < existing.expires_at)
      × (existing.lease_expires_at ≤ clock)
      × (existing.fingerprint ≡ r.fingerprint)
      × ((reclaim now existing.principal_id existing.key r.lease table).0 ≡ true)
unfolding resolve_existing
resolve_existing-proceed clock now existing r table h =
    elim (Bool-cases (str_eq existing.fingerprint r.fingerprint)) [
      | inr other ↦ absurd (ground arith)
      | inl same ↦ elim (Result-cases (validate existing)) [
        | inl (x, e) ↦ absurd (ground arith)
        | inr (_, e) ↦ elim (Bool-cases (is_terminal existing.status)) [
          | inl t ↦ absurd (ground arith)
          | inr t ↦ (
            not_terminal existing.status t,
            ground arith,
            ground arith,
            (eq_iff existing.fingerprint r.fingerprint).0 same,
            ground arith,
          )
        ]
      ]
    ]

-- Acquire lets a request proceed only where its key was free, or the record under it has its
-- fingerprint, is still IN_PROGRESS and its lease has lapsed. The cache is assumed to answer
-- finished records only.
pub acquire_runs :
    (m : Manager) (clock now : ℕ) (cached : Option Record) (r : Reservation) (table : List Record)
    {table' : List Record}
    → ((c : Record) → cached ≡ some c → is_terminal c.status ≡ true)
    → acquire m clock now cached r table ≡ (proceed, table')
    → MayRun now r table
unfolding acquire reserve lookup
acquire_runs m clock now none r table {table'} k h =
    elim (Option-cases (find_record r.principal_id r.key table)) [
      | inl e ↦ inl e
      | inr (held, e) ↦
          let (p, q) = find_record-names r.principal_id r.key table e in
          let (running, _, _, same, won) =
            resolve_existing-proceed clock now held (with_defaults m r) table {table' = table'}
              (ground arith) in
          inr (
            held,
            e,
            running,
            same,
            reclaim-lapsed now held.principal_id held.key (with_defaults m r).lease table held
                (ap (λ x. find_record x held.key table) p
                  ∙ ap (λ x. find_record r.principal_id x table) q
                  ∙ e)
                won,
          )
    ]
acquire_runs m clock now (some c) r table k h =
    let (running, _, _, _, _) = resolve_existing-proceed clock now c (with_defaults m r) table h in
    unfold is_terminal in absurd (ground (arith, k c refl))

find_record-map_record :
    (principal key : String) (f : Record → Record) (table : List Record) (held : Record)
    → ((x : Record) → names_row principal key (f x) ≡ names_row principal key x)
    → find_record principal key table ≡ some held
    → find_record principal key (map_record principal key f table) ≡ some (f held)
unfolding find_record map_record
find_record-map_record principal key f [] held k h = cc
find_record-map_record principal key f (x ∷ xs) held k h =
    elim (Bool-cases (names_row principal key x)) [
      | inl same ↦ ground (arith, k x)
      | inr other ↦ ground (arith, find_record-map_record principal key f xs held k)
    ]

-- What `Complete` did.
pub complete_lem :
    (c : Completion) (db db' : Db)
    → complete c db ≡ ok (tt, db')
    → (held : Record) × (find_record c.principal_id c.key db.idempotency_keys ≡ some held)
      × (held.status ≡ in_progress)
      × (find_record c.principal_id c.key db'.idempotency_keys ≡ some (finished c held))
unfolding complete
complete_lem c db db' h =
    elim (Option-cases (find_record c.principal_id c.key db.idempotency_keys)) [
      | inl e ↦ absurd (ground arith)
      | inr (held, e) ↦ elim (Bool-cases (is_in_progress held.status)) [
        | inr q ↦ absurd (ground arith)
        | inl q ↦ (
          held,
          e,
          in_progress_of held.status q,
          ap (λ (d : Db). find_record c.principal_id c.key d.idempotency_keys) (result e q)
              ∙ find_record-map_record c.principal_id c.key (finished c) db.idempotency_keys held
                  (λ x. refl) e,
        )
      ]
    ]
  where
    in_progress_of : (s : Status) → is_in_progress s ≡ true → s ≡ in_progress
    in_progress_of in_progress q = refl
    in_progress_of completed q = cc
    in_progress_of failed q = cc

    result :
        {held : Record}
        → find_record c.principal_id c.key db.idempotency_keys ≡ some held
        → is_in_progress held.status ≡ true
        → db' ≡ record db {
          idempotency_keys = map_record c.principal_id c.key (finished c) db.idempotency_keys;
        }
    result e q = ground arith

differs : (a b : String) → a ≢ b → str_eq a b ≡ false
differs a b h = elim (Bool-cases (str_eq a b)) [ inl e ↦ absurd (h ((eq_iff a b).0 e)) | inr e ↦ e ]

acquire-existing :
    (m : Manager) (clock now : ℕ) (r : Reservation) (table : List Record) (existing : Record)
    → find_record r.principal_id r.key table ≡ some existing
    → acquire m clock now none r table
      ≡ resolve_existing clock now existing (with_defaults m r) table
unfolding acquire reserve lookup
acquire-existing m clock now r table existing e = ground arith

resolve_finished :
    (clock now : ℕ) (c : Completion) (held : Record) (r : Reservation) (table : List Record)
    → (c.response_status == 0) ≡ false
    → str_eq c.response_body "" ≡ false
    → (str_eq held.fingerprint r.fingerprint ≡ true
        → clock < held.expires_at
        → resolve_existing clock now (finished c held) r table ≡ (replay (finished c held), table))
      × (str_eq held.fingerprint r.fingerprint ≡ false
          → resolve_existing clock now (finished c held) r table
            ≡ (conflict held.method held.route, table))
unfolding resolve_existing validate is_terminal
resolve_finished clock now c held r table status body =
    (λ same early. ground arith, λ other. ground arith)

-- After Complete has stored a nonempty response, Acquire under the same principal and key, on a
-- cache miss, replays that response unchanged where the fingerprint is the same and the record has
-- not expired, and reports a conflict where the fingerprint is another; either way it changes
-- nothing.
pub complete_replays :
    (m : Manager) (clock now : ℕ) (c : Completion) (db db' : Db) (r : Reservation)
    → complete c db ≡ ok (tt, db')
    → r.principal_id ≡ c.principal_id
    → r.key ≡ c.key
    → (c.response_status == 0) ≡ false
    → str_eq c.response_body "" ≡ false
    → (held : Record) × (find_record c.principal_id c.key db.idempotency_keys ≡ some held)
      × (held.fingerprint ≡ r.fingerprint
          → clock < held.expires_at
          → acquire m clock now none r db'.idempotency_keys
            ≡ (replay (finished c held), db'.idempotency_keys))
      × (held.fingerprint ≢ r.fingerprint
          → acquire m clock now none r db'.idempotency_keys
            ≡ (conflict held.method held.route, db'.idempotency_keys))
complete_replays m clock now c db db' r h p k status body =
    let (held, e, running, e') = complete_lem c db db' h in
    let e'' : find_record r.principal_id r.key db'.idempotency_keys ≡ some (finished c held) =
      ap (λ x. find_record x r.key db'.idempotency_keys) p
      ∙ ap (λ x. find_record c.principal_id x db'.idempotency_keys) k
      ∙ e' in
    let found = acquire-existing m clock now r db'.idempotency_keys (finished c held) e'' in
    let finish =
      resolve_finished clock now c held (with_defaults m r) db'.idempotency_keys status body in
    (
      held,
      e,
      λ same early. found ∙ (finish.0 ((eq_iff held.fingerprint r.fingerprint).1 same) early),
      λ other. found ∙ finish.1 (differs held.fingerprint r.fingerprint other),
    )
