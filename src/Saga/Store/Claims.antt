-- ===== src/Saga/Store/Claims.antt =====
-- Leases: what one orchestrator has claimed, another cannot claim while the lease lasts.
use ledger_core.Base.{
  ◌≡◌, ◌≢◌, refl, ℕ, zero, suc, ◌+◌, List, [], ◌∷◌, map, Bool, true, false, ◌&&◌, Option, none,
  some, ◌==◌, ==_iff, ==_self, ◌≤◌, arith, Bool-cases, inl, inr, ◌⊎◌, update, sym, ap, subst, ◌∙◌,
  if◌then◌else◌,
}
use mathlib.Core.Option.{some-injective}
use ledger_core.Errors.{ok}
use ledger_core.Ledger.Types.{Uuid}
use ledger_core.Postgres.{Db}
use ledger_core.Saga.Store.{
  Claim, limit, where_rows, rows_of, leased, lease_rows, lease_is_free, claim_runnable,
  can_claim_runnable,
}
use ledger_core.Saga.Types.{Instance}

-- A row is in a list.
abbrev pub In : Instance → List Instance → Type 0
In i [] = ⊥
In i (x ∷ xs) = (x ≡ i) ⊎ In i xs

-- Every saga is stored under its id: the primary key.
abbrev pub Keyed : Db → Type 0
Keyed db = (id : Uuid) (i : Instance) → db.saga_instances id ≡ some i → i.id ≡ id

limit-In : (n : ℕ) (i : Instance) (rows : List Instance) → In i (limit n rows) → In i rows
unfolding limit
limit-In zero i rows m = absurd m
limit-In (suc n) i [] m = m
limit-In (suc n) i (x ∷ rows) (inl e) = inl e
limit-In (suc n) i (x ∷ rows) (inr m) = inr (limit-In n i rows m)

where_rows-cons :
    (b : Bool) (i x : Instance) (rows kept : List Instance)
    → In i (if b then x ∷ kept else kept)
    → ((b ≡ true) × (x ≡ i)) ⊎ In i kept
where_rows-cons true i x rows kept (inl e) = inl (refl, e)
where_rows-cons true i x rows kept (inr m) = inr m
where_rows-cons false i x rows kept m = inr m

where_rows-In :
    (p : Instance → Bool) (i : Instance) (rows : List Instance)
    → In i (where_rows p rows)
    → (p i ≡ true) × In i rows
unfolding where_rows
where_rows-In p i [] m = absurd m
where_rows-In p i (x ∷ rows) m = elim (where_rows-cons (p x) i x rows (where_rows p rows) m) [
  | inl (q, e) ↦ (ap p (sym e) ∙ q, inl e)
  | inr m' ↦ let (a, b) = where_rows-In p i rows m' in (a, inr b)
]

rows_of-cons :
    (o : Option Instance) (i : Instance) (rest : List Instance)
    → In i (elim o [ none ↦ rest | some x ↦ x ∷ rest ])
    → (o ≡ some i) ⊎ In i rest
rows_of-cons none i rest m = inr m
rows_of-cons (some x) i rest (inl e) = inl (ap some e)
rows_of-cons (some x) i rest (inr m) = inr m

rows_of-In :
    (f : Uuid → Option Instance) (i : Instance) (ids : List Uuid)
    → In i (rows_of f ids)
    → (id : Uuid) × (f id ≡ some i)
unfolding rows_of
rows_of-In f i [] m = absurd m
rows_of-In f i (id ∷ ids) m = elim (rows_of-cons (f id) i (rows_of f ids) m) [
  | inl e ↦ (id, e)
  | inr m' ↦ rows_of-In f i ids m'
]

-- A row that carries the lease.
abbrev IsLeased : Claim → ℕ → Option Instance → Type 0
IsLeased c now o = (i : Instance) × (o ≡ some (leased c now i))

lease_rows-keeps :
    (c : Claim) (rows : List Instance) (db : Db) (id : Uuid)
    → IsLeased c db.now (db.saga_instances id)
    → IsLeased c db.now ((lease_rows c rows db).saga_instances id)
unfolding lease_rows
lease_rows-keeps c [] db id h = h
lease_rows-keeps c (i ∷ rows) db id h =
    lease_rows-keeps c rows _ id
      (elim (Bool-cases (i.id == id)) [ inl e ↦ (i, rw e refl) | inr e ↦ (h.0, rw e h.1) ])

lease_rows-In :
    (c : Claim) (rows : List Instance) (db : Db) (i : Instance)
    → In i rows
    → IsLeased c db.now ((lease_rows c rows db).saga_instances i.id)
unfolding lease_rows
lease_rows-In c [] db i m = absurd m
lease_rows-In c (x ∷ rows) db i (inl e) =
    lease_rows-keeps c rows _ i.id
      (x, rw (ap (λ (y : Instance). x.id == y.id) (sym e) ∙ ==_self x.id) refl)
lease_rows-In c (x ∷ rows) db i (inr m) = lease_rows-In c rows _ i m

update-cases :
    (f : Uuid → Option Instance) (k j : Uuid) (v : Option Instance) (i : Instance)
    → update f k v j ≡ some i
    → ((k ≡ j) × (v ≡ some i)) ⊎ (f j ≡ some i)
update-cases f k j v i h = elim (Bool-cases (k == j)) [
  | inl e ↦ inl ((==_iff k j).0 e, subst (λ b. (if b then v else f j) ≡ some i) e h)
  | inr e ↦ inr (subst (λ b. (if b then v else f j) ≡ some i) e h)
]

lease_rows-Keyed :
    (c : Claim) (rows : List Instance) (db : Db) → Keyed db → Keyed (lease_rows c rows db)
unfolding lease_rows
lease_rows-Keyed c [] db k = k
lease_rows-Keyed c (x ∷ rows) db k = lease_rows-Keyed c rows _ (λ id i e.
    elim (update-cases db.saga_instances x.id id (some (leased c db.now x)) i e) [
      | inl (same, v) ↦ ap (λ (y : Instance). y.id) (sym (some-injective _ i v)) ∙ same
      | inr old ↦ k id i old
    ])

lease_rows-now : (c : Claim) (rows : List Instance) (db : Db) → (lease_rows c rows db).now ≡ db.now
unfolding lease_rows
lease_rows-now c [] db = refl
lease_rows-now c (x ∷ rows) db = lease_rows-now c rows _

map-leased-In :
    (c : Claim) (now : ℕ) (rows : List Instance) (i : Instance)
    → In i (map (leased c now) rows)
    → (old : Instance) × In old rows × (i.id ≡ old.id)
map-leased-In c now [] i m = absurd m
map-leased-In c now (x ∷ rows) i (inl e) = (x, inl refl, ap (λ (y : Instance). y.id) (sym e))
map-leased-In c now (x ∷ rows) i (inr m) =
    let (old, m', e) = map-leased-In c now rows i m in (old, inr m', e)

third : (a b x y : Bool) → (a && (b && (x && y))) ≡ true → x ≡ true
third a b x y h = ground arith

-- What a claim of runnable sagas takes.
record Claimed (c : Claim) (db : Db) (taken : List Instance) (db' : Db) : Type 0 where
  rows : List Instance
  answer : taken ≡ map (leased c db.now) rows
  after : db' ≡ lease_rows c rows db
  free : (i : Instance) → In i rows → lease_is_free db.now i ≡ true
  stored : (i : Instance) → In i rows → (id : Uuid) × (db.saga_instances id ≡ some i)

claim_runnable-Claimed :
    (c : Claim) (db : Db) (taken : List Instance) (db' : Db)
    → claim_runnable c db ≡ ok (taken, db')
    → Claimed c db taken db'
unfolding claim_runnable
claim_runnable-Claimed c db taken db' h =
    let p = can_claim_runnable c db.now in
    let all_rows = rows_of db.saga_instances db.saga_ids in
    let inside : (i : Instance)
        → In i (limit c.batch (where_rows p all_rows))
        → (p i ≡ true) × In i all_rows =
      λ i m. where_rows-In p i all_rows (limit-In c.batch i (where_rows p all_rows) m) in
    record {
      rows = limit c.batch (where_rows p all_rows);
      answer = ground arith;
      after = ground arith;
      free = λ i m. third _ _ _ _ (inside i m).0;
      stored = λ i m. rows_of-In db.saga_instances i db.saga_ids (inside i m).1;
    }

-- While the lease of a claim of runnable sagas lasts, no other such claim, by whichever
-- orchestrator, takes one of its sagas, where every saga is stored under its id.
pub claims_exclude :
    (c c' : Claim) (db db' db'' : Db) (later : ℕ) (mine yours : List Instance) (i j : Instance)
    → Keyed db
    → claim_runnable c db ≡ ok (mine, db')
    → later ≤ db.now + c.lease
    → claim_runnable c' (record db' { now = later }) ≡ ok (yours, db'')
    → In i mine
    → In j yours
    → i.id ≢ j.id
claims_exclude c c' db db' db'' later mine yours i j k h in_time h' m n same =
    let a = claim_runnable-Claimed c db mine db' h in
    let b = claim_runnable-Claimed c' (record db' { now = later }) yours db'' h' in
    let (i0, mi, ei) = map-leased-In c db.now a.rows i (subst (In i) a.answer m) in
    let (j0, mj, ej) = map-leased-In c' later b.rows j (subst (In j) b.answer n) in
    let (id, stored) = b.stored j0 mj in
    let named : j0.id ≡ id =
      subst Keyed (sym a.after) (lease_rows-Keyed c a.rows db k) id j0 stored in
    let (x, held) = lease_rows-In c a.rows db i0 mi in
    let here : id ≡ i0.id = sym named ∙ sym ej ∙ sym same ∙ ei in
    let it : j0 ≡ leased c db.now x = some-injective j0 (leased c db.now x) (
      sym stored
      ∙ ap db'.saga_instances here
      ∙ ap (λ (d : Db). d.saga_instances i0.id) a.after
      ∙ held) in
    let free = sym (ap (lease_is_free later) it) ∙ b.free j0 mj in ground (arith, free)
