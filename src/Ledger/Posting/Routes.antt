-- ===== src/Ledger/Posting/Routes.antt =====
-- `routeToShards`: which account a leg goes to.
use ledger_core.Base.{
  ◌≡◌, refl, ℕ, List, [], ◌∷◌, true, some, if◌then◌else◌, ◌⊎◌, inl, inr, Option-cases, Bool-cases,
  arith, ◌∙◌, sym, ap, ==_iff, ==_self, ◌==◌, ◌&&◌,
}
use ledger_core.Errors.{ok}
use ledger_core.Ledger.Posting.{Draws, route_to_shards}
use ledger_core.Ledger.Repository.{active_shards, resolve_shards}
use ledger_core.Ledger.Request.{EntryRequest}
use ledger_core.Ledger.Routing.{
  mem_id, choose_shard, route_entry, route_entries, sorted_account_ids,
}
use ledger_core.Ledger.Routing.Order.{account_ids, sorted_account_ids_lem}
use ledger_core.Ledger.Routing.Shards.{choose_shard_lem}
use ledger_core.Ledger.Types.{Uuid, is_postable}
use ledger_core.Postgres.{AccountRow, Db}

-- A shard of an account, that may be posted to.
pub record IsActiveShard (db : Db) (account s : Uuid) : Type 0 where
  pub row : AccountRow
  pub listed : mem_id s (db.shards account) ≡ true
  pub found : db.accounts s ≡ some row
  pub active : is_postable row.status ≡ true

-- A leg moves the same amount the same way as the requested one, on an active shard of its account,
-- or on the account itself where it has no active shard.
pub record IsRouted (db : Db) (e r : EntryRequest) : Type 0 where
  pub direction : r.direction ≡ e.direction
  pub amount : r.amount ≡ e.amount
  pub account :
      IsActiveShard db e.account_id r.account_id
      ⊎ ((r.account_id ≡ e.account_id) × ((s : Uuid) → ¬ IsActiveShard db e.account_id s))

abbrev pub AreRouted : Db → List EntryRequest → List EntryRequest → Type 0
AreRouted db [] rs = rs ≡ []
AreRouted db (e ∷ es) rs =
    (r : EntryRequest) × (rest : List EntryRequest) × (rs ≡ r ∷ rest)
    × IsRouted db e r
    × AreRouted db es rest

active_shards-IsActive :
    (db : Db) (s : Uuid) (ss : List Uuid)
    → mem_id s (active_shards db ss) ≡ true
    → (row : AccountRow) × (mem_id s ss ≡ true)
      × (db.accounts s ≡ some row)
      × (is_postable row.status ≡ true)
unfolding active_shards mem_id
active_shards-IsActive db s [] h = cc
active_shards-IsActive db s (x ∷ xs) h = elim (Option-cases (db.accounts x)) [
  | inl e ↦
      let (row, listed, found, active) = active_shards-IsActive db s xs (ground arith) in
      (row, ground arith, found, active)
  | inr (row, e) ↦ elim (Bool-cases (is_postable row.status && (x == s))) [
    | inl here ↦
        (row, ground arith, ap db.accounts (sym ((==_iff x s).0 (ground arith))) ∙ e, ground arith)
    | inr other ↦
        let (row', listed, found, active) = active_shards-IsActive db s xs (ground arith) in
        (row', ground arith, found, active)
  ]
]

active_shards_complete :
    (db : Db) (s : Uuid) (ss : List Uuid) (row : AccountRow)
    → mem_id s ss ≡ true
    → db.accounts s ≡ some row
    → is_postable row.status ≡ true
    → mem_id s (active_shards db ss) ≡ true
unfolding active_shards mem_id
active_shards_complete db s [] row h found active = cc
active_shards_complete db s (x ∷ xs) row h found active =
    let rest = active_shards_complete db s xs row in
    elim (Bool-cases (x == s)) [
      | inl here ↦
          let at : db.accounts x ≡ some row = ap db.accounts ((==_iff x s).0 here) ∙ found in
          ground arith
      | inr other ↦ elim (Option-cases (db.accounts x)) [
        | inl e ↦ ground arith
        | inr (row', e) ↦ ground arith
      ]
    ]

-- The leg that `chosen` gives, in a table of shards that knows the leg's account.
route_entry-IsRouted :
    (rand_int_n : Uuid → ℕ → ℕ) (db : Db) (shards : Uuid → List Uuid) (e : EntryRequest)
    → shards e.account_id ≡ active_shards db (db.shards e.account_id)
    → IsRouted db e (route_entry (λ a. choose_shard rand_int_n a (shards a)) e)
unfolding route_entry
route_entry-IsRouted rand_int_n db shards e known =
    elim (choose_shard_lem rand_int_n e.account_id (shards e.account_id)) [
      | inl (bare, kept) ↦
          rw (kept, route_entry)
            (record {
              direction = refl;
              amount = refl;
              account = inr (
                refl,
                λ s a.
                    let listed =
                      active_shards_complete db s (db.shards e.account_id) a.row a.listed a.found
                        a.active in
                    let none_left = ap (λ ids. mem_id s ids) (sym known ∙ bare) in
                    unfold mem_id in absurd (ground arith),
              );
            })
      | inr (s, chosen, listed) ↦
          let (row, from, found, active) =
            active_shards-IsActive db s (db.shards e.account_id)
              (ap (λ ids. mem_id s ids) (sym known) ∙ listed) in
          rw (chosen, route_entry)
            (record {
              direction = refl;
              amount = refl;
              account = inl (record { row = row; listed = from; found = found; active = active });
            })
    ]

route_entries-AreRouted :
    (rand_int_n : Uuid → ℕ → ℕ) (db : Db) (shards : Uuid → List Uuid) (es : List EntryRequest)
    → ((id : Uuid)
        → mem_id id (account_ids es) ≡ true
        → shards id ≡ active_shards db (db.shards id))
    → AreRouted db es (route_entries rand_int_n shards es)
unfolding route_entries mem_id
route_entries-AreRouted rand_int_n db shards [] known = refl
route_entries-AreRouted rand_int_n db shards (e ∷ es) known = (
  route_entry (λ a. choose_shard rand_int_n a (shards a)) e,
  route_entries rand_int_n shards es,
  refl,
  route_entry-IsRouted rand_int_n db shards e
      (known e.account_id (ground (arith, ==_self e.account_id))),
  route_entries-AreRouted rand_int_n db shards es (λ id h. known id (ground arith)),
)

-- Routing does not fail and changes no table. The legs keep their number, order, directions and
-- amounts; each is posted to an active shard of the account that it names, or to that account
-- itself where it has no active shard.
pub route_to_shards_lem :
    (draws : Draws) (entries : List EntryRequest) (db : Db)
    → (routed : List EntryRequest) × (route_to_shards draws entries db ≡ ok (routed, db))
      × AreRouted db entries routed
unfolding route_to_shards resolve_shards
route_to_shards_lem draws entries db = (
  _,
  refl,
  route_entries-AreRouted draws.rand_int_n db
      (λ id. if mem_id id (sorted_account_ids entries) then active_shards db (db.shards id) else [])
      entries (λ id h. rw ((sorted_account_ids_lem entries).1 id ∙ h) refl),
)
