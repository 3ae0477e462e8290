-- ===== src/Ledger/Routing/Shards.antt =====
-- `routeToShards`: which account a leg goes to, and what routing leaves alone.
use ledger_core.Base.{
  ℕ, ◌<◌, ◌≡◌, refl, List, [], ◌∷◌, true, Option, none, some, map, length, get_elem?, ◌%◌, zero,
  suc, arith, ap, sym, subst, IsInt64, ◌⊎◌, inl, inr, Option-cases, ==_self,
}
use native.Mathlib.Nat.{mod-lt}
use ledger_core.Ledger.Types.{Uuid, Direction}
use ledger_core.Ledger.Money.{Money}
use ledger_core.Ledger.Request.{EntryRequest}
use ledger_core.Ledger.Journal.{AreInt64Legs}
use ledger_core.Ledger.Routing.{mem_id, choose_shard, route_entry, route_entries}

-- What a leg moves, and which way.
abbrev pub direction_and_amount : EntryRequest → Direction × Money
direction_and_amount e = (e.direction, e.amount)

pub route_entry-keeps :
    (chosen : Uuid → Option Uuid) (e : EntryRequest)
    → direction_and_amount (route_entry chosen e) ≡ direction_and_amount e
unfolding route_entry
route_entry-keeps chosen e = elim (Option-cases (chosen e.account_id)) [
  | inl q ↦ ground arith
  | inr (s, q) ↦ ground arith
]

-- Routing changes accounts only: the legs keep their number, order, directions and amounts.
pub route_entries-keeps :
    (rand_int_n : Uuid → ℕ → ℕ) (shards : Uuid → List Uuid) (es : List EntryRequest)
    → map direction_and_amount (route_entries rand_int_n shards es) ≡ map direction_and_amount es
unfolding route_entries
route_entries-keeps rand_int_n shards [] = refl
route_entries-keeps rand_int_n shards (e ∷ es) = grind (
  arith,
  route_entry-keeps (λ a. choose_shard rand_int_n a (shards a)) e,
  route_entries-keeps rand_int_n shards es,
)

pub route_entries-AreInt64Legs :
    (rand_int_n : Uuid → ℕ → ℕ) (shards : Uuid → List Uuid) (es : List EntryRequest)
    → AreInt64Legs es
    → AreInt64Legs (route_entries rand_int_n shards es)
unfolding route_entries
route_entries-AreInt64Legs rand_int_n shards [] h = tt
route_entries-AreInt64Legs rand_int_n shards (e ∷ es) h = (
  subst (λ (m : Money). IsInt64 m.amount_minor)
      (sym (ap (λ p. p.1) (route_entry-keeps (λ a. choose_shard rand_int_n a (shards a)) e))) h.0,
  route_entries-AreInt64Legs rand_int_n shards es h.1,
)

get_elem?-mem_id :
    (xs : List Uuid) (n : ℕ)
    → n < length xs
    → (s : Uuid) × (get_elem? xs n ≡ some s) × (mem_id s xs ≡ true)
unfolding mem_id
get_elem?-mem_id [] n h = absurd (omega arith)
get_elem?-mem_id (x ∷ xs) zero h = (x, refl, ground (arith, ==_self x))
get_elem?-mem_id (x ∷ xs) (suc n) h =
    let (s, found, listed) = get_elem?-mem_id xs n (omega arith) in (s, found, ground arith)

-- An account without shards has none chosen, and one with shards has one of them.
pub choose_shard_lem :
    (rand_int_n : Uuid → ℕ → ℕ) (account : Uuid) (ids : List Uuid)
    → ((ids ≡ []) × (choose_shard rand_int_n account ids ≡ none))
      ⊎ ((s : Uuid) × (choose_shard rand_int_n account ids ≡ some s) × (mem_id s ids ≡ true))
unfolding choose_shard
choose_shard_lem rand_int_n account [] = inl (refl, refl)
choose_shard_lem rand_int_n account (x ∷ xs) =
    let n = length (x ∷ xs) in
    inr (
      get_elem?-mem_id (x ∷ xs) (rand_int_n account n % n)
        (mod-lt (rand_int_n account n) (omega arith)))
