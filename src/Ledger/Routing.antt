-- ===== src/Ledger/Routing.antt =====
-- internal/ledger/service.go: the order of the accounts, and the routing of entries to shards.
-- `sort.Slice` is insertion sort here; the ids are distinct, so every sort gives this list.
pub mod Order
pub mod Shards
use ledger_core.Base.{
  ℕ, ◌%◌, List, [], ◌∷◌, Bool, false, ◌||◌, Option, none, some, ◌==◌, ltb, if◌then◌else◌, map,
  length, get_elem?,
}
use ledger_core.Ledger.Types.{Uuid}
use ledger_core.Ledger.Request.{EntryRequest}

unfoldable pub mem_id : Uuid → List Uuid → Bool
mem_id id [] = false
mem_id id (x ∷ xs) = (x == id) || mem_id id xs

-- The loop over `seen`: the first occurrence of each id, in order.
unfoldable pub distinct_ids : List Uuid → List Uuid → List Uuid
distinct_ids seen [] = []
distinct_ids seen (x ∷ xs) =
    if mem_id x seen then distinct_ids seen xs else x ∷ distinct_ids (x ∷ seen) xs

unfoldable pub insert_id : Uuid → List Uuid → List Uuid
insert_id x [] = x ∷ []
insert_id x (y ∷ ys) = if ltb y x then y ∷ insert_id x ys else x ∷ y ∷ ys

unfoldable pub sort_ids : List Uuid → List Uuid
sort_ids [] = []
sort_ids (x ∷ xs) = insert_id x (sort_ids xs)

unfoldable pub sorted_account_ids : List EntryRequest → List Uuid
sorted_account_ids entries = sort_ids (distinct_ids [] (map (λ e. e.account_id) entries))

-- What `chosen` holds for an account: no entry without shards, else the shard that
-- `ids[rand.IntN(len(ids))]` picks. rand.IntN(n) is documented to be a number below n: here any
-- number's remainder by n, so that the index is never out of range.
unfoldable pub choose_shard : (Uuid → ℕ → ℕ) → Uuid → List Uuid → Option Uuid
choose_shard rand_int_n account [] = none
choose_shard rand_int_n account (s ∷ ss) =
    get_elem? (s ∷ ss) (rand_int_n account (length (s ∷ ss)) % length (s ∷ ss))

-- The last loop of `routeToShards`.
unfoldable pub route_entry : (Uuid → Option Uuid) → EntryRequest → EntryRequest
route_entry chosen e = elim (chosen e.account_id) [
  | none ↦ e
  | some shard ↦ record e { account_id = shard }
]

unfoldable pub route_entries :
    (Uuid → ℕ → ℕ) → (Uuid → List Uuid) → List EntryRequest → List EntryRequest
unfolding choose_shard route_entry
route_entries rand_int_n shards entries =
    map (route_entry (λ account. choose_shard rand_int_n account (shards account))) entries
