-- ===== src/Ledger/Routing/Order.antt =====
-- The account order of service.go: ascending, without repetition, and naming exactly the accounts
-- of the entries.
use ledger_core.Base.{◌<◌, ◌≡◌, refl, List, [], ◌∷◌, false, not, ◌&&◌, ◌||◌, ◌==◌, map, arith, ◌∙◌}
use ledger_core.Ledger.Types.{Uuid}
use ledger_core.Ledger.Request.{EntryRequest}
use ledger_core.Ledger.Routing.{mem_id, distinct_ids, insert_id, sort_ids, sorted_account_ids}

-- Strictly ascending.
abbrev pub IsAscending : List Uuid → Type 0
IsAscending [] = Unit
IsAscending (x ∷ []) = Unit
IsAscending (x ∷ y ∷ ys) = (x < y) × IsAscending (y ∷ ys)

-- No id stands twice.
abbrev pub NoRepeat : List Uuid → Type 0
NoRepeat [] = Unit
NoRepeat (x ∷ xs) = (mem_id x xs ≡ false) × NoRepeat xs

mem_id-distinct_ids :
    (id : Uuid) (seen xs : List Uuid)
    → mem_id id (distinct_ids seen xs) ≡ (not (mem_id id seen) && mem_id id xs)
unfolding mem_id distinct_ids
mem_id-distinct_ids id seen [] = ground arith
mem_id-distinct_ids id seen (x ∷ xs) =
    ground (arith, mem_id-distinct_ids id seen xs, mem_id-distinct_ids id (x ∷ seen) xs)

distinct_ids-NoRepeat : (seen xs : List Uuid) → NoRepeat (distinct_ids seen xs)
unfolding mem_id distinct_ids
distinct_ids-NoRepeat seen [] = tt
distinct_ids-NoRepeat seen (x ∷ xs) = ground (
  arith,
  distinct_ids-NoRepeat seen xs,
  distinct_ids-NoRepeat (x ∷ seen) xs,
  mem_id-distinct_ids x (x ∷ seen) xs,
)

mem_id-insert_id :
    (id x : Uuid) (ys : List Uuid) → mem_id id (insert_id x ys) ≡ ((x == id) || mem_id id ys)
unfolding mem_id insert_id
mem_id-insert_id id x [] = refl
mem_id-insert_id id x (y ∷ ys) = ground (arith, mem_id-insert_id id x ys)

mem_id-sort_ids : (id : Uuid) (xs : List Uuid) → mem_id id (sort_ids xs) ≡ mem_id id xs
unfolding mem_id sort_ids
mem_id-sort_ids id [] = refl
mem_id-sort_ids id (x ∷ xs) =
    ground (arith, mem_id-insert_id id x (sort_ids xs), mem_id-sort_ids id xs)

insert_id-IsAscending :
    (x : Uuid) (ys : List Uuid)
    → mem_id x ys ≡ false
    → IsAscending ys
    → IsAscending (insert_id x ys)
unfolding mem_id insert_id
insert_id-IsAscending x [] m h = tt
insert_id-IsAscending x (y ∷ []) m h = ground arith
insert_id-IsAscending x (y ∷ z ∷ ys) m h = ground (arith, insert_id-IsAscending x (z ∷ ys))

sort_ids-IsAscending : (xs : List Uuid) → NoRepeat xs → IsAscending (sort_ids xs)
unfolding sort_ids
sort_ids-IsAscending [] h = tt
sort_ids-IsAscending (x ∷ xs) h =
    insert_id-IsAscending x (sort_ids xs) (mem_id-sort_ids x xs ∙ h.0) (sort_ids-IsAscending xs h.1)

-- An ascending list has nothing below its head.
not_mem_below :
    (x y : Uuid) (ys : List Uuid) → x < y → IsAscending (y ∷ ys) → mem_id x (y ∷ ys) ≡ false
unfolding mem_id
not_mem_below x y [] h a = ground arith
not_mem_below x y (z ∷ ys) h a = ground (arith, not_mem_below x z ys)

IsAscending-NoRepeat : (xs : List Uuid) → IsAscending xs → NoRepeat xs
unfolding mem_id
IsAscending-NoRepeat [] h = tt
IsAscending-NoRepeat (x ∷ []) h = (refl, tt)
IsAscending-NoRepeat (x ∷ y ∷ ys) h =
    (not_mem_below x y ys h.0 h.1, IsAscending-NoRepeat (y ∷ ys) h.1)

abbrev pub account_ids : List EntryRequest → List Uuid
account_ids entries = map (λ e. e.account_id) entries

-- The order in which accounts are locked is strictly ascending and names exactly the accounts of
-- the entries.
pub sorted_account_ids_lem :
    (entries : List EntryRequest)
    → IsAscending (sorted_account_ids entries)
      × ((id : Uuid) → mem_id id (sorted_account_ids entries) ≡ mem_id id (account_ids entries))
unfolding sorted_account_ids mem_id
sorted_account_ids_lem entries = (
  sort_ids-IsAscending _ (distinct_ids-NoRepeat [] (account_ids entries)),
  λ id. mem_id-sort_ids id _ ∙ mem_id-distinct_ids id [] (account_ids entries),
)

pub sorted_account_ids-NoRepeat :
    (entries : List EntryRequest) → NoRepeat (sorted_account_ids entries)
sorted_account_ids-NoRepeat entries =
    IsAscending-NoRepeat (sorted_account_ids entries) (sorted_account_ids_lem entries).0
