-- ===== src/Idempotency/Sweep.antt =====
-- internal/idempotency/pgidem/store.go, Sweep: expired records are deleted in batches, by key.
use ledger_core.Base.{
  ℕ, ◌+◌, ◌≡◌, String, ◌≤◌, ◌<◌, ◌⊎◌, List, [], ◌∷◌, Bool, true, false, ◌&&◌, ◌||◌, none, some,
  length, ltb, str_eq, if◌then◌else◌, zero, suc, map, arith, Bool-cases, inl, inr, eq_iff, ◌∙◌, sym,
  subst, ap,
}
use ledger_core.Idempotency.Types.{Record, names_row}
use ledger_core.Idempotency.Pgidem.{find_record}

-- `ORDER BY expires_at`
unfoldable pub insert_by_expiry : Record → List Record → List Record
insert_by_expiry r [] = r ∷ []
insert_by_expiry r (x ∷ xs) =
    if ltb x.expires_at r.expires_at then x ∷ insert_by_expiry r xs else r ∷ x ∷ xs

-- `WHERE expires_at < now()`
unfoldable pub expired_records : ℕ → List Record → List Record
unfolding insert_by_expiry
expired_records now [] = []
expired_records now (r ∷ rs) =
    let rest = expired_records now rs in
    if ltb r.expires_at now then insert_by_expiry r rest else rest

abbrev take_records : ℕ → List Record → List Record
take_records zero rs = []
take_records (suc n) [] = []
take_records (suc n) (r ∷ rs) = r ∷ take_records n rs

-- `SELECT key ... LIMIT $1`
unfoldable pub swept_keys : ℕ → ℕ → List Record → List String
unfolding expired_records
swept_keys now batch table = map (λ r. r.key) (take_records batch (expired_records now table))

abbrev pub has_text : String → List String → Bool
has_text key [] = false
has_text key (k ∷ ks) = str_eq k key || has_text key ks

-- `DELETE ... WHERE key IN (...)`: how many rows went, and the rows that stay.
unfoldable pub delete_keys : List String → List Record → ℕ × List Record
delete_keys keys [] = (0, [])
delete_keys keys (r ∷ rs) =
    let (n, rest) = delete_keys keys rs in
    if has_text r.key keys then (n + 1, rest) else (n, r ∷ rest)

unfoldable pub sweep : ℕ → ℕ → List Record → ℕ × List Record
unfolding swept_keys delete_keys
sweep now batch table = delete_keys (swept_keys now batch table) table

delete_keys_lem :
    (keys : List String) (principal key : String) (table : List Record)
    → find_record principal key (delete_keys keys table).1
      ≡ (if has_text key keys then none else find_record principal key table)
unfolding delete_keys find_record
delete_keys_lem keys principal key [] = ground arith
delete_keys_lem keys principal key (r ∷ rs) =
    let rest = delete_keys_lem keys principal key rs in
    elim (Bool-cases (names_row principal key r)) [
      | inl same ↦
          let k : r.key ≡ key = (eq_iff r.key key).0 (ground arith) in
          let at = ap (λ x. has_text x keys) k in ground arith
      | inr other ↦ ground arith
    ]

-- Whether some principal has an expired record under a key, and how many records have expired.
pub has_expired : ℕ → String → List Record → Bool
has_expired now key [] = false
has_expired now key (r ∷ rs) = (str_eq r.key key && ltb r.expires_at now) || has_expired now key rs

pub count_expired : ℕ → List Record → ℕ
count_expired now [] = 0
count_expired now (r ∷ rs) =
    let rest = count_expired now rs in if ltb r.expires_at now then rest + 1 else rest

abbrev keys_of : List Record → List String
keys_of rs = map (λ r. r.key) rs

insert_by_expiry-keys :
    (key : String) (r : Record) (rs : List Record)
    → (has_text key (keys_of (insert_by_expiry r rs))
        ≡ (str_eq r.key key || has_text key (keys_of rs)))
      × (length (insert_by_expiry r rs) ≡ length rs + 1)
unfolding insert_by_expiry
insert_by_expiry-keys key r [] = ground arith
insert_by_expiry-keys key r (x ∷ xs) = ground (arith, insert_by_expiry-keys key r xs)

expired_records-keys :
    (now : ℕ) (key : String) (rs : List Record)
    → (has_text key (keys_of (expired_records now rs)) ≡ has_expired now key rs)
      × (length (expired_records now rs) ≡ count_expired now rs)
unfolding expired_records has_expired count_expired
expired_records-keys now key [] = ground arith
expired_records-keys now key (r ∷ rs) =
    ground
      (arith, expired_records-keys now key rs, insert_by_expiry-keys key r (expired_records now rs))

-- A batch is a part of the records, at most so many, and all of them if there are no more.
take_records_lem :
    (n : ℕ) (key : String) (rs : List Record)
    → (length (keys_of (take_records n rs)) ≤ n)
      × (has_text key (keys_of (take_records n rs)) ≡ true → has_text key (keys_of rs) ≡ true)
      × (length rs ≤ n → take_records n rs ≡ rs)
take_records_lem zero key [] = ground arith
take_records_lem zero key (r ∷ rs) = ground arith
take_records_lem (suc n) key [] = ground arith
take_records_lem (suc n) key (r ∷ rs) =
    let (few, part, short) = take_records_lem n key rs in
    (ground (arith, few), ground (arith, part), λ h. ap (λ xs. r ∷ xs) (short (ground arith)))

find_record-has_expired :
    (now : ℕ) (principal key : String) (table : List Record) (r : Record)
    → find_record principal key table ≡ some r
    → r.expires_at < now
    → has_expired now key table ≡ true
unfolding find_record has_expired
find_record-has_expired now principal key [] r h late = cc
find_record-has_expired now principal key (x ∷ xs) r h late =
    elim (Bool-cases (names_row principal key x)) [
      | inl same ↦ ground arith
      | inr other ↦ ground (arith, find_record-has_expired now principal key xs r)
    ]

-- A sweep selects at most a batch of keys. A principal's record under a key stays as it is, or is
-- removed, and then some principal's record under that key, perhaps another's, has expired. An
-- expired record is removed if no more records than a batch have expired.
pub sweep_lem :
    (now batch : ℕ) (principal key : String) (table : List Record)
    → (length (swept_keys now batch table) ≤ batch)
      × ((find_record principal key (sweep now batch table).1 ≡ find_record principal key table)
          ⊎ ((find_record principal key (sweep now batch table).1 ≡ none)
              × (has_expired now key table ≡ true)))
      × ((r : Record)
          → find_record principal key table ≡ some r
          → r.expires_at < now
          → count_expired now table ≤ batch
          → find_record principal key (sweep now batch table).1 ≡ none)
unfolding sweep swept_keys
sweep_lem now batch principal key table =
    let (few, part, short) = take_records_lem batch key (expired_records now table) in
    let (texts, size) = expired_records-keys now key table in
    let swept = delete_keys_lem (swept_keys now batch table) principal key table in
    (
      few,
      elim (Bool-cases (has_text key (swept_keys now batch table))) [
        | inl hit ↦ inr (ground arith, ground arith)
        | inr missed ↦ inl (ground arith)
      ],
      λ r found late fits.
          let every =
            ap (λ rs. has_text key (keys_of rs)) (short (subst (λ n. n ≤ batch) (sym size) fits))
            ∙ texts
            ∙ find_record-has_expired now principal key table r found late in
          swept ∙ ap (λ b. if b then none else find_record principal key table) every,
    )
