-- ===== src/Ledger/Aggregate/Totals.antt =====
-- The first loop of `applyEntries`: the delta of an account is the signed sum of its entries.
use ledger_core.Base.{
  ◌≡◌, List, [], ◌∷◌, ◌==◌, if◌then◌else◌, ℤ, pos, ◌+ℤ◌, neg_ℤ, IsInt64, int_laws, arith, +ℤ_assoc,
  +ℤ_zero, zero_+ℤ, ◌∙◌,
}
use ledger_core.Errors.{ok, or_error-eq-ok, >>=-eq-ok}
use ledger_core.Ledger.Money.Bounds.{wrap64-eq, add_int64-some}
use ledger_core.Ledger.Types.{Uuid, Direction, direction_eq, JournalEntry, signed_amount}
use ledger_core.Ledger.Journal.{signed_for, journal_balance, AreInt64}
use ledger_core.Ledger.Aggregate.{
  Accounts, account_at, Aggregate, aggregate_entry, aggregate_entries, no_deltas,
}

-- Of a positive int64 amount the signed amount is exact, and stays an int64.
signed_amount-exact :
    (d normal : Direction) (a s : ℤ)
    → IsInt64 a
    → signed_amount d normal a ≡ ok s
    → (s ≡ (if direction_eq d normal then a else neg_ℤ a)) × IsInt64 s
unfolding signed_amount neg_ℤ
signed_amount-exact d normal a s h e = ground (arith, wrap64-eq (neg_ℤ a))

-- What one entry adds to the account `id` of the given normal balance.
abbrev share : Uuid → Direction → JournalEntry → ℤ
share id normal e = if e.account_id == id then signed_for normal e else pos 0

aggregate_entry-deltas :
    (accounts : Accounts) (e : JournalEntry) (g : Aggregate) {g' : Aggregate} (id : Uuid)
    → IsInt64 e.amount.amount_minor
    → ((j : Uuid) → IsInt64 (g.deltas j))
    → aggregate_entry accounts e g ≡ ok g'
    → (g'.deltas id ≡ g.deltas id +ℤ share id (account_at accounts id).normal_balance e)
      × IsInt64 (g'.deltas id)
unfolding aggregate_entry
aggregate_entry-deltas accounts e g id he hg eq =
    let (signed, es, eq') = >>=-eq-ok _ _ eq in
    let (total, et, eq'') = >>=-eq-ok _ _ eq' in
    let (hs, is) = signed_amount-exact _ _ _ signed he es in
    let (ht, it) = add_int64-some _ _ total (hg e.account_id) is (or_error-eq-ok _ _ et) in
    grind (arith, hg id, +ℤ_zero (g.deltas id))

aggregate_entries-deltas :
    (accounts : Accounts) (es : List JournalEntry) (g : Aggregate) {g' : Aggregate} (id : Uuid)
    → AreInt64 es
    → ((j : Uuid) → IsInt64 (g.deltas j))
    → aggregate_entries accounts es g ≡ ok g'
    → (g'.deltas id ≡ g.deltas id +ℤ journal_balance id (account_at accounts id).normal_balance es)
      × IsInt64 (g'.deltas id)
unfolding aggregate_entries journal_balance
aggregate_entries-deltas accounts [] g id he hg eq = grind (arith, hg id, +ℤ_zero (g.deltas id))
aggregate_entries-deltas accounts (e ∷ es) g id he hg eq =
    let (g1, e1, e2) = >>=-eq-ok _ _ eq in
    let step = λ (j : Uuid). aggregate_entry-deltas accounts e g j he.0 hg e1 in
    let ih = aggregate_entries-deltas accounts es g1 id he.1 (λ j. (step j).1) e2 in
    let first = step id in grind (int_laws, +ℤ_assoc)

-- The delta of every account is the signed sum of its entries.
pub no_deltas-exact :
    (accounts : Accounts) (es : List JournalEntry) {g : Aggregate} (id : Uuid)
    → AreInt64 es
    → aggregate_entries accounts es no_deltas ≡ ok g
    → g.deltas id ≡ journal_balance id (account_at accounts id).normal_balance es
no_deltas-exact accounts es id he eq =
    (aggregate_entries-deltas accounts es no_deltas id he (λ j. omega arith) eq).0 ∙ zero_+ℤ _
