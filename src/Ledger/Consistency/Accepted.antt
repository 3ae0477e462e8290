-- ===== src/Ledger/Consistency/Accepted.antt =====
-- The deferred trigger and a validated posting: its legs balance, so COMMIT accepts it.
use ledger_core.Base.{
  ◌≡◌, refl, String, List, [], ◌∷◌, ◌++◌, true, false, ◌&&◌, ◌==◌, str_eq, ℤ, pos, ◌+ℤ◌, neg_ℤ,
  ◌-ℤ◌, ◌<ℤ◌, +ℤ_zero, zero_+ℤ, +ℤ_assoc, int_laws, if◌then◌else◌, arith, all, drop, length, map,
  All, Bool-cases, inl, inr, ==_self, ==_iff, eq_iff, eqb_ℤ, ◌∙◌, sym, ap, subst, ℕ,
}
use ledger_core.Ledger.Money.{Money}
use ledger_core.Ledger.Types.{
  Uuid, Direction, debit, credit, other_direction, direction_eq, is_valid_direction, JournalEntry,
}
use ledger_core.Ledger.Request.{EntryRequest}
use ledger_core.Ledger.Request.Totals.{side_total, IsPostable}
use ledger_core.Ledger.Routing.{route_entries, choose_shard}
use ledger_core.Ledger.Routing.Shards.{direction_and_amount, route_entry-keeps}
use ledger_core.Ledger.Journal.{leg}
use ledger_core.Postgres.{Db, imbalance, transaction_sign, trigger_passes, commit_check}

imbalance-append :
    (id : Uuid) (currency : String) (xs ys : List JournalEntry)
    → imbalance id currency (xs ++ ys) ≡ imbalance id currency xs +ℤ imbalance id currency ys
unfolding imbalance
imbalance-append id currency [] ys = sym (zero_+ℤ _)
imbalance-append id currency (x ∷ xs) ys =
    grind (int_laws, imbalance-append id currency xs ys, +ℤ_assoc)

-- Rows of another transaction, or in another currency, do not count.
imbalance-absent :
    (id owner : Uuid) (currency held : String) (es : List JournalEntry)
    → ((owner == id) && str_eq held currency) ≡ false
    → All (λ e. e.transaction_id ≡ owner) es
    → All (IsPostable held) (map leg es)
    → imbalance id currency es ≡ pos 0
unfolding imbalance
imbalance-absent id owner currency held [] other h k = refl
imbalance-absent id owner currency held (e ∷ es) other h k =
    let rest = imbalance-absent id owner currency held es other h.1 k.1 in
    let skip : ((e.transaction_id == id) && str_eq e.amount.currency currency) ≡ false =
      ap (λ x. (x == id) && str_eq e.amount.currency currency) h.0
      ∙ ap (λ c. (owner == id) && str_eq c currency) k.0.0
      ∙ other in
    ap (λ b. if b then transaction_sign e +ℤ imbalance id currency es else imbalance id currency es)
      skip
    ∙ rest

minus_plus : (a b c : ℤ) → neg_ℤ a +ℤ b +ℤ (a +ℤ c) ≡ b +ℤ c
minus_plus a b c = omega int_laws

plus_minus : (a b : ℤ) → a +ℤ b -ℤ b ≡ a
plus_minus a b = omega int_laws

minus_self : (a : ℤ) → a -ℤ a ≡ pos 0
minus_self a = omega int_laws

-- What leaves a number as it is, is zero.
adds_nothing : (a b : ℤ) → a +ℤ b ≡ b → a ≡ pos 0
adds_nothing a b h = sym (plus_minus a b) ∙ ap (λ x. x -ℤ b) h ∙ minus_self b

row_total :
    (d : Direction) (amount sum credits debits : ℤ)
    → is_valid_direction d ≡ true
    → sum +ℤ credits ≡ debits
    → (if direction_eq d debit then amount else neg_ℤ amount)
        +ℤ sum
        +ℤ (if direction_eq d credit then amount +ℤ credits else credits)
      ≡ (if direction_eq d debit then amount +ℤ debits else debits)
unfolding is_valid_direction
row_total debit amount sum credits debits v h =
    +ℤ_assoc amount sum credits ∙ ap (λ x. amount +ℤ x) h
row_total credit amount sum credits debits v h = minus_plus amount sum credits ∙ h
row_total (other_direction s) amount sum credits debits v h = cc

-- The rows of one transaction in one currency: debits less credits.
imbalance-totals :
    (id : Uuid) (currency : String) (es : List JournalEntry)
    → All (λ e. e.transaction_id ≡ id) es
    → All (IsPostable currency) (map leg es)
    → imbalance id currency es +ℤ side_total credit (map leg es) ≡ side_total debit (map leg es)
unfolding imbalance side_total is_valid_direction
imbalance-totals id currency [] h k = +ℤ_zero (pos 0)
imbalance-totals id currency (e ∷ es) h k =
    let row : ((e.transaction_id == id) && str_eq e.amount.currency currency) ≡ true =
      ap (λ x. (x == id) && str_eq e.amount.currency currency) h.0
      ∙ ap (λ c. (id == id) && str_eq c currency) k.0.0
      ∙ ap (λ b. b && str_eq currency currency) (==_self id)
      ∙ (eq_iff currency currency).1 refl in
    ap
      (λ b.
        (if b then transaction_sign e +ℤ imbalance id currency es else imbalance id currency es)
        +ℤ side_total credit (map leg (e ∷ es)))
      row
    ∙ row_total e.direction e.amount.amount_minor (imbalance id currency es)
        (side_total credit (map leg es)) (side_total debit (map leg es)) k.0.2
        (imbalance-totals id currency es h.1 k.1)

all-passes :
    (journal rows : List JournalEntry) (inserted : JournalEntry)
    → ((id : Uuid) (currency : String) → imbalance id currency journal ≡ pos 0)
    → all
        (λ e.
          if e.transaction_id == inserted.transaction_id
          then eqb_ℤ (imbalance inserted.transaction_id e.amount.currency journal) (pos 0)
          else true)
        rows
      ≡ true
all-passes journal [] inserted h = refl
all-passes journal (e ∷ es) inserted h =
    grind (arith, all-passes journal es inserted h, h inserted.transaction_id e.amount.currency)

all-triggers :
    (journal rows : List JournalEntry)
    → ((id : Uuid) (currency : String) → imbalance id currency journal ≡ pos 0)
    → all (trigger_passes journal) rows ≡ true
all-triggers journal [] h = refl
all-triggers journal (e ∷ es) h =
    ap (λ b. b && all (trigger_passes journal) es) (all-passes journal journal e h)
    ∙ all-triggers journal es h

-- COMMIT accepts a journal in which every transaction balances.
pub commit_check-accepts :
    (begun db : Db)
    → ((id : Uuid) (currency : String) → imbalance id currency db.journal ≡ pos 0)
    → commit_check begun db ≡ true
unfolding commit_check
commit_check-accepts begun db h = all-triggers db.journal (drop (length begun.journal) db.journal) h

abbrev counted : Direction → Direction × Money → ℤ → ℤ
counted side p rest = if direction_eq p.0 side then p.1.amount_minor +ℤ rest else rest

-- Routing keeps what the totals and the validation read.
pub route_entries-side_total :
    (rand_int_n : Uuid → ℕ → ℕ) (shards : Uuid → List Uuid) (side : Direction)
    (es : List EntryRequest)
    → side_total side (route_entries rand_int_n shards es) ≡ side_total side es
unfolding side_total route_entries
route_entries-side_total rand_int_n shards side [] = refl
route_entries-side_total rand_int_n shards side (e ∷ es) =
    let k = route_entry-keeps (λ a. choose_shard rand_int_n a (shards a)) e in
    ap (λ p. counted side p (side_total side (route_entries rand_int_n shards es))) k
    ∙ ap (counted side (direction_and_amount e))
        (route_entries-side_total rand_int_n shards side es)

pub route_entries-IsPostable :
    (rand_int_n : Uuid → ℕ → ℕ) (shards : Uuid → List Uuid) (currency : String)
    (es : List EntryRequest)
    → All (IsPostable currency) es
    → All (IsPostable currency) (route_entries rand_int_n shards es)
unfolding route_entries
route_entries-IsPostable rand_int_n shards currency [] h = tt
route_entries-IsPostable rand_int_n shards currency (e ∷ es) h = (
  subst
      (λ (p : Direction × Money).
        (p.1.currency ≡ currency) × (pos 0 <ℤ p.1.amount_minor) × (is_valid_direction p.0 ≡ true))
      (sym (route_entry-keeps (λ a. choose_shard rand_int_n a (shards a)) e)) h.0,
  route_entries-IsPostable rand_int_n shards currency es h.1,
)

-- The legs that were routed, under the id of the posting, leave every group balanced.
pub posted_rows-balanced :
    (before entries : List JournalEntry) (owner : Uuid) (held : String)
    → ((id : Uuid) (currency : String) → imbalance id currency before ≡ pos 0)
    → All (λ e. e.transaction_id ≡ owner) entries
    → All (IsPostable held) (map leg entries)
    → side_total debit (map leg entries) ≡ side_total credit (map leg entries)
    → (id : Uuid) (currency : String) → imbalance id currency (before ++ entries) ≡ pos 0
posted_rows-balanced before entries owner held was owned postable balanced id currency =
    imbalance-append id currency before entries
    ∙ ap (λ x. x +ℤ imbalance id currency entries) (was id currency)
    ∙ zero_+ℤ (imbalance id currency entries)
    ∙ elim (Bool-cases ((owner == id) && str_eq held currency)) [
      | inl ours ↦
          let same : owner ≡ id = ground (arith, ==_iff owner id) in
          let money : held ≡ currency = (eq_iff held currency).0 (ground arith) in
          adds_nothing (imbalance id currency entries) (side_total credit (map leg entries)) (
            imbalance-totals id currency entries
              (subst (λ x. All (λ (e : JournalEntry). e.transaction_id ≡ x) entries) same owned)
              (subst (λ x. All (IsPostable x) (map leg entries)) money postable)
            ∙ balanced)
      | inr other ↦ imbalance-absent id owner currency held entries other owned postable
    ]
