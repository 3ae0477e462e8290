-- ===== src/Ledger/Consistency/Commit.antt =====
-- What the deferred trigger of a committed transaction says of the journal.
use ledger_core.Base.{
  ◌≡◌, refl, String, List, [], ◌∷◌, ◌++◌, Bool, true, false, ◌==◌, if◌then◌else◌, ◌&&◌, all, All,
  drop, length, drop-append, ℤ, pos, eqb_ℤ, arith, str_eq, eq_iff, Bool-cases, inl, inr, ◌⊎◌,
  ==_iff, ◌∙◌, ap, subst,
}
use mathlib.Core.List.{append-nil}
use ledger_core.Ledger.Types.{Uuid, JournalEntry}
use ledger_core.Postgres.{Db, imbalance, trigger_passes, commit_check}

eqb_ℤ-eq : (a b : ℤ) → eqb_ℤ a b ≡ true → a ≡ b
eqb_ℤ-eq a b h = ground arith

&&-left : (a b : Bool) → (a && b) ≡ true → a ≡ true
&&-left true b h = refl
&&-left false b h = h

-- A group that is not empty was looked at by the trigger.
imbalance-looked :
    (id : Uuid) (currency : String) (journal xs : List JournalEntry)
    → all
        (λ e.
          if e.transaction_id == id
          then eqb_ℤ (imbalance id e.amount.currency journal) (pos 0)
          else true)
        xs
      ≡ true
    → (imbalance id currency xs ≡ pos 0) ⊎ (imbalance id currency journal ≡ pos 0)
unfolding imbalance
imbalance-looked id currency journal [] h = inl refl
imbalance-looked id currency journal (e ∷ es) h =
    elim (Bool-cases ((e.transaction_id == id) && str_eq e.amount.currency currency)) [
      | inl same ↦ inr (
          let c : e.amount.currency ≡ currency =
            (eq_iff e.amount.currency currency).0 (ground arith) in
          let first : eqb_ℤ (imbalance id e.amount.currency journal) (pos 0) ≡ true =
            ground arith in
          subst (λ x. imbalance id x journal ≡ pos 0) c (eqb_ℤ-eq _ _ first))
      | inr other ↦ rw other (imbalance-looked id currency journal es (ground arith))
    ]

-- After a trigger run for one row of a transaction, all its groups are balanced.
imbalance-passed :
    (inserted : JournalEntry) (currency : String) (journal : List JournalEntry)
    → trigger_passes journal inserted ≡ true
    → imbalance inserted.transaction_id currency journal ≡ pos 0
imbalance-passed inserted currency journal h =
    elim (imbalance-looked inserted.transaction_id currency journal journal h) [
      | inl empty ↦ empty
      | inr looked ↦ looked
    ]

-- Rows of another transaction do not count.
imbalance-other :
    (id owner : Uuid) (currency : String) (xs ys : List JournalEntry)
    → (owner == id) ≡ false
    → All (λ e. e.transaction_id ≡ owner) ys
    → imbalance id currency (xs ++ ys) ≡ imbalance id currency xs
unfolding imbalance
imbalance-other id owner currency [] [] other h = refl
imbalance-other id owner currency [] (y ∷ ys) other h =
    ground (arith, imbalance-other id owner currency [] ys other h.1)
imbalance-other id owner currency (x ∷ xs) ys other h =
    ground (arith, imbalance-other id owner currency xs ys other h)

-- A committed transaction that added rows under one id leaves every group balanced.
pub commit_check-balanced :
    (begun db : Db) (id : Uuid) (entries : List JournalEntry)
    → db.journal ≡ begun.journal ++ entries
    → All (λ e. e.transaction_id ≡ id) entries
    → commit_check begun db ≡ true
    → ((tx_id : Uuid) (currency : String) → imbalance tx_id currency begun.journal ≡ pos 0)
    → (tx_id : Uuid) (currency : String) → imbalance tx_id currency db.journal ≡ pos 0
unfolding commit_check
commit_check-balanced begun db id [] grown owned passed before tx_id currency =
    ap (imbalance tx_id currency) (grown ∙ append-nil begun.journal) ∙ before tx_id currency
commit_check-balanced begun db id (e ∷ es) grown owned passed before tx_id currency =
    elim (Bool-cases (id == tx_id)) [
      | inl same ↦
          let checked : all (trigger_passes db.journal) (e ∷ es) ≡ true =
            subst (λ rows. all (trigger_passes db.journal) rows ≡ true)
              (ap (drop (length begun.journal)) grown ∙ drop-append begun.journal (e ∷ es))
              passed in
          let first : trigger_passes db.journal e ≡ true = &&-left _ _ checked in
          subst (λ x. imbalance x currency db.journal ≡ pos 0) (owned.0 ∙ (==_iff id tx_id).0 same)
            (imbalance-passed e currency db.journal first)
      | inr other ↦
          ap (imbalance tx_id currency) grown
          ∙ imbalance-other tx_id id currency begun.journal (e ∷ es) other owned
          ∙ before tx_id currency
    ]
