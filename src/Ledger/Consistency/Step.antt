-- ===== src/Ledger/Consistency/Step.antt =====
-- One committed transaction, posted or reversing, keeps the tables consistent.
use ledger_core.Base.{
  ◌≡◌, refl, List, [], ◌∷◌, ◌++◌, map, true, false, Option, none, some, ℤ, pos, ◌+ℤ◌, ◌≤ℤ◌, +ℤ_zero,
  arith, All, ◌∙◌, sym, ap, subst, IsInt64,
}
use mathlib.Core.List.{append-nil}
use ledger_core.Ledger.Types.{Uuid, JournalEntry, Transaction, is_valid_direction}
use ledger_core.Ledger.Request.{EntryRequest}
use ledger_core.Ledger.Routing.{mem_id}
use ledger_core.Ledger.Routing.Order.{account_ids}
use ledger_core.Ledger.Journal.{
  leg, leg_balance, journal_balance, journal_balance-append, journal_balance-leg, AreInt64Legs,
  AreInt64-of_legs, AreDirected, All-append,
}
use ledger_core.Ledger.Posting.Deltas.{AccountMoved, AccountMoved-trans, RowMoved}
use ledger_core.Ledger.Service.Writing.{Written, leg_delta, normal_of}
use ledger_core.Ledger.Consistency.{IsConsistent}
use ledger_core.Ledger.Consistency.Books.{SameBooks}
use ledger_core.Ledger.Consistency.Commit.{commit_check-balanced}
use ledger_core.Postgres.{AccountRow, Db, commit_check, imbalance}

-- A row after a movement had a row before it.
pub moved_from :
    (x : ℤ) (a : Option AccountRow) {row' : AccountRow}
    → AccountMoved x a (some row')
    → (row : AccountRow) × (a ≡ some row) × RowMoved x row row'
moved_from x none h = absurd h
moved_from x (some row) h = (row, refl, h)

pub moved_to :
    (x : ℤ) (row : AccountRow) (a : Option AccountRow)
    → AccountMoved x (some row) a
    → (row' : AccountRow) × (a ≡ some row') × RowMoved x row row'
moved_to x row none h = absurd h
moved_to x row (some row') h = (row', refl, h)

pub missing_from : (x : ℤ) (a : Option AccountRow) → AccountMoved x a none → a ≡ none
missing_from x none h = refl
missing_from x (some row) h = absurd h

mem_id-append :
    (id : Uuid) (xs ys : List JournalEntry)
    → mem_id id (account_ids (map leg xs)) ≡ false
    → mem_id id (account_ids (map leg ys)) ≡ false
    → mem_id id (account_ids (map leg (xs ++ ys))) ≡ false
unfolding mem_id
mem_id-append id [] ys h k = k
mem_id-append id (x ∷ xs) ys h k = ground (arith, mem_id-append id xs ys)

-- The movement of an account over a transaction that was written and what follows it.
pub moved_after :
    (header : Transaction) (requests : List EntryRequest) (db d db' : Db) {t : Transaction}
    → Written header requests db t d
    → SameBooks d db'
    → (id : Uuid) → AccountMoved (leg_delta db requests id) (db.accounts id) (db'.accounts id)
moved_after header requests db d db' w s id =
    subst (λ x. AccountMoved x (db.accounts id) (db'.accounts id))
      (+ℤ_zero (leg_delta db requests id))
      (AccountMoved-trans (leg_delta db requests id) (pos 0) (db.accounts id) (d.accounts id)
        (db'.accounts id) (w.moved id) (s.accounts id))

balances_after :
    (requests : List EntryRequest) (entries : List JournalEntry) (db db' : Db)
    → IsConsistent db
    → map leg entries ≡ requests
    → db'.journal ≡ db.journal ++ entries
    → ((id : Uuid) → AccountMoved (leg_delta db requests id) (db.accounts id) (db'.accounts id))
    → (id : Uuid) (row' : AccountRow) → db'.accounts id ≡ some row'
    → (row'.available_minor ≡ journal_balance id row'.normal_balance db'.journal)
      × (row'.allow_negative ≡ false → pos 0 ≤ℤ row'.available_minor)
      × (is_valid_direction row'.normal_balance ≡ true)
balances_after requests entries db db' c legs grown moved id row' e =
    let m = subst (AccountMoved (leg_delta db requests id) (db.accounts id)) e (moved id) in
    let (row, found, r) = moved_from (leg_delta db requests id) (db.accounts id) m in
    let n = row.normal_balance in
    let delta : leg_delta db requests id ≡ journal_balance id n entries =
      ap (λ a. leg_balance id (normal_of a) requests) found
      ∙ ap (leg_balance id n) (sym legs)
      ∙ sym (journal_balance-leg id n entries) in
    (
      r.available
          ∙ ap (λ x. x +ℤ leg_delta db requests id) (c.balances id row found)
          ∙ ap (λ x. journal_balance id n db.journal +ℤ x) delta
          ∙ sym (journal_balance-append id n db.journal entries)
          ∙ ap (journal_balance id n) (sym grown)
          ∙ ap (λ x. journal_balance id x db'.journal) (sym r.normal_balance),
      λ strict.
          r.covered (sym r.allow_negative ∙ strict)
            (c.covered id row found (sym r.allow_negative ∙ strict)),
      ap is_valid_direction r.normal_balance ∙ c.normals id row found,
    )

pub step-IsConsistent :
    (header : Transaction) (requests : List EntryRequest) (db d db' : Db) {t : Transaction}
    → IsConsistent db
    → AreInt64Legs requests
    → Written header requests db t d
    → SameBooks d db'
    → commit_check db db' ≡ true
    → IsConsistent db'
step-IsConsistent header requests db d db' {t} c typed w s passed =
    let grown : db'.journal ≡ db.journal ++ t.entries = s.journal ∙ w.journal in
    let moved = moved_after header requests db d db' w s in
    record {
      balances =
          λ id row e. (balances_after requests t.entries db db' c w.legs grown moved id row e).0;
      covered =
          λ id row e. (balances_after requests t.entries db db' c w.legs grown moved id row e).1;
      normals =
          λ id row e. (balances_after requests t.entries db db' c w.legs grown moved id row e).2;
      balanced = commit_check-balanced db db' header.id t.entries grown w.owned passed c.balanced;
      typed = subst (All (λ (e : JournalEntry). IsInt64 e.amount.amount_minor)) (sym grown) (
          All-append (λ (e : JournalEntry). IsInt64 e.amount.amount_minor) db.journal t.entries
            c.typed (AreInt64-of_legs t.entries (subst AreInt64Legs (sym w.legs) typed)));
      directed = subst AreDirected (sym grown) (
          All-append (λ (e : JournalEntry). is_valid_direction e.direction ≡ true) db.journal
            t.entries c.directed w.directed);
      present = λ id missing.
          let before =
            missing_from (leg_delta db requests id) (db.accounts id) (
              subst (AccountMoved (leg_delta db requests id) (db.accounts id)) missing
                (moved id)) in
          subst (λ es. mem_id id (account_ids (map leg es)) ≡ false) (sym grown)
            (mem_id-append id db.journal t.entries (c.present id before)
              (ap (λ rs. mem_id id (account_ids rs)) w.legs ∙ w.present id before));
    }

-- Statements that leave the books alone keep them consistent.
pub SameBooks-IsConsistent : (db db' : Db) → IsConsistent db → SameBooks db db' → IsConsistent db'
unfolding mem_id leg_balance
SameBooks-IsConsistent db db' c s =
    let grown : db'.journal ≡ db.journal ++ [] = s.journal ∙ sym (append-nil db.journal) in
    let after = balances_after [] [] db db' c refl grown s.accounts in
    record {
      balances = λ id row e. (after id row e).0;
      covered = λ id row e. (after id row e).1;
      normals = λ id row e. (after id row e).2;
      balanced = λ tx currency. ap (imbalance tx currency) s.journal ∙ c.balanced tx currency;
      typed =
          subst (All (λ (e : JournalEntry). IsInt64 e.amount.amount_minor)) (sym s.journal) c.typed;
      directed = subst AreDirected (sym s.journal) c.directed;
      present = λ id missing.
          ap (λ es. mem_id id (account_ids (map leg es))) s.journal
          ∙ c.present id (
              missing_from (pos 0) (db.accounts id)
                (subst (AccountMoved (pos 0) (db.accounts id)) missing (s.accounts id)));
    }
