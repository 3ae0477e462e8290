-- ===== src/Ledger/Service/Reverses.antt =====
-- `doReverse`: what a reversal does to the tables, and what a failed one does not.
use ledger_core.Base.{
  ◌≡◌, refl, String, List, Option, some, map, ◌==◌, false, true, arith, inl, inr, Option-cases, sym,
  subst, ap, ◌∙◌, str_eq, Bool-cases, ℤ, neg_ℤ, ◌-ℤ◌, ◌+ℤ◌, int_laws, ==_self, ==_iff,
  if◌then◌else◌,
}
use mathlib.Core.Option.{some-injective}
use ledger_core.Errors.{Error, ok, err, Result-cases, already_reversed}
use ledger_core.Ledger.Types.{
  Uuid, Transaction, JournalEntry, TransactionStatus, pending, posted, reversed,
  other_transaction_status, is_valid_direction,
}
use ledger_core.Ledger.Request.{EntryRequest, Recorder, Idempotent, mirror}
use ledger_core.Ledger.Journal.{leg_balance}
use ledger_core.Ledger.Posting.{Draws}
use ledger_core.Ledger.Posting.Deltas.{AccountMoved}
use ledger_core.Ledger.Repository.{entries_of, load_transaction_for_update, stamped}
use ledger_core.Ledger.Repository.Loading.{
  load_transaction_ok, entries_of-other, transaction_balance, journal_balance-entries_of,
  entries_of-All, load_transaction_lem, mirror-AreInt64Legs, leg_balance-mirror,
}
use ledger_core.Ledger.Service.{
  write_transaction, check_reversible, reversing, reversal_header, reverse,
}
use ledger_core.Ledger.Service.Steps.{ReversingSteps, reversing-ReversingSteps}
use ledger_core.Ledger.Service.Posts.{RecorderKeeps, Finished-Untouched}
use ledger_core.Ledger.Service.Writing.{Written, write_transaction-Written, leg_delta, normal_of}
use ledger_core.Ledger.Consistency.{IsConsistent}
use ledger_core.Ledger.Consistency.Books.{SameBooks, SameBooks-trans, mark_reversed_lem}
use ledger_core.Ledger.Consistency.Step.{moved_to, moved_after, step-IsConsistent}
use ledger_core.Postgres.{AccountRow, Db, commit_check, run_tx}
use ledger_core.Postgres.Runs.{run_tx-err, run_tx-ok}

-- The legs of a reversal of what the journal holds.
abbrev pub mirrored : Uuid → Db → List EntryRequest
mirrored original db = map mirror (entries_of original db.journal)

check_reversible-posted : (s : TransactionStatus) → check_reversible s ≡ ok tt → s ≡ posted
check_reversible-posted pending h = cc
check_reversible-posted posted h = refl
check_reversible-posted reversed h = cc
check_reversible-posted (other_transaction_status x) h = cc

-ℤ_neg : (a b : ℤ) → a -ℤ b ≡ a +ℤ neg_ℤ b
-ℤ_neg a b = omega int_laws

module _ (show : Uuid → String) (draws : Draws) (original : Uuid) (reason : String)
    (idem : Option Idempotent) (recorder : Option Recorder) (db : Db) where
  -- A reversal that returned a transaction.
  pub record Reversed (t : Transaction) (db' : Db) : Type 0 where
    pub id : Uuid
    pub steps : ReversingSteps show draws id original reason idem recorder db t db'
    pub committed : commit_check db db' ≡ true

  pub reverse-Reversed :
      {t : Transaction} {db' : Db}
      → reverse show draws original reason idem recorder db ≡ (ok t, db')
      → Reversed t db'
  unfolding reverse
  reverse-Reversed {t} {db'} h = elim (Bool-cases (str_eq reason "")) [
    | inl e ↦ absurd (ground arith)
    | inr e ↦ elim (Option-cases draws.transaction_id) [
      | inl none_drawn ↦ absurd (ground arith)
      | inr (id, drawn) ↦
          let (ran, committed) =
            run_tx-ok (reversing show draws id original reason idem recorder) db t {db' = db'}
              (ground arith) in
          record {
            id = id;
            steps = reversing-ReversingSteps show draws id original reason idem recorder db ran;
            committed = committed;
          }
    ]
  ]

  -- A reversal that reports an error has rolled back.
  pub reverse-err :
      (x : Error)
      → (reverse show draws original reason idem recorder db).0 ≡ err x
      → (reverse show draws original reason idem recorder db).1 ≡ db
  unfolding reverse
  reverse-err x h = elim (Bool-cases (str_eq reason "")) [
    | inl e ↦ ground arith
    | inr e ↦ elim (Option-cases draws.transaction_id) [
      | inl none_drawn ↦ ground arith
      | inr (id, drawn) ↦
          ground (arith, run_tx-err (reversing show draws id original reason idem recorder) db x)
    ]
  ]

  loaded_entries :
      {t : Transaction} {db' : Db}
      → (p : Reversed t db') → p.steps.loaded.entries ≡ entries_of original db.journal
  loaded_entries p =
      let (header, found, same) = load_transaction_lem original db p.steps.loading in
      ap (λ (x : Transaction). x.entries) same

  pub Reversed-Written :
      {t : Transaction} {db' : Db}
      → IsConsistent db
      → (p : Reversed t db')
      → Written
          (reversal_header show p.id original reason idem)
          (mirrored original db)
          db
          t
          p.steps.written
  Reversed-Written {t} {db'} c p =
      let typed =
        mirror-AreInt64Legs (entries_of original db.journal)
          (entries_of-All _ original db.journal c.typed) in
      write_transaction-Written draws (reversal_header show p.id original reason idem)
        (mirrored original db) db typed
        (subst
          (λ (es : List JournalEntry).
            write_transaction draws (reversal_header show p.id original reason idem) (map mirror es)
              db
            ≡ ok ((t, p.steps.balances), p.steps.written))
          (loaded_entries p) p.steps.writing)

  Reversed-SameBooks :
      {t : Transaction} {db' : Db}
      → RecorderKeeps recorder
      → (p : Reversed t db') → SameBooks p.steps.written db'
  Reversed-SameBooks {t} {db'} k p =
      let (_, _, _, marked) =
        mark_reversed_lem original p.steps.written p.steps.marked p.steps.marking in
      SameBooks-trans p.steps.written p.steps.marked db' marked
        (Finished-Untouched p.steps.marked db' k p.steps.finished).books

  -- Reversing keeps the tables consistent, whether it returns a transaction or an error, with a
  -- recorder that leaves them alone.
  pub reverse-IsConsistent :
      RecorderKeeps recorder
      → IsConsistent db
      → IsConsistent (reverse show draws original reason idem recorder db).1
  reverse-IsConsistent k c =
      elim (Result-cases (reverse show draws original reason idem recorder db).0) [
        | inl (x, e) ↦ subst IsConsistent (sym (reverse-err x e)) c
        | inr (t, e) ↦
            let d = (reverse show draws original reason idem recorder db).1 in
            let p = reverse-Reversed (ap (λ r. (r, d)) e) in
            step-IsConsistent (reversal_header show p.id original reason idem)
              (mirrored original db) db p.steps.written d c
              (mirror-AreInt64Legs (entries_of original db.journal)
                (entries_of-All _ original db.journal c.typed))
              (Reversed-Written c p) (Reversed-SameBooks k p) p.committed
      ]

  -- What the reversal leaves of the original's header.
  record Marked (db' : Db) : Type 0 where
    header : Transaction
    was_posted : header.status ≡ posted
    before : db.transactions original ≡ some header
    after : db'.transactions original ≡ some (record header { status = reversed })

  -- The reversal has an id of its own.
  original_other :
      {t : Transaction} {db' : Db} (c : IsConsistent db) (p : Reversed t db') (header : Transaction)
      → db.transactions original ≡ some header
      → (p.id == original) ≡ false
  original_other c p header found = elim (Bool-cases (p.id == original)) [
    | inr other ↦ other
    | inl same ↦
        let new = (Reversed-Written c p).header_new in
        absurd (ground (arith, new, ap db.transactions ((==_iff p.id original).0 same)))
  ]

  original_kept :
      {t : Transaction} {db' : Db} (c : IsConsistent db) (p : Reversed t db') (header : Transaction)
      → db.transactions original ≡ some header
      → p.steps.written.transactions original ≡ some header
  original_kept c p header found =
      ap (λ (f : Uuid → Option Transaction). f original) (Reversed-Written c p).transactions
      ∙ ap
          (λ b.
            if b
            then some (stamped db.now (reversal_header show p.id original reason idem))
            else db.transactions original)
          (original_other c p header found)
      ∙ found

  Reversed-Marked :
      {t : Transaction} {db' : Db}
      → IsConsistent db
      → RecorderKeeps recorder
      → Reversed t db'
      → Marked db'
  Reversed-Marked {t} {db'} c k p =
      let (header, found, same) = load_transaction_lem original db p.steps.loading in
      let w = Reversed-Written c p in
      let (t', found', marked, _) =
        mark_reversed_lem original p.steps.written p.steps.marked p.steps.marking in
      let ended = (Finished-Untouched p.steps.marked db' k p.steps.finished).transactions in
      record {
        header = header;
        was_posted =
            check_reversible-posted header.status
              (ap (λ (x : Transaction). check_reversible x.status) (sym same) ∙ p.steps.reversible);
        before = found;
        after =
            ap (λ (f : Uuid → Option Transaction). f original) (ended ∙ marked)
            ∙ ap
                (λ b.
                  if b
                  then some (record t' { status = reversed })
                  else p.steps.written.transactions original)
                (==_self original)
            ∙ ap (λ (x : Transaction). some (record x { status = reversed }))
                (some-injective t' header (sym found' ∙ original_kept c p header found));
      }

  Reversed-moves :
      {t : Transaction} {db' : Db}
      → IsConsistent db
      → RecorderKeeps recorder
      → Reversed t db'
      → (id : Uuid) (row : AccountRow) → db.accounts id ≡ some row
      → AccountMoved
          (neg_ℤ (transaction_balance original id row.normal_balance db.journal))
          (some row)
          (db'.accounts id)
  Reversed-moves {t} {db'} c k p id row found =
      let m =
        moved_after (reversal_header show p.id original reason idem) (mirrored original db) db
          p.steps.written db' (Reversed-Written c p) (Reversed-SameBooks k p) id in
      let n = row.normal_balance in
      let delta : leg_delta db (mirrored original db) id
          ≡ neg_ℤ (transaction_balance original id n db.journal) =
        ap (λ a. leg_balance id (normal_of a) (mirrored original db)) found
        ∙ leg_balance-mirror id n (entries_of original db.journal) (c.normals id row found) (
            entries_of-All (λ (e : JournalEntry). is_valid_direction e.direction ≡ true) original
              db.journal c.directed)
        ∙ ap neg_ℤ (journal_balance-entries_of original id n db.journal) in
      subst (λ (x : ℤ). AccountMoved x (some row) (db'.accounts id)) delta
        (subst
          (λ (a : Option AccountRow).
            AccountMoved (leg_delta db (mirrored original db) id) a (db'.accounts id))
          found m)

  -- A reversal that returns a transaction takes back, from every account, exactly the signed sum of
  -- the original's journal entries, and marks the original, which was POSTED, as REVERSED, in
  -- consistent tables and with a recorder that leaves them alone.
  pub reverse_undoes :
      {t : Transaction} {db' : Db}
      → IsConsistent db
      → RecorderKeeps recorder
      → reverse show draws original reason idem recorder db ≡ (ok t, db')
      → ((id : Uuid) (row : AccountRow)
          → db.accounts id ≡ some row
          → (row' : AccountRow) × (db'.accounts id ≡ some row')
            × (row'.available_minor
                ≡ row.available_minor
                  -ℤ transaction_balance original id row.normal_balance db.journal))
        × ((header : Transaction) × (db.transactions original ≡ some header)
            × (header.status ≡ posted)
            × (db'.transactions original ≡ some (record header { status = reversed })))
  reverse_undoes {t} {db'} c k h =
      let p = reverse-Reversed h in
      let m = Reversed-Marked c k p in
      (
        λ id row found.
            let b = transaction_balance original id row.normal_balance db.journal in
            let (row', e, r) =
              moved_to (neg_ℤ b) row (db'.accounts id) (Reversed-moves c k p id row found) in
            (row', e, r.available ∙ sym (-ℤ_neg row.available_minor b)),
        (m.header, m.before, m.was_posted, m.after),
      )

  -- The original loads again, now as reversed, whatever was appended under another id.
  reloads :
      {t : Transaction} {db' : Db}
      → IsConsistent db
      → RecorderKeeps recorder
      → (p : Reversed t db')
      → (again : Transaction) × (again.status ≡ reversed)
        × (load_transaction_for_update original db' ≡ ok (again, db'))
  reloads {t} {db'} c k p =
      let m = Reversed-Marked c k p in
      let w = Reversed-Written c p in
      let header = record m.header { status = reversed } in
      (
        record header { principal_id = ""; entries = entries_of original db.journal },
        refl,
        load_transaction_ok original db db' header p.steps.loading m.after (
            ap (entries_of original) ((Reversed-SameBooks k p).journal ∙ w.journal)
            ∙ entries_of-other original p.id db.journal t.entries
                (original_other c p m.header m.before) w.owned),
      )

reversing-reversed :
    (show : Uuid → String) (draws : Draws) (id original : Uuid) (reason : String)
    (idem : Option Idempotent) (recorder : Option Recorder) (db : Db) (t : Transaction)
    → load_transaction_for_update original db ≡ ok (t, db)
    → t.status ≡ reversed
    → reversing show draws id original reason idem recorder db ≡ err already_reversed
unfolding reversing
reversing-reversed show draws id original reason idem recorder db t h e = ground arith

-- In consistent tables, after a reversal that succeeded with a recorder that leaves them alone,
-- another call for the same original, whatever its key, recorder and random draws, reports
-- already_reversed and changes nothing, where it gives a reason and draws an id.
pub reverse_once :
    (show : Uuid → String) (draws : Draws) (original : Uuid) (reason : String)
    (idem : Option Idempotent) (recorder : Option Recorder) (db : Db) {t : Transaction} {db' : Db}
    (draws' : Draws) (reason' : String) (idem' : Option Idempotent) (recorder' : Option Recorder)
    (id' : Uuid)
    → IsConsistent db
    → RecorderKeeps recorder
    → reverse show draws original reason idem recorder db ≡ (ok t, db')
    → draws'.transaction_id ≡ some id'
    → str_eq reason' "" ≡ false
    → reverse show draws' original reason' idem' recorder' db' ≡ (err already_reversed, db')
unfolding reverse run_tx
reverse_once show draws original reason idem recorder db {t} {db'} draws' reason' idem' recorder'
      id' c k h drawn given =
    let p = reverse-Reversed show draws original reason idem recorder db h in
    let (again, status, loads) = reloads show draws original reason idem recorder db c k p in
    let stops =
      reversing-reversed show draws' id' original reason' idem' recorder' db' again loads status in
    ground arith
