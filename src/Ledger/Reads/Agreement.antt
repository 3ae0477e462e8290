-- ===== src/Ledger/Reads/Agreement.antt =====
-- Two readings of a balance agree: the stored one and the one summed up from the journal.
use ledger_core.Base.{
  ◌≡◌, refl, ℕ, String, ℤ, pos, ◌+ℤ◌, zero_+ℤ, +ℤ_assoc, int_laws, List, [], ◌∷◌, Bool, true, false,
  ◌||◌, some, ◌==◌, ==_iff, leb, if◌then◌else◌, All, arith, ==_comm, &&_true, sym, ap, subst, ◌∙◌,
}
use ledger_core.Errors.{Result, ok, err, or_error, account_not_found, >>=-eq-ok}
use ledger_core.Errors
use ledger_core.Ledger.Consistency.{IsConsistent}
use ledger_core.Ledger.Journal.{journal_balance, signed_for}
use ledger_core.Ledger.Money.{new_money}
use ledger_core.Ledger.Reads.{
  physical, balance_rows, sum_rows, sum_entries, get_balance, read_balance, sum_versions,
  get_balance_as_of, scan_int64,
}
use ledger_core.Ledger.Repository.{Balance}
use ledger_core.Ledger.Routing.{mem_id}
use ledger_core.Ledger.Routing.Order.{NoRepeat}
use ledger_core.Ledger.Types.{Uuid, Direction, JournalEntry}
use ledger_core.Postgres.{AccountRow, Db}

-- The account and its shards are all there, and have the same normal balance.
abbrev pub AreShards : Db → Direction → List Uuid → Type 0
AreShards db normal ids =
    All (λ id. (row : AccountRow) × (db.accounts id ≡ some row) × (row.normal_balance ≡ normal)) ids

-- The journal's balances of several accounts.
journal_balances : Direction → List JournalEntry → List Uuid → ℤ
journal_balances normal es [] = pos 0
journal_balances normal es (id ∷ ids) =
    journal_balance id normal es +ℤ journal_balances normal es ids

stored_balances :
    (db : Db) (normal : Direction) (ids : List Uuid)
    → IsConsistent db
    → AreShards db normal ids
    → sum_rows (λ r. r.available_minor) (balance_rows db ids)
      ≡ journal_balances normal db.journal ids
unfolding sum_rows balance_rows journal_balances
stored_balances db normal [] c s = refl
stored_balances db normal (id ∷ ids) c ((row, found, same), others) =
    rw (found, sum_rows, balance_rows)
      (rw (stored_balances db normal ids c others) (
        ap (λ x. x +ℤ journal_balances normal db.journal ids)
          (c.balances id row found ∙ ap (λ n. journal_balance id n db.journal) same)))

no_balances : (normal : Direction) (ids : List Uuid) → pos 0 ≡ journal_balances normal [] ids
unfolding journal_balances journal_balance
no_balances normal [] = refl
no_balances normal (id ∷ ids) =
    no_balances normal ids ∙ sym (zero_+ℤ (journal_balances normal [] ids))

-- An amount that is counted for an account or for the others, and never for both.
counted_once :
    (this others : Bool) (x b r : ℤ)
    → ((this ≡ true) → (others ≡ false))
    → (if this then x +ℤ b else b) +ℤ (if others then x +ℤ r else r)
      ≡ (if this || others then x +ℤ (b +ℤ r) else b +ℤ r)
counted_once true true x b r h = ground arith
counted_once true false x b r h = +ℤ_assoc x b r
counted_once false true x b r h = omega int_laws
counted_once false false x b r h = refl

-- One entry counts for one account of a list without repetition, if for any.
one_entry :
    (normal : Direction) (e : JournalEntry) (es : List JournalEntry) (ids : List Uuid)
    → NoRepeat ids
    → journal_balances normal (e ∷ es) ids ≡ (
        if mem_id e.account_id ids
        then signed_for normal e +ℤ journal_balances normal es ids
        else journal_balances normal es ids)
unfolding journal_balances journal_balance mem_id
one_entry normal e es [] n = refl
one_entry normal e es (id ∷ ids) (fresh, others) =
    rw (one_entry normal e es ids others, ==_comm e.account_id id)
      (counted_once (id == e.account_id) (mem_id e.account_id ids) (signed_for normal e)
        (journal_balance id normal es) (journal_balances normal es ids)
        (λ same. subst (λ x. mem_id x ids ≡ false) ((==_iff id e.account_id).0 same) fresh))

summed_balances :
    (normal : Direction) (ids : List Uuid) (at : ℕ) (es : List JournalEntry)
    → NoRepeat ids
    → All (λ (e : JournalEntry). leb e.created_at at ≡ true) es
    → sum_entries normal ids at es ≡ journal_balances normal es ids
unfolding sum_entries
summed_balances normal ids at [] n h = no_balances normal ids
summed_balances normal ids at (e ∷ es) n (now, before) = rw now (
    rw (summed_balances normal ids at es n before)
      (rw (&&_true (mem_id e.account_id ids)) (sym (one_entry normal e es ids n))))

available_of :
    (id : Uuid) (version : ℕ) (currency : String) (first second : Result ℤ) (b : Balance)
    → Errors.◌>>=◌ first (λ available_minor. Errors.◌>>=◌ second (λ pending_minor.
      Errors.◌>>=◌ (new_money available_minor currency) (λ available.
        Errors.◌>>=◌ (new_money pending_minor currency) (λ pending. ok (record {
          account_id = id;
          available = available;
          pending = pending;
          version = version;
        })))))
      ≡ ok b
    → Errors.◌>>=◌ first (λ minor. new_money minor currency) ≡ ok b.available
available_of id version currency (err x) second b q = cc
available_of id version currency (ok a) (err x) b q = cc
available_of id version currency (ok a) (ok p) b q =
    let (m, f, q1) = >>=-eq-ok (new_money a currency) _ q in
    let (n, g, q2) = >>=-eq-ok (new_money p currency) _ q1 in
    f ∙ ap (λ (r : Result Balance). elim r [ ok x ↦ ok x.available | err x ↦ err x ]) q2

stored_available :
    (db : Db) (id : Uuid) (account : AccountRow) (b : Balance)
    → db.accounts id ≡ some account
    → get_balance db id ≡ ok b
    → Errors.◌>>=◌
        (scan_int64 (sum_rows (λ r. r.available_minor) (balance_rows db (physical db id))))
        (λ minor. new_money minor account.currency)
      ≡ ok b.available
unfolding get_balance read_balance
stored_available db id account b found q =
    let rows = balance_rows db (physical db id) in
    available_of id (sum_versions rows) account.currency
      (scan_int64 (sum_rows (λ r. r.available_minor) rows))
      (scan_int64 (sum_rows (λ r. r.pending_minor) rows)) b
      (subst (λ o. Errors.◌>>=◌ (or_error o account_not_found) (read_balance db id) ≡ ok b) found q)

-- `GetBalance` and `GetBalanceAsOf` agree: on consistent books where an account's shards are other
-- accounts than itself and than one another, exist, and have its normal balance, the available
-- balance that `GetBalance` returns from the rows is the one that `GetBalanceAsOf` sums up from the
-- journal as of an instant that no entry is later than.
pub get_balance_agrees :
    (db : Db) (id : Uuid) (at : ℕ) (account : AccountRow) (b : Balance)
    → IsConsistent db
    → db.accounts id ≡ some account
    → NoRepeat (physical db id)
    → AreShards db account.normal_balance (physical db id)
    → All (λ (e : JournalEntry). leb e.created_at at ≡ true) db.journal
    → get_balance db id ≡ ok b
    → get_balance_as_of db id at ≡ ok b.available
unfolding get_balance_as_of get_balance
get_balance_agrees db id at account b c found n s h q = rw found (
    rw (summed_balances account.normal_balance (physical db id) at db.journal n h) (
      rw (sym (stored_balances db account.normal_balance (physical db id) c s)) (
        rw (zero_+ℤ (sum_rows (λ r. r.available_minor) (balance_rows db (physical db id))))
          (stored_available db id account b found q))))
