-- ===== src/Ledger/Service/Accepts.antt =====
-- `postTransaction` and COMMIT: the validation in Go and the deferred trigger in SQL agree.
use ledger_core.Base.{◌≡◌, true, some, List, arith, All, ◌∙◌, sym, ap, subst}
use ledger_core.Errors.{ok}
use ledger_core.Ledger.Types.{Uuid, Transaction, debit, credit}
use ledger_core.Ledger.Request.{EntryRequest, TransactionRequest, validate, first_currency}
use ledger_core.Ledger.Request.Totals.{side_total, IsPostable, validate-IsValidRequest}
use ledger_core.Ledger.Routing.Shards.{route_entries-AreInt64Legs}
use ledger_core.Ledger.Journal.{AreInt64Legs}
use ledger_core.Ledger.Posting.{Draws}
use ledger_core.Ledger.Service.{posting, posting_header, post_transaction}
use ledger_core.Ledger.Service.Steps.{posting-PostingSteps, routed_entries}
use ledger_core.Ledger.Service.Posts.{RecorderKeeps, Finished-Untouched}
use ledger_core.Ledger.Service.Writing.{write_transaction-Written}
use ledger_core.Ledger.Consistency.{IsConsistent}
use ledger_core.Ledger.Consistency.Accepted.{
  commit_check-accepts, posted_rows-balanced, route_entries-side_total, route_entries-IsPostable,
}
use ledger_core.Postgres.{Db, imbalance, commit_check, run_tx}

posting-commit_check :
    (draws : Draws) (tx_id : Uuid) (req : TransactionRequest) (db : Db) {t : Transaction} {db' : Db}
    → IsConsistent db
    → AreInt64Legs req.entries
    → RecorderKeeps req.recorder
    → validate req ≡ ok tt
    → posting draws tx_id req db ≡ ok (t, db')
    → commit_check db db' ≡ true
posting-commit_check draws tx_id req db {t} {db'} c typed k valid h =
    let v = validate-IsValidRequest req typed valid in
    let s = posting-PostingSteps draws tx_id req db h in
    let routed = routed_entries draws db req.entries in
    let w =
      write_transaction-Written draws (posting_header tx_id req) routed db
        (route_entries-AreInt64Legs draws.rand_int_n _ req.entries typed) s.writing in
    let b = (Finished-Untouched s.written db' k s.finished).books in
    let totals : side_total debit routed ≡ side_total credit routed =
      route_entries-side_total draws.rand_int_n _ debit req.entries
      ∙ v.balanced
      ∙ sym (route_entries-side_total draws.rand_int_n _ credit req.entries) in
    let postable : All (IsPostable (first_currency req.entries)) routed =
      route_entries-IsPostable draws.rand_int_n _ (first_currency req.entries) req.entries
        v.postable in
    commit_check-accepts db db' (λ id currency.
      ap (imbalance id currency) (b.journal ∙ w.journal)
      ∙ posted_rows-balanced db.journal t.entries tx_id (first_currency req.entries) c.balanced
          w.owned (subst (All (IsPostable (first_currency req.entries))) (sym w.legs) postable)
          (subst (λ (es : List EntryRequest). side_total debit es ≡ side_total credit es)
            (sym w.legs) totals)
          id currency)

-- The validation in Go and the deferred trigger in SQL agree: in consistent tables, for a request
-- with int64 amounts that validate accepts and a recorder that leaves the tables alone, a posting
-- whose statements succeed under the drawn id is committed as it is; the trigger never refuses it.
pub post_transaction_commits :
    (draws : Draws) (tx_id : Uuid) (req : TransactionRequest) (db : Db) {t : Transaction} {db' : Db}
    → IsConsistent db
    → AreInt64Legs req.entries
    → RecorderKeeps req.recorder
    → validate req ≡ ok tt
    → draws.transaction_id ≡ some tx_id
    → posting draws tx_id req db ≡ ok (t, db')
    → post_transaction draws req db ≡ (ok t, db')
unfolding post_transaction run_tx
post_transaction_commits draws tx_id req db c typed k valid drawn h =
    let passed = posting-commit_check draws tx_id req db c typed k valid h in ground arith
