-- ===== src/Ledger/Service/Steps.antt =====
-- The steps of the functions that `postTransaction` and `doReverse` run inside a transaction.
use ledger_core.Base.{
  ◌≡◌, String, List, [], true, Option, none, some, map, if◌then◌else◌, arith, Bool-cases,
  Option-cases, inl, inr, ◌∙◌, sym, subst, ap,
}
use ledger_core.Errors.{ok, Result-cases}
use ledger_core.Ledger.Types.{Uuid, Transaction}
use ledger_core.Ledger.Request.{EntryRequest, Recorder, Idempotent, TransactionRequest, mirror}
use ledger_core.Ledger.Routing.{mem_id, sorted_account_ids, route_entries}
use ledger_core.Ledger.Repository.{
  resolve_shards, active_shards, scan_entries, entries_of, load_transaction_for_update,
  mark_reversed,
}
use ledger_core.Ledger.Posting.{Draws, route_to_shards}
use ledger_core.Ledger.Events.{append_transaction_event, complete_idempotency}
use ledger_core.Ledger.Service.{
  run_recorder, check_reversible, has_entries, posting_header, write_transaction, posting,
  reversal_header, reversing,
}
use ledger_core.Outbox.{EventBalance, EventType, transaction_posted, transaction_reversed}
use ledger_core.Postgres.{Db, Tx, ◌>>◌, pure}

-- What ends both kinds of transaction: events, the caller's record, the stored response.
pub record Finished (draws : Draws) (event_type : EventType) (reverses : Option Uuid)
    (reason : String) (recorder : Option Recorder) (idem : Option Idempotent) (t : Transaction)
    (balances : List EventBalance) (db db' : Db) : Type 0 where
  pub announced : Db
  pub event :
      append_transaction_event draws.event_id event_type t balances reverses reason db
      ≡ ok (tt, announced)
  pub recorded : Db
  pub recording : run_recorder recorder t announced ≡ ok (tt, recorded)
  pub completion : complete_idempotency idem t recorded ≡ ok (tt, db')

-- The end of both functions, as they write it.
abbrev finish :
    Draws
    → EventType
    → Option Uuid
    → String
    → Option Recorder
    → Option Idempotent
    → Transaction
    → List EventBalance
    → Tx Transaction
finish draws event_type reverses reason recorder idem t balances = do
  append_transaction_event draws.event_id event_type t balances reverses reason
  run_recorder recorder t
  complete_idempotency idem t
  pure t

finish-Finished :
    (draws : Draws) (event_type : EventType) (reverses : Option Uuid) (reason : String)
    (recorder : Option Recorder) (idem : Option Idempotent) (t : Transaction)
    (balances : List EventBalance) (db : Db) {t' : Transaction} {db' : Db}
    → finish draws event_type reverses reason recorder idem t balances db ≡ ok (t', db')
    → Finished draws event_type reverses reason recorder idem t balances db db' × (t ≡ t')
finish-Finished draws event_type reverses reason recorder idem t balances db {t'} {db'} h =
    elim (Result-cases
      (append_transaction_event draws.event_id event_type t balances reverses reason db)) [
        | inl (x, e) ↦ absurd (ground arith)
        | inr ((_, d1), e1) ↦ elim (Result-cases (run_recorder recorder t d1)) [
          | inl (x, e) ↦ absurd (ground arith)
          | inr ((_, d2), e2) ↦ elim (Result-cases (complete_idempotency idem t d2)) [
            | inl (x, e) ↦ absurd (ground arith)
            | inr ((_, d3), e3) ↦ (
              record {
                announced = d1;
                event = e1;
                recorded = d2;
                recording = e2;
                completion = ground arith;
              },
              ground arith,
            )
          ]
        ]
      ]

-- The entries after routing: a read of the tables, which cannot fail.
abbrev pub routed_entries : Draws → Db → List EntryRequest → List EntryRequest
routed_entries draws db entries =
    route_entries draws.rand_int_n
      (λ id. if mem_id id (sorted_account_ids entries) then active_shards db (db.shards id) else [])
      entries

pub record PostingSteps (draws : Draws) (tx_id : Uuid) (req : TransactionRequest) (db : Db)
    (t : Transaction) (db' : Db) : Type 0 where
  pub balances : List EventBalance
  pub written : Db
  pub writing :
      write_transaction draws (posting_header tx_id req) (routed_entries draws db req.entries) db
      ≡ ok ((t, balances), written)
  pub finished :
      Finished draws transaction_posted none "" req.recorder req.idempotency t balances written db'

pub posting-PostingSteps :
    (draws : Draws) (tx_id : Uuid) (req : TransactionRequest) (db : Db) {t : Transaction} {db' : Db}
    → posting draws tx_id req db ≡ ok (t, db')
    → PostingSteps draws tx_id req db t db'
unfolding posting route_to_shards resolve_shards
posting-PostingSteps draws tx_id req db {t} {db'} h =
    elim (Result-cases (
      write_transaction draws (posting_header tx_id req) (routed_entries draws db req.entries)
        db)) [
          | inl (x, e) ↦ absurd (ground arith)
          | inr (((t', balances), d), e) ↦
              let (f, p) =
                finish-Finished draws transaction_posted none "" req.recorder req.idempotency t'
                  balances d {t' = t} {db' = db'} (ground arith) in
              record {
                balances = balances;
                written = d;
                writing = rw (sym p) e;
                finished =
                    subst
                      (λ (x : Transaction).
                        Finished draws transaction_posted none "" req.recorder req.idempotency x
                          balances d db')
                      p f;
              }
        ]

pub record ReversingSteps (show : Uuid → String) (draws : Draws) (id original : Uuid)
    (reason : String) (idem : Option Idempotent) (recorder : Option Recorder) (db : Db)
    (t : Transaction) (db' : Db) : Type 0 where
  pub loaded : Transaction
  pub loading : load_transaction_for_update original db ≡ ok (loaded, db)
  pub reversible : check_reversible loaded.status ≡ ok tt
  pub balances : List EventBalance
  pub written : Db
  pub writing :
      write_transaction draws
        (reversal_header show id original reason idem)
        (map mirror loaded.entries)
        db
      ≡ ok ((t, balances), written)
  pub marked : Db
  pub marking : mark_reversed original written ≡ ok (tt, marked)
  pub finished :
      Finished draws transaction_reversed (some original) reason recorder idem t balances marked db'

load_keeps :
    (id : Uuid) (db : Db) {t : Transaction} {d : Db}
    → load_transaction_for_update id db ≡ ok (t, d)
    → d ≡ db
unfolding load_transaction_for_update
load_keeps id db h = elim (Option-cases (db.transactions id)) [
  | inl e ↦ absurd (ground arith)
  | inr (x, e) ↦ elim (Result-cases (scan_entries (entries_of id db.journal))) [
    | inl (y, q) ↦ absurd (ground arith)
    | inr (es, q) ↦ ground arith
  ]
]

pub reversing-ReversingSteps :
    (show : Uuid → String) (draws : Draws) (id original : Uuid) (reason : String)
    (idem : Option Idempotent) (recorder : Option Recorder) (db : Db) {t : Transaction} {db' : Db}
    → reversing show draws id original reason idem recorder db ≡ ok (t, db')
    → ReversingSteps show draws id original reason idem recorder db t db'
unfolding reversing
reversing-ReversingSteps show draws id original reason idem recorder db {t} {db'} h =
    elim (Result-cases (load_transaction_for_update original db)) [
      | inl (x, e) ↦ absurd (ground arith)
      | inr ((loaded, d0), e0) ↦
          let same = load_keeps original db e0 in
          let e1 : load_transaction_for_update original db ≡ ok (loaded, db) =
            e0 ∙ ap (λ x. ok (loaded, x)) same in
          elim (Result-cases (check_reversible loaded.status)) [
            | inl (x, e2) ↦ absurd (ground arith)
            | inr (_, e2) ↦ elim (Bool-cases (has_entries loaded.entries)) [
              | inr e3 ↦ absurd (ground arith)
              | inl e3 ↦ written loaded e1 e2 e3
            ]
          ]
    ]
  where
    written :
        (loaded : Transaction)
        → load_transaction_for_update original db ≡ ok (loaded, db)
        → check_reversible loaded.status ≡ ok tt
        → has_entries loaded.entries ≡ true
        → ReversingSteps show draws id original reason idem recorder db t db'
    written loaded e1 e2 e3 =
        let header = reversal_header show id original reason idem in
        elim (Result-cases (write_transaction draws header (map mirror loaded.entries) db)) [
          | inl (x, e) ↦ absurd (ground arith)
          | inr (((t', balances), d), e4) ↦ elim (Result-cases (mark_reversed original d)) [
            | inl (x, e) ↦ absurd (ground arith)
            | inr ((_, d'), e5) ↦
                let (f, p) =
                  finish-Finished draws transaction_reversed (some original) reason recorder idem t'
                    balances d' {t' = t} {db' = db'} (ground arith) in
                record {
                  loaded = loaded;
                  loading = e1;
                  reversible = e2;
                  balances = balances;
                  written = d;
                  writing = rw (sym p) e4;
                  marked = d';
                  marking = e5;
                  finished =
                      subst
                        (λ (x : Transaction).
                          Finished draws transaction_reversed (some original) reason recorder idem x
                            balances d' db')
                        p f;
                }
          ]
        ]
