-- ===== src/Ledger/Service.antt =====
-- internal/ledger/service.go: posting, reversing and opening accounts, each in one database
-- transaction. The metrics that `observeTransaction` counts and the retrier round `InTx` are not
-- modelled here; the random draws of a call are an argument.
pub mod Writing
pub mod Steps
pub mod Posts
pub mod Accepts
pub mod Opens
pub mod Reverses
use ledger_core.Base.{
  String, List, [], ◌∷◌, Bool, true, false, not, ◌||◌, Option, none, some, str_eq, if◌then◌else◌,
  map, pos, update,
}
use ledger_core.Errors.{
  Result, ok, err, require, random_failed, reversal_reason_required, already_reversed,
  transaction_not_posted, too_few_entries, database_failed,
}
use ledger_core.Ledger.Types.{
  Uuid, Transaction, TransactionStatus, posted, reversed, reversal, normal_balance, active,
}
use ledger_core.Ledger.Request.{
  EntryRequest, Recorder, Idempotent, TransactionRequest, validate, mirror, CreateAccountRequest,
  validate_account,
}
use ledger_core.Ledger.Routing.{sorted_account_ids}
use ledger_core.Ledger.Repository.{
  insert_transaction, insert_entries, load_transaction_for_update, mark_reversed, append_event,
}
use ledger_core.Ledger.Posting.{
  Draws, route_to_shards, lock_and_validate, build_entries, apply_entries,
}
use ledger_core.Ledger.Events.{event_version, append_transaction_event, complete_idempotency}
use ledger_core.Outbox
use ledger_core.Outbox.{transaction_posted, transaction_reversed}
use ledger_core.Postgres.{AccountRow, Db, Tx, ◌>>=◌, ◌>>◌, pure, lift, gets, modify, run_tx}

abbrev pub run_recorder : Option Recorder → Recorder
run_recorder none header = pure tt
run_recorder (some recorder) header = recorder header

-- The key of `req.Idempotency` where there is one, else that of the request.
abbrev request_key : TransactionRequest → Option String
request_key req = elim req.idempotency [ none ↦ req.idempotency_key | some idem ↦ some idem.key ]

abbrev pub posting_header : Uuid → TransactionRequest → Transaction
posting_header tx_id req = record {
  id = tx_id;
  idempotency_key = request_key req;
  principal_id = req.principal_id;
  transaction_type = req.transaction_type;
  status = posted;
  external_ref = req.external_ref;
  metadata = req.metadata;
  created_at = 0;
  posted_at = none;
  entries = [];
}

-- Header, entries and balances: what both kinds of transaction write first.
unfoldable pub write_transaction :
    Draws → Transaction → List EntryRequest → Tx (Transaction × List Outbox.EventBalance)
write_transaction draws header requests = do
  accounts ← lock_and_validate (sorted_account_ids requests) requests
  stored ← insert_transaction header
  built ← lift (build_entries header.id draws.entry_id requests)
  entries ← insert_entries built
  balances ← apply_entries entries accounts (sorted_account_ids requests)
  pure (record stored { entries = entries }, balances)

-- The function that `postTransaction` gives to InTx.
unfoldable pub posting : Draws → Uuid → TransactionRequest → Tx Transaction
posting draws tx_id req = do
  entry_requests ← route_to_shards draws req.entries
  written ← write_transaction draws (posting_header tx_id req) entry_requests
  append_transaction_event draws.event_id transaction_posted written.0 written.1 none ""
  run_recorder req.recorder written.0
  complete_idempotency req.idempotency written.0
  pure written.0

unfoldable pub post_transaction : Draws → TransactionRequest → Db → Result Transaction × Db
post_transaction draws req db = elim (validate req) [
  | err x ↦ (err x, db)
  | ok _ ↦ elim draws.transaction_id [
    | none ↦ (err random_failed, db)
    | some tx_id ↦ run_tx (posting draws tx_id req) db
  ]
]

-- The `switch` on the status of the original.
abbrev pub check_reversible : TransactionStatus → Result (Unit {0})
check_reversible reversed = err already_reversed
check_reversible posted = ok tt
check_reversible _ = err transaction_not_posted

abbrev pub has_entries {ℓ} : {A : Type ℓ} → List A → Bool
has_entries [] = false
has_entries (_ ∷ _) = true

-- The metadata keys name the original by its id, which only a reader uses; here it is `original`.
abbrev pub reversal_header :
    (Uuid → String) → Uuid → Uuid → String → Option Idempotent → Transaction
reversal_header show id original reason idem = record {
  id = id;
  idempotency_key = elim idem [ none ↦ none | some i ↦ some i.key ];
  principal_id = elim idem [ none ↦ "" | some i ↦ i.principal_id ];
  transaction_type = reversal;
  status = posted;
  external_ref = none;
  metadata = ("reverses_transaction_id", show original) ∷ ("reversal_reason", reason) ∷ [];
  created_at = 0;
  posted_at = none;
  entries = [];
}

-- The function that `doReverse` gives to InTx. `show` is uuid.String.
unfoldable pub reversing :
    (Uuid → String)
    → Draws
    → Uuid
    → Uuid
    → String
    → Option Idempotent
    → Option Recorder
    → Tx Transaction
reversing show draws id original reason idem recorder = do
  loaded ← load_transaction_for_update original
  lift (check_reversible loaded.status)
  lift (require (has_entries loaded.entries) too_few_entries)
  written ←
      write_transaction draws (reversal_header show id original reason idem)
        (map mirror loaded.entries)
  mark_reversed original
  append_transaction_event draws.event_id transaction_reversed written.0 written.1 (some original)
      reason
  run_recorder recorder written.0
  complete_idempotency idem written.0
  pure written.0

-- `doReverse`, which the three public methods call with and without a key and a recorder.
unfoldable pub reverse :
    (Uuid → String)
    → Draws
    → Uuid
    → String
    → Option Idempotent
    → Option Recorder
    → Db
    → Result Transaction × Db
reverse show draws original reason idem recorder db =
    if str_eq reason "" then (err reversal_reason_required, db) else elim draws.transaction_id [
      | none ↦ (err random_failed, db)
      | some id ↦ run_tx (reversing show draws id original reason idem recorder) db
    ]

abbrev has_text : String → List String → Bool
has_text s [] = false
has_text s (t ∷ ts) = str_eq t s || has_text s ts

abbrev is_new_account : Db → Uuid → String → Bool
is_new_account db id ref = elim (db.accounts id) [
  | none ↦ not (has_text ref db.external_refs)
  | some _ ↦ false
]

-- `InsertAccount`, with the row that migration 000009's trigger adds. An account
-- opened here is no shard.
abbrev pub new_account : CreateAccountRequest → AccountRow
new_account req = record {
  external_ref = req.external_ref;
  account_type = req.account_type;
  normal_balance = normal_balance req.account_type;
  currency = req.currency;
  owner_id = req.owner_id;
  status = active;
  allow_negative = req.allow_negative;
  available_minor = pos 0;
  pending_minor = pos 0;
  version = 0;
  last_entry_id = none;
}

unfoldable pub opening : Draws → Uuid → CreateAccountRequest → Tx AccountRow
opening draws id req = do
  lift (require (← gets (λ db. is_new_account db id req.external_ref)) database_failed)
  modify (λ db. record db {
    accounts = update db.accounts id (some (new_account req));
    external_refs = req.external_ref ∷ db.external_refs;
  })
  now ← gets (λ db. db.now)
  append_event (draws.event_id 0) (record {
    aggregate_type = Outbox.account;
    aggregate_id = id;
    event_type = Outbox.account_created;
    event_version = event_version;
    occurred_at = now;
    payload = Outbox.account_payload (record {
      account_id = id;
      external_ref = req.external_ref;
      account_type = req.account_type;
      normal_balance = normal_balance req.account_type;
      currency = req.currency;
      owner_id = req.owner_id;
      allow_negative = req.allow_negative;
    });
  })
  pure (new_account req)

unfoldable pub create_account : Draws → CreateAccountRequest → Db → Result AccountRow × Db
create_account draws req db = elim (validate_account req) [
  | err x ↦ (err x, db)
  | ok _ ↦ elim draws.transaction_id [
    | none ↦ (err random_failed, db)
    | some id ↦ run_tx (opening draws id req) db
  ]
]
