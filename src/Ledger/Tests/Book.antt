-- ===== src/Ledger/Tests/Book.antt =====
-- One house account and one customer, a transfer between them and its reversal: the inputs of the
-- examples.
use ledger_core.Base.{ℕ, ◌+◌, List, [], ◌∷◌, Option, none, some, true, false, pos, ℤ}
use ledger_core.Errors.{Result, ok, err}
use ledger_core.Ledger.Types.{
  Uuid, Direction, asset, liability, debit, credit, transfer, Transaction,
}
use ledger_core.Ledger.Request.{CreateAccountRequest, EntryRequest, TransactionRequest}
use ledger_core.Ledger.Posting.{Draws}
use ledger_core.Ledger.Service.{posting_header, post_transaction, reverse, create_account}
use ledger_core.Postgres.{Db}

abbrev pub no_rows : Db
no_rows = record {
  now = 100;
  accounts = λ _. none;
  external_refs = [];
  shards = λ _. [];
  transactions = λ _. none;
  transaction_keys = [];
  journal = [];
  outbox = [];
  idempotency_keys = [];
  saga_instances = λ _. none;
  saga_ids = [];
  saga_steps = [];
}

-- The draws of a call, whose ids follow `n`.
abbrev pub drawn : ℕ → Draws
drawn n = record {
  transaction_id = some n;
  entry_id = λ i. some (n + 1 + i);
  event_id = λ i. some (n + 11 + i);
  rand_int_n = λ _ _. 0;
}

abbrev pub house : CreateAccountRequest
house = record {
  external_ref = "house";
  account_type = asset;
  currency = "USD";
  owner_id = none;
  allow_negative = true;
}

abbrev pub alice : CreateAccountRequest
alice = record {
  external_ref = "alice";
  account_type = liability;
  currency = "USD";
  owner_id = none;
  allow_negative = false;
}

abbrev pub opened : Db
opened = (create_account (drawn 2) alice (create_account (drawn 1) house no_rows).1).1

abbrev pub entry : Uuid → Direction → ℕ → EntryRequest
entry id d n = record {
  account_id = id;
  direction = d;
  amount = record { amount_minor = pos n; currency = "USD" };
}

abbrev pub request : List EntryRequest → TransactionRequest
request entries = record {
  principal_id = "shop";
  transaction_type = transfer;
  external_ref = none;
  metadata = [];
  entries = entries;
  idempotency_key = none;
  idempotency = none;
  recorder = none;
}

-- 500 from the house to the customer, and 700 back.
abbrev pub pay : TransactionRequest
pay = request (entry 1 debit 500 ∷ entry 2 credit 500 ∷ [])

abbrev pub overdraw : TransactionRequest
overdraw = request (entry 2 debit 700 ∷ entry 1 credit 700 ∷ [])

abbrev pub result_of : Result Transaction × Db → Option Transaction
result_of (ok t, db) = some t
result_of (err x, db) = none

abbrev pub available : Uuid → Db → Option ℤ
available id db = elim (db.accounts id) [ none ↦ none | some row ↦ some row.available_minor ]

abbrev pub paid : Db
paid = (post_transaction (drawn 20) pay opened).1

abbrev pub pay_tx : Transaction
pay_tx = elim (post_transaction (drawn 20) pay opened).0 [ ok t ↦ t | err x ↦ posting_header 0 pay ]

-- The reversal of the payment, whose id is 20.
abbrev pub refund : Result Transaction × Db
refund = reverse (λ _. "20") (drawn 40) 20 "mistake" none none paid

abbrev pub refunded : Db
refunded = refund.1

abbrev pub refund_tx : Transaction
refund_tx = elim refund.0 [ ok t ↦ t | err x ↦ posting_header 0 pay ]
