-- ===== src/Projector/Tests.antt =====
-- Two postings on one account, delivered twice and out of order.
use ledger_core.Base.{ℕ, ◌≡◌, refl, [], ◌∷◌, true, false, Option, none, some, pos, ℤ, arith}
use ledger_core.Errors.{ok}
use ledger_core.Ledger.Types.{Uuid, transfer, posted}
use ledger_core.Ledger.Routing.{mem_id}
use ledger_core.Outbox.{transaction_payload, Envelope, transaction, transaction_posted}
use ledger_core.Projector.{Projections, apply, apply_balance, apply_balances, upsert_row}
use ledger_core.Projector.Order.{apply_twice, apply_reordered}

abbrev nothing : Projections
nothing = record { accounts = λ _. true; processed = []; balances = λ _. none }

abbrev event : Uuid → ℕ → ℕ → Envelope
event id amount version = record {
  event_id = id;
  event = record {
    aggregate_type = transaction;
    aggregate_id = id;
    event_type = transaction_posted;
    event_version = 1;
    occurred_at = 100;
    payload = transaction_payload (record {
      transaction_id = id;
      transaction_type = transfer;
      status = posted;
      currency = "USD";
      created_at = 100;
      posted_at = some 100;
      reverses = none;
      reason = "";
      entries = [];
      balances =
          record {
            account_id = 7;
            available = record { amount_minor = pos amount; currency = "USD" };
            version = version;
          }
          ∷ [];
    });
  };
}

abbrev first : Envelope
first = event 1 500 1

abbrev later : Envelope
later = event 2 900 2

abbrev amount_of : Projections → Option ℤ
amount_of s = elim (s.balances 7) [ none ↦ none | some row ↦ some row.available_minor ]

abbrev seen : Projections
seen = (apply first nothing).1

outcomes :
    (apply first nothing ≡ (ok true, seen))
    × (amount_of (apply first (apply later nothing).1).1 ≡ some (pos 900))
unfolding apply apply_balance apply_balances upsert_row mem_id
outcomes = (refl, refl)

apply_twice_example : apply first seen ≡ (ok false, seen)
apply_twice_example = apply_twice first nothing seen outcomes.0

apply_reordered_example :
    ((apply first (apply later nothing).1).1.balances
      ≡ (apply later (apply first nothing).1).1.balances)
    × ((apply first (apply later nothing).1).0 ≡ (apply first nothing).0)
    × ((apply later (apply first nothing).1).0 ≡ (apply later nothing).0)
apply_reordered_example =
    apply_reordered first later nothing (omega arith) (((λ _. (omega arith, refl)), tt), tt)
