-- ===== src/Ledger/Tests/Parts.antt =====
-- The parts of the service on small inputs.
use ledger_core.Ledger.Posting.{route_to_shards}
use ledger_core.Ledger.Posting.Routes.{AreRouted, route_to_shards_lem}
use ledger_core.Base.{
  ◌≡◌, ◌⊎◌, refl, List, [], ◌∷◌, none, some, pos, ◌+ℤ◌, ◌-ℤ◌, IsInt64, arith, int64_max, int64_min,
  wrap64,
}
use ledger_core.Errors.{ok}
use ledger_core.Ledger.Money.{
  add_int64, sub_int64, equal, add, same_currency, matches_currency_pattern, new_money,
}
use ledger_core.Ledger.Money
use ledger_core.Ledger.Money.Bounds.{add_int64_exact, sub_int64_exact}
use ledger_core.Ledger.Types.{Uuid, is_valid_direction, is_valid_transaction_type}
use ledger_core.Ledger.Request.{EntryRequest, validate, validate_entries, validate_entry}
use ledger_core.Ledger.Request.Totals.{IsValidRequest, validate-IsValidRequest}
use ledger_core.Ledger.Routing.{mem_id, sorted_account_ids}
use ledger_core.Ledger.Routing.Order.{IsAscending, account_ids, sorted_account_ids_lem}
use ledger_core.Ledger.Tests.Book.{pay, overdraw, opened, drawn}
use ledger_core.Postgres.{Db}
use ledger_core.Base.{if◌then◌else◌, ◌==◌}

add_int64_exact_example :
    ((add_int64 int64_max (pos 1) ≡ some (int64_max +ℤ pos 1)) × IsInt64 (int64_max +ℤ pos 1))
    ⊎ ((add_int64 int64_max (pos 1) ≡ none) × (¬ IsInt64 (int64_max +ℤ pos 1)))
add_int64_exact_example = add_int64_exact int64_max (pos 1) (ground arith) (ground arith)

sub_int64_exact_example :
    ((sub_int64 int64_min (pos 1) ≡ some (int64_min -ℤ pos 1)) × IsInt64 (int64_min -ℤ pos 1))
    ⊎ ((sub_int64 int64_min (pos 1) ≡ none) × (¬ IsInt64 (int64_min -ℤ pos 1)))
sub_int64_exact_example = sub_int64_exact int64_min (pos 1) (ground arith) (ground arith)

sorted_account_ids_lem_example :
    IsAscending (sorted_account_ids overdraw.entries)
    × ((id : Uuid)
        → mem_id id (sorted_account_ids overdraw.entries)
          ≡ mem_id id (account_ids overdraw.entries))
sorted_account_ids_lem_example = sorted_account_ids_lem overdraw.entries

-- The customer's account spread over one shard, which is the house's account.
abbrev spread : Db
spread = record opened { shards = λ id. if id == 2 then 1 ∷ [] else [] }

route_to_shards_lem_example :
    (routed : List EntryRequest) × (route_to_shards (drawn 20) pay.entries spread
      ≡ ok (routed, spread))
    × AreRouted spread pay.entries routed
route_to_shards_lem_example = route_to_shards_lem (drawn 20) pay.entries spread

pay_valid : validate pay ≡ ok tt
unfolding validate validate_entries validate_entry new_money matches_currency_pattern Money.validate
    add add_int64 wrap64 ◌+ℤ◌ same_currency equal is_valid_direction is_valid_transaction_type
pay_valid = refl

validate-IsValidRequest_example : IsValidRequest pay
validate-IsValidRequest_example = validate-IsValidRequest pay (ground arith) pay_valid
