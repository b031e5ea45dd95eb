-- ===== src/Flow/Tests.antt =====
-- Tests of nexssflow: estimates, the dynamic hooks and the middleware.
use cost.Prelude.{◌≡◌, refl, pos, some, [], ◌∷◌, true, arith}
use cost.Text.{text}
use cost.Text.Spaces.{trim_space, space_width, space_width_back}
use cost.Text.Decimal.{parse_int}
use cost.Errors.{background, ok}
use cost.Currency.{usd}
use cost.World.{World, new_world}
use cost.Guard.{Ending, finished, returned}
use cost.Quota.Cells.{cells, cells-IsAtomic, tenant_key, store, store-IsWithinBudget}
use cost.Quota.Base.{runtime_quota_key}
use cost.Quota.Within.{IsWithinBudget}
use cost.Flow.Value.{Value, signed, any_map, entry, no_entries, find_entry, estimate_field}
use cost.Flow.Estimate.{
  EstimateSpec, split_dots, all_identifiers, is_identifier, identifier_rest, parse_path,
  parse_estimate_spec, integer_micros, follow, join_dots, resolve,
}
use cost.Flow.Estimate.Bounds.{IsSpec, IsEstimateOf, parse_estimate_spec-IsSpec, resolve_bounds}
use cost.Flow.Dynamic.Static.{under_guard}
use cost.Flow.Modifier.{dynamic_hooks, cost_estimate, under_hooks, cost_estimate_lem}
use cost.Flow.Middleware.{action_returned}
use cost.Flow.Middleware.Storage.{storage_middleware}
use cost.Flow.Middleware.Budget.{storage_middleware-IsWithinBudget}

abbrev request : Value
request =
    any_map (
      entry (text "cost") (any_map (entry (text "micros") (signed (pos 30)) no_entries)) no_entries)

abbrev cost_micros : EstimateSpec
cost_micros = record { literal = pos 0; path = text "cost" ∷ text "micros" ∷ [] }

cost_micros-parsed : parse_estimate_spec (text " $.cost.micros") ≡ ok cost_micros
unfolding parse_estimate_spec parse_path split_dots all_identifiers is_identifier identifier_rest
    trim_space space_width space_width_back parse_int
cost_micros-parsed = refl

cost_micros-resolved : resolve cost_micros request ≡ ok (pos 30)
unfolding resolve integer_micros follow estimate_field find_entry join_dots
cost_micros-resolved = refl

parse_estimate_spec-IsSpec_example : IsSpec (text " $.cost.micros") cost_micros
parse_estimate_spec-IsSpec_example =
    parse_estimate_spec-IsSpec (text " $.cost.micros") cost_micros cost_micros-parsed

resolve_bounds_example : IsEstimateOf cost_micros (pos 30)
resolve_bounds_example =
    resolve_bounds (text " $.cost.micros") cost_micros request (pos 30) cost_micros-parsed
      cost_micros-resolved

abbrev budget_100 : World
budget_100 = new_world (pos 100) usd

abbrev reported_20 : Ending
reported_20 = finished (returned (some (pos 20))) (some (text "shop.buy")) 7

cost_estimate-applied : cost_estimate (text " $.cost.micros") ≡ ok (dynamic_hooks cost_micros)
unfolding cost_estimate parse_estimate_spec parse_path split_dots all_identifiers is_identifier
    identifier_rest trim_space space_width space_width_back parse_int
cost_estimate-applied = refl

cost_estimate_lem_example :
    under_hooks (dynamic_hooks cost_micros) true request background reported_20 budget_100
    ≡ under_guard true (pos 30) background reported_20 budget_100
cost_estimate_lem_example =
    cost_estimate_lem true (text " $.cost.micros") cost_micros (dynamic_hooks cost_micros) request
      (pos 30) background reported_20 budget_100 cost_micros-parsed cost_estimate-applied
      cost_micros-resolved

tenant-named : runtime_quota_key cells (trim_space (text " t ")) ≡ ok tenant_key
unfolding runtime_quota_key trim_space space_width space_width_back
tenant-named = refl

storage_middleware-IsWithinBudget_example :
    IsWithinBudget cells tenant_key
      (storage_middleware cells cost_micros
        (text "shop.buy")
        background
        (text " t ")
        (ok (text "c"))
        7
        request
        (action_returned request (some (pos 20)))
        store).1
storage_middleware-IsWithinBudget_example =
    storage_middleware-IsWithinBudget cells cells-IsAtomic cost_micros (text "shop.buy")
      (text " t ") tenant_key (text "c") background 7 request (pos 30)
      (action_returned request (some (pos 20))) store cost_micros-resolved (omega arith)
      tenant-named refl store-IsWithinBudget
