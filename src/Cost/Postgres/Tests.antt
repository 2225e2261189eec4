-- ===== src/Cost/Postgres/Tests.antt =====
-- The PostgreSQL ledger on a table of two rows.
use openai_compatible_bridge.Prelude.{ℕ, ◌≡◌, refl, true, none, some, [], ◌∷◌, map, inl, arith}
use openai_compatible_bridge.Prelude.Result.{ok, err}
use openai_compatible_bridge.Usage.{no_usage}
use openai_compatible_bridge.Cost.Ledger.{
  Instant, iso, Status, reserved, finalized, CostEvent, CostEvents, spend_statuses, Settlement,
  sum_estimated_since as sqlite_sum, update_rows, settled, total_or_sum,
}
use openai_compatible_bridge.Cost.Ledger.Sums.{find_reservation}
use openai_compatible_bridge.Cost.Postgres.{
  settlement_conflict, stamp, sum_estimated_since as postgres_sum, update_reservation, settle_row,
  same_changes, same_usage,
}
use openai_compatible_bridge.Cost.Postgres.Agreement.{
  Rows, sqlite_row, postgres_row, sum_estimated_since_agrees,
}
use openai_compatible_bridge.Cost.Postgres.Again.{at_time, update_reservation_again}

abbrev of_status : ℕ → Status → ℕ → CostEvent
of_status k status cost = record {
  event_id = k;
  reservation_id = some k;
  internal_request_id = none;
  provider = some "vertex";
  endpoint = some "chat";
  model = none;
  status = some status;
  billing_eligible = true;
  limit_type = none;
  usage = no_usage;
  forecast_cost_usd = some cost;
  estimated_cost_usd = some cost;
  currency = some "USD";
  pricing_source = none;
  pricing_version = none;
  window_started_at = none;
  created_at = 0;
  finalized_at = none;
}

abbrev noon : Instant
noon = record { second = 43200; micro = 0 }

abbrev rows : Rows
rows =
    (record { second = 100; micro = 5 }, of_status 1 reserved 5)
    ∷ (record { second = 43201; micro = 25 }, of_status 2 finalized 7)
    ∷ []

sum_estimated_since_agrees_example :
    postgres_sum (stamp noon) (some spend_statuses) none (map postgres_row rows)
    ≡ sqlite_sum (iso noon) (some spend_statuses) none (map sqlite_row rows)
sum_estimated_since_agrees_example =
    sum_estimated_since_agrees noon (some spend_statuses) none (omega arith) rows (
      (omega arith, inl (λ (e : 100 ≡ 43200). omega (arith, e)), λ h. refl),
      ((omega arith, inl (λ (e : 43201 ≡ 43200). omega (arith, e)), λ h. refl), tt),
    )

abbrev settlement : Settlement
settlement = record {
  status = finalized;
  billing_eligible = true;
  usage = no_usage;
  estimated_cost_usd = 3;
  finalized_at = 50;
}

abbrev table : CostEvents
table = of_status 1 reserved 5 ∷ []

abbrev settled_table : CostEvents
settled_table = settled settlement (of_status 1 reserved 5) ∷ []

settle_once : update_reservation 1 settlement table ≡ ok settled_table
unfolding update_reservation settle_row find_reservation update_rows
settle_once = refl

update_reservation_again_example :
    update_reservation 1 (at_time 60 settlement) settled_table ≡ ok settled_table
update_reservation_again_example =
    update_reservation_again 1 settlement 60 table settled_table settle_once

-- Another cost is refused.
settle_other :
    update_reservation 1 (record settlement { estimated_cost_usd = 4 }) settled_table
    ≡ err settlement_conflict
unfolding update_reservation settle_row find_reservation settled same_changes same_usage
    total_or_sum
settle_other = refl
