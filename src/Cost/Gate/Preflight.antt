-- ===== src/Cost/Gate/Preflight.antt =====
-- `preflight` of BudgetGate (openai_compatible_bridge/core/cost_tracking.py): the rows that it
-- writes and its order of checks.
pub mod Admission
pub mod Blocking
pub mod Failures
pub mod Reserved
pub mod Tests
use openai_compatible_bridge.Prelude.{
  ℕ, zero, suc, ◌+◌, Bool, true, false, not, ◌&&◌, ◌||◌, Option, none, some, String, List, [], ◌∷◌,
  ltb, if◌then◌else◌, is_empty, str_eq,
}
use openai_compatible_bridge.Prelude.Result.{Result, ok, err}
use openai_compatible_bridge.Usage.{NormalizedUsage, no_usage}
use openai_compatible_bridge.Cost.Pricing.{PricingEntry, PricingCatalog, price_for, estimate}
use openai_compatible_bridge.Cost.Ledger.{
  Instant, iso, days, before, later, day_start, Status, reserved, blocked, finalized,
  estimated_only, released, LimitType, short_window, daily, CostEvent, CostEvents, insert_event,
  spend_statuses, sum_estimated_since, Settlement, total_or_sum, update_reservation,
}
use openai_compatible_bridge.Cost.Gate.{
  GateConfig, Health, Gate, BudgetBlock, CostError, subsystem_unhealthy, missing_pricing,
  budget_exceeded, Reservation, Attempt, Meets, Kind, budget_gate, attempt_gate, listed,
  tracks_provider, tracked_filter, short_start, daily_start, spend, exceeds, limit_or_zero,
  short_block, daily_block, find_block, transaction, mark_ledger_failure,
}

-- The fields that the rows of a reservation and of a blocked attempt share.
module _ (g : Gate) (a : Attempt) (w : Meets) (price : PricingEntry) where
  unfoldable pub reserved_row : CostEvent
  reserved_row = record {
    event_id = w.event_id;
    reservation_id = some w.reservation_id;
    internal_request_id = some w.internal_request_id;
    provider = a.provider;
    endpoint = some a.endpoint;
    model = some a.model;
    status = some reserved;
    billing_eligible = true;
    limit_type = none;
    usage = a.forecast_usage;
    forecast_cost_usd = some (estimate price a.forecast_usage);
    estimated_cost_usd = some (estimate price a.forecast_usage);
    currency = some price.currency;
    pricing_source = some price.source;
    pricing_version = some price.version;
    window_started_at = some (short_start g.config w.now);
    created_at = iso w.now;
    finalized_at = none;
  }

  pub blocked_row : BudgetBlock → CostEvent
  unfolding reserved_row
  blocked_row b = record reserved_row {
    status = some blocked;
    billing_eligible = false;
    limit_type = some b.limit_type;
    estimated_cost_usd = some 0;
  }

  unfoldable pub reservation_of : Reservation
  reservation_of = record {
    reservation_id = w.reservation_id;
    internal_request_id = w.internal_request_id;
    provider = a.provider;
    endpoint = a.endpoint;
    model = a.model;
    forecast_cost_usd = estimate price a.forecast_usage;
    currency = price.currency;
    pricing_source = price.source;
    pricing_version = price.version;
    window_started_at = short_start g.config w.now;
    created_at = iso w.now;
  }

-- The `except` branch of `preflight`.
pub preflight_failed : Kind → Gate → Result CostError (Option Reservation) × Gate
preflight_failed budget_gate g =
    let (_, g') = mark_ledger_failure budget_gate "preflight" g in
    (err (subsystem_unhealthy g'.health.reason), g')
preflight_failed attempt_gate g = (err (subsystem_unhealthy "cost ledger unavailable"), g)

-- The event that the transaction of `preflight` writes, and what the call returns when it is
-- committed.
pub decide : Gate → Attempt → Meets → PricingEntry → Option BudgetBlock
decide g a w price =
    find_block g.config w.now price (estimate price a.forecast_usage)
      (spend g.config (short_start g.config w.now) g.ledger)
      (spend g.config (daily_start w.now) g.ledger)

pub chosen_row : Gate → Attempt → Meets → PricingEntry → Option BudgetBlock → CostEvent
chosen_row g a w price none = reserved_row g a w price
chosen_row g a w price (some b) = blocked_row g a w price b

pub answer :
    Gate
    → Attempt
    → Meets
    → PricingEntry
    → Option BudgetBlock
    → Result CostError (Option Reservation)
answer g a w price none = ok (some (reservation_of g a w price))
answer g a w price (some b) = err (budget_exceeded b)

pub committed :
    Kind
    → Gate
    → Result CostError (Option Reservation)
    → Option CostEvents
    → Result CostError (Option Reservation) × Gate
committed kind g r none = preflight_failed kind g
committed kind g r (some es) = (r, record g { ledger = es })

-- The part of `preflight` behind the lookup of the price.
pub admit_priced :
    Kind
    → Attempt
    → Meets
    → Gate
    → Option PricingEntry
    → Result CostError (Option Reservation) × Gate
admit_priced kind a w g none = (err missing_pricing, g)
admit_priced kind a w g (some price) =
    committed kind g (answer g a w price (decide g a w price))
      (transaction w.broken (insert_event (chosen_row g a w price (decide g a w price)) g.ledger))

module _ (lower : String → String) where
  -- `BudgetGate.preflight`
  pub preflight : Kind → Attempt → Meets → Gate → Result CostError (Option Reservation) × Gate
  preflight kind a w g =
      if not (tracks_provider lower g.config a.provider)
      then (ok none, g)
      else if not g.health.healthy
      then (err (subsystem_unhealthy g.health.reason), g)
      else admit_priced kind a w g (price_for a.model a.endpoint g.pricing)
