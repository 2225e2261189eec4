-- ===== src/Cost/Gate/Settle.antt =====
-- The methods of BudgetGate (openai_compatible_bridge/core/cost_tracking.py) that settle a
-- reservation.
pub mod Spend
mod Tests
use openai_compatible_bridge.Prelude.{
  ℕ, zero, suc, ◌+◌, Bool, true, false, not, ◌&&◌, ◌||◌, Option, none, some, String, List, [], ◌∷◌,
  ltb, if◌then◌else◌, is_empty, str_eq,
}
use openai_compatible_bridge.Prelude.Result.{Result, ok, err}
use openai_compatible_bridge.Usage.{NormalizedUsage, no_usage}
use openai_compatible_bridge.Cost.Pricing.{PricingEntry, PricingCatalog, price_for, estimate}
use openai_compatible_bridge.Cost.Ledger.{
  Instant, iso, days, before, later, day_start, Status, reserved, blocked, finalized,
  estimated_only, released, LimitType, short_window, daily, CostEvent, CostEvents, insert_event,
  spend_statuses, sum_estimated_since, Settlement, total_or_sum, update_reservation,
}
use openai_compatible_bridge.Cost.Gate.{
  GateConfig, Health, Gate, BudgetBlock, CostError, subsystem_unhealthy, missing_pricing,
  budget_exceeded, Reservation, Attempt, Meets, Kind, budget_gate, attempt_gate, listed,
  tracks_provider, tracked_filter, short_start, daily_start, spend, exceeds, limit_or_zero,
  find_block, transaction, mark_ledger_failure,
}

-- The end of the three methods that settle a reservation: the UPDATE in its transaction.
pub settle :
    Kind → String → Bool → Reservation → Settlement → Gate → Result CostError (Unit {0}) × Gate
settle kind operation broken r s g =
    elim (transaction broken (update_reservation r.reservation_id s g.ledger)) [
      | none ↦ mark_ledger_failure kind operation g
      | some es ↦ (ok tt, record g { ledger = es })
    ]

pub success : NormalizedUsage → ℕ → Instant → Settlement
success usage cost now = record {
  status = finalized;
  billing_eligible = true;
  usage = record usage { total_tokens = total_or_sum usage };
  estimated_cost_usd = cost;
  finalized_at = iso now;
}

pub finalize_priced :
    Kind
    → Bool
    → Instant
    → Reservation
    → NormalizedUsage
    → Gate
    → Option PricingEntry
    → Result CostError (Unit {0}) × Gate
finalize_priced kind broken now r usage g none = mark_ledger_failure kind "finalization" g
finalize_priced kind broken now r usage g (some price) =
    settle kind "finalization" broken r (success usage (estimate price usage) now) g

-- `finalize_success`
pub finalize_success :
    Kind
    → Bool
    → Instant
    → Option Reservation
    → NormalizedUsage
    → Gate
    → Result CostError (Unit {0}) × Gate
finalize_success kind broken now none usage g = (ok tt, g)
finalize_success kind broken now (some r) usage g =
    finalize_priced kind broken now r usage g (price_for r.model r.endpoint g.pricing)

pub release : String → Instant → Settlement
release reason now = record {
  status = released reason;
  billing_eligible = false;
  usage = no_usage;
  estimated_cost_usd = 0;
  finalized_at = iso now;
}

pub estimate_only : ℕ → Instant → Settlement
estimate_only cost now = record {
  status = estimated_only;
  billing_eligible = true;
  usage = no_usage;
  estimated_cost_usd = cost;
  finalized_at = iso now;
}

-- `release_nonbillable`
pub release_nonbillable :
    Kind → Bool → Instant → Option Reservation → String → Gate → Result CostError (Unit {0}) × Gate
release_nonbillable kind broken now none reason g = (ok tt, g)
release_nonbillable kind broken now (some r) reason g =
    settle kind "release" broken r (release reason now) g

-- `finalize_estimated_only`
pub finalize_estimated_only :
    Kind → Bool → Instant → Option Reservation → String → Gate → Result CostError (Unit {0}) × Gate
finalize_estimated_only kind broken now none reason g = (ok tt, g)
finalize_estimated_only kind broken now (some r) reason g =
    settle kind "estimated-only finalization" broken r (estimate_only r.forecast_cost_usd now) g
