-- ===== src/Cost/Gate.antt =====
-- BudgetGate of openai_compatible_bridge/core/cost_tracking.py, and AttemptBudgetGate of
-- openai_compatible_bridge/core/async_cost.py, which handles a ledger failure in its own way.
-- A method takes the state of the gate and returns its result with the new state. What it meets is
-- an input: the clock, the identifiers that uuid4 makes, and whether some statement of its
-- transaction raises (`broken`), in which case the transaction is rolled back.
-- The JSON log lines are left out.
pub mod Preflight
pub mod Settle
use Prim.Native.String.{◌++◌ as text_append}
use openai_compatible_bridge.Prelude.{
  ℕ, zero, suc, ◌+◌, Bool, true, false, not, ◌&&◌, ◌||◌, Option, none, some, String, List, [], ◌∷◌,
  ltb, if◌then◌else◌, is_empty, str_eq,
}
use openai_compatible_bridge.Prelude.Result.{Result, ok, err}
use openai_compatible_bridge.Usage.{NormalizedUsage, no_usage}
use openai_compatible_bridge.Cost.Pricing.{PricingEntry, PricingCatalog, price_for, estimate}
use openai_compatible_bridge.Cost.Ledger.{
  Instant, iso, days, before, later, day_start, Status, reserved, blocked, finalized,
  estimated_only, released, LimitType, short_window, daily, CostEvent, CostEvents, insert_event,
  spend_statuses, sum_estimated_since, Settlement, total_or_sum, update_reservation,
}

-- The fields of CostTrackingConfig that the gate reads.
pub record GateConfig : Type 0 where
  pub short_window_seconds : ℕ
  pub short_window_limit_usd : Option ℕ
  pub daily_limit_usd : Option ℕ
  pub tracked_providers : List String

-- CostSubsystemHealth; the reason is only read when it is not healthy.
pub record Health : Type 0 where
  pub healthy : Bool
  pub reason : String

pub record Gate : Type 0 where
  pub config : GateConfig
  pub pricing : PricingCatalog
  pub ledger : CostEvents
  pub health : Health

pub record BudgetBlock : Type 0 where
  pub limit_type : LimitType
  pub reset_at : Instant
  pub current_estimated_spend : ℕ
  pub configured_limit : ℕ
  pub currency : String

pub data CostError : Type 0 where
  subsystem_unhealthy : String → CostError
  missing_pricing : CostError
  budget_exceeded : BudgetBlock → CostError

pub record Reservation : Type 0 where
  pub reservation_id : ℕ
  pub internal_request_id : ℕ
  pub provider : Option String
  pub endpoint : String
  pub model : String
  pub forecast_cost_usd : ℕ
  pub currency : String
  pub pricing_source : String
  pub pricing_version : String
  pub window_started_at : ℕ
  pub created_at : ℕ

-- The arguments of `preflight`.
pub record Attempt : Type 0 where
  pub endpoint : String
  pub model : String
  pub forecast_usage : NormalizedUsage
  pub provider : Option String

-- What the call meets: the time, three fresh uuids, and whether the ledger fails.
pub record Meets : Type 0 where
  pub now : Instant
  pub reservation_id : ℕ
  pub internal_request_id : ℕ
  pub event_id : ℕ
  pub broken : Bool

-- The class of the gate.
pub data Kind : Type 0 where
  budget_gate attempt_gate : Kind

-- `provider in tracked_providers`
abbrev pub listed : String → List String → Bool
listed p [] = false
listed p (x ∷ ps) = str_eq p x || listed p ps

module _ (lower : String → String) where
  -- `_tracks_provider`, with `str.lower` as a parameter.
  pub tracks_provider : GateConfig → Option String → Bool
  tracks_provider c none = is_empty c.tracked_providers
  tracks_provider c (some p) = is_empty c.tracked_providers || listed (lower p) c.tracked_providers

-- `_tracked_provider_filter`
abbrev pub tracked_filter : GateConfig → Option (List String)
tracked_filter c = if is_empty c.tracked_providers then none else some c.tracked_providers

-- The beginnings of the two windows.
abbrev pub short_start : GateConfig → Instant → ℕ
short_start c now = iso (before c.short_window_seconds now)

abbrev pub daily_start : Instant → ℕ
daily_start now = iso (day_start now)

-- The spend that counts against a limit.
abbrev pub spend : GateConfig → ℕ → CostEvents → ℕ
spend c start es = sum_estimated_since start (some spend_statuses) (tracked_filter c) es

-- `limit is not None and spent + forecast > limit`
abbrev pub exceeds : Option ℕ → ℕ → Bool
exceeds none n = false
exceeds (some limit) n = ltb limit n

abbrev pub limit_or_zero : Option ℕ → ℕ
limit_or_zero none = 0
limit_or_zero (some limit) = limit

-- The blocks that name the two limits.
pub short_block : GateConfig → Instant → PricingEntry → ℕ → BudgetBlock
short_block c now price spent = record {
  limit_type = short_window;
  reset_at = later c.short_window_seconds now;
  current_estimated_spend = spent;
  configured_limit = limit_or_zero c.short_window_limit_usd;
  currency = price.currency;
}

pub daily_block : GateConfig → Instant → PricingEntry → ℕ → BudgetBlock
daily_block c now price spent = record {
  limit_type = daily;
  reset_at = later (days 1) (day_start now);
  current_estimated_spend = spent;
  configured_limit = limit_or_zero c.daily_limit_usd;
  currency = price.currency;
}

-- The block, if a limit would be passed; the short window is tested first.
pub find_block : GateConfig → Instant → PricingEntry → ℕ → ℕ → ℕ → Option BudgetBlock
find_block c now price forecast short_spend daily_spend =
    if exceeds c.short_window_limit_usd (short_spend + forecast)
    then some (short_block c now price short_spend)
    else if exceeds c.daily_limit_usd (daily_spend + forecast)
    then some (daily_block c now price daily_spend)
    else none

-- A transaction: what it writes is kept unless a statement raises, since the database rolls it back
-- then.
pub transaction : Bool → Option CostEvents → Option CostEvents
transaction true written = none
transaction false written = written

-- The text that the health keeps.
abbrev pub failure_reason : String → String
failure_reason operation =
    text_append (text_append "cost ledger " operation) " failed; operator recovery required"

-- `_mark_ledger_failure`: BudgetGate latches its health, AttemptBudgetGate raises.
pub mark_ledger_failure : Kind → String → Gate → Result CostError (Unit {0}) × Gate
mark_ledger_failure budget_gate operation g =
    (ok tt, record g { health = record { healthy = false; reason = failure_reason operation } })
mark_ledger_failure attempt_gate operation g =
    (err (subsystem_unhealthy "cost ledger unavailable"), g)
