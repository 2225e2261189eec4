-- ===== src/Cost/Gate/Preflight/Tests.antt =====
-- A gate with two limits, its attempts, and the instances of the theorems about `preflight`
-- (openai_compatible_bridge/core/cost_tracking.py).
use openai_compatible_bridge.Prelude.{
  ℕ, ◌+◌, ◌≡◌, refl, ◌↔◌, Bool, true, false, some, String, [], ◌∷◌, str_eq, if◌then◌else◌,
}
use openai_compatible_bridge.Prelude.Result.{ok, err}
use openai_compatible_bridge.Usage.{no_usage}
use openai_compatible_bridge.Cost.Pricing.{
  PricingEntry, entry_for, pricing_fallbacks, price_for, estimate,
}
use openai_compatible_bridge.Cost.Ledger.{
  iso, insert_event, selected, provider_passes, sum_where, sum_estimated_since,
}
use openai_compatible_bridge.Cost.Gate.{
  Gate, BudgetBlock, subsystem_unhealthy, budget_exceeded, Reservation, Attempt, Meets, budget_gate,
  attempt_gate, tracks_provider, short_start, daily_start, spend, short_block, find_block,
  transaction, failure_reason,
}
use openai_compatible_bridge.Cost.Gate.Preflight.{
  reserved_row, blocked_row, reservation_of, decide, chosen_row, answer, committed, admit_priced,
  preflight,
}
use openai_compatible_bridge.Cost.Gate.Preflight.Admission.{Within, preflight_admitted}
use openai_compatible_bridge.Cost.Gate.Preflight.Blocking.{preflight_decides}
use openai_compatible_bridge.Cost.Gate.Preflight.Failures.{preflight_fails_closed}

-- `str.lower` on the names that the tests use.
abbrev pub lower : String → String
lower s = if str_eq s "VERTEX" then "vertex" else s

abbrev pub price : PricingEntry
price = record {
  input_per_million = 2;
  output_per_million = 6;
  embedding_per_million = 1;
  rerank_per_unit = 9;
  currency = "USD";
  source = "list";
  version = "1";
}

-- A short window of ten minutes with a limit of 100, a daily limit of 150.
abbrev pub gate : Gate
gate = record {
  config = record {
    short_window_seconds = 600;
    short_window_limit_usd = some 100;
    daily_limit_usd = some 150;
    tracked_providers = "vertex" ∷ [];
  };
  pricing = ("gemini", "chat", price) ∷ [];
  ledger = [];
  health = record { healthy = true; reason = "" };
}

-- An attempt that is forecast to cost 80.
abbrev pub attempt : Attempt
attempt = record {
  endpoint = "chat";
  model = "gemini";
  forecast_usage = record no_usage {
    prompt_tokens = 10;
    completion_tokens = 10;
    total_tokens = 20;
  };
  provider = some "vertex";
}

abbrev pub meets : ℕ → Bool → Meets
meets k broken = record {
  now = record { second = 90000; micro = 0 };
  reservation_id = k;
  internal_request_id = k;
  event_id = k;
  broken = broken;
}

abbrev pub admitted : Gate
admitted = (preflight lower budget_gate attempt (meets 1 false) gate).1

abbrev pub reservation : Reservation
reservation = reservation_of gate attempt (meets 1 false) price

pub admission :
    preflight lower budget_gate attempt (meets 1 false) gate ≡ (ok (some reservation), admitted)
unfolding preflight admit_priced committed answer chosen_row decide reserved_row reservation_of
    find_block transaction tracks_provider insert_event sum_estimated_since sum_where selected iso
    provider_passes price_for entry_for pricing_fallbacks estimate
admission = refl

pub attempt_admission :
    (preflight lower attempt_gate attempt (meets 1 false) gate).0 ≡ ok (some reservation)
unfolding preflight admit_priced committed answer chosen_row decide reserved_row reservation_of
    find_block transaction tracks_provider insert_event sum_estimated_since sum_where selected iso
    provider_passes price_for entry_for pricing_fallbacks estimate
attempt_admission = refl

-- A second attempt passes the limit of the short window.
abbrev block : BudgetBlock
block = short_block gate.config (meets 2 false).now price 80

abbrev refused : Gate
refused = (preflight lower budget_gate attempt (meets 2 false) admitted).1

refusal :
    preflight lower budget_gate attempt (meets 2 false) admitted
    ≡ (err (budget_exceeded block), refused)
unfolding preflight admit_priced committed answer chosen_row decide reserved_row blocked_row
    reservation_of find_block transaction tracks_provider insert_event sum_estimated_since sum_where
    selected iso provider_passes price_for entry_for pricing_fallbacks estimate
refusal = refl

preflight_admitted_example :
    ((start : ℕ)
      → spend gate.config start admitted.ledger
        ≡ spend gate.config start gate.ledger + reservation.forecast_cost_usd)
    × Within gate.config.short_window_limit_usd
        (spend gate.config (short_start gate.config (meets 1 false).now) admitted.ledger)
    × Within gate.config.daily_limit_usd
        (spend gate.config (daily_start (meets 1 false).now) admitted.ledger)
preflight_admitted_example =
    preflight_admitted lower budget_gate attempt (meets 1 false) gate admitted reservation refl
      admission

preflight_decides_example :
    ((r : Reservation) × ((preflight lower budget_gate attempt (meets 1 false) gate).0
        ≡ ok (some r)))
    ↔ (Within gate.config.short_window_limit_usd (
          spend gate.config (short_start gate.config (meets 1 false).now) gate.ledger
          + estimate price attempt.forecast_usage)
        × Within gate.config.daily_limit_usd (
            spend gate.config (daily_start (meets 1 false).now) gate.ledger
            + estimate price attempt.forecast_usage))
unfolding tracks_provider price_for entry_for pricing_fallbacks
preflight_decides_example =
    preflight_decides lower budget_gate attempt (meets 1 false) gate price refl refl refl refl refl

preflight_fails_closed_example :
    ((preflight lower budget_gate attempt (meets 1 true) gate).1.ledger ≡ gate.ledger)
    × ((preflight lower budget_gate attempt (meets 1 true) gate).1.health.healthy ≡ false)
    × (preflight lower budget_gate attempt
          (meets 2 false)
          (preflight lower budget_gate attempt (meets 1 true) gate).1
        ≡ (
          err (subsystem_unhealthy (failure_reason "preflight")),
          (preflight lower budget_gate attempt (meets 1 true) gate).1,
        ))
    × (preflight lower attempt_gate attempt (meets 1 true) gate
        ≡ (err (subsystem_unhealthy "cost ledger unavailable"), gate))
    × (preflight lower attempt_gate attempt
          (meets 2 false)
          (preflight lower attempt_gate attempt (meets 1 true) gate).1
        ≡ preflight lower attempt_gate attempt (meets 2 false) gate)
unfolding tracks_provider price_for entry_for pricing_fallbacks
preflight_fails_closed_example =
    preflight_fails_closed lower attempt (meets 1 true) gate price refl refl refl refl attempt
      (meets 2 false) refl
