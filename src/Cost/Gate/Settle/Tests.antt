-- ===== src/Cost/Gate/Settle/Tests.antt =====
-- Settling a reservation of the test gate (openai_compatible_bridge/core/cost_tracking.py).
use openai_compatible_bridge.Prelude.{◌+◌, ◌≡◌, refl, false, some, [], ◌∷◌}
use openai_compatible_bridge.Usage.{NormalizedUsage, no_usage}
use openai_compatible_bridge.Cost.Pricing.{entry_for, pricing_fallbacks, price_for, estimate}
use openai_compatible_bridge.Cost.Ledger.{Instant, iso, provider_passes}
use openai_compatible_bridge.Cost.Ledger.Sums.{find_reservation}
use openai_compatible_bridge.Cost.Gate.{Gate, budget_gate, spend}
use openai_compatible_bridge.Cost.Gate.Preflight.{reserved_row, reservation_of}
use openai_compatible_bridge.Cost.Gate.Preflight.Tests.{
  lower, price, gate, attempt, meets, reservation, admitted, admission,
}
use openai_compatible_bridge.Cost.Gate.Settle.{
  finalize_success, release_nonbillable, finalize_estimated_only,
}
use openai_compatible_bridge.Cost.Gate.Settle.Spend.{
  IsOpen, within_window, settling-spend, release-preflight,
}

abbrev now : Instant
now = record { second = 90060; micro = 0 }

-- The actual usage, which costs 26.
abbrev actual : NormalizedUsage
actual = record no_usage { prompt_tokens = 10; completion_tokens = 1; total_tokens = 11 }

-- The gate with the row of the reservation.
abbrev reserving : Gate
reserving = record gate { ledger = reserved_row gate attempt (meets 1 false) price ∷ [] }

reservation-IsOpen : IsOpen reserving reservation
unfolding reserved_row reservation_of provider_passes iso find_reservation
reservation-IsOpen = record {
  row = reserved_row gate attempt (meets 1 false) price;
  sole = refl;
  found = refl;
  is_reserved = refl;
  eligible = refl;
  passes = refl;
  costs = refl;
  dated = refl;
}

is_priced : price_for reservation.model reservation.endpoint reserving.pricing ≡ some price
unfolding reservation_of price_for entry_for pricing_fallbacks
is_priced = refl

settling-spend_example :
    (spend reserving.config 0
          (release_nonbillable budget_gate false now (some reservation) "failed" reserving).1.ledger
        + reservation.forecast_cost_usd
      ≡ spend reserving.config 0 reserving.ledger)
    × (spend reserving.config 0
            (finalize_estimated_only budget_gate false now
              (some reservation)
              "failed"
              reserving).1.ledger
          + reservation.forecast_cost_usd
        ≡ spend reserving.config 0 reserving.ledger
          + within_window 0 reservation.created_at reservation.forecast_cost_usd)
    × (spend reserving.config 0
            (finalize_success budget_gate false now (some reservation) actual reserving).1.ledger
          + reservation.forecast_cost_usd
        ≡ spend reserving.config 0 reserving.ledger
          + within_window 0 reservation.created_at (estimate price actual))
settling-spend_example =
    settling-spend reserving reservation reservation-IsOpen 0 budget_gate now "failed" actual price
      is_priced

release-preflight_example :
    spend gate.config 500
      (release_nonbillable budget_gate false now (some reservation) "failed" admitted).1.ledger
    ≡ spend gate.config 500 gate.ledger
release-preflight_example =
    release-preflight lower budget_gate attempt (meets 1 false) gate admitted reservation now
      "failed" 500 refl refl admission
