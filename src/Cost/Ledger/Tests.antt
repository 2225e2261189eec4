-- ===== src/Cost/Ledger/Tests.antt =====
-- Rows of the cost ledger (openai_compatible_bridge/core/cost_tracking.py), and the instances of the
-- theorems about its windows.
use openai_compatible_bridge.Prelude.{ℕ, ◌≡◌, refl, true, none, some, [], ◌∷◌, ◌++◌, arith}
use openai_compatible_bridge.Usage.{no_usage}
use openai_compatible_bridge.Cost.Ledger.{
  Instant, iso, Status, reserved, finalized, estimated_only, CostEvent, CostEvents, spend_statuses,
  sum_estimated_since, daily_estimated_spend, selected, sum_where, on_day, provider_passes,
}
use openai_compatible_bridge.Cost.Ledger.Windows.{first_second_uncounted}

abbrev at : ℕ → ℕ → Instant
at s m = record { second = s; micro = m }

abbrev row : ℕ → Status → ℕ → Instant → CostEvent
row k status cost t = record {
  event_id = k;
  reservation_id = some k;
  internal_request_id = some k;
  provider = some "vertex";
  endpoint = some "chat";
  model = some "gemini";
  status = some status;
  billing_eligible = true;
  limit_type = none;
  usage = no_usage;
  forecast_cost_usd = some cost;
  estimated_cost_usd = some cost;
  currency = some "USD";
  pricing_source = some "list";
  pricing_version = some "1";
  window_started_at = some 0;
  created_at = iso t;
  finalized_at = none;
}

-- A reservation that was never settled, and two rows of the second day.
abbrev two_days : CostEvents
two_days =
    row 1 reserved 5 (at 10 0)
    ∷ row 2 finalized 7 (at 86500 25)
    ∷ row 3 estimated_only 11 (at 90000 0)
    ∷ []

-- The spend of a window counts the old reservation, the spend of the day does not.
old_reservation_counts :
    (sum_estimated_since (iso (at 86400 0)) (some spend_statuses) none two_days ≡ 23)
    × (daily_estimated_spend (at 86400 0) none two_days ≡ 18)
unfolding sum_estimated_since sum_where selected iso provider_passes daily_estimated_spend on_day
old_reservation_counts = (refl, refl)

-- Half a second past midnight.
first_second_uncounted_example :
    sum_estimated_since
      (iso (at 86400 0))
      (some spend_statuses)
      none
      (two_days ++ row 4 finalized 3 (at 86400 500000) ∷ [])
    ≡ sum_estimated_since (iso (at 86400 0)) (some spend_statuses) none two_days
first_second_uncounted_example =
    first_second_uncounted (at 90001 0) (at 86400 500000) (row 4 finalized 3 (at 86400 500000)) none
      two_days refl (omega arith) (omega arith) refl refl
