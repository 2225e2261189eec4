-- ===== src/Cost/Reconciliation/Tests.antt =====
-- The reconciliation of a day without rows (openai_compatible_bridge/core/cost_tracking.py).
use openai_compatible_bridge.Prelude.{ℕ, ◌≡◌, ◌↔◌, refl, Option, none, some, []}
use openai_compatible_bridge.Cost.Ledger.{Instant, iso, daily_estimated_spend, sum_where}
use openai_compatible_bridge.Cost.Reconciliation.{
  matched, ReconciliationResult, BillingAnswer, cost, midnight, compared, reconciled, reconcile_day,
}
use openai_compatible_bridge.Cost.Reconciliation.Stored.{IsNear, reconcile_day_matched}

abbrev now : Instant
now = record { second = 200000; micro = 1 }

abbrev billed : ℕ → Option BillingAnswer
billed n = some (cost (some n))

-- A cost of 4 where the ledger has none, with a tolerance of 5.
abbrev near : ReconciliationResult
near = compared 5 (iso now) 1 0 4

near_result : (reconcile_day (billed 4) 5 now 1 [] []).0 ≡ some near
unfolding reconcile_day reconciled compared iso daily_estimated_spend sum_where
near_result = refl

reconcile_day_matched_example :
    (near.status ≡ matched) ↔ IsNear (billed 4) 5 (daily_estimated_spend (midnight 1) none [])
reconcile_day_matched_example = reconcile_day_matched (billed 4) 5 now 1 [] [] near near_result
