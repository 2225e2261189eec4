-- ===== src/Cost/Gate/Preflight/Failures.antt =====
-- What `preflight` leaves behind when the ledger fails: BudgetGate of
-- openai_compatible_bridge/core/cost_tracking.py stays shut, AttemptBudgetGate of
-- openai_compatible_bridge/core/async_cost.py does not.
use openai_compatible_bridge.Prelude.{◌≡◌, refl, ap, ◌∙◌, true, false, some, String}
use openai_compatible_bridge.Prelude.Result.{err}
use openai_compatible_bridge.Cost.Pricing.{PricingEntry, price_for}
use openai_compatible_bridge.Cost.Gate.{
  Gate, subsystem_unhealthy, Attempt, Meets, Kind, budget_gate, attempt_gate, tracks_provider,
  transaction, mark_ledger_failure, failure_reason,
}
use openai_compatible_bridge.Cost.Gate.Preflight.{preflight_failed, committed, preflight}
use openai_compatible_bridge.Cost.Gate.Preflight.Admission.{preflight-committed}

module _ (lower : String → String) (a : Attempt) (w : Meets) (g : Gate) (price : PricingEntry)
    (is_tracked : tracks_provider lower g.config a.provider ≡ true)
    (healthy : g.health.healthy ≡ true)
    (priced : price_for a.model a.endpoint g.pricing ≡ some price) (broken : w.broken ≡ true) where
  broken-preflight : (kind : Kind) → preflight lower kind a w g ≡ preflight_failed kind g
  broken-preflight kind =
      preflight-committed lower kind a w g price is_tracked healthy priced
      ∙ (unfold committed transaction in rw broken refl)

  attempt_preflight_fails :
      preflight lower attempt_gate a w g ≡ (err (subsystem_unhealthy "cost ledger unavailable"), g)
  unfolding preflight_failed
  attempt_preflight_fails = broken-preflight attempt_gate

  -- When a statement of the transaction fails, BudgetGate writes nothing and marks itself unhealthy,
  -- and then it refuses any attempt of a tracked provider and stays as it is; AttemptBudgetGate
  -- refuses the attempt and stays as it was, so that it judges the next attempt as if the failed one
  -- had not been made. (The provider of the failed attempt is tracked, the gate was healthy and the
  -- model has a price.)
  pub preflight_fails_closed :
      (a' : Attempt) (w' : Meets)
      → tracks_provider lower g.config a'.provider ≡ true
      → ((preflight lower budget_gate a w g).1.ledger ≡ g.ledger)
        × ((preflight lower budget_gate a w g).1.health.healthy ≡ false)
        × (preflight lower budget_gate a' w' (preflight lower budget_gate a w g).1 ≡ (
          err (subsystem_unhealthy (failure_reason "preflight")),
          (preflight lower budget_gate a w g).1,
        ))
        × (preflight lower attempt_gate a w g
            ≡ (err (subsystem_unhealthy "cost ledger unavailable"), g))
        × (preflight lower attempt_gate a' w' (preflight lower attempt_gate a w g).1
            ≡ preflight lower attempt_gate a' w' g)
  preflight_fails_closed a' w' t = rw (broken-preflight budget_gate) (
      unfold preflight_failed mark_ledger_failure in
      (
        refl,
        refl,
        unfold preflight in rw t refl,
        attempt_preflight_fails,
        ap (λ x. preflight lower attempt_gate a' w' x.1) attempt_preflight_fails,
      ))
