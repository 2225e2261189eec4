-- ===== src/Cost/Gate/Preflight/Reserved.antt =====
-- `preflight` of AttemptBudgetGate (openai_compatible_bridge/core/async_cost.py) for a provider that
-- its gate tracks.
use openai_compatible_bridge.Prelude.{
  ◌≡◌, ◌≢◌, ap, sym, ◌∙◌, inl, inr, Bool, true, ◌||◌, Option, none, some, String, arith, Bool-cases,
  Option-cases, is_empty,
}
use openai_compatible_bridge.Prelude.Result.{ok}
use openai_compatible_bridge.Cost.Pricing.{PricingEntry, price_for}
use openai_compatible_bridge.Cost.Ledger.{CostEvents}
use openai_compatible_bridge.Cost.Gate.{
  GateConfig, Gate, BudgetBlock, Attempt, Meets, attempt_gate, listed, tracks_provider,
}
use openai_compatible_bridge.Cost.Gate.Preflight.{
  preflight_failed, decide, answer, committed, admit_priced, preflight,
}
use openai_compatible_bridge.Cost.Gate.Preflight.Admission.{preflight-committed}

pub listed-tracks_provider :
    (lower : String → String) (c : GateConfig) (p : String)
    → lower p ≡ p
    → listed p c.tracked_providers ≡ true
    → tracks_provider lower c (some p) ≡ true
unfolding tracks_provider
listed-tracks_provider lower c p low h = rw low (rw h (or_true (is_empty c.tracked_providers)))
  where
    or_true : (b : Bool) → (b || true) ≡ true
    or_true b = ground arith

module _ (lower : String → String) (a : Attempt) (w : Meets) (g : Gate) where
  answer-ne-none : (price : PricingEntry) (b : Option BudgetBlock) → answer g a w price b ≢ ok none
  unfolding answer
  answer-ne-none price none h = cc
  answer-ne-none price (some b) h = cc

  committed-ne-none :
      (price : PricingEntry) (b : Option BudgetBlock) (o : Option CostEvents)
      → (committed attempt_gate g (answer g a w price b) o).0 ≢ ok none
  unfolding committed preflight_failed
  committed-ne-none price b none h = cc
  committed-ne-none price b (some es) h = answer-ne-none price b h

  -- The gate lets no attempt of a tracked provider through without a reservation.
  pub preflight-ne-none :
      tracks_provider lower g.config a.provider ≡ true
      → (preflight lower attempt_gate a w g).0 ≢ ok none
  preflight-ne-none t h = elim (Bool-cases g.health.healthy) [
    | inr u ↦ absurd (unfold preflight in ground (arith, h, t, u))
    | inl u ↦ elim (Option-cases (price_for a.model a.endpoint g.pricing)) [
      | inl n ↦ absurd (unfold preflight admit_priced in ground (arith, h, t, u, n))
      | inr (price, q) ↦ absurd (
          committed-ne-none price (decide g a w price) _
            (ap (λ x. x.0) (sym (preflight-committed lower attempt_gate a w g price t u q)) ∙ h))
    ]
  ]
