-- ===== src/Cost/Gate/Preflight/Blocking.antt =====
-- When `preflight` (openai_compatible_bridge/core/cost_tracking.py) blocks an attempt, and that it
-- decides by the limits alone.
use mathlib.Core.Path.{subst}
use openai_compatible_bridge.Prelude.{
  ℕ, ◌+◌, ◌<◌, ◌≡◌, ◌≢◌, refl, sym, ap, ◌∙◌, inl, inr, true, false, Option, none, some, String, [],
  ◌∷◌, ◌++◌, ◌⊎◌, ◌↔◌, arith, length, length-append, Bool-cases, Option-cases,
}
use openai_compatible_bridge.Prelude.Result.{ok, err}
use openai_compatible_bridge.Cost.Pricing.{PricingEntry, price_for, estimate}
use openai_compatible_bridge.Cost.Ledger.{
  Instant, spend_statuses, short_window, daily, CostEvents, insert_event, has_event, selected,
  sum_estimated_since,
}
use openai_compatible_bridge.Cost.Ledger.Sums.{sum_where-snoc}
use openai_compatible_bridge.Cost.Gate.{
  GateConfig, Gate, BudgetBlock, CostError, budget_exceeded, Reservation, Attempt, Meets, Kind,
  budget_gate, attempt_gate, tracks_provider, limit_or_zero, tracked_filter, short_start,
  daily_start, spend, exceeds, short_block, daily_block, find_block, transaction,
}
use openai_compatible_bridge.Cost.Gate.Preflight.{
  reserved_row, blocked_row, reservation_of, preflight_failed, decide, chosen_row, answer,
  committed, admit_priced, preflight,
}
use openai_compatible_bridge.Cost.Gate.Preflight.Admission.{
  Within, insert_event-snoc, transaction-some, find_block-Within, Within-find_block,
  preflight-committed, blocked_row-weight,
}

-- What a block is: a limit would be passed, and the row of the attempt says so.
pub record Blocked (a : Attempt) (w : Meets) (g g' : Gate) (b : BudgetBlock) : Type 0 where
  pub price : PricingEntry
  pub priced : price_for a.model a.endpoint g.pricing ≡ some price
  pub found : decide g a w price ≡ some b
  pub written : g' ≡ record g { ledger = g.ledger ++ blocked_row g a w price b ∷ [] }

preflight_failed-ne-block :
    (kind : Kind) (g g' : Gate) (b : BudgetBlock)
    → preflight_failed kind g ≢ (err (budget_exceeded b), g')
unfolding preflight_failed
preflight_failed-ne-block budget_gate g g' b h = cc (ap (λ p. p.0) h)
preflight_failed-ne-block attempt_gate g g' b h = cc (ap (λ p. p.0) h)

block_of : CostError → Option BudgetBlock
block_of (budget_exceeded b) = some b
block_of _ = none

module _ (lower : String → String) (kind : Kind) (a : Attempt) (w : Meets) (g : Gate) where
  committed-Blocked :
      (b : BudgetBlock) (g' : Gate) (price : PricingEntry) (x : Option BudgetBlock)
      (o : Option CostEvents)
      → price_for a.model a.endpoint g.pricing ≡ some price
      → decide g a w price ≡ x
      → transaction w.broken (insert_event (chosen_row g a w price x) g.ledger) ≡ o
      → committed kind g (answer g a w price x) o ≡ (err (budget_exceeded b), g')
      → Blocked a w g g' b
  unfolding committed answer chosen_row
  committed-Blocked b g' price x none q d s h = absurd (preflight_failed-ne-block kind g g' b h)
  committed-Blocked b g' price none (some es) q d s h = cc (ap (λ p. p.0) h)
  committed-Blocked b g' price (some x) (some es) q d s h =
      let same : x ≡ b = cc (ap (λ p. p.0) h) in
      record {
        price = price;
        priced = q;
        found = d ∙ ap some same;
        written =
            sym (ap (λ p. p.1) h)
            ∙ ap (λ l. record g { ledger = l })
                (insert_event-snoc (blocked_row g a w price x) g.ledger es
                  (transaction-some w.broken _ es s).1)
            ∙ ap (λ y. record g { ledger = g.ledger ++ blocked_row g a w price y ∷ [] }) same;
      }

  preflight-Blocked :
      (b : BudgetBlock) (g' : Gate)
      → preflight lower kind a w g ≡ (err (budget_exceeded b), g')
      → Blocked a w g g' b
  preflight-Blocked b g' h = elim (Bool-cases (tracks_provider lower g.config a.provider)) [
    | inr t ↦ absurd (unfold preflight in ground (arith, h, t))
    | inl t ↦ elim (Bool-cases g.health.healthy) [
      | inr u ↦ absurd (unfold preflight in ground (arith, h, t, u))
      | inl u ↦ elim (Option-cases (price_for a.model a.endpoint g.pricing)) [
        | inl n ↦ absurd (unfold preflight admit_priced in ground (arith, h, t, u, n))
        | inr (price, q) ↦
            committed-Blocked b g' price (decide g a w price) _ q refl refl
              (sym (preflight-committed lower kind a w g price t u q) ∙ h)
      ]
    ]
  ]

-- A block names a limit that is set and that the spend in its window would pass with the forecast.
abbrev pub Passes : Option ℕ → ℕ → ℕ → BudgetBlock → Type 0
Passes none spent forecast b = ⊥
Passes (some limit) spent forecast b =
    (limit < spent + forecast) × (b.configured_limit ≡ limit) × (b.current_estimated_spend ≡ spent)

abbrev pub IsJustified : GateConfig → ℕ → ℕ → ℕ → BudgetBlock → Type 0
IsJustified c f s d b =
    ((b.limit_type ≡ short_window) × Passes c.short_window_limit_usd s f b)
    ⊎ ((b.limit_type ≡ daily) × Passes c.daily_limit_usd d f b)

exceeds-Passes :
    (l : Option ℕ) (spent f : ℕ) (b : BudgetBlock)
    → exceeds l (spent + f) ≡ true
    → b.configured_limit ≡ limit_or_zero l
    → b.current_estimated_spend ≡ spent
    → Passes l spent f b
exceeds-Passes none spent f b e c q = cc
exceeds-Passes (some l) spent f b e c q = (ground (arith, e), c, q)

find_block-IsJustified :
    (c : GateConfig) (now : Instant) (price : PricingEntry) (f s d : ℕ) (b : BudgetBlock)
    → find_block c now price f s d ≡ some b
    → IsJustified c f s d b
unfolding find_block
find_block-IsJustified c now price f s d b h =
    elim (Bool-cases (exceeds c.short_window_limit_usd (s + f))) [
      | inl e ↦ inl (short e (ground (arith, h, e)))
      | inr e ↦ elim (Bool-cases (exceeds c.daily_limit_usd (d + f))) [
        | inl k ↦ inr (day k (ground (arith, h, e, k)))
        | inr k ↦ absurd (ground (arith, h, e, k))
      ]
    ]
  where
    short :
        exceeds c.short_window_limit_usd (s + f) ≡ true
        → short_block c now price s ≡ b
        → (b.limit_type ≡ short_window) × Passes c.short_window_limit_usd s f b
    short e q =
        subst (λ x. (x.limit_type ≡ short_window) × Passes c.short_window_limit_usd s f x) q
          (unfold short_block in (refl, exceeds-Passes c.short_window_limit_usd s f _ e refl refl))

    day :
        exceeds c.daily_limit_usd (d + f) ≡ true
        → daily_block c now price d ≡ b
        → (b.limit_type ≡ daily) × Passes c.daily_limit_usd d f b
    day e q =
        subst (λ x. (x.limit_type ≡ daily) × Passes c.daily_limit_usd d f x) q
          (unfold daily_block in (refl, exceeds-Passes c.daily_limit_usd d f _ e refl refl))

-- When `preflight` blocks an attempt, a limit that is set would have been passed by the spend of its
-- window with the forecast, the block names that limit and that spend, the ledger gains one row,
-- and no spend changes.
preflight_blocked :
    (lower : String → String) (kind : Kind) (a : Attempt) (w : Meets) (g g' : Gate)
    (b : BudgetBlock)
    → preflight lower kind a w g ≡ (err (budget_exceeded b), g')
    → (price : PricingEntry) × (price_for a.model a.endpoint g.pricing ≡ some price)
      × IsJustified g.config
          (estimate price a.forecast_usage)
          (spend g.config (short_start g.config w.now) g.ledger)
          (spend g.config (daily_start w.now) g.ledger)
          b
      × (length g'.ledger ≡ length g.ledger + 1)
      × ((start : ℕ) → spend g.config start g'.ledger ≡ spend g.config start g.ledger)
preflight_blocked lower kind a w g g' b h =
    let d : Blocked a w g g' b = preflight-Blocked lower kind a w g b g' h in
    (
      d.price,
      d.priced,
      find_block-IsJustified g.config w.now d.price (estimate d.price a.forecast_usage) _ _ b
          (unfold decide in d.found),
      ap (λ x. length x.ledger) d.written
          ∙ length-append g.ledger (blocked_row g a w d.price b ∷ []),
      unchanged d,
    )
  where
    unchanged :
        (d : Blocked a w g g' b) (start : ℕ)
        → spend g.config start g'.ledger ≡ spend g.config start g.ledger
    unchanged d start =
        unfold sum_estimated_since in
        ap (λ x. spend g.config start x.ledger) d.written
        ∙ sum_where-snoc (selected start (some spend_statuses) (tracked_filter g.config)) g.ledger
            (blocked_row g a w d.price b)
        ∙ ground (arith, blocked_row-weight lower g a w d.price b start)

-- A transaction that succeeds gives the call's answer.
committed-writes :
    (kind : Kind) (a : Attempt) (w : Meets) (g : Gate) (price : PricingEntry)
    (x : Option BudgetBlock)
    → w.broken ≡ false
    → has_event w.event_id g.ledger ≡ false
    → (committed kind g
        (answer g a w price x)
        (transaction w.broken (insert_event (chosen_row g a w price x) g.ledger))).0
      ≡ answer g a w price x
unfolding committed transaction insert_event chosen_row reserved_row blocked_row
committed-writes kind a w g price none n fresh = rw (n, fresh)
committed-writes kind a w g price (some b) n fresh = rw (n, fresh)

-- For a tracked and priced attempt, on a healthy gate whose transaction succeeds and with an event
-- identifier that is new, `preflight` returns a reservation exactly when the spend of both windows
-- with the forecast is within the limits.
pub preflight_decides :
    (lower : String → String) (kind : Kind) (a : Attempt) (w : Meets) (g : Gate)
    (price : PricingEntry)
    → tracks_provider lower g.config a.provider ≡ true
    → g.health.healthy ≡ true
    → price_for a.model a.endpoint g.pricing ≡ some price
    → w.broken ≡ false
    → has_event w.event_id g.ledger ≡ false
    → ((r : Reservation) × ((preflight lower kind a w g).0 ≡ ok (some r))) ↔ (
        Within g.config.short_window_limit_usd
          (spend g.config (short_start g.config w.now) g.ledger + estimate price a.forecast_usage)
        × Within g.config.daily_limit_usd
            (spend g.config (daily_start w.now) g.ledger + estimate price a.forecast_usage))
preflight_decides lower kind a w g price t u q n fresh = (
  λ (r, e).
      find_block-Within g.config w.now price _ _ _
        (unfold decide in not_blocked _ refl (sym result ∙ e)),
  λ (h, k). (
    reservation_of g a w price,
    result ∙ ap (answer g a w price) (within_limits h k) ∙ (unfold answer in refl),
  ),
)
  where
    result : (preflight lower kind a w g).0 ≡ answer g a w price (decide g a w price)
    result =
        ap (λ x. x.0) (preflight-committed lower kind a w g price t u q)
        ∙ committed-writes kind a w g price (decide g a w price) n fresh

    within_limits :
        Within g.config.short_window_limit_usd
          (spend g.config (short_start g.config w.now) g.ledger + estimate price a.forecast_usage)
        → Within g.config.daily_limit_usd
            (spend g.config (daily_start w.now) g.ledger + estimate price a.forecast_usage)
        → decide g a w price ≡ none
    within_limits h k = unfold decide in Within-find_block g.config w.now price _ _ _ h k

    not_blocked :
        (x : Option BudgetBlock) {r : Reservation}
        → decide g a w price ≡ x
        → answer g a w price (decide g a w price) ≡ ok (some r)
        → decide g a w price ≡ none
    not_blocked none d e = d
    not_blocked (some b) d e = unfold answer in cc (ap (answer g a w price) (sym d) ∙ e)
