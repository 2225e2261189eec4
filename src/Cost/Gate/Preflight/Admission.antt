-- ===== src/Cost/Gate/Preflight/Admission.antt =====
-- When `preflight` (openai_compatible_bridge/core/cost_tracking.py) admits an attempt, and what its
-- rows do to the spend.
use mathlib.Core.Path.{subst}
use openai_compatible_bridge.Prelude.{
  ℕ, ◌+◌, ◌≤◌, ◌≡◌, ◌≢◌, refl, sym, ap, ◌∙◌, inl, inr, Bool, true, false, ◌||◌, Option, none, some,
  String, List, [], ◌∷◌, ◌++◌, arith, Bool-cases, Option-cases, str_eq,
}
use openai_compatible_bridge.Prelude.Result.{ok}
use openai_compatible_bridge.Cost.Pricing.{PricingEntry, price_for, estimate}
use openai_compatible_bridge.Cost.Ledger.{
  Instant, spend_statuses, CostEvent, CostEvents, insert_event, selected, provider_passes,
  provider_in, sum_estimated_since,
}
use openai_compatible_bridge.Cost.Ledger.Sums.{weight, sum_where-snoc}
use openai_compatible_bridge.Cost.Gate.{
  GateConfig, Gate, BudgetBlock, Reservation, Attempt, Meets, Kind, budget_gate, attempt_gate,
  listed, tracks_provider, tracked_filter, short_start, daily_start, spend, exceeds, find_block,
  transaction,
}
use openai_compatible_bridge.Cost.Gate.Preflight.{
  reserved_row, blocked_row, reservation_of, preflight_failed, decide, chosen_row, answer,
  committed, admit_priced, preflight,
}

-- A spend does not pass a limit.
abbrev pub Within : Option ℕ → ℕ → Type 0
Within none n = Unit
Within (some limit) n = n ≤ limit

-- Provider names are in lower case, as the bridge's own are.
abbrev pub InLowerCase : (String → String) → Option String → Type 0
InLowerCase lower none = Unit
InLowerCase lower (some p) = lower p ≡ p

listed-provider_in : (p : String) (ps : List String) → listed p ps ≡ provider_in (some p) ps
listed-provider_in p [] = refl
listed-provider_in p (x ∷ ps) = ap (λ b. str_eq p x || b) (listed-provider_in p ps)

-- A tracked attempt passes the filter of the queries.
pub tracked_by-passes :
    (lower : String → String) (c : GateConfig) (ps : List String) (p : Option String)
    → InLowerCase lower p
    → tracks_provider lower (record c { tracked_providers = ps }) p ≡ true
    → provider_passes (tracked_filter (record c { tracked_providers = ps })) p ≡ true
unfolding tracks_provider provider_passes
tracked_by-passes lower c [] p low t = refl
tracked_by-passes lower c (x ∷ ps) none low t = cc
tracked_by-passes lower c (x ∷ ps) (some p) low t =
    rw (← listed-provider_in p (x ∷ ps)) (subst (λ q. listed q (x ∷ ps) ≡ true) low t)

module _ (lower : String → String) (g : Gate) (a : Attempt) (w : Meets) (price : PricingEntry) where
  -- The row of a reservation counts in full in every window of the gate.
  pub reserved_row-weight :
      (start : ℕ)
      → InLowerCase lower a.provider
      → tracks_provider lower g.config a.provider ≡ true
      → weight
          (selected start (some spend_statuses) (tracked_filter g.config))
          (reserved_row g a w price)
        ≡ estimate price a.forecast_usage
  unfolding selected reserved_row
  reserved_row-weight start low t =
      ground (arith, tracked_by-passes lower g.config g.config.tracked_providers a.provider low t)

  -- The row of a blocked attempt counts in no window.
  pub blocked_row-weight :
      (b : BudgetBlock) (start : ℕ)
      → weight
          (selected start (some spend_statuses) (tracked_filter g.config))
          (blocked_row g a w price b)
        ≡ 0
  unfolding selected blocked_row
  blocked_row-weight b start = ground arith

pub insert_event-snoc :
    (e : CostEvent) (es es' : CostEvents) → insert_event e es ≡ some es' → es' ≡ es ++ e ∷ []
unfolding insert_event
insert_event-snoc e es es' h = ground (arith, h)

pub transaction-some :
    (broken : Bool) (o : Option CostEvents) (es : CostEvents)
    → transaction broken o ≡ some es
    → (broken ≡ false) × (o ≡ some es)
unfolding transaction
transaction-some true o es h = cc
transaction-some false o es h = (refl, h)

-- What an admission is: the gate wrote the row of a reservation and found no block.
pub record Admitted (lower : String → String) (a : Attempt) (w : Meets) (g g' : Gate)
    (r : Reservation) : Type 0 where
  pub price : PricingEntry
  pub priced : price_for a.model a.endpoint g.pricing ≡ some price
  pub is_tracked : tracks_provider lower g.config a.provider ≡ true
  pub no_block : decide g a w price ≡ none
  pub forecast : r ≡ reservation_of g a w price
  pub written : g' ≡ record g { ledger = g.ledger ++ reserved_row g a w price ∷ [] }

preflight_failed-ne-ok :
    (kind : Kind) (g g' : Gate) (o : Option Reservation) → preflight_failed kind g ≢ (ok o, g')
unfolding preflight_failed
preflight_failed-ne-ok budget_gate g g' o h = cc (ap (λ p. p.0) h)
preflight_failed-ne-ok attempt_gate g g' o h = cc (ap (λ p. p.0) h)

module _ (lower : String → String) (kind : Kind) (a : Attempt) (w : Meets) (g : Gate) where
  committed-Admitted :
      (r : Reservation) (g' : Gate) (price : PricingEntry) (b : Option BudgetBlock)
      (o : Option CostEvents)
      → tracks_provider lower g.config a.provider ≡ true
      → price_for a.model a.endpoint g.pricing ≡ some price
      → decide g a w price ≡ b
      → transaction w.broken (insert_event (chosen_row g a w price b) g.ledger) ≡ o
      → committed kind g (answer g a w price b) o ≡ (ok (some r), g')
      → Admitted lower a w g g' r
  unfolding committed answer chosen_row
  committed-Admitted r g' price b none t q d s h =
      absurd (preflight_failed-ne-ok kind g g' (some r) h)
  committed-Admitted r g' price (some x) (some es) t q d s h = cc (ap (λ p. p.0) h)
  committed-Admitted r g' price none (some es) t q d s h = record {
    price = price;
    priced = q;
    is_tracked = t;
    no_block = d;
    forecast = cc (ap (λ p. p.0) h);
    written =
        sym (ap (λ p. p.1) h)
        ∙ ap (λ l. record g { ledger = l })
            (insert_event-snoc (reserved_row g a w price) g.ledger es
              (transaction-some w.broken _ es s).1);
  }

  -- Behind its three checks the call is its transaction.
  pub preflight-committed :
      (price : PricingEntry)
      → tracks_provider lower g.config a.provider ≡ true
      → g.health.healthy ≡ true
      → price_for a.model a.endpoint g.pricing ≡ some price
      → preflight lower kind a w g
        ≡ committed kind g (answer g a w price (decide g a w price)) (
            transaction w.broken
              (insert_event (chosen_row g a w price (decide g a w price)) g.ledger))
  unfolding preflight admit_priced
  preflight-committed price t u q = rw (t, u, q)

  pub preflight-Admitted :
      (r : Reservation) (g' : Gate)
      → preflight lower kind a w g ≡ (ok (some r), g')
      → Admitted lower a w g g' r
  preflight-Admitted r g' h = elim (Bool-cases (tracks_provider lower g.config a.provider)) [
    | inr t ↦ absurd (unfold preflight in ground (arith, h, t))
    | inl t ↦ elim (Bool-cases g.health.healthy) [
      | inr u ↦ absurd (unfold preflight in ground (arith, h, t, u))
      | inl u ↦ elim (Option-cases (price_for a.model a.endpoint g.pricing)) [
        | inl n ↦ absurd (unfold preflight admit_priced in ground (arith, h, t, u, n))
        | inr (price, q) ↦
            committed-Admitted r g' price (decide g a w price) _ t q refl refl
              (sym (preflight-committed price t u q) ∙ h)
      ]
    ]
  ]

pub find_block-Within :
    (c : GateConfig) (now : Instant) (price : PricingEntry) (f s d : ℕ)
    → find_block c now price f s d ≡ none
    → Within c.short_window_limit_usd (s + f) × Within c.daily_limit_usd (d + f)
unfolding find_block
find_block-Within c now price f s d h = (
  within c.short_window_limit_usd _ (ground (arith, h)),
  within c.daily_limit_usd _ (ground (arith, h)),
)
  where
    within : (l : Option ℕ) (n : ℕ) → exceeds l n ≡ false → Within l n
    within none n e = tt
    within (some l) n e = ground (arith, e)

pub Within-find_block :
    (c : GateConfig) (now : Instant) (price : PricingEntry) (f s d : ℕ)
    → Within c.short_window_limit_usd (s + f)
    → Within c.daily_limit_usd (d + f)
    → find_block c now price f s d ≡ none
unfolding find_block
Within-find_block c now price f s d h k =
    rw (not_exceeded c.short_window_limit_usd _ h, not_exceeded c.daily_limit_usd _ k)
  where
    not_exceeded : (l : Option ℕ) (n : ℕ) → Within l n → exceeds l n ≡ false
    not_exceeded none n e = refl
    not_exceeded (some l) n e = ground (arith, e)

pub Admitted-forecast :
    {lower : String → String} {a : Attempt} {w : Meets} {g g' : Gate} {r : Reservation}
    (d : Admitted lower a w g g' r)
    → r.forecast_cost_usd ≡ estimate d.price a.forecast_usage
Admitted-forecast d = ap (λ x. x.forecast_cost_usd) d.forecast ∙ (unfold reservation_of in refl)

-- The row of the reservation is all that the ledger gains.
pub Admitted-spend :
    {lower : String → String} {a : Attempt} {w : Meets} {g g' : Gate} {r : Reservation}
    (d : Admitted lower a w g g' r)
    → InLowerCase lower a.provider
    → (start : ℕ)
    → spend g.config start g'.ledger ≡ spend g.config start g.ledger + r.forecast_cost_usd
unfolding sum_estimated_since
Admitted-spend {lower} {a} {w} {g} {g'} {r} d low start =
    ap (λ x. spend g.config start x.ledger) d.written
    ∙ sum_where-snoc (selected start (some spend_statuses) (tracked_filter g.config)) g.ledger
        (reserved_row g a w d.price)
    ∙ ap (λ n. spend g.config start g.ledger + n)
        (reserved_row-weight lower g a w d.price start low d.is_tracked ∙ sym (Admitted-forecast d))

-- When `preflight` returns a reservation, the spend of every window has grown by the forecast and by
-- nothing else, and it is within the limits: that of the short window up to now, and that of the
-- day. (Provider names are in lower case.)
pub preflight_admitted :
    (lower : String → String) (kind : Kind) (a : Attempt) (w : Meets) (g g' : Gate)
    (r : Reservation)
    → InLowerCase lower a.provider
    → preflight lower kind a w g ≡ (ok (some r), g')
    → ((start : ℕ)
        → spend g.config start g'.ledger ≡ spend g.config start g.ledger + r.forecast_cost_usd)
      × Within g.config.short_window_limit_usd
          (spend g.config (short_start g.config w.now) g'.ledger)
      × Within g.config.daily_limit_usd (spend g.config (daily_start w.now) g'.ledger)
preflight_admitted lower kind a w g g' r low h =
    let d : Admitted lower a w g g' r = preflight-Admitted lower kind a w g r g' h in
    let fits =
      find_block-Within g.config w.now d.price (estimate d.price a.forecast_usage)
        (spend g.config (short_start g.config w.now) g.ledger)
        (spend g.config (daily_start w.now) g.ledger) (unfold decide in d.no_block) in
    let total = λ (start : ℕ).
      Admitted-spend d low start
      ∙ ap (λ n. spend g.config start g.ledger + n) (Admitted-forecast d) in
    (
      Admitted-spend d low,
      subst (Within g.config.short_window_limit_usd) (sym (total (short_start g.config w.now)))
          fits.0,
      subst (Within g.config.daily_limit_usd) (sym (total (daily_start w.now))) fits.1,
    )
