-- ===== src/Cost/Gate/Settle/Spend.antt =====
-- What settling a reservation does to the spend
-- (openai_compatible_bridge/core/cost_tracking.py).
use mathlib.Core.Path.{subst}
use openai_compatible_bridge.Prelude.{
  ℕ, ◌+◌, ◌≡◌, refl, ap, ◌∙◌, true, false, some, String, [], ◌∷◌, ◌++◌, arith, if◌then◌else◌, leb,
  count, count-append,
}
use openai_compatible_bridge.Prelude.Result.{ok}
use openai_compatible_bridge.Usage.{NormalizedUsage}
use openai_compatible_bridge.Cost.Pricing.{PricingEntry, price_for, estimate}
use openai_compatible_bridge.Cost.Ledger.{
  Instant, reserved, spend_statuses, CostEvent, CostEvents, selected, provider_passes, status_in,
  sum_estimated_since, Settlement, settled, update_reservation, is_reservation,
}
use openai_compatible_bridge.Cost.Ledger.Sums.{weight, find_reservation, update_rows-sum}
use openai_compatible_bridge.Cost.Gate.{
  Gate, Reservation, Attempt, Meets, Kind, tracked_filter, spend, transaction,
}
use openai_compatible_bridge.Cost.Gate.Preflight.{reserved_row, reservation_of, preflight}
use openai_compatible_bridge.Cost.Gate.Preflight.Admission.{
  InLowerCase, Admitted, preflight-Admitted, Admitted-spend, tracked_by-passes,
}
use openai_compatible_bridge.Cost.Gate.Settle.{
  settle, success, finalize_priced, release, estimate_only, finalize_success, release_nonbillable,
  finalize_estimated_only,
}

-- The row of a reservation that is still open, and the only one with its identifier.
pub record IsOpen (g : Gate) (r : Reservation) : Type 0 where
  pub row : CostEvent
  pub sole : count (is_reservation r.reservation_id) g.ledger ≡ 1
  pub found : find_reservation r.reservation_id g.ledger ≡ some row
  pub is_reserved : row.status ≡ some reserved
  pub eligible : row.billing_eligible ≡ true
  pub passes : provider_passes (tracked_filter g.config) row.provider ≡ true
  pub costs : row.estimated_cost_usd ≡ some r.forecast_cost_usd
  pub dated : row.created_at ≡ r.created_at

-- What a settled row adds to the spend of a window: its cost, if it was made inside the window.
abbrev pub within_window : ℕ → ℕ → ℕ → ℕ
within_window start created cost = if leb start created then cost else 0

module _ (g : Gate) (r : Reservation) (o : IsOpen g r) (start : ℕ) where
  open_row-weight :
      weight (selected start (some spend_statuses) (tracked_filter g.config)) o.row
      ≡ r.forecast_cost_usd
  unfolding selected
  open_row-weight = ground (arith, o.is_reserved, o.eligible, o.passes, o.costs)

  settled-weight :
      (s : Settlement)
      → status_in (some s.status) spend_statuses ≡ true
      → status_in (some s.status) (reserved ∷ []) ≡ false
      → s.billing_eligible ≡ true
      → weight (selected start (some spend_statuses) (tracked_filter g.config)) (settled s o.row)
        ≡ within_window start r.created_at s.estimated_cost_usd
  unfolding selected settled
  settled-weight s m n b = ground (arith, m, n, b, o.passes, o.dated)

  released-weight :
      (s : Settlement)
      → s.billing_eligible ≡ false
      → weight (selected start (some spend_statuses) (tracked_filter g.config)) (settled s o.row)
        ≡ 0
  unfolding selected settled
  released-weight s b = ground (arith, b)

  -- A settlement that succeeds replaces the weight of the row.
  settle-spend :
      (kind : Kind) (operation : String) (s : Settlement)
      → spend g.config start (settle kind operation false r s g).1.ledger + r.forecast_cost_usd
        ≡ spend g.config start g.ledger
          + weight
              (selected start (some spend_statuses) (tracked_filter g.config))
              (settled s o.row)
  unfolding settle transaction update_reservation sum_estimated_since
  settle-spend kind operation s = ground (
    arith,
    o.sole,
    open_row-weight,
    update_rows-sum (selected start (some spend_statuses) (tracked_filter g.config))
        r.reservation_id s g.ledger o.row o.sole o.found,
  )

  settle-spend_eligible :
      (kind : Kind) (operation : String) (s : Settlement)
      → status_in (some s.status) spend_statuses ≡ true
      → status_in (some s.status) (reserved ∷ []) ≡ false
      → s.billing_eligible ≡ true
      → spend g.config start (settle kind operation false r s g).1.ledger + r.forecast_cost_usd
        ≡ spend g.config start g.ledger + within_window start r.created_at s.estimated_cost_usd
  settle-spend_eligible kind operation s m n b =
      settle-spend kind operation s
      ∙ ap (λ x. spend g.config start g.ledger + x) (settled-weight s m n b)

  settle-spend_released :
      (kind : Kind) (operation : String) (s : Settlement)
      → s.billing_eligible ≡ false
      → spend g.config start (settle kind operation false r s g).1.ledger + r.forecast_cost_usd
        ≡ spend g.config start g.ledger
  settle-spend_released kind operation s b =
      omega (arith, settle-spend kind operation s, released-weight s b)

  -- Settling an open reservation, in a transaction that succeeds, replaces its forecast in the spend
  -- of each window: by nothing when it is released, by the forecast again when only the estimate is
  -- known and by the cost of the actual usage when it succeeded, the last two only for a window that
  -- the reservation was made in.
  pub settling-spend :
      (kind : Kind) (now : Instant) (reason : String) (usage : NormalizedUsage)
      (price : PricingEntry)
      → price_for r.model r.endpoint g.pricing ≡ some price
      → (spend g.config start (release_nonbillable kind false now (some r) reason g).1.ledger
            + r.forecast_cost_usd
          ≡ spend g.config start g.ledger)
        × (spend g.config start (finalize_estimated_only kind false now (some r) reason g).1.ledger
              + r.forecast_cost_usd
            ≡ spend g.config start g.ledger + within_window start r.created_at r.forecast_cost_usd)
        × (spend g.config start (finalize_success kind false now (some r) usage g).1.ledger
              + r.forecast_cost_usd
            ≡ spend g.config start g.ledger
              + within_window start r.created_at (estimate price usage))
  unfolding release_nonbillable finalize_estimated_only finalize_success finalize_priced release
      estimate_only success
  settling-spend kind now reason usage price q = (
    settle-spend_released kind "release" (release reason now) refl,
    settle-spend_eligible kind "estimated-only finalization" (estimate_only r.forecast_cost_usd now)
        refl refl refl,
    rw q (
        settle-spend_eligible kind "finalization" (success usage (estimate price usage) now) refl
          refl refl),
  )

find_reservation-snoc :
    (k : ℕ) (es : CostEvents) (e : CostEvent)
    → count (is_reservation k) es ≡ 0
    → is_reservation k e ≡ true
    → find_reservation k (es ++ e ∷ []) ≡ some e
unfolding find_reservation
find_reservation-snoc k [] e c m = rw m
find_reservation-snoc k (x ∷ es) e c m = ground (arith, c, find_reservation-snoc k es e, m)

-- An admitted attempt has an open reservation, if its identifier is new.
Admitted-IsOpen :
    {lower : String → String} {a : Attempt} {w : Meets} {g g' : Gate} {r : Reservation}
    (d : Admitted lower a w g g' r)
    → InLowerCase lower a.provider
    → count (is_reservation w.reservation_id) g.ledger ≡ 0
    → IsOpen g' r
unfolding reserved_row reservation_of
Admitted-IsOpen {lower} {a} {w} {g} {g'} {r} d low fresh =
    rw (d.written, d.forecast)
      (record {
        row = reserved_row g a w d.price;
        sole = ground (
          arith,
          fresh,
          count-append (is_reservation w.reservation_id) g.ledger (reserved_row g a w d.price ∷ []),
        );
        found =
            find_reservation-snoc w.reservation_id g.ledger (reserved_row g a w d.price) fresh
              (ground arith);
        is_reserved = refl;
        eligible = refl;
        passes =
            tracked_by-passes lower g.config g.config.tracked_providers a.provider low d.is_tracked;
        costs = refl;
        dated = refl;
      })

-- An attempt that is admitted and then released leaves every spend as it was before (provider names
-- are in lower case, the reservation's identifier is new, and the release's transaction succeeds).
pub release-preflight :
    (lower : String → String) (kind : Kind) (a : Attempt) (w : Meets) (g g' : Gate)
    (r : Reservation) (now : Instant) (reason : String) (start : ℕ)
    → InLowerCase lower a.provider
    → count (is_reservation w.reservation_id) g.ledger ≡ 0
    → preflight lower kind a w g ≡ (ok (some r), g')
    → spend g.config start (release_nonbillable kind false now (some r) reason g').1.ledger
      ≡ spend g.config start g.ledger
unfolding release release_nonbillable
release-preflight lower kind a w g g' r now reason start low fresh h =
    let d = preflight-Admitted lower kind a w g r g' h in
    let o : IsOpen g' r = Admitted-IsOpen d low fresh in
    let same : g'.config ≡ g.config = ap (λ x. x.config) d.written in
    let undone = settle-spend_released g' r o start kind "release" (release reason now) refl in
    let grown = Admitted-spend d low start in
    omega (
      arith,
      subst
          (λ c.
            spend c start (settle kind "release" false r (release reason now) g').1.ledger
              + r.forecast_cost_usd
            ≡ spend c start g'.ledger)
          same undone,
      grown,
    )
