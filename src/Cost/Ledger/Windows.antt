-- ===== src/Cost/Ledger/Windows.antt =====
-- The spend in a window of time (sum_estimated_since of
-- openai_compatible_bridge/core/cost_tracking.py): what pruning and the passing of time do to it,
-- and which rows the midnight of a day leaves out.
use openai_compatible_bridge.Prelude.{
  ℕ, ◌≤◌, ◌<◌, ◌≡◌, refl, ◌↔◌, ◌⊎◌, inl, inr, Bool, true, false, ◌&&◌, ◌||◌, Option, some, String,
  List, [], ◌∷◌, ◌++◌, arith, ◌==◌, leb, ltb, Bool-cases,
}
use openai_compatible_bridge.Cost.Ledger.{
  Instant, iso, day_start, reserved, CostEvent, CostEvents, status_in, spend_statuses, selected,
  sum_estimated_since, retained, prune_events,
}
use openai_compatible_bridge.Cost.Ledger.Sums.{sum_where-snoc, sum_where-le, prune_events-sum}

-- `prune` changes no spend of a window that begins at its cutoff or later: reservations stay,
-- however old they are, and so do the rows inside the window.
spend-prune_events :
    (cutoff start : ℕ) (providers : Option (List String)) (es : CostEvents)
    → cutoff ≤ start
    → sum_estimated_since start (some spend_statuses) providers (prune_events cutoff es)
      ≡ sum_estimated_since start (some spend_statuses) providers es
unfolding sum_estimated_since
spend-prune_events cutoff start providers es h =
    prune_events-sum (selected start (some spend_statuses) providers) cutoff keeps es
  where
    keeps :
        (e : CostEvent)
        → selected start (some spend_statuses) providers e ≡ true
        → retained cutoff e ≡ true
    keeps e q = unfold selected retained in ground (arith, q)

or_and_mono :
    (a a' r y : Bool) → (a ≡ true → a' ≡ true) → ((a || r) && y) ≡ true → ((a' || r) && y) ≡ true
or_and_mono true a' r y h q = ground (arith, h refl, q)
or_and_mono false a' true y h q = ground (arith, q)
or_and_mono false a' false y h q = cc

-- The spend of a window falls, or stays, as the beginning of the window moves on.
spend-later_start :
    (start start' : ℕ) (providers : Option (List String)) (es : CostEvents)
    → start ≤ start'
    → sum_estimated_since start' (some spend_statuses) providers es
      ≤ sum_estimated_since start (some spend_statuses) providers es
unfolding sum_estimated_since
spend-later_start start start' providers es h =
    sum_where-le (selected start' (some spend_statuses) providers)
      (selected start (some spend_statuses) providers) widens es
  where
    widens :
        (e : CostEvent)
        → selected start' (some spend_statuses) providers e ≡ true
        → selected start (some spend_statuses) providers e ≡ true
    widens e q =
        unfold selected in
        or_and_mono (leb start' e.created_at) (leb start e.created_at) _ _
          (λ k. ground (arith, k, h)) q

-- The order of the texts of two instants is the order of time, but for a whole second, which stands
-- behind every other instant of its second.
iso_order :
    (t u : Instant)
    → t.micro < 1000000
    → u.micro < 1000000
    → (iso t ≤ iso u) ↔ (
        (t.second < u.second)
        ⊎ ((t.second ≡ u.second) × ((u.micro ≡ 0) ⊎ ((0 < t.micro) × (t.micro ≤ u.micro)))))
unfolding iso
iso_order t u h k = (
  λ q. elim (Bool-cases (ltb t.second u.second)) [
    | inl e ↦ inl (ground (arith, e))
    | inr e ↦
        let same : t.second ≡ u.second = ground (arith, e, q, h, k) in
        inr (
          same,
          elim (Bool-cases (u.micro == 0)) [
            | inl z ↦ inl (ground (arith, z))
            | inr z ↦ inr (ground (arith, z, q, same, h, k), ground (arith, z, q, same, h, k))
          ],
        )
  ],
  λ q. ground (arith, q, h, k),
)

-- A row that is no reservation and was made in the first second of a day, but not on the second
-- itself, is missing from the daily spend that `preflight` compares with the limit, although it is
-- not older than the day.
pub first_second_uncounted :
    (now t : Instant) (e : CostEvent) (providers : Option (List String)) (es : CostEvents)
    → t.second ≡ (day_start now).second
    → 0 < t.micro
    → t.micro < 1000000
    → e.created_at ≡ iso t
    → status_in e.status (reserved ∷ []) ≡ false
    → sum_estimated_since (iso (day_start now)) (some spend_statuses) providers (es ++ e ∷ [])
      ≡ sum_estimated_since (iso (day_start now)) (some spend_statuses) providers es
unfolding sum_estimated_since
first_second_uncounted now t e providers es s p b c n = ground (
  arith,
  sum_where-snoc (selected (iso (day_start now)) (some spend_statuses) providers) es e,
  unselected,
)
  where
    late : leb (iso (day_start now)) e.created_at ≡ false
    late = unfold iso in ground (arith, c, s, p, b)

    unselected : selected (iso (day_start now)) (some spend_statuses) providers e ≡ false
    unselected = unfold selected in ground (arith, late, n)
