-- ===== src/Cost/Ledger/Sums.antt =====
-- How the spends that the ledger of openai_compatible_bridge/core/cost_tracking.py computes change
-- with its rows.
use openai_compatible_bridge.Prelude.{
  ℕ, ◌+◌, ◌≤◌, ◌≡◌, refl, inl, inr, Bool, true, Option, none, some, [], ◌∷◌, ◌++◌, arith,
  if◌then◌else◌, Bool-cases, count,
}
use openai_compatible_bridge.Cost.Ledger.{
  CostEvent, CostEvents, cost_of, sum_where, Settlement, settled, is_reservation, update_rows,
  retained, prune_events,
}

-- What a row adds to the sum of those that pass a test.
abbrev pub weight : (CostEvent → Bool) → CostEvent → ℕ
weight p e = if p e then cost_of e else 0

pub sum_where-append :
    (p : CostEvent → Bool) (es fs : CostEvents)
    → sum_where p (es ++ fs) ≡ sum_where p es + sum_where p fs
unfolding sum_where
sum_where-append p [] fs = omega arith
sum_where-append p (e ∷ es) fs = ground (arith, sum_where-append p es fs)

pub sum_where-snoc :
    (p : CostEvent → Bool) (es : CostEvents) (e : CostEvent)
    → sum_where p (es ++ e ∷ []) ≡ sum_where p es + weight p e
unfolding sum_where
sum_where-snoc p es e = ground (arith, sum_where-append p es (e ∷ []))

-- A weaker test gives a greater sum.
pub sum_where-le :
    (p q : CostEvent → Bool)
    → ((e : CostEvent) → p e ≡ true → q e ≡ true)
    → (es : CostEvents) → sum_where p es ≤ sum_where q es
unfolding sum_where
sum_where-le p q h [] = omega arith
sum_where-le p q h (e ∷ es) = ground (arith, h e, sum_where-le p q h es)

-- The row of a reservation.
unfoldable pub find_reservation : ℕ → CostEvents → Option CostEvent
find_reservation r [] = none
find_reservation r (e ∷ es) =
    let rest = find_reservation r es in if is_reservation r e then some e else rest

update_rows-absent :
    (r : ℕ) (s : Settlement) (es : CostEvents)
    → count (is_reservation r) es ≡ 0
    → update_rows r s es ≡ es
unfolding update_rows
update_rows-absent r s [] h = refl
update_rows-absent r s (e ∷ es) h = ground (arith, h, update_rows-absent r s es)

-- Settling the one row of a reservation replaces what that row adds to a sum.
pub update_rows-sum :
    (p : CostEvent → Bool) (r : ℕ) (s : Settlement) (es : CostEvents) (e : CostEvent)
    → count (is_reservation r) es ≡ 1
    → find_reservation r es ≡ some e
    → sum_where p (update_rows r s es) + weight p e ≡ sum_where p es + weight p (settled s e)
unfolding sum_where update_rows find_reservation
update_rows-sum p r s [] e c f = cc
update_rows-sum p r s (x ∷ es) e c f = elim (Bool-cases (is_reservation r x)) [
  | inl m ↦ ground (arith, m, f, update_rows-absent r s es (ground (arith, c, m)))
  | inr m ↦ ground (arith, m, f, c, update_rows-sum p r s es e)
]

-- A row that passes the test is kept by `prune`, so the sum is.
pub prune_events-sum :
    (p : CostEvent → Bool) (cutoff : ℕ)
    → ((e : CostEvent) → p e ≡ true → retained cutoff e ≡ true)
    → (es : CostEvents) → sum_where p (prune_events cutoff es) ≡ sum_where p es
unfolding sum_where prune_events
prune_events-sum p cutoff h [] = refl
prune_events-sum p cutoff h (e ∷ es) = ground (arith, h e, prune_events-sum p cutoff h es)
