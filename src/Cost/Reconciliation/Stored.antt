-- ===== src/Cost/Reconciliation/Stored.antt =====
-- What `reconcile_day` (openai_compatible_bridge/core/cost_tracking.py) finds and stores.
use openai_compatible_bridge.Prelude.{
  ℕ, ◌+◌, ◌≤◌, ◌≡◌, ◌≢◌, ◌↔◌, refl, sym, ap, ◌∙◌, Option, none, some, some_inj, List, [], ◌∷◌,
  arith, ◌==◌, if◌then◌else◌, leb,
}
use mathlib.Core.Path.{subst}
use openai_compatible_bridge.Prelude.Int.{sub_ℕ, abs}
use openai_compatible_bridge.Cost.Ledger.{Instant, CostEvents, daily_estimated_spend}
use openai_compatible_bridge.Cost.Reconciliation.{
  matched, mismatch, ReconciliationResult, BillingAnswer, permission_denied, failed, not_yet, cost,
  record_result, midnight, compared, uncompared, reconciled, reconcile_day,
}

-- The stored result of a day.
pub stored : ℕ → List ReconciliationResult → Option ReconciliationResult
stored day [] = none
stored day (x ∷ xs) = let rest = stored day xs in if x.day == day then some x else rest

record_result-stored :
    (r : ReconciliationResult) (xs : List ReconciliationResult)
    → stored r.day (record_result r xs) ≡ some r
unfolding stored record_result
record_result-stored r [] = ground arith
record_result-stored r (x ∷ xs) = ground (arith, record_result-stored r xs)

record_result-others :
    (r : ReconciliationResult) (k : ℕ) (xs : List ReconciliationResult)
    → r.day ≢ k
    → stored k (record_result r xs) ≡ stored k xs
unfolding stored record_result
record_result-others r k [] n = ground (arith, n)
record_result-others r k (x ∷ xs) n = ground (arith, n, record_result-others r k xs n)

abbrev after : List ReconciliationResult → Option ReconciliationResult → List ReconciliationResult
after results o = elim o [ none ↦ results | some x ↦ record_result x results ]

reconciled-day :
    (answer : Option BillingAnswer) (tolerance checked_at day wrapper : ℕ)
    (r : ReconciliationResult)
    → reconciled answer tolerance checked_at day wrapper ≡ some r
    → r.day ≡ day
unfolding reconciled compared uncompared
reconciled-day none tolerance checked_at day wrapper r h = sym (ap (λ x. x.day) (some_inj h))
reconciled-day (some (permission_denied text)) tolerance checked_at day wrapper r h =
    sym (ap (λ x. x.day) (some_inj h))
reconciled-day (some (failed text)) tolerance checked_at day wrapper r h =
    sym (ap (λ x. x.day) (some_inj h))
reconciled-day (some not_yet) tolerance checked_at day wrapper r h =
    sym (ap (λ x. x.day) (some_inj h))
reconciled-day (some (cost none)) tolerance checked_at day wrapper r h = cc
reconciled-day (some (cost (some billed))) tolerance checked_at day wrapper r h =
    sym (ap (λ x. x.day) (some_inj h))

-- What `reconcile_day` returns is the stored result of its day, whatever was stored before, and the
-- result of any other day stays.
reconcile_day_stores :
    (answer : Option BillingAnswer) (tolerance : ℕ) (now : Instant) (day k : ℕ) (es : CostEvents)
    (results : List ReconciliationResult) (r : ReconciliationResult)
    → (reconcile_day answer tolerance now day es results).0 ≡ some r
    → day ≢ k
    → (stored day (reconcile_day answer tolerance now day es results).1 ≡ some r)
      × (stored k (reconcile_day answer tolerance now day es results).1 ≡ stored k results)
unfolding reconcile_day
reconcile_day_stores answer tolerance now day k es results r h n =
    let same_day = reconciled-day answer tolerance _ day _ r h in
    let written : (reconcile_day answer tolerance now day es results).1 ≡ record_result r results =
      ap (after results) h in
    (
      ap (stored day) written
          ∙ subst (λ d. stored d (record_result r results) ≡ some r) same_day
              (record_result-stored r results),
      ap (stored k) written
          ∙ record_result-others r k results (subst (λ d. d ≢ k) (sym same_day) n),
    )

-- When the two costs are near enough.
abbrev pub IsNear : Option BillingAnswer → ℕ → ℕ → Type 0
IsNear answer tolerance wrapper =
    (billed : ℕ) × (answer ≡ some (cost (some billed)))
    × (wrapper ≤ billed + tolerance)
    × (billed ≤ wrapper + tolerance)

cost-inj :
    (a b : ℕ) → Path (Option BillingAnswer) (some (cost (some a))) (some (cost (some b))) → a ≡ b
cost-inj a b h = cc

reconciled-matched :
    (answer : Option BillingAnswer) (tolerance checked_at day wrapper : ℕ)
    (r : ReconciliationResult)
    → reconciled answer tolerance checked_at day wrapper ≡ some r
    → (r.status ≡ matched) ↔ IsNear answer tolerance wrapper
unfolding reconciled compared uncompared
reconciled-matched none tolerance checked_at day wrapper r h =
    (λ e. cc (ap (λ x. x.status) (some_inj h) ∙ e), λ n. cc n.1)
reconciled-matched (some (permission_denied text)) tolerance checked_at day wrapper r h =
    (λ e. cc (ap (λ x. x.status) (some_inj h) ∙ e), λ n. cc n.1)
reconciled-matched (some (failed text)) tolerance checked_at day wrapper r h =
    (λ e. cc (ap (λ x. x.status) (some_inj h) ∙ e), λ n. cc n.1)
reconciled-matched (some not_yet) tolerance checked_at day wrapper r h =
    (λ e. cc (ap (λ x. x.status) (some_inj h) ∙ e), λ n. cc n.1)
reconciled-matched (some (cost none)) tolerance checked_at day wrapper r h = cc
reconciled-matched (some (cost (some billed))) tolerance checked_at day wrapper r h =
    let q : (if leb (abs (sub_ℕ wrapper billed)) tolerance then matched else mismatch) ≡ r.status =
      ap (λ x. x.status) (some_inj h) in
    (
      λ e. (billed, refl, ground (arith, e, q), ground (arith, e, q)),
      λ (b, e, up, down).
          let same : billed ≡ b = cost-inj billed b e in sym q ∙ ground (arith, same, up, down),
    )

-- A result of `reconcile_day` is a match exactly when the billing export gave a cost and this cost
-- and the day's own spend differ by no more than the tolerance.
pub reconcile_day_matched :
    (answer : Option BillingAnswer) (tolerance : ℕ) (now : Instant) (day : ℕ) (es : CostEvents)
    (results : List ReconciliationResult) (r : ReconciliationResult)
    → (reconcile_day answer tolerance now day es results).0 ≡ some r
    → (r.status ≡ matched) ↔ IsNear answer tolerance (daily_estimated_spend (midnight day) none es)
unfolding reconcile_day
reconcile_day_matched answer tolerance now day es results r h =
    reconciled-matched answer tolerance _ day _ r h
