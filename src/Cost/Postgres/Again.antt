-- ===== src/Cost/Postgres/Again.antt =====
-- Settling twice: a settlement that is repeated changes nothing.
use openai_compatible_bridge.Prelude.{
  ℕ, Bool, true, false, Option, none, some, [], ◌∷◌, eq_iff, ◌≡◌, refl, ap, ◌∙◌, arith, by_branches,
  Bool-cases, inl, inr,
}
use openai_compatible_bridge.Prelude.Result.{Result, ok, Ensures, Ensures-eq}
use openai_compatible_bridge.Usage.{NormalizedUsage}
use openai_compatible_bridge.Cost.Ledger.{
  Status, reserved, blocked, finalized, estimated_only, released, same_status, CostEvent,
  CostEvents, status_in, Settlement, settled, is_reservation, update_rows,
}
use openai_compatible_bridge.Cost.Ledger.Sums.{find_reservation}
use openai_compatible_bridge.Cost.Postgres.{
  LedgerError, is_reserved, same_bool, same_usage, settles, same_changes, settle_row,
  update_reservation,
}

same_status_refl : (s : Status) → same_status s s ≡ true
same_status_refl reserved = refl
same_status_refl blocked = refl
same_status_refl finalized = refl
same_status_refl estimated_only = refl
same_status_refl (released reason) = (eq_iff reason reason).1 refl

same_bool_refl : (b : Bool) → same_bool b b ≡ true
same_bool_refl true = refl
same_bool_refl false = refl

same_usage_refl : (u : NormalizedUsage) → same_usage u u ≡ true
unfolding same_usage
same_usage_refl u = ground arith

-- A settlement with the same changes, at another time.
abbrev pub at_time : ℕ → Settlement → Settlement
at_time t s = record s { finalized_at = t }

same_changes-settled :
    (s : Settlement) (t : ℕ) (e : CostEvent) → same_changes (at_time t s) (settled s e) ≡ true
unfolding same_changes settled
same_changes-settled s t e =
    rw (same_status_refl s.status)
      (rw (same_bool_refl s.billing_eligible) (rw (same_usage_refl _) (ground arith)))

settled_found : Settlement → Option CostEvent → Option CostEvent
settled_found s none = none
settled_found s (some e) = some (settled s e)

find_reservation-update_rows :
    (r : ℕ) (s : Settlement) (es : CostEvents) (e : CostEvent)
    → find_reservation r es ≡ some e
    → find_reservation r (update_rows r s es) ≡ some (settled s e)
unfolding find_reservation update_rows settled settled_found
find_reservation-update_rows r s [] e h = cc
find_reservation-update_rows r s (x ∷ es) e h = elim (Bool-cases (is_reservation r x)) [
  | inl b ↦ let found : some x ≡ some e = rw b at h in rw b (rw b (ap (settled_found s) found))
  | inr b ↦
      let later : find_reservation r es ≡ some e = rw b at h in
      rw b (rw b (find_reservation-update_rows r s es e later))
]

is_settled : (s : Status) → settles s ≡ true → status_in (some s) (reserved ∷ []) ≡ false
is_settled reserved h = cc
is_settled blocked h = cc
is_settled finalized h = refl
is_settled estimated_only h = refl
is_settled (released reason) h = refl

settled_unreserved :
    (s : Settlement) (e : CostEvent) → settles s.status ≡ true → is_reserved (settled s e) ≡ false
unfolding settled
settled_unreserved s e h = is_settled s.status h

same_changes-at_time :
    (s : Settlement) (t : ℕ) (e : CostEvent) → same_changes (at_time t s) e ≡ same_changes s e
unfolding same_changes
same_changes-at_time s t e = refl

-- The repeated settlement, on the table after the first.
Repeats : ℕ → Settlement → ℕ → Result LedgerError CostEvents → Type 0
Repeats r s t = Ensures (λ (es : CostEvents). update_reservation r (at_time t s) es ≡ ok es)

settled_again :
    (r : ℕ) (s : Settlement) (t : ℕ) (es : CostEvents) (e : CostEvent)
    → settles s.status ≡ true
    → find_reservation r es ≡ some e
    → update_reservation r (at_time t s) (update_rows r s es) ≡ ok (update_rows r s es)
unfolding update_reservation settle_row
settled_again r s t es e h f = rw h (
    rw (find_reservation-update_rows r s es e f)
      (rw (settled_unreserved s e h) (rw (same_changes-settled s t e) refl)))

same_again :
    (r : ℕ) (s : Settlement) (t : ℕ) (es : CostEvents) (e : CostEvent)
    → settles s.status ≡ true
    → find_reservation r es ≡ some e
    → is_reserved e ≡ false
    → same_changes s e ≡ true
    → update_reservation r (at_time t s) es ≡ ok es
unfolding update_reservation settle_row
same_again r s t es e h f b c = rw h (rw f (rw b (rw (same_changes-at_time s t e ∙ c) refl)))

settle_row-Repeats :
    (r : ℕ) (s : Settlement) (t : ℕ) (found : Option CostEvent) (es : CostEvents)
    → settles s.status ≡ true
    → find_reservation r es ≡ found
    → Repeats r s t (settle_row r s found es)
unfolding settle_row Repeats
settle_row-Repeats r s t none es h f = tt
settle_row-Repeats r s t (some e) es h f =
    by_branches (Repeats r s t) (is_reserved e) (λ b. settled_again r s t es e h f)
      (λ b.
        by_branches (Repeats r s t) (same_changes s e) (λ c. same_again r s t es e h f b c)
          (λ c. tt))

update_reservation-Repeats :
    (r : ℕ) (s : Settlement) (t : ℕ) (es : CostEvents) → Repeats r s t (update_reservation r s es)
unfolding update_reservation
update_reservation-Repeats r s t es =
    by_branches (Repeats r s t) (settles s.status)
      (λ b. settle_row-Repeats r s t (find_reservation r es) es b refl) (λ b. unfold Repeats in tt)

-- A settlement that PostgreSQL accepted can be sent again, at any later time: it is accepted and
-- changes nothing.
pub update_reservation_again :
    (r : ℕ) (s : Settlement) (t : ℕ) (es es' : CostEvents)
    → update_reservation r s es ≡ ok es'
    → update_reservation r (at_time t s) es' ≡ ok es'
unfolding Repeats
update_reservation_again r s t es es' h =
    Ensures-eq (λ (es : CostEvents). update_reservation r (at_time t s) es ≡ ok es) h
      (update_reservation-Repeats r s t es)
