-- ===== src/Cost/Recording/FailClosed.antt =====
-- Which attempts before_attempt of openai_compatible_bridge/core/async_cost.py lets through.
use openai_compatible_bridge.Prelude.{
  ℕ, ◌≡◌, ◌⊎◌, inl, inr, refl, ap, sym, ◌∙◌, Bool, true, false, not, ◌||◌, Option, none, some,
  String, List, [], ◌∷◌, arith, Bool-cases, some_inj, str_eq, eq_iff, if◌then◌else◌,
}
use openai_compatible_bridge.Prelude.Result.{Result, ok, err}
use openai_compatible_bridge.Cost.Gate.{
  Gate, CostError, Reservation, Attempt, Meets, attempt_gate, listed, tracks_provider,
}
use openai_compatible_bridge.Cost.Gate.Preflight.{reservation_of, preflight}
use openai_compatible_bridge.Cost.Gate.Preflight.Admission.{Admitted, preflight-Admitted}
use openai_compatible_bridge.Cost.Gate.Preflight.Reserved.{
  preflight-ne-none, listed-tracks_provider,
}
use openai_compatible_bridge.Cost.Recording.{
  Billing, metered, subscription, nonbillable, Refusal, billing_unavailable, context_unavailable,
  config_error, subsystem_unhealthy, budget_exceeded, unexpected, Active, names, admitted,
  admit_metered, before_attempt,
}
use openai_compatible_bridge.Cost.Recording.Gated.{
  Billings, billing_of, is_metered_mode, metered_providers, tracking_metered, refusing, AdmitIo,
  unreached, late, in_time, attempt_for, admit_io,
}

-- An attempt that is paid for: its provider is metered, there is a gate, the active context belongs
-- to this accounting and names the provider, and the admission gave this answer.
record IsPaid (mode : Option Billing) (has_gate : Bool) (active : Option Active) (p : String)
    (answer : Result Refusal (Option Reservation)) (r : Option Reservation) : Type 0 where
  is_metered : mode ≡ some metered
  gated : has_gate ≡ true
  context : (c : Active) × (active ≡ some c) × (c.is_own ≡ true) × (names c.provider p ≡ true)
  admission : answer ≡ ok r

admitted-ok :
    (answer : Result Refusal (Option Reservation)) (r : Option Reservation) (k k' : ℕ)
    → admitted answer k ≡ (ok r, k')
    → (answer ≡ ok r) × (k' ≡ k)
unfolding admitted
admitted-ok (ok q) r k k' h = (ap (λ x. x.0) h, sym (ap (λ x. x.1) h))
admitted-ok (err budget_exceeded) r k k' h = cc (ap (λ x. x.0) h)
admitted-ok (err unexpected) r k k' h = cc (ap (λ x. x.0) h)
admitted-ok (err billing_unavailable) r k k' h = cc (ap (λ x. x.0) h)
admitted-ok (err context_unavailable) r k k' h = cc (ap (λ x. x.0) h)
admitted-ok (err config_error) r k k' h = cc (ap (λ x. x.0) h)
admitted-ok (err subsystem_unhealthy) r k k' h = cc (ap (λ x. x.0) h)

admit_metered-IsPaid :
    (has_gate : Bool) (active : Option Active) (p : String)
    (answer : Result Refusal (Option Reservation)) (r : Option Reservation) (k k' : ℕ)
    → admit_metered has_gate active p answer k ≡ (ok r, k')
    → (k' ≡ k) × IsPaid (some metered) has_gate active p answer r
unfolding admit_metered
admit_metered-IsPaid false active p answer r k k' h = cc (ap (λ x. x.0) h)
admit_metered-IsPaid true none p answer r k k' h = cc (ap (λ x. x.0) h)
admit_metered-IsPaid true (some c) p answer r k k' h =
    elim (Bool-cases (not c.is_own || not (names c.provider p))) [
      | inl e ↦ absurd (ground (arith, e, h))
      | inr e ↦
          let a : (answer ≡ ok r) × (k' ≡ k) = admitted-ok answer r k k' (ground (arith, e, h)) in
          (
            a.1,
            record {
              is_metered = refl;
              gated = refl;
              context = (c, refl, ground (arith, e), ground (arith, e));
              admission = a.0;
            },
          )
    ]

-- An attempt that is let through without a reservation is not billed; any other is paid for.
before_attempt-IsPaid :
    (mode : Option Billing) (has_gate : Bool) (active : Option Active) (p : String)
    (answer : Result Refusal (Option Reservation)) (r : Option Reservation) (k k' : ℕ)
    → before_attempt mode has_gate active p answer k ≡ (ok r, k')
    → (k' ≡ k)
      × ((((mode ≡ some subscription) ⊎ (mode ≡ some nonbillable)) × (r ≡ none))
          ⊎ IsPaid mode has_gate active p answer r)
unfolding before_attempt
before_attempt-IsPaid (some subscription) has_gate active p answer r k k' h =
    (sym (ap (λ x. x.1) h), inl (inl refl, cc (ap (λ x. x.0) h)))
before_attempt-IsPaid (some nonbillable) has_gate active p answer r k k' h =
    (sym (ap (λ x. x.1) h), inl (inr refl, cc (ap (λ x. x.0) h)))
before_attempt-IsPaid (some metered) has_gate active p answer r k k' h =
    let a = admit_metered-IsPaid has_gate active p answer r k k' h in (a.0, inr a.1)
before_attempt-IsPaid none has_gate active p answer r k k' h = cc (ap (λ x. x.0) h)

-- A metered provider is among those of the gate.
metered-listed :
    (p : String) (billing : Billings)
    → billing_of p billing ≡ some metered
    → listed p (metered_providers billing) ≡ true
unfolding billing_of metered_providers
metered-listed p [] h = absurd cc
metered-listed p ((key, mode) ∷ rest) h = elim (Bool-cases (str_eq key p)) [
  | inl m ↦
      let own : mode ≡ metered = some_inj (rw m at h) in
      rw own (
        ap (λ x. x || listed p (metered_providers rest))
          ((eq_iff p key).1 (sym ((eq_iff key p).0 m))))
  | inr m ↦ kept mode (metered-listed p rest (rw m at h))
]
  where
    kept :
        (mode : Billing)
        → listed p (metered_providers rest) ≡ true
        → listed p
            (if is_metered_mode mode then key ∷ metered_providers rest else metered_providers rest)
          ≡ true
    kept metered e = ground (arith, e)
    kept subscription e = e
    kept nonbillable e = e

module _ (lower : String → String) (a : Attempt) (w : Meets) (g : Gate) where
  -- What the gate grants to an attempt of a tracked provider.
  admit_io-Admitted :
      (io : AdmitIo) (r : Option Reservation)
      → tracks_provider lower g.config a.provider ≡ true
      → (admit_io lower io a w g).0 ≡ ok r
      → (q : Reservation) × (r ≡ some q) × Admitted lower a w g (admit_io lower io a w g).1 q
  unfolding admit_io
  admit_io-Admitted (unreached e) r t h = absurd cc
  admit_io-Admitted (late e) r t h = absurd cc
  admit_io-Admitted in_time r t h = granted (preflight lower attempt_gate a w g).0 refl r h
    where
      granted :
          (o : Result CostError (Option Reservation))
          → (preflight lower attempt_gate a w g).0 ≡ o
          → (r : Option Reservation) → refusing o ≡ ok r
          → (q : Reservation) × (r ≡ some q)
            × Admitted lower a w g (preflight lower attempt_gate a w g).1 q
      granted (err e) own r k = absurd cc
      granted (ok none) own r k = absurd (preflight-ne-none lower a w g t own)
      granted (ok (some q)) own r k = (
        q,
        cc,
        preflight-Admitted lower attempt_gate a w g q (preflight lower attempt_gate a w g).1
            (ap (λ o. (o, (preflight lower attempt_gate a w g).1)) own),
      )

-- An attempt that may be sent and is billed: its provider is metered, there is a gate, the active
-- context belongs to this accounting and names the provider, and the gate, which tracks it, wrote the
-- row of its reservation and found no block.
pub record IsReserved (lower : String → String) (billing : Billings) (has_gate : Bool)
    (active : Option Active) (p : String) (a : Attempt) (w : Meets) (g g' : Gate)
    (r : Option Reservation) : Type 0 where
  pub is_metered : billing_of p billing ≡ some metered
  pub gated : has_gate ≡ true
  pub context : (c : Active) × (active ≡ some c) × (c.is_own ≡ true) × (names c.provider p ≡ true)
  pub reservation : Reservation
  pub given : r ≡ some reservation
  pub of_provider : reservation.provider ≡ some p
  pub reserved : Admitted lower (attempt_for p a) w g g' reservation

module _ (lower : String → String) (sorted : List String → List String)
    (keeps : (q : String) (ps : List String) → listed q (sorted ps) ≡ listed q ps) where
  metered-tracked :
      (p : String) (billing : Billings) (g : Gate)
      → lower p ≡ p
      → billing_of p billing ≡ some metered
      → tracks_provider lower (tracking_metered sorted billing g).config (some p) ≡ true
  metered-tracked p billing g low m =
      listed-tracks_provider lower (tracking_metered sorted billing g).config p low
        (keeps p (metered_providers billing) ∙ metered-listed p billing m)

  -- What `before_attempt` lets through is not billed and has no reservation, or is metered and
  -- reserved: it has a reservation of that provider, whose row the gate has added to its ledger after
  -- it found the attempt within its limits, there is a gate, and the active context is of this
  -- accounting and names the provider. No failure is counted then. (The gate is the one that `__init__`
  -- makes, which tracks the metered providers; the name of the provider is in lower case, and `sorted`
  -- keeps the members of a list.)
  pub before_attempt_fails_closed :
      (billing : Billings) (has_gate : Bool) (active : Option Active) (p : String) (io : AdmitIo)
      (a : Attempt) (w : Meets) (g : Gate) (r : Option Reservation) (k k' : ℕ)
      → lower p ≡ p
      → before_attempt
          (billing_of p billing)
          has_gate
          active
          p
          (admit_io lower io (attempt_for p a) w (tracking_metered sorted billing g)).0
          k
        ≡ (ok r, k')
      → (k' ≡ k)
        × ((((billing_of p billing ≡ some subscription) ⊎ (billing_of p billing ≡ some nonbillable))
              × (r ≡ none))
            ⊎ IsReserved lower billing has_gate active p a w
                (tracking_metered sorted billing g)
                (admit_io lower io (attempt_for p a) w (tracking_metered sorted billing g)).1
                r)
  before_attempt_fails_closed billing has_gate active p io a w g r k k' low h =
      let gate = tracking_metered sorted billing g in
      let through =
        before_attempt-IsPaid (billing_of p billing) has_gate active p
          (admit_io lower io (attempt_for p a) w gate).0 r k k' h in
      (through.0, paid through.1)
    where
      paid :
          ((((billing_of p billing ≡ some subscription) ⊎ (billing_of p billing ≡ some nonbillable))
              × (r ≡ none))
            ⊎ IsPaid
                (billing_of p billing)
                has_gate
                active
                p
                (admit_io lower io (attempt_for p a) w (tracking_metered sorted billing g)).0
                r)
          → (((billing_of p billing ≡ some subscription)
                ⊎ (billing_of p billing ≡ some nonbillable))
              × (r ≡ none))
            ⊎ IsReserved lower billing has_gate active p a w
                (tracking_metered sorted billing g)
                (admit_io lower io (attempt_for p a) w (tracking_metered sorted billing g)).1
                r
      paid (inl free) = inl free
      paid (inr due) =
          let (q, given, reserved) =
            admit_io-Admitted lower (attempt_for p a) w (tracking_metered sorted billing g) io r
              (metered-tracked p billing g low due.is_metered) due.admission in
          inr (record {
            is_metered = due.is_metered;
            gated = due.gated;
            context = due.context;
            reservation = q;
            given = given;
            of_provider = ap (λ x. x.provider) reserved.forecast ∙ (unfold reservation_of in refl);
            reserved = reserved;
          })
