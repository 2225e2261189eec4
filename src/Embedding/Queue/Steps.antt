-- ===== src/Embedding/Queue/Steps.antt =====
-- Every step of the event loop keeps the slot queue of openai_compatible_bridge/embedding_limits.py
-- consistent.
use mathlib.Core.Path.{subst}
use openai_compatible_bridge.Prelude.{
  ℕ, zero, suc, ◌+◌, ◌<◌, ◌≡◌, refl, inl, inr, true, false, ◌&&◌, not, some, [], ◌∷◌, ◌++◌, arith,
  Bool-cases, is_empty, elem, remove, count, elem-append, elem-remove_ne, elem-remove_self,
  elem-remove_sub, remove-Distinct, snoc-Distinct, count-remove, count-append, length-append,
  length-remove, count-le-length, count-same, snoc-Increasing, remove-Increasing,
  Increasing-remove_self, remove-nonempty, some_inj, if-eq-some,
}
use openai_compatible_bridge.Prelude.Int.{pos, ◌+ℤ◌, ◌-ℤ◌, ltb_ℤ}
use openai_compatible_bridge.Embedding.Queue.{
  pending, cancelled, done, is_handed, is_cancelled, update, acquire_slot, abandon, World, Event,
  enter, leave, cancel_future, step, new, Reach, initial, after,
}
use openai_compatible_bridge.Embedding.Queue.Event.{arrive, finish, interrupt, resume, fail}
use openai_compatible_bridge.Embedding.Queue.Invariant.{
  IsConsistent, handed_calls, release_slot-IsConsistent,
}

-- The new call goes to the end of the line.
module _ (g : World) (h : IsConsistent 0 g)
    (busy : (ltb_ℤ g.slots.inflight (pos g.slots.max_inflight) && is_empty g.slots.waiters)
      ≡ false) where
  fresh_call : elem g.next g.suspended ≡ false
  fresh_call = elim (Bool-cases (elem g.next g.suspended)) [
    | inl e ↦ absurd (omega (arith, h.fresh g.next e))
    | inr e ↦ e
  ]

  same_handed :
      count (λ i. is_handed (update g.slots.future g.next pending i)) (g.suspended ++ g.next ∷ [])
      ≡ handed_calls g
  same_handed = ground (
    arith,
    count-append (λ i. is_handed (update g.slots.future g.next pending i)) g.suspended
        (g.next ∷ []),
    count-same (λ i. is_handed (g.slots.future i))
        (λ i. is_handed (update g.slots.future g.next pending i)) g.suspended
        (λ i m. ground (arith, h.fresh i m)),
  )

  wait-IsConsistent : IsConsistent 0 (record g {
    slots = record g.slots {
      queue_depth = g.slots.queue_depth +ℤ pos 1;
      waiters = g.slots.waiters ++ g.next ∷ [];
      future = update g.slots.future g.next pending;
    };
    suspended = g.suspended ++ g.next ∷ [];
    next = g.next + 1;
  })
  wait-IsConsistent = record {
    distinct = snoc-Distinct g.next g.suspended h.distinct fresh_call;
    fresh = λ i m. ground (arith, m, elem-append i g.suspended (g.next ∷ []), h.fresh i);
    counted = ground (arith, h.counted, same_handed);
    depth = ground (
      arith,
      h.depth,
      same_handed,
      length-append g.suspended (g.next ∷ []),
      count-le-length (λ i. is_handed (g.slots.future i)) g.suspended,
    );
    bounded = omega (arith, h.bounded, same_handed);
    queued = λ i m p. ground (
      arith,
      m,
      p,
      elem-append i g.suspended (g.next ∷ []),
      elem-append i g.slots.waiters (g.next ∷ []),
      h.queued i,
    );
    waiting = λ i m. ground (
      arith,
      m,
      elem-append i g.suspended (g.next ∷ []),
      elem-append i g.slots.waiters (g.next ∷ []),
      h.waiting i,
    );
    unhanded = λ i m. ground (arith, m, elem-append i g.slots.waiters (g.next ∷ []), h.unhanded i);
    ordered = snoc-Increasing g.next g.slots.waiters h.ordered (λ i m. h.fresh i (h.waiting i m));
    full = λ e. ground (arith, busy, h.full, h.bounded, h.counted, same_handed);
  }

enter-IsConsistent : (g : World) → IsConsistent 0 g → IsConsistent 0 (enter g)
unfolding enter acquire_slot
enter-IsConsistent g h =
    elim (Bool-cases
      (ltb_ℤ g.slots.inflight (pos g.slots.max_inflight) && is_empty g.slots.waiters)) [
        | inl e ↦ rw e (record {
          distinct = h.distinct;
          fresh = h.fresh;
          counted = ground (arith, h.counted);
          depth = h.depth;
          bounded = ground (arith, e, h.counted);
          queued = h.queued;
          waiting = h.waiting;
          unhanded = h.unhanded;
          ordered = h.ordered;
          full = λ k. ground (arith, e, k);
        })
        | inr e ↦ rw e (wait-IsConsistent g h e)
      ]

leave-IsConsistent :
    (n : ℕ) (g g' : World)
    → g.serving ≡ n
    → IsConsistent 0 g
    → leave n g ≡ some g'
    → IsConsistent 0 g'
unfolding leave
leave-IsConsistent zero g g' e h p = cc
leave-IsConsistent (suc n) g g' e h p = subst (IsConsistent 0) (some_inj p) (
    release_slot-IsConsistent (record g { serving = n })
      (record {
        distinct = h.distinct;
        fresh = h.fresh;
        counted = ground (arith, h.counted, e);
        depth = h.depth;
        bounded = omega (arith, h.bounded, e);
        queued = h.queued;
        waiting = h.waiting;
        unhanded = h.unhanded;
        ordered = h.ordered;
        full = λ k. omega (arith, h.full k, e);
      }))

-- Cancelling a future that is pending changes what no counter counts.
cancel_future-IsConsistent :
    (w : ℕ) (g : World)
    → IsConsistent 0 g
    → IsConsistent 0 (record g { slots = cancel_future w g.slots })
unfolding cancel_future
cancel_future-IsConsistent w g h = elim (Bool-cases (done (g.slots.future w))) [
  | inl e ↦ rw e h
  | inr e ↦ rw e (
      let same : count (λ i. is_handed (update g.slots.future w cancelled i)) g.suspended
          ≡ handed_calls g =
        count-same (λ i. is_handed (g.slots.future i))
          (λ i. is_handed (update g.slots.future w cancelled i)) g.suspended
          (λ i m. ground (arith, e)) in
      record {
        distinct = h.distinct;
        fresh = h.fresh;
        counted = rw same h.counted;
        depth = rw same h.depth;
        bounded = rw same h.bounded;
        queued = λ i m p. ground (arith, p, h.queued i m);
        waiting = h.waiting;
        unhanded = λ i m. ground (arith, h.unhanded i m);
        ordered = h.ordered;
        full = λ k. rw same (h.full k);
      })
]

-- What removing a call from the suspended ones does to the counts.
module _ (w : ℕ) (g : World) (h : IsConsistent 0 g) (m : elem w g.suspended ≡ true) where
  left-fresh : (i : ℕ) → elem i (remove w g.suspended) ≡ true → i < g.next
  left-fresh i k = h.fresh i (elem-remove_sub i w g.suspended k)

  left-waits :
      is_handed (g.slots.future w) ≡ true
      → (i : ℕ) → elem i g.slots.waiters ≡ true
      → elem i (remove w g.suspended) ≡ true
  left-waits d i k =
      ground (arith, h.waiting i k, h.unhanded i k, elem-remove_ne i w g.suspended, d)

  left-handed :
      is_handed (g.slots.future w) ≡ true
      → handed_calls g ≡ suc (count (λ i. is_handed (g.slots.future i)) (remove w g.suspended))
  left-handed d =
      ground (arith, d, count-remove (λ i. is_handed (g.slots.future i)) w g.suspended m)

  -- A call that was handed a slot leaves the line with the slot.
  taken-IsConsistent :
      is_handed (g.slots.future w) ≡ true
      → IsConsistent 1 (record g { suspended = remove w g.suspended })
  taken-IsConsistent d = record {
    distinct = remove-Distinct w g.suspended h.distinct;
    fresh = left-fresh;
    counted = ground (arith, h.counted, left-handed d);
    depth = ground (arith, h.depth, left-handed d, length-remove w g.suspended m);
    bounded = omega (arith, h.bounded, left-handed d);
    queued = λ i k p. h.queued i (elem-remove_sub i w g.suspended k) p;
    waiting = left-waits d;
    unhanded = h.unhanded;
    ordered = h.ordered;
    full = λ k. omega (arith, h.full k, left-handed d);
  }

  -- A call that was cancelled leaves the line, and the counter with it.
  dropped-IsConsistent :
      is_handed (g.slots.future w) ≡ false
      → IsConsistent 0 (record g {
        slots = record g.slots {
          queue_depth = g.slots.queue_depth -ℤ pos 1;
          waiters = remove w g.slots.waiters;
        };
        suspended = remove w g.suspended;
      })
  dropped-IsConsistent d = record {
    distinct = remove-Distinct w g.suspended h.distinct;
    fresh = left-fresh;
    counted = ground (arith, h.counted, same);
    depth = ground (
      arith,
      h.depth,
      same,
      length-remove w g.suspended m,
      count-le-length (λ i. is_handed (g.slots.future i)) (remove w g.suspended),
    );
    bounded = omega (arith, h.bounded, same);
    queued = λ i k p. ground (
      arith,
      k,
      p,
      h.queued i,
      elem-remove_sub i w g.suspended,
      elem-remove_ne i w g.slots.waiters,
      elem-remove_self w g.suspended h.distinct,
    );
    waiting = λ i k. ground (
      arith,
      k,
      h.waiting i,
      elem-remove_sub i w g.slots.waiters,
      elem-remove_ne i w g.suspended,
      Increasing-remove_self w g.slots.waiters h.ordered,
    );
    unhanded = λ i k. h.unhanded i (elem-remove_sub i w g.slots.waiters k);
    ordered = remove-Increasing w g.slots.waiters h.ordered;
    full = λ k. omega (arith, h.full (remove-nonempty w g.slots.waiters k), same);
  }
    where
      same : handed_calls g ≡ count (λ i. is_handed (g.slots.future i)) (remove w g.suspended)
      same = ground (arith, d, count-remove (λ i. is_handed (g.slots.future i)) w g.suspended m)

serve-IsConsistent :
    (g : World) → IsConsistent 1 g → IsConsistent 0 (record g { serving = g.serving + 1 })
serve-IsConsistent g h = record {
  distinct = h.distinct;
  fresh = h.fresh;
  counted = ground (arith, h.counted);
  depth = h.depth;
  bounded = omega (arith, h.bounded);
  queued = h.queued;
  waiting = h.waiting;
  unhanded = h.unhanded;
  ordered = h.ordered;
  full = λ e. omega (arith, h.full e);
}

-- The exception path of a suspended call: it gives its slot back, or leaves the line.
fail-IsConsistent :
    (w : ℕ) (g : World)
    → IsConsistent 0 g
    → elem w g.suspended ≡ true
    → done (g.slots.future w) ≡ true
    → IsConsistent 0 (record g { slots = abandon w g.slots; suspended = remove w g.suspended })
unfolding abandon
fail-IsConsistent w g h m d =
    elim (Bool-cases (done (g.slots.future w) && not (is_cancelled (g.slots.future w)))) [
      | inl e ↦ rw e (
          release_slot-IsConsistent (record g { suspended = remove w g.suspended })
            (taken-IsConsistent w g h m (ground (arith, e))))
      | inr e ↦ rw e (dropped-IsConsistent w g h m (ground (arith, e, d)))
    ]

-- Every step that the event loop can make keeps the slots consistent.
pub step-IsConsistent :
    (e : Event) (g g' : World) → IsConsistent 0 g → step e g ≡ some g' → IsConsistent 0 g'
unfolding step
step-IsConsistent arrive g g' h p = subst (IsConsistent 0) (some_inj p) (enter-IsConsistent g h)
step-IsConsistent finish g g' h p = leave-IsConsistent g.serving g g' refl h p
step-IsConsistent (interrupt w) g g' h p =
    subst (IsConsistent 0) (if-eq-some (elem w g.suspended) p).1 (cancel_future-IsConsistent w g h)
step-IsConsistent (resume w) g g' h p =
    let q = if-eq-some (elem w g.suspended && is_handed (g.slots.future w)) p in
    subst (IsConsistent 0) q.1 (
      serve-IsConsistent (record g { suspended = remove w g.suspended })
        (taken-IsConsistent w g h (ground (arith, q.0)) (ground (arith, q.0))))
step-IsConsistent (fail w) g g' h p =
    let q = if-eq-some (elem w g.suspended && done (g.slots.future w)) p in
    subst (IsConsistent 0) q.1 (fail-IsConsistent w g h (ground (arith, q.0)) (ground (arith, q.0)))

new-IsConsistent : (limit : ℕ) → IsConsistent 0 (new limit)
unfolding new
new-IsConsistent limit = record {
  distinct = tt;
  fresh = λ i m. cc;
  counted = refl;
  depth = refl;
  bounded = omega arith;
  queued = λ i m. cc;
  waiting = λ i m. cc;
  unhanded = λ i m. cc;
  ordered = tt;
  full = λ e. cc;
}

-- Whatever requests arrive, finish, time out or are cancelled, and in whatever order, the slots
-- stay consistent.
pub Reach-IsConsistent : (limit : ℕ) {g : World} → Reach limit g → IsConsistent 0 g
Reach-IsConsistent limit initial = new-IsConsistent limit
Reach-IsConsistent limit (after {g = g} {g' = g'} e r p) =
    step-IsConsistent e g g' (Reach-IsConsistent limit r) p
