-- ===== src/Embedding/Queue/Promises.antt =====
-- What the slot queue of openai_compatible_bridge/embedding_limits.py promises to the requests.
use openai_compatible_bridge.Prelude.{
  ℕ, zero, suc, ◌+◌, ◌-◌, ◌≤◌, ◌≡◌, refl, sym, ap, ◌∙◌, inl, inr, true, some, List, [], ◌∷◌, ◌++◌,
  arith, elem, length, elem-append, Increasing-behind, elem-nonempty, some_inj,
}
use openai_compatible_bridge.Prelude.Int.{pos}
use openai_compatible_bridge.Embedding.Queue.{
  pending, handed, Slots, hand_over, acquire_slot, abandon, release_slot, World, Event, enter,
  leave, cancel_future, step, new, Reach, initial, after,
}
use openai_compatible_bridge.Embedding.Queue.Event.{arrive, finish, interrupt, resume, fail}
use openai_compatible_bridge.Embedding.Queue.Release.{
  Oldest, AllDone-elem, Released, hand_over-Released,
}
use openai_compatible_bridge.Embedding.Queue.Invariant.{IsConsistent, handed_calls}
use openai_compatible_bridge.Embedding.Queue.Steps.{Reach-IsConsistent}

max-hand_over : (ws : List ℕ) (s : Slots) → (hand_over ws s).max_inflight ≡ s.max_inflight
unfolding hand_over
max-hand_over [] s = refl
max-hand_over (w ∷ ws) s = ground (arith, max-hand_over ws s)

max-release_slot : (s : Slots) → (release_slot s).max_inflight ≡ s.max_inflight
unfolding release_slot
max-release_slot s = max-hand_over s.waiters s

max-abandon : (w : ℕ) (s : Slots) → (abandon w s).max_inflight ≡ s.max_inflight
unfolding abandon
max-abandon w s = ground (arith, max-release_slot s)

max-leave :
    (n : ℕ) (g g' : World) → leave n g ≡ some g' → g'.slots.max_inflight ≡ g.slots.max_inflight
unfolding leave
max-leave zero g g' p = cc
max-leave (suc n) g g' p = ground (arith, p, max-release_slot g.slots)

max-step :
    (e : Event) (g g' : World) → step e g ≡ some g' → g'.slots.max_inflight ≡ g.slots.max_inflight
unfolding step enter acquire_slot cancel_future
max-step arrive g g' p = ground (arith, p)
max-step finish g g' p = max-leave g.serving g g' p
max-step (interrupt w) g g' p = ground (arith, p)
max-step (resume w) g g' p = ground (arith, p)
max-step (fail w) g g' p = ground (arith, p, max-abandon w g.slots)

max-Reach : (limit : ℕ) {g : World} → Reach limit g → g.slots.max_inflight ≡ limit
unfolding new
max-Reach limit initial = refl
max-Reach limit (after {g = g} {g' = g'} e r p) = max-step e g g' p ∙ max-Reach limit r

-- In every world that the limiter can reach, the published counters are exact: `inflight` is the
-- number of requests being served plus those that a slot was handed to, `queue_depth` is the
-- number of the other suspended calls, and the slots in use never exceed the limit.
pub Reach-counters_exact :
    (limit : ℕ) {g : World}
    → Reach limit g
    → (g.slots.inflight ≡ pos (g.serving + handed_calls g))
      × (g.slots.queue_depth ≡ pos (length g.suspended - handed_calls g))
      × (g.serving + handed_calls g ≤ limit)
Reach-counters_exact limit {g} r =
    let h : IsConsistent 0 g = Reach-IsConsistent limit r in
    (ground (arith, h.counted), h.depth, omega (arith, h.bounded, max-Reach limit r))

-- No slot stays idle while a call waits: when a suspended call has a pending future, in any world
-- that the limiter can reach, all the slots are taken.
Reach-no_idle_slot :
    (limit i : ℕ) {g : World}
    → Reach limit g
    → elem i g.suspended ≡ true
    → g.slots.future i ≡ pending
    → g.slots.inflight ≡ pos limit
Reach-no_idle_slot limit i {g} r m p =
    let h : IsConsistent 0 g = Reach-IsConsistent limit r in
    ground (
      arith,
      h.counted,
      max-Reach limit r,
      h.full (elem-nonempty i g.slots.waiters (h.queued i m p)),
    )

-- A newcomer never overtakes: while some suspended call has a pending future, the request that
-- arrives is suspended behind the others, and takes no slot.
Reach-no_overtaking :
    (limit i : ℕ) {g g' : World}
    → Reach limit g
    → elem i g.suspended ≡ true
    → g.slots.future i ≡ pending
    → step arrive g ≡ some g'
    → (g'.serving ≡ g.serving)
      × (g'.suspended ≡ g.suspended ++ g.next ∷ [])
      × (g'.slots.waiters ≡ g.slots.waiters ++ g.next ∷ [])
unfolding step enter acquire_slot
Reach-no_overtaking limit i {g} {g'} r m p e =
    let h : IsConsistent 0 g = Reach-IsConsistent limit r in
    ground (arith, e, elem-nonempty i g.slots.waiters (h.queued i m p))

-- The waiter that the slot of a finished request goes to.
pub record HandedOver (g g' : World) : Type 0 where
  pub chosen : ℕ
  pub waited : g.slots.future chosen ≡ pending
  pub got : g'.slots.future chosen ≡ handed
  pub oldest : (i : ℕ) → elem i g.suspended ≡ true → g.slots.future i ≡ pending → chosen ≤ i
  pub kept : g'.slots.inflight ≡ g.slots.inflight

module _ (g : World) (h : IsConsistent 0 g) (i : ℕ) (m : elem i g.suspended ≡ true)
    (p : g.slots.future i ≡ pending) where
  earliest_waiter :
      (o : Oldest g.slots.future g.slots.waiters) (j : ℕ)
      → elem j g.suspended ≡ true
      → g.slots.future j ≡ pending
      → o.chosen ≤ j
  earliest_waiter o j k z = ground (
    arith,
    h.queued j k z,
    o.split,
    elem-append j o.before (o.chosen ∷ o.behind),
    z,
    AllDone-elem g.slots.future o.before j o.skipped,
    (Increasing-behind o.before o.chosen o.behind (rw o.split at h.ordered)).0 j,
  )

  hand_over-oldest :
      (r : Slots) (g' : World) → g'.slots ≡ r → Released g.slots.waiters g.slots r → HandedOver g g'
  hand_over-oldest r g' e (inl (d, _)) =
      absurd (ground (arith, AllDone-elem g.slots.future g.slots.waiters i d (h.queued i m p), p))
  hand_over-oldest r g' e (inr (o, q)) = record {
    chosen = o.chosen;
    waited = o.alive;
    got = ap (λ s. s.future o.chosen) (e ∙ q) ∙ ground arith;
    oldest = earliest_waiter o;
    kept = ap (λ s. s.inflight) (e ∙ q);
  }

leave-slots :
    (n : ℕ) (g g' : World) → leave n g ≡ some g' → g'.slots ≡ hand_over g.slots.waiters g.slots
unfolding leave
leave-slots zero g g' p = cc
leave-slots (suc n) g g' p = ap (λ w. w.slots) (sym (some_inj p))

-- When a served request ends while some suspended call has a pending future, its slot is handed to
-- a waiting call, to one that arrived before every other call still waiting, and the number of
-- slots in use stays the same.
pub Reach-finish_oldest :
    (limit i : ℕ) {g g' : World}
    → Reach limit g
    → elem i g.suspended ≡ true
    → g.slots.future i ≡ pending
    → step finish g ≡ some g'
    → HandedOver g g'
unfolding step
Reach-finish_oldest limit i {g} {g'} r m p e =
    hand_over-oldest g (Reach-IsConsistent limit r) i m p (hand_over g.slots.waiters g.slots) g'
      (leave-slots g.serving g g' e) (hand_over-Released g.slots.waiters g.slots)
