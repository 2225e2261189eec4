-- ===== src/Embedding/Queue/Invariant.antt =====
-- What holds of the slot queue of openai_compatible_bridge/embedding_limits.py between two steps
-- of the event loop.
use openai_compatible_bridge.Prelude.{
  ℕ, suc, ◌+◌, ◌-◌, ◌≤◌, ◌<◌, ◌≡◌, inl, inr, true, false, ◌∷◌, arith, is_empty, elem, length, count,
  Distinct, Increasing, elem-append, count-le-length, count-switch, Increasing-behind,
  elem-nonempty,
}
use openai_compatible_bridge.Prelude.Int.{pos}
use openai_compatible_bridge.Embedding.Queue.{
  pending, handed, done, is_handed, Slots, update, hand_over, release_slot, World,
}
use openai_compatible_bridge.Embedding.Queue.Release.{
  Oldest, AllDone-elem, freed, given, Released, hand_over-Released,
}

-- The calls that were handed a slot and have not resumed yet.
abbrev pub handed_calls : World → ℕ
handed_calls g = count (λ i. is_handed (g.slots.future i)) g.suspended

-- The slots in use: those of the requests being served, those handed over, and `extra` ones that
-- the running code is about to give back.
abbrev pub used : ℕ → World → ℕ
used extra g = extra + g.serving + handed_calls g

pub record IsConsistent (extra : ℕ) (g : World) : Type 0 where
  pub distinct : Distinct g.suspended
  pub fresh : (i : ℕ) → elem i g.suspended ≡ true → i < g.next
  pub counted : g.slots.inflight ≡ pos (used extra g)
  pub depth : g.slots.queue_depth ≡ pos (length g.suspended - handed_calls g)
  pub bounded : used extra g ≤ g.slots.max_inflight
  pub queued :
      (i : ℕ)
      → elem i g.suspended ≡ true
      → g.slots.future i ≡ pending
      → elem i g.slots.waiters ≡ true
  pub waiting : (i : ℕ) → elem i g.slots.waiters ≡ true → elem i g.suspended ≡ true
  pub unhanded : (i : ℕ) → elem i g.slots.waiters ≡ true → is_handed (g.slots.future i) ≡ false
  pub ordered : Increasing g.slots.waiters
  pub full : is_empty g.slots.waiters ≡ false → used extra g ≡ g.slots.max_inflight

freed-IsConsistent :
    (g : World) (h : IsConsistent 1 g)
    → ((i : ℕ) → elem i g.slots.waiters ≡ true → done (g.slots.future i) ≡ true)
    → IsConsistent 0 (record g { slots = freed g.slots })
freed-IsConsistent g h d = record {
  distinct = h.distinct;
  fresh = h.fresh;
  counted = ground (arith, h.counted);
  depth = h.depth;
  bounded = omega (arith, h.bounded);
  queued = λ i m p. ground (arith, h.queued i m p, d i, p);
  waiting = λ i m. cc;
  unhanded = λ i m. cc;
  ordered = tt;
  full = λ e. cc;
}

module _ (g : World) (h : IsConsistent 1 g) (o : Oldest g.slots.future g.slots.waiters) where
  chosen-waits : elem o.chosen g.slots.waiters ≡ true
  chosen-waits = rw o.split (ground (arith, elem-append o.chosen o.before (o.chosen ∷ o.behind)))

  behind-waits : (i : ℕ) → elem i o.behind ≡ true → elem i g.slots.waiters ≡ true
  behind-waits i m = rw o.split (ground (arith, m, elem-append i o.before (o.chosen ∷ o.behind)))

  pub behind-Increasing : Increasing (o.chosen ∷ o.behind)
  behind-Increasing = Increasing-behind o.before o.chosen o.behind (rw o.split at h.ordered)

  chosen-behind : (i : ℕ) → elem i o.behind ≡ true → o.chosen < i
  chosen-behind i m = behind-Increasing.0 i m

  one_more_handed :
      count (λ i. is_handed (update g.slots.future o.chosen handed i)) g.suspended
      ≡ suc (handed_calls g)
  one_more_handed =
      count-switch (λ i. is_handed (g.slots.future i))
        (λ i. is_handed (update g.slots.future o.chosen handed i)) o.chosen g.suspended h.distinct
        (h.waiting o.chosen chosen-waits) (h.unhanded o.chosen chosen-waits) (ground arith)
        (λ i n. ground (arith, n))

  still_queued :
      (i : ℕ)
      → elem i g.suspended ≡ true
      → update g.slots.future o.chosen handed i ≡ pending
      → elem i o.behind ≡ true
  still_queued i m p = ground (
    arith,
    h.queued i m,
    o.split,
    elem-append i o.before (o.chosen ∷ o.behind),
    AllDone-elem g.slots.future o.before i o.skipped,
    p,
  )

  given-IsConsistent : IsConsistent 0 (record g { slots = given g.slots o.chosen o.behind })
  given-IsConsistent = record {
    distinct = h.distinct;
    fresh = h.fresh;
    counted = ground (arith, h.counted, one_more_handed);
    depth = ground (
      arith,
      h.depth,
      one_more_handed,
      count-le-length (λ i. is_handed (update g.slots.future o.chosen handed i)) g.suspended,
    );
    bounded = omega (arith, h.bounded, one_more_handed);
    queued = still_queued;
    waiting = λ i m. h.waiting i (behind-waits i m);
    unhanded = λ i m. ground (arith, chosen-behind i m, h.unhanded i (behind-waits i m));
    ordered = behind-Increasing.1;
    full = λ e.
        omega
          (arith, h.full (elem-nonempty o.chosen g.slots.waiters chosen-waits), one_more_handed);
  }

module _ (g : World) (h : IsConsistent 1 g) where
  Released-IsConsistent :
      (r : Slots) → Released g.slots.waiters g.slots r → IsConsistent 0 (record g { slots = r })
  Released-IsConsistent r (inl (d, e)) =
      rw e (freed-IsConsistent g h (λ i m. AllDone-elem g.slots.future g.slots.waiters i d m))
  Released-IsConsistent r (inr (o, e)) = rw e (given-IsConsistent g h o)

  -- Giving back a slot restores the invariant.
  pub release_slot-IsConsistent : IsConsistent 0 (record g { slots = release_slot g.slots })
  unfolding release_slot
  release_slot-IsConsistent =
      Released-IsConsistent (hand_over g.slots.waiters g.slots)
        (hand_over-Released g.slots.waiters g.slots)
