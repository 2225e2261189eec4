-- ===== src/Embedding/Queue/Release.antt =====
-- What `_release_slot` of openai_compatible_bridge/embedding_limits.py does to the deque.
use openai_compatible_bridge.Prelude.{
  ℕ, ◌≡◌, refl, ap, ◌∙◌, ◌⊎◌, inl, inr, true, false, List, [], ◌∷◌, ◌++◌, arith, Bool-cases, elem,
}
use openai_compatible_bridge.Prelude.Int.{pos, ◌-ℤ◌}
use openai_compatible_bridge.Embedding.Queue.{
  Future, pending, handed, done, Slots, update, hand_over,
}

-- The futures in a deque that are done.
abbrev pub AllDone : (ℕ → Future) → List ℕ → Type 0
AllDone f [] = Unit
AllDone f (w ∷ ws) = (done (f w) ≡ true) × AllDone f ws

-- The first waiter that is not done, with what stands before and behind it.
pub record Oldest (f : ℕ → Future) (ws : List ℕ) : Type 0 where
  pub before : List ℕ
  pub chosen : ℕ
  pub behind : List ℕ
  pub split : ws ≡ before ++ chosen ∷ behind
  pub skipped : AllDone f before
  pub alive : f chosen ≡ pending

-- A slot is given back.
abbrev pub freed : Slots → Slots
freed s = record s { inflight = s.inflight -ℤ pos 1; waiters = [] }

-- The slot goes to a waiter, and the deque keeps those behind it.
abbrev pub given : Slots → ℕ → List ℕ → Slots
given s w ws = record s {
  queue_depth = s.queue_depth -ℤ pos 1;
  waiters = ws;
  future = update s.future w handed;
}

-- What `_release_slot` may make of the slots, by the state of the waiters.
abbrev pub Released : List ℕ → Slots → Slots → Type 0
Released ws s r =
    (AllDone s.future ws × (r ≡ freed s))
    ⊎ ((o : Oldest s.future ws) × (r ≡ given s o.chosen o.behind))

Released-skip :
    (w : ℕ) (ws : List ℕ) (s r r' : Slots)
    → done (s.future w) ≡ true
    → r' ≡ r
    → Released ws s r
    → Released (w ∷ ws) s r'
Released-skip w ws s r r' e p (inl (d, h)) = inl ((e, d), p ∙ h)
Released-skip w ws s r r' e p (inr (o, h)) = inr (
  record {
    before = w ∷ o.before;
    chosen = o.chosen;
    behind = o.behind;
    split = ap (λ l. w ∷ l) o.split;
    skipped = (e, o.skipped);
    alive = o.alive;
  },
  p ∙ h,
)

pending_of : (f : Future) → done f ≡ false → f ≡ pending
pending_of f h = ground arith

-- `_release_slot` frees the slot when every waiter is done, and hands it to the oldest other one.
pub hand_over-Released : (ws : List ℕ) (s : Slots) → Released ws s (hand_over ws s)
unfolding hand_over
hand_over-Released [] s = inl (tt, refl)
hand_over-Released (w ∷ ws) s = elim (Bool-cases (done (s.future w))) [
  | inl e ↦
      Released-skip w ws s (hand_over ws s) (hand_over (w ∷ ws) s) e (rw e)
        (hand_over-Released ws s)
  | inr e ↦ inr (
    record {
      before = [];
      chosen = w;
      behind = ws;
      split = refl;
      skipped = tt;
      alive = pending_of (s.future w) e;
    },
    rw e refl,
  )
]

-- A waiter in a deque of futures that are done is done.
pub AllDone-elem :
    (f : ℕ → Future) (ws : List ℕ) (i : ℕ) → AllDone f ws → elem i ws ≡ true → done (f i) ≡ true
AllDone-elem f [] i h m = cc
AllDone-elem f (w ∷ ws) i h m = ground (arith, AllDone-elem f ws i h.1)
