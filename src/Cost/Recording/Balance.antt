-- ===== src/Cost/Recording/Balance.antt =====
-- No usage is lost by the queue of AsyncCostAccounting
-- (openai_compatible_bridge/core/async_cost.py) without being counted.
use openai_compatible_bridge.Prelude.{
  ℕ, ◌+◌, ◌≤◌, ◌≡◌, refl, sym, ap, Bool, true, false, Option, none, some, some_inj, if-eq-some,
  List, [], ◌∷◌, arith, length, length-append,
}
use mathlib.Core.Path.{subst}
use openai_compatible_bridge.Usage.{NormalizedUsage}
use openai_compatible_bridge.Cost.Gate.{Reservation}
use openai_compatible_bridge.Cost.Recording.{
  Job, Recorder, new_recorder, record_attempt, take_job, written, in_flight, stop_recording, Event,
  attempted, taken, wrote, close, stop, step,
}

-- The attempts that an event adds: those with a reservation.
abbrev pub added : Event → ℕ
added (attempted (some r) u) = 1
added _ = 0

-- The states after any events, with the number of attempts so far.
pub data Reach (capacity : ℕ) : Recorder → ℕ → Type 0 where
  initial : Reach capacity (new_recorder capacity) 0
  after :
      {s s' : Recorder} {n : ℕ} (e : Event)
      → Reach capacity s n
      → step e s ≡ some s'
      → Reach capacity s' (n + added e)

-- Where the attempts are.
abbrev pub accounted : Recorder → ℕ
accounted s =
    s.usage_missing + s.records_written + s.records_dropped + length s.queue + in_flight s.writing

record IsBalanced (capacity : ℕ) (s : Recorder) (n : ℕ) : Type 0 where
  total : accounted s ≡ n
  room : length s.queue ≤ capacity
  size : s.capacity ≡ capacity
  failed : s.record_failures ≤ s.records_dropped

attempt-IsBalanced :
    (c n : ℕ) (r : Option Reservation) (u : Option NormalizedUsage) (s : Recorder)
    → IsBalanced c s n
    → IsBalanced c (record_attempt r u s) (n + added (attempted r u))
unfolding record_attempt
attempt-IsBalanced c n none u s b = record {
  total = ground (arith, b.total);
  room = b.room;
  size = b.size;
  failed = b.failed;
}
attempt-IsBalanced c n (some r) none s b = record {
  total = ground (arith, b.total);
  room = b.room;
  size = b.size;
  failed = b.failed;
}
attempt-IsBalanced c n (some r) (some u) s b = record {
  total = ground (arith, b.total, length-append s.queue ((r, u) ∷ []));
  room = ground (arith, b.room, b.size, length-append s.queue ((r, u) ∷ []));
  size = ground (arith, b.size);
  failed = ground (arith, b.failed);
}

take-IsBalanced :
    (c n : ℕ) (s s' : Recorder) (q : List Job) (w : Option Job)
    → s.queue ≡ q
    → s.writing ≡ w
    → IsBalanced c s n
    → take_job s q w ≡ some s'
    → IsBalanced c s' (n + 0)
unfolding take_job
take-IsBalanced c n s s' (j ∷ js) none q w b h = record {
  total = ground (arith, b.total, q, w, h);
  room = ground (arith, b.room, q, h);
  size = ground (arith, b.size, h);
  failed = ground (arith, b.failed, h);
}
take-IsBalanced c n s s' [] w q e b h = cc
take-IsBalanced c n s s' (j ∷ js) (some k) q w b h = cc

written-IsBalanced :
    (c n : ℕ) (failed : Bool) (s s' : Recorder) (w : Option Job)
    → s.writing ≡ w
    → IsBalanced c s n
    → written failed s w ≡ some s'
    → IsBalanced c s' (n + 0)
unfolding written
written-IsBalanced c n failed s s' none w b h = cc
written-IsBalanced c n true s s' (some j) w b h =
    subst (λ x. IsBalanced c x (n + 0)) (some_inj h)
      (record {
        total = ground (arith, b.total, w);
        room = b.room;
        size = b.size;
        failed = ground (arith, b.failed);
      })
written-IsBalanced c n false s s' (some j) w b h =
    subst (λ x. IsBalanced c x (n + 0)) (some_inj h)
      (record {
        total = ground (arith, b.total, w);
        room = b.room;
        size = b.size;
        failed = b.failed;
      })

stop-IsBalanced :
    (c n : ℕ) (s : Recorder) → IsBalanced c s n → IsBalanced c (stop_recording s) (n + 0)
unfolding stop_recording
stop-IsBalanced c n s b = record {
  total = ground (arith, b.total);
  room = omega arith;
  size = b.size;
  failed = ground (arith, b.failed);
}

close-IsBalanced :
    (c n : ℕ) (s : Recorder) → IsBalanced c s n → IsBalanced c (record s { closed = true }) (n + 0)
close-IsBalanced c n s b = record {
  total = ground (arith, b.total);
  room = b.room;
  size = b.size;
  failed = b.failed;
}

step-IsBalanced :
    (c n : ℕ) (e : Event) (s s' : Recorder)
    → IsBalanced c s n
    → step e s ≡ some s'
    → IsBalanced c s' (n + added e)
unfolding step
step-IsBalanced c n (attempted r u) s s' b h =
    subst (λ x. IsBalanced c x (n + added (attempted r u))) (some_inj h)
      (attempt-IsBalanced c n r u s b)
step-IsBalanced c n taken s s' b h = take-IsBalanced c n s s' s.queue s.writing refl refl b h
step-IsBalanced c n (wrote failed) s s' b h = written-IsBalanced c n failed s s' s.writing refl b h
step-IsBalanced c n close s s' b h =
    subst (λ x. IsBalanced c x (n + 0)) (some_inj h) (close-IsBalanced c n s b)
step-IsBalanced c n stop s s' b h =
    subst (λ x. IsBalanced c x (n + 0)) (if-eq-some s.closed h).1 (stop-IsBalanced c n s b)

Reach-IsBalanced : (c : ℕ) {s : Recorder} {n : ℕ} → Reach c s n → IsBalanced c s n
Reach-IsBalanced c initial = record {
  total = refl;
  room = omega arith;
  size = refl;
  failed = omega arith;
}
Reach-IsBalanced c (after {s} {s'} {n} e r h) = step-IsBalanced c n e s s' (Reach-IsBalanced c r) h

-- In every reachable state each attempt with a reservation is counted as missing its usage, as
-- written or as dropped, or is in the queue or with the writer; the queue is within its capacity,
-- and every failed write is counted as dropped too.
pub Reach-accounted :
    (capacity : ℕ) (s : Recorder) (n : ℕ)
    → Reach capacity s n
    → (n ≡ accounted s) × (length s.queue ≤ capacity) × (s.record_failures ≤ s.records_dropped)
Reach-accounted capacity s n r =
    let b = Reach-IsBalanced capacity r in (sym b.total, b.room, b.failed)

-- When the accounting has been shut down, every attempt with a reservation so far is counted as
-- missing its usage, as written or as dropped.
Reach-stop_accounted :
    (capacity : ℕ) (s s' : Recorder) (n : ℕ)
    → Reach capacity s n
    → step stop s ≡ some s'
    → n ≡ s'.usage_missing + s'.records_written + s'.records_dropped
unfolding step stop_recording
Reach-stop_accounted capacity s s' n r h =
    let b = Reach-IsBalanced capacity (after stop r h) in
    let q = (if-eq-some s.closed h).1 in
    let no_queue : s'.queue ≡ [] = sym (ap (λ x. x.queue) q) in
    let no_job : s'.writing ≡ none = sym (ap (λ x. x.writing) q) in
    ground (arith, b.total, no_queue, no_job)
