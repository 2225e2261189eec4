-- ===== src/Embedding/Queue.antt =====
-- The slot queue of EmbeddingRequestLimits (openai_compatible_bridge/embedding_limits.py), and the
-- event loop around it. A waiter is an asyncio future, known by its number; the loop keeps the
-- state of each future. The counters are Python ints, so they are integers here.
pub mod Release
pub mod Invariant
pub mod Steps
pub mod Promises
mod Tests
use openai_compatible_bridge.Prelude.{
  ℕ, zero, suc, ◌+◌, ◌≡◌, Bool, true, false, not, ◌&&◌, Option, none, some, List, [], ◌∷◌, ◌++◌,
  ◌==◌, if◌then◌else◌, ltb, is_empty, elem, remove,
}
use openai_compatible_bridge.Prelude.Int.{ℤ, pos, ◌+ℤ◌, ◌-ℤ◌, ltb_ℤ}

-- An asyncio.Future[None]: not done, with its result set, or cancelled.
pub data Future : Type 0 where
  pending handed cancelled : Future

-- `future.done()`
abbrev pub done : Future → Bool
done pending = false
done handed = true
done cancelled = true

-- `future.cancelled()`
abbrev pub is_cancelled : Future → Bool
is_cancelled pending = false
is_cancelled handed = false
is_cancelled cancelled = true

abbrev pub is_handed : Future → Bool
is_handed pending = false
is_handed handed = true
is_handed cancelled = false

-- The fields of the class, with the futures that its deque refers to.
pub record Slots : Type 0 where
  pub max_inflight : ℕ
  pub inflight : ℤ
  pub queue_depth : ℤ
  pub waiters : List ℕ
  pub future : ℕ → Future

-- A future changes its state.
abbrev pub update : (ℕ → Future) → ℕ → Future → ℕ → Future
update f w v i = if i == w then v else f i

-- `_release_slot`: its loop over the deque. The oldest waiter that is not done gets the slot.
pub hand_over : List ℕ → Slots → Slots
hand_over [] s = record s { inflight = s.inflight -ℤ pos 1; waiters = [] }
hand_over (w ∷ ws) s =
    let rest = hand_over ws s in
    if done (s.future w) then rest else record s {
      queue_depth = s.queue_depth -ℤ pos 1;
      waiters = ws;
      future = update s.future w handed;
    }

pub release_slot : Slots → Slots
unfolding hand_over
release_slot s = hand_over s.waiters s

-- `_acquire_slot` up to its return or its `await`, with the future that it would create: true
-- when the slot was free and no one was waiting, else the call is suspended on the new future.
pub acquire_slot : ℕ → Slots → Slots × Bool
acquire_slot w s =
    if ltb_ℤ s.inflight (pos s.max_inflight) && is_empty s.waiters
    then (record s { inflight = s.inflight +ℤ pos 1 }, true)
    else (
      record s {
        queue_depth = s.queue_depth +ℤ pos 1;
        waiters = s.waiters ++ w ∷ [];
        future = update s.future w pending;
      },
      false,
    )

-- The `except BaseException` branch of `_acquire_slot`, for the call that waits on `w`.
pub abandon : ℕ → Slots → Slots
unfolding release_slot
abandon w s =
    if done (s.future w) && not (is_cancelled (s.future w))
    then release_slot s
    else record s { queue_depth = s.queue_depth -ℤ pos 1; waiters = remove w s.waiters }

-- The loop around the queue: the calls of `_acquire_slot` that are suspended, by their futures;
-- the number of requests between an acquired slot and the `finally` of `_serve`; the next future.
pub record World : Type 0 where
  pub slots : Slots
  pub suspended : List ℕ
  pub serving : ℕ
  pub next : ℕ

-- What the event loop may do next. `interrupt w` is the timeout or the cancellation of a waiting
-- task, which cancels the future that it waits on; `fail w` delivers the exception.
pub data Event : Type 0 where
  arrive : Event
  finish : Event
  interrupt resume fail : ℕ → Event

enter : World → World
unfolding acquire_slot
enter g =
    let (s, taken) = acquire_slot g.next g.slots in
    if taken
    then record g { slots = s; serving = g.serving + 1 }
    else record g { slots = s; suspended = g.suspended ++ g.next ∷ []; next = g.next + 1 }

-- `_serve` leaves its `finally`.
leave : ℕ → World → Option World
unfolding release_slot
leave zero g = none
leave (suc n) g = some (record g { slots = release_slot g.slots; serving = n })

-- `task.cancel()`: the future that the task waits on is cancelled unless it is done.
cancel_future : ℕ → Slots → Slots
cancel_future w s =
    if done (s.future w) then s else record s { future = update s.future w cancelled }

-- One step of the loop; `none` when the event is not possible.
pub step : Event → World → Option World
unfolding enter leave cancel_future abandon
step arrive g = some (enter g)
step finish g = leave g.serving g
step (interrupt w) g =
    if elem w g.suspended then some (record g { slots = cancel_future w g.slots }) else none
step (resume w) g =
    if elem w g.suspended && is_handed (g.slots.future w)
    then some (record g { suspended = remove w g.suspended; serving = g.serving + 1 })
    else none
step (fail w) g =
    if elem w g.suspended && done (g.slots.future w)
    then some (record g { slots = abandon w g.slots; suspended = remove w g.suspended })
    else none

-- `__init__`, with the limit that it has checked to be positive.
pub new : ℕ → World
new limit = record {
  slots = record {
    max_inflight = limit;
    inflight = pos 0;
    queue_depth = pos 0;
    waiters = [];
    future = λ _. pending;
  };
  suspended = [];
  serving = 0;
  next = 0;
}

-- The worlds that a limiter with room for `limit` requests can reach.
pub data Reach (limit : ℕ) : World → Type 0 where
  initial : Reach limit (new limit)
  after : {g g' : World} (e : Event) → Reach limit g → step e g ≡ some g' → Reach limit g'
