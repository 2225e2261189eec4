-- ===== src/Cost/Admission.antt =====
-- The admission slots of AsyncCostAccounting, `_admit_io` in
-- openai_compatible_bridge/core/async_cost.py. A call takes one of a fixed number of slots, hands its
-- work to a thread, and the slot is given back when the thread is done, also when the call itself has
-- given up before. A step is what runs between two points at which a task can be suspended; the
-- semaphore of asyncio is its number of free slots and the calls that wait for one.
mod Slots
mod Tests
use openai_compatible_bridge.Prelude.{
  ℕ, ◌+◌, ◌-◌, Bool, true, false, not, ◌&&◌, ◌||◌, Option, none, some, List, [], ◌∷◌, ◌++◌, ◌==◌,
  ltb, if◌then◌else◌, elem, remove, is_empty, ◌≡◌,
}
use openai_compatible_bridge.Prelude.Int.{ℤ, pos, ◌+ℤ◌, ◌-ℤ◌}
use openai_compatible_bridge.Prelude.Maybe.{◌>>=◌}

-- `free` and `waiting` are `_admission_slots`; a call is a number. `admissions` are the futures.
pub record Admissions : Type 0 where
  pub closed : Bool
  pub free : ℕ
  pub waiting : List ℕ
  pub admission_waiters : ℤ
  pub admissions : List ℕ
  pub admission_timeouts : ℕ
  pub admission_rejected : ℕ

-- `__init__`
abbrev pub new_admissions : ℕ → Admissions
new_admissions workers = record {
  closed = false;
  free = workers;
  waiting = [];
  admission_waiters = pos 0;
  admissions = [];
  admission_timeouts = 0;
  admission_rejected = 0;
}

-- `_admission_slots.locked()`
abbrev pub locked : Admissions → Bool
locked a = a.free == 0 || not (is_empty a.waiting)

abbrev pub reject : Admissions → Admissions
reject a = record a { admission_rejected = a.admission_rejected + 1 }

abbrev pub time_out : Admissions → Admissions
time_out a = record a { admission_timeouts = a.admission_timeouts + 1 }

abbrev pub release_slot : Admissions → Admissions
release_slot a = record a { free = a.free + 1 }

abbrev pub take_slot : Admissions → Admissions
take_slot a = record a { free = a.free - 1 }

-- What meets a call that has its slot: whether its deadline has passed, and whether the executor
-- takes the work.
pub record Meets : Type 0 where
  pub late : Bool
  pub submits : Bool

-- From the slot on: the last tests, and the future.
unfoldable pub with_slot : ℕ → Meets → Admissions → Admissions
with_slot call meets a =
    if a.closed
    then reject (release_slot a)
    else if meets.late
    then reject (time_out (release_slot a))
    else if meets.submits
    then record a { admissions = a.admissions ++ call ∷ [] }
    else reject (release_slot a)

-- The end of the wait for a slot, its `finally`.
unfoldable pub stop_waiting : ℕ → Admissions → Admissions
stop_waiting call a = record a {
  waiting = remove call a.waiting;
  admission_waiters = a.admission_waiters -ℤ pos 1;
}

-- A call that begins: with a free slot it goes on at once.
unfoldable pub arrive : ℕ → Meets → Admissions → Admissions
arrive call meets a =
    if a.closed
    then reject a
    else if locked a
    then record a {
      waiting = a.waiting ++ call ∷ [];
      admission_waiters = a.admission_waiters +ℤ pos 1;
    }
    else with_slot call meets (take_slot a)

pub data Event : Type 0 where
  begins : ℕ → Meets → Event
  gets_slot : ℕ → Meets → Event
  waits_too_long : ℕ → Event
  wait_cancelled : ℕ → Event
  thread_done : ℕ → Event
  gives_up : ℕ → Event
  closes : Event

-- One step; none where the event cannot happen.
unfoldable pub step : Event → Admissions → Option Admissions
step (begins call meets) a = some (arrive call meets a)
step (gets_slot call meets) a =
    if elem call a.waiting && ltb 0 a.free
    then some (with_slot call meets (take_slot (stop_waiting call a)))
    else none
step (waits_too_long call) a =
    if elem call a.waiting then some (reject (time_out (stop_waiting call a))) else none
step (wait_cancelled call) a = if elem call a.waiting then some (stop_waiting call a) else none
step (thread_done call) a =
    if elem call a.admissions
    then some (release_slot (record a { admissions = remove call a.admissions }))
    else none
step (gives_up call) a = if elem call a.admissions then some (time_out a) else none
step closes a = some (record a { closed = true })

-- A run of the event loop.
pub data Reach (workers : ℕ) : Admissions → Type 0 where
  start : Reach workers (new_admissions workers)
  next : {a a' : Admissions} → Reach workers a → (e : Event) → step e a ≡ some a' → Reach workers a'

-- The threads that are running, one after the other, come to their end.
unfoldable pub all_done : List ℕ → Admissions → Option Admissions
all_done [] a = some a
all_done (call ∷ calls) a = step (thread_done call) a >>= all_done calls
