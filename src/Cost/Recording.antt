-- ===== src/Cost/Recording.antt =====
-- AsyncCostAccounting of openai_compatible_bridge/core/async_cost.py: the decision in front of an
-- admission, and the bounded queue of usages with the one task that writes them.
-- A step is what runs between two points at which a task can be suspended. The thread that writes to
-- the ledger is an input: it succeeds or it raises. A write that is cancelled may still happen in its
-- thread; the code counts it as dropped, and so does the model.
pub mod Balance
pub mod FailClosed
pub mod Gated
mod Tests
use openai_compatible_bridge.Prelude.{
  ℕ, ◌+◌, Bool, true, false, not, ◌&&◌, ◌||◌, Option, none, some, String, List, [], ◌∷◌, ◌++◌,
  if◌then◌else◌, length, ltb, str_eq,
}
use openai_compatible_bridge.Prelude.Result.{Result, ok, err}
use openai_compatible_bridge.Usage.{NormalizedUsage}
use openai_compatible_bridge.Cost.Gate.{Reservation}

-- The classification of a provider in `billing`.
pub data Billing : Type 0 where
  metered subscription nonbillable : Billing

-- What `before_attempt` may raise: its own errors, and those of the admission.
pub data Refusal : Type 0 where
  billing_unavailable context_unavailable config_error subsystem_unhealthy budget_exceeded : Refusal
  unexpected : Refusal

-- The active context: whether it belongs to this accounting, and its provider.
pub record Active : Type 0 where
  pub is_own : Bool
  pub provider : Option String

abbrev pub names : Option String → String → Bool
names none p = false
names (some q) p = str_eq q p

-- The outcome of the admission: errors that are not expected become one, and all but a passed budget
-- are counted.
pub admitted : Result Refusal (Option Reservation) → ℕ → Result Refusal (Option Reservation) × ℕ
admitted (ok r) failures = (ok r, failures)
admitted (err budget_exceeded) failures = (err budget_exceeded, failures)
admitted (err unexpected) failures = (err subsystem_unhealthy, failures + 1)
admitted (err e) failures = (err e, failures + 1)

pub admit_metered :
    Bool
    → Option Active
    → String
    → Result Refusal (Option Reservation)
    → ℕ
    → Result Refusal (Option Reservation) × ℕ
admit_metered false active p answer failures = (err billing_unavailable, failures)
admit_metered true none p answer failures = (err context_unavailable, failures)
admit_metered true (some c) p answer failures =
    if not c.is_own || not (names c.provider p)
    then (err context_unavailable, failures)
    else admitted answer failures

-- `before_attempt`, with the count of `admission_failures`. `has_gate` is whether there is a gate,
-- and `answer` is the outcome of the admission, which is only asked for when it is reached.
pub before_attempt :
    Option Billing
    → Bool
    → Option Active
    → String
    → Result Refusal (Option Reservation)
    → ℕ
    → Result Refusal (Option Reservation) × ℕ
before_attempt (some subscription) has_gate active p answer failures = (ok none, failures)
before_attempt (some nonbillable) has_gate active p answer failures = (ok none, failures)
before_attempt (some metered) has_gate active p answer failures =
    admit_metered has_gate active p answer failures
before_attempt none has_gate active p answer failures = (err billing_unavailable, failures)

abbrev pub Job : Type 0
Job = Reservation × NormalizedUsage

-- The queue with its writer, and the counters of `_counts` that they keep. `started` is whether
-- `_writer` is set, and `writing` is the job that the writer has taken.
pub record Recorder : Type 0 where
  pub capacity : ℕ
  pub queue : List Job
  pub writing : Option Job
  pub started : Bool
  pub stopped : Bool
  pub closed : Bool
  pub usage_missing : ℕ
  pub records_written : ℕ
  pub records_dropped : ℕ
  pub record_failures : ℕ

-- `__init__`
abbrev pub new_recorder : ℕ → Recorder
new_recorder queue_size = record {
  capacity = queue_size;
  queue = [];
  writing = none;
  started = false;
  stopped = false;
  closed = false;
  usage_missing = 0;
  records_written = 0;
  records_dropped = 0;
  record_failures = 0;
}

-- `record_attempt`
pub record_attempt : Option Reservation → Option NormalizedUsage → Recorder → Recorder
record_attempt none u s = s
record_attempt (some r) none s = record s { usage_missing = s.usage_missing + 1 }
record_attempt (some r) (some u) s =
    if s.closed
    then record s { records_dropped = s.records_dropped + 1 }
    else if ltb (length s.queue) s.capacity
    then record s { queue = s.queue ++ (r, u) ∷ []; started = true }
    else record s { records_dropped = s.records_dropped + 1 }

-- `_write_records` up to its `await` of the thread.
pub take_job : Recorder → List Job → Option Job → Option Recorder
take_job s (j ∷ js) none =
    if s.started && not s.stopped then some (record s { queue = js; writing = some j }) else none
take_job s js job = none

-- `_write_records` behind the thread, which has returned or raised.
pub written : Bool → Recorder → Option Job → Option Recorder
written failed s none = none
written true s (some j) = some (record s {
  writing = none;
  record_failures = s.record_failures + 1;
  records_dropped = s.records_dropped + 1;
})
written false s (some j) =
    some (record s { writing = none; records_written = s.records_written + 1 })

-- The number of jobs that the writer holds, which `record_in_flight` shows.
abbrev pub in_flight : Option Job → ℕ
in_flight none = 0
in_flight (some j) = 1

-- `aclose` behind its wait: the writer is cancelled, and the rest of the queue is dropped.
pub stop_recording : Recorder → Recorder
stop_recording s = record s {
  queue = [];
  writing = none;
  stopped = true;
  records_dropped = s.records_dropped + in_flight s.writing + length s.queue;
}

pub data Event : Type 0 where
  attempted : Option Reservation → Option NormalizedUsage → Event
  taken : Event
  wrote : Bool → Event
  close : Event
  stop : Event

-- One step; none when the event is not possible. `close` is the beginning of `aclose`.
pub step : Event → Recorder → Option Recorder
step (attempted r u) s = some (record_attempt r u s)
step taken s = take_job s s.queue s.writing
step (wrote failed) s = written failed s s.writing
step close s = some (record s { closed = true })
step stop s = if s.closed then some (stop_recording s) else none
