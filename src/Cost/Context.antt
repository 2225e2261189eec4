-- ===== src/Cost/Context.antt =====
-- BudgetReservationContext (openai_compatible_bridge/core/cost_tracking.py): the settlement of the
-- reservation that one request holds.
-- The accounting is any object, so its calls are values here: a method returns those that it made,
-- each with its outcome. What `preflight` answers and whether a settlement raises are inputs.
pub mod Balanced
pub mod Once
mod Tests
use openai_compatible_bridge.Prelude.{
  ℕ, Bool, true, false, not, ◌&&◌, ◌||◌, Option, none, some, String, List, [], ◌∷◌, ◌++◌, ◌==◌,
  if◌then◌else◌,
}
use openai_compatible_bridge.Prelude.Result.{Result, ok, err}
use openai_compatible_bridge.Usage.{NormalizedUsage}
use openai_compatible_bridge.Cost.Gate.{CostError, Reservation, Attempt}

-- The three ways to settle.
pub data Ending : Type 0 where
  success : NormalizedUsage → Ending
  estimated_only released : String → Ending

-- A call of the accounting: an admission with its answer, or a settlement and whether it raised.
pub data Call : Type 0 where
  preflight : Attempt → Result CostError (Option Reservation) → Call
  settlement : Option Reservation → Ending → Bool → Call

pub record Context : Type 0 where
  pub enabled : Bool
  pub endpoint : String
  pub model : String
  pub forecast_usage : NormalizedUsage
  pub provider : Option String
  pub current_reservation : Option Reservation
  pub finalized : Bool
  pub is_stream : Bool
  pub stream_saw_event : Bool
  pub actual_usage : Option NormalizedUsage
  pub estimated_reason : Option String
  pub preflight_done : Bool

-- `__init__`; `enabled` is whether there is an accounting and it is enabled.
abbrev pub new_context : Bool → Attempt → Context
new_context enabled a = record {
  enabled = enabled;
  endpoint = a.endpoint;
  model = a.model;
  forecast_usage = a.forecast_usage;
  provider = a.provider;
  current_reservation = none;
  finalized = false;
  is_stream = false;
  stream_saw_event = false;
  actual_usage = none;
  estimated_reason = none;
  preflight_done = false;
}

-- What a method did: its calls, the context behind them, and whether it raised.
pub record Done : Type 0 where
  pub calls : List Call
  pub context : Context
  pub raised : Bool

pub quiet : Context → Done
quiet c = record { calls = []; context = c; raised = false }

-- A settlement, and the flag behind it, which is not reached when the call raises.
pub settle_as : Bool → Ending → Context → Done
settle_as true ending c = record {
  calls = settlement c.current_reservation ending true ∷ [];
  context = c;
  raised = true;
}
settle_as false ending c = record {
  calls = settlement c.current_reservation ending false ∷ [];
  context = record c { finalized = true };
  raised = false;
}

-- `preflight` with its answer, assigned to the current reservation.
pub admit : Attempt → Result CostError (Option Reservation) → (Context → Context) → Context → Done
admit a (err e) then_set c = record { calls = preflight a (err e) ∷ []; context = c; raised = true }
admit a (ok r) then_set c = record {
  calls = preflight a (ok r) ∷ [];
  context = then_set (record c { current_reservation = r });
  raised = false;
}

pub attempt_of : Context → Attempt
attempt_of c = record {
  endpoint = c.endpoint;
  model = c.model;
  forecast_usage = c.forecast_usage;
  provider = c.provider;
}

abbrev pub prepared : Context → Context
prepared c = record c { preflight_done = true }

abbrev pub reopened : Context → Context
reopened c = record c { finalized = false }

-- `preflight_now`
pub preflight_now : Result CostError (Option Reservation) → Context → Done
unfolding quiet admit attempt_of
preflight_now answer c =
    if c.preflight_done
    then quiet c
    else if c.enabled
    then admit (attempt_of c) answer prepared c
    else quiet (prepared c)

-- `_has_actual_usage`
pub has_actual_usage : NormalizedUsage → Bool
has_actual_usage u =
    not (u.total_tokens == 0)
    || (not (u.prompt_tokens == 0)
        || (not (u.completion_tokens == 0)
            || (not (u.embedding_tokens == 0) || not (u.rerank_units == 0))))

-- `_finalize_with_usage_or_estimate`
pub usage_or_estimate : NormalizedUsage → String → Bool → Ending
unfolding has_actual_usage
usage_or_estimate u reason accept_empty_usage =
    if accept_empty_usage || has_actual_usage u then success u else estimated_only reason

-- `_success_estimated_reason`
pub success_estimated_reason : Context → String
success_estimated_reason c = elim (c.estimated_reason) [
  | none ↦ if c.is_stream then "stream_missing_usage" else "missing_usage"
  | some reason ↦ reason
]

-- `_finalize_successful_exit`
pub successful_exit : Context → Ending
unfolding usage_or_estimate success_estimated_reason
successful_exit c = elim (c.actual_usage) [
  | none ↦ estimated_only (success_estimated_reason c)
  | some u ↦ usage_or_estimate u (success_estimated_reason c) c.is_stream
]

-- `_finalize_failed_exit`
pub failed_exit : String → Context → Ending
failed_exit release_reason c =
    if c.is_stream && c.stream_saw_event
    then estimated_only "stream_error_after_start"
    else released release_reason

-- The guard that all the settling methods begin with.
pub unless_finalized : Bool → Ending → Context → Done
unfolding quiet settle_as
unless_finalized raises ending c = if c.finalized then quiet c else settle_as raises ending c

-- `__aexit__`, for a body that ended in an exception or not.
pub aexit : Bool → Bool → Context → Done
unfolding unless_finalized successful_exit failed_exit
aexit raises failed c =
    unless_finalized raises (if failed then failed_exit "upstream_error" c else successful_exit c) c

-- `finalize_interrupted_stream`
pub finalize_interrupted_stream : Bool → String → Context → Done
unfolding unless_finalized successful_exit failed_exit
finalize_interrupted_stream raises reason c =
    unless_finalized raises
      (elim (c.actual_usage) [ none ↦ failed_exit reason c | some u ↦ successful_exit c ]) c

-- `complete_attempt`
pub complete_attempt : Bool → NormalizedUsage → String → Context → Done
unfolding unless_finalized usage_or_estimate
complete_attempt raises usage reason c =
    unless_finalized raises (usage_or_estimate usage reason false) c

-- `release_attempt`
pub release_attempt : Bool → String → Context → Done
unfolding unless_finalized
release_attempt raises reason c = unless_finalized raises (released reason) c

-- The first statement of `renew`: what the context still holds is released.
pub replace : Bool → Context → Done
unfolding quiet settle_as
replace raises c = elim (c.current_reservation) [
  | none ↦ quiet c
  | some r ↦ if c.finalized then quiet c else settle_as raises (released "replaced") c
]

-- The rest of `renew`.
pub renew_with :
    Result CostError (Option Reservation)
    → String
    → NormalizedUsage
    → Option String
    → Context
    → Done
unfolding quiet admit
renew_with answer model usage provider c =
    let c' = record c { provider = elim provider [ none ↦ c.provider | some p ↦ some p ] } in
    if c.enabled
    then admit
        (record {
          endpoint = c.endpoint;
          model = model;
          forecast_usage = usage;
          provider = c'.provider;
        })
        answer reopened c'
    else quiet (record c' { current_reservation = none; finalized = false })

-- A second part, unless the first raised.
pub and_then : Done → (Context → Done) → Done
and_then d f = if d.raised then d else record {
  calls = d.calls ++ (f d.context).calls;
  context = (f d.context).context;
  raised = (f d.context).raised;
}

-- `renew`
pub renew :
    Bool
    → Result CostError (Option Reservation)
    → String
    → NormalizedUsage
    → Option String
    → Context
    → Done
unfolding replace renew_with and_then
renew raises answer model usage provider c =
    and_then (replace raises c) (renew_with answer model usage provider)

-- What the owner of a context does with it between entering and leaving it, the attributes that it
-- sets included.
pub data Event : Type 0 where
  stream saw_event : Event
  complete : NormalizedUsage → Event
  estimate_for : String → Event
  enter_again : Result CostError (Option Reservation) → Event
  attempt_completed : Bool → NormalizedUsage → String → Event
  attempt_released interrupted : Bool → String → Event
  renewed :
      Bool
      → Result CostError (Option Reservation)
      → String
      → NormalizedUsage
      → Option String
      → Event
  leave : Bool → Bool → Event

pub step : Event → Context → Done
unfolding quiet preflight_now complete_attempt release_attempt finalize_interrupted_stream renew
    aexit
step stream c = quiet (record c { is_stream = true })
step saw_event c = quiet (record c { stream_saw_event = true })
step (complete u) c = quiet (record c { actual_usage = some u })
step (estimate_for reason) c = quiet (record c { estimated_reason = some reason })
step (enter_again answer) c = preflight_now answer c
step (attempt_completed raises u reason) c = complete_attempt raises u reason c
step (attempt_released raises reason) c = release_attempt raises reason c
step (interrupted raises reason) c = finalize_interrupted_stream raises reason c
step (renewed raises answer model u provider) c = renew raises answer model u provider c
step (leave raises failed) c = aexit raises failed c
