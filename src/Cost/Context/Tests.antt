-- ===== src/Cost/Context/Tests.antt =====
-- Runs of a BudgetReservationContext (openai_compatible_bridge/core/cost_tracking.py).
use openai_compatible_bridge.Prelude.{ℕ, ◌≡◌, refl, true, false, none, some, List, [], ◌∷◌, ◌++◌}
use openai_compatible_bridge.Prelude.Result.{ok}
use openai_compatible_bridge.Usage.{no_usage}
use openai_compatible_bridge.Cost.Gate.{Reservation}
use openai_compatible_bridge.Cost.Gate.Preflight.Tests.{attempt}
use openai_compatible_bridge.Cost.Context.{
  Context, new_context, Call, preflight_now, Event, stream, saw_event, renewed, leave, step, quiet,
  admit, settle_as, unless_finalized, aexit, failed_exit, replace, renew_with, and_then, renew,
}
use openai_compatible_bridge.Cost.Context.Balanced.{granted, closed}
use openai_compatible_bridge.Cost.Context.Once.{Run, entered, used, Run-settles_once}

abbrev reservation : ℕ → Reservation
reservation k = record {
  reservation_id = k;
  internal_request_id = k;
  provider = some "vertex";
  endpoint = "chat";
  model = "gemini";
  forecast_cost_usd = 80;
  currency = "USD";
  pricing_source = "list";
  pricing_version = "1";
  window_started_at = 0;
  created_at = 0;
}

-- A request that is sent twice, the second time as a stream that breaks.
abbrev fresh : Context
fresh = new_context true attempt

abbrev first_try : Context
first_try = (preflight_now (ok (some (reservation 1))) fresh).context

abbrev first_calls : List Call
first_calls = (preflight_now (ok (some (reservation 1))) fresh).calls

abbrev retry : Event
retry = renewed false (ok (some (reservation 2))) "gemini" no_usage none

abbrev second_try : Context
second_try = (step saw_event (step stream (step retry first_try).context).context).context

abbrev second_calls : List Call
second_calls =
    (first_calls ++ (step retry first_try).calls)
    ++ (step stream (step retry first_try).context).calls
    ++ (step saw_event (step stream (step retry first_try).context).context).calls

Run-second_try : Run second_try second_calls
unfolding preflight_now admit
Run-second_try =
    used saw_event
      (used stream (used retry (entered true attempt (ok (some (reservation 1))) refl)))

-- The first reservation is released and the second one settled.
both_settled :
    closed (second_calls ++ (step (leave false true) second_try).calls)
    ≡ reservation 1 ∷ reservation 2 ∷ []
unfolding step preflight_now quiet admit settle_as unless_finalized aexit failed_exit replace
    renew_with and_then renew closed
both_settled = refl

Run-settles_once_example :
    closed (second_calls ++ (step (leave false true) second_try).calls)
    ≡ granted (second_calls ++ (step (leave false true) second_try).calls)
unfolding step preflight_now quiet admit settle_as unless_finalized aexit failed_exit replace
    renew_with and_then renew
Run-settles_once_example = Run-settles_once second_try second_calls false true Run-second_try refl
