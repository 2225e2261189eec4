-- ===== src/Cost/Recording/Tests.antt =====
-- A queue of one place (openai_compatible_bridge/core/async_cost.py) and what it counts.
use openai_compatible_bridge.Prelude.{
  ℕ, ◌≤◌, ◌≡◌, ◌⊎◌, refl, ap, true, false, none, some, String, List, [], ◌∷◌, length,
}
use openai_compatible_bridge.Prelude.Result.{ok, err}
use openai_compatible_bridge.Usage.{no_usage}
use openai_compatible_bridge.Cost.Gate.{Gate, Reservation}
use openai_compatible_bridge.Cost.Recording.{
  Active, metered, subscription, nonbillable, unexpected, subsystem_unhealthy, before_attempt,
  admit_metered, admitted, Recorder, new_recorder, record_attempt, take_job, stop_recording, Event,
  attempted, taken, close, stop, step,
}
use openai_compatible_bridge.Cost.Recording.FailClosed.{IsReserved, before_attempt_fails_closed}
use openai_compatible_bridge.Cost.Recording.Gated.{
  Billings, billing_of, metered_providers, tracking_metered, refusing, in_time, attempt_for,
  admit_io,
}
use openai_compatible_bridge.Cost.Gate.Preflight.Tests.{
  lower, gate, attempt, meets, reservation as gate_reservation, attempt_admission,
}
use openai_compatible_bridge.Cost.Recording.Balance.{
  Reach, initial, after, accounted, Reach-accounted,
}

abbrev reservation : Reservation
reservation = record {
  reservation_id = 1;
  internal_request_id = 1;
  provider = some "vertex";
  endpoint = "chat";
  model = "gemini";
  forecast_cost_usd = 80;
  currency = "USD";
  pricing_source = "list";
  pricing_version = "1";
  window_started_at = 0;
  created_at = 0;
}

abbrev advance : Event → Recorder → Recorder
advance e s = elim (step e s) [ none ↦ s | some s' ↦ s' ]

abbrev arrival : Event
arrival = attempted (some reservation) (some no_usage)

-- One job is with the writer, one is in the queue, and a third finds it full.
abbrev crowded : Recorder
crowded = advance arrival (advance arrival (advance taken (advance arrival (new_recorder 1))))

abbrev closing : Recorder
closing = advance close crowded

Reach-closing : Reach 1 closing 3
unfolding step record_attempt take_job
Reach-closing =
    after close
      (after arrival (after arrival (after taken (after arrival initial refl) refl) refl) refl) refl

-- The job that is being written and the one in the queue are dropped.
all_dropped : (advance stop closing).records_dropped ≡ 3
unfolding step record_attempt take_job stop_recording
all_dropped = refl

-- An error of the store that is not expected is counted, and becomes an unhealthy subsystem.
unexpected_error :
    before_attempt
      (some metered)
      true
      (some (record { is_own = true; provider = some "vertex" }))
      "vertex"
      (err unexpected)
      4
    ≡ (err subsystem_unhealthy, 5)
unfolding before_attempt admit_metered admitted
unexpected_error = refl

Reach-accounted_example :
    (3 ≡ accounted closing)
    × (length closing.queue ≤ 1)
    × (closing.record_failures ≤ closing.records_dropped)
Reach-accounted_example = Reach-accounted 1 closing 3 Reach-closing

abbrev own : Active
own = record { is_own = true; provider = some "vertex" }

abbrev billing : Billings
billing = ("ollama", nonbillable) ∷ ("vertex", metered) ∷ []

abbrev as_given : List String → List String
as_given ps = ps

abbrev at_gate : Gate
at_gate = tracking_metered as_given billing gate

-- The gate grants the reservation in time.
granted :
    before_attempt
      (billing_of "vertex" billing)
      true
      (some own)
      "vertex"
      (admit_io lower in_time (attempt_for "vertex" attempt) (meets 1 false) at_gate).0
      4
    ≡ (ok (some gate_reservation), 4)
unfolding before_attempt admit_metered admitted admit_io billing_of metered_providers
granted =
    ap (λ o. before_attempt (some metered) true (some own) "vertex" (refusing o) 4)
      attempt_admission

before_attempt_fails_closed_example :
    (◌≡◌ {A = ℕ} 4 4)
    × ((((billing_of "vertex" billing ≡ some subscription)
            ⊎ (billing_of "vertex" billing ≡ some nonbillable))
          × (some gate_reservation ≡ none))
        ⊎ IsReserved lower billing true
            (some own)
            "vertex"
            attempt
            (meets 1 false)
            at_gate
            (admit_io lower in_time (attempt_for "vertex" attempt) (meets 1 false) at_gate).1
            (some gate_reservation))
before_attempt_fails_closed_example =
    before_attempt_fails_closed lower as_given (λ q ps. refl) billing true (some own) "vertex"
      in_time attempt (meets 1 false) gate (some gate_reservation) 4 4 refl granted
