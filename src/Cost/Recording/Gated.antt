-- ===== src/Cost/Recording/Gated.antt =====
-- The gate and the billing that AsyncCostAccounting.before_attempt
-- (openai_compatible_bridge/core/async_cost.py) asks: `billing` as `__init__` leaves it, the providers
-- that its gate tracks, and what the call of the gate in another thread comes to. `sorted` is a
-- parameter.
use openai_compatible_bridge.Prelude.{
  Bool, true, false, Option, none, some, String, List, [], ◌∷◌, if◌then◌else◌, str_eq,
}
use openai_compatible_bridge.Prelude.Result.{Result, ok, err}
use openai_compatible_bridge.Cost.Gate.{
  Gate, CostError, subsystem_unhealthy, missing_pricing, budget_exceeded, Reservation, Attempt,
  Meets, attempt_gate,
}
use openai_compatible_bridge.Cost.Gate.Preflight.{preflight}
use openai_compatible_bridge.Cost.Recording.{Billing, metered, Refusal}

-- `self.billing`
abbrev pub Billings : Type 0
Billings = List (String × Billing)

-- `self.billing.get(provider)`
unfoldable pub billing_of : String → Billings → Option Billing
billing_of p [] = none
billing_of p ((key, mode) ∷ rest) =
    let found = billing_of p rest in if str_eq key p then some mode else found

abbrev pub is_metered_mode : Billing → Bool
is_metered_mode metered = true
is_metered_mode _ = false

-- The keys with the value "metered".
unfoldable pub metered_providers : Billings → List String
metered_providers [] = []
metered_providers ((key, mode) ∷ rest) =
    let keys = metered_providers rest in if is_metered_mode mode then key ∷ keys else keys

-- `replace(config, tracked_providers=metered)` of the gate that `__init__` makes.
abbrev pub tracking_metered : (List String → List String) → Billings → Gate → Gate
tracking_metered sorted billing g = record g {
  config = record g.config { tracked_providers = sorted (metered_providers billing) };
}

-- The errors of the gate, as `before_attempt` tells them apart.
abbrev pub refusal_of : CostError → Refusal
refusal_of (subsystem_unhealthy reason) = Refusal.subsystem_unhealthy
refusal_of missing_pricing = Refusal.config_error
refusal_of (budget_exceeded b) = Refusal.budget_exceeded

abbrev pub refusing : Result CostError (Option Reservation) → Result Refusal (Option Reservation)
refusing (ok r) = ok r
refusing (err e) = err (refusal_of e)

-- How `_admit_io` goes: it raises and `_preflight` does not get to the gate (no capacity, the time is
-- up, the ledger is not healthy), it raises because the answer of the gate comes too late, or it
-- returns that answer.
pub data AdmitIo : Type 0 where
  unreached late : Refusal → AdmitIo
  in_time : AdmitIo

-- The attempt of the active context, for the provider of the call.
abbrev pub attempt_for : String → Attempt → Attempt
attempt_for p a = record a { provider = some p }

-- `self._admit_io(self._preflight, ...)`
unfoldable pub admit_io :
    (String → String)
    → AdmitIo
    → Attempt
    → Meets
    → Gate
    → Result Refusal (Option Reservation) × Gate
admit_io lower (unreached e) a w g = (err e, g)
admit_io lower (late e) a w g = let (r, g') = preflight lower attempt_gate a w g in (err e, g')
admit_io lower in_time a w g = let (r, g') = preflight lower attempt_gate a w g in (refusing r, g')
