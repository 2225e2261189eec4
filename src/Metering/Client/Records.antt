-- ===== src/Metering/Client/Records.antt =====
-- What MeteredHTTPClient records of an attempt (openai_compatible_bridge/core/metered_http.py).
use openai_compatible_bridge.Prelude.{
  ℕ, ◌≡◌, ◌<◌, ◌⊎◌, refl, true, false, Option, none, some, List, [], ◌∷◌, map,
}
use openai_compatible_bridge.Prelude.Result.{Result, ok, err}
use openai_compatible_bridge.Usage.{NormalizedUsage, Provider}
use openai_compatible_bridge.Cost.Gate.{Reservation}
use openai_compatible_bridge.Metering.Stream.{Texts, usage}
use openai_compatible_bridge.Metering.Client.{
  exhausted, Response, record_usage, post, Body, consumed, stream,
}

-- The reservation that an admission gave.
abbrev pub admitted : {E : Type 0} → Result E (Option Reservation) → List Reservation
admitted (err e) = []
admitted (ok none) = []
admitted (ok (some r)) = r ∷ []

-- `post` and `stream` record the reservation that they were given exactly once, on every path:
-- whether the request or the response fails, the body raises or its task is cancelled.
pub recorded_once :
    {E : Type 0} (T : Texts) (p : Provider) (answer : Result E (Option Reservation))
    (sent : Result E Response) (opened : Result E ℕ) (b : Body)
    → (map (λ x. x.0) (post p answer sent).1 ≡ admitted answer)
      × (map (λ x. x.0) (stream T p answer opened b) ≡ admitted answer)
unfolding post stream record_usage
recorded_once T p (err e) sent opened b = (refl, refl)
recorded_once T p (ok none) (err e) (err x) b = (refl, refl)
recorded_once T p (ok none) (err e) (ok x) b = (refl, refl)
recorded_once T p (ok none) (ok y) (err x) b = (refl, refl)
recorded_once T p (ok none) (ok y) (ok x) b = (refl, refl)
recorded_once T p (ok (some r)) (err e) (err x) b = (refl, refl)
recorded_once T p (ok (some r)) (err e) (ok x) b = (refl, refl)
recorded_once T p (ok (some r)) (ok y) (err x) b = (refl, refl)
recorded_once T p (ok (some r)) (ok y) (ok x) b = (refl, refl)

-- A stream whose usage may be believed.
pub record IsComplete (T : Texts) (p : Provider) (r : Reservation) (status : ℕ) (b : Body)
    (u : NormalizedUsage) : Type 0 where
  pub succeeded : status < 400
  pub undisturbed : (b.raises ≡ false) × (b.cancelled ≡ false)
  pub unfailed : (consumed T p r b).failed ≡ false
  pub ended : (b.reading ≡ exhausted) ⊎ ((consumed T p r b).observer.done ≡ true)
  pub believed : usage (consumed T p r b).observer ≡ some u
