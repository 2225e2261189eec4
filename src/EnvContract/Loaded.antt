-- ===== src/EnvContract/Loaded.antt =====
-- What the limits are that `load_limits` of openai_compatible_bridge/core/env_limits.py returns.
use openai_compatible_bridge.Prelude.{
  Bool, true, false, ◌&&◌, Option, none, some, String, List, [], ◌∷◌, ◌≡◌, refl, ap, by_branches,
  by_option, if-eq-some,
}
use openai_compatible_bridge.Json.{
  Value, Fields, null, bool, int, float, str, list, dict, end, field, get, is_text, object,
}
use openai_compatible_bridge.EnvContract.{
  Checks, are_specs, fits, checked_settings, validate_contract, runtime_types, runtime_limit,
  limits_among, delay_is_tied, load_limits,
}
use openai_compatible_bridge.EnvContract.Limits.{
  both, is_text-eq, IsNumeric, IsLimit, runtime_limit-lem, read-IsLimit,
}

module _ (checks : Checks) where
  -- One limit for each name: the setting of that name, which is of its kind.
  pub AreLimits : Fields → List (String × String) → List (String × Fields) → Type 0
  AreLimits settings [] [] = Unit
  AreLimits settings (p ∷ ps) (l ∷ ls) =
      (l.0 ≡ p.0)
      × ((get p.0 settings ≡ dict l.1) × (IsLimit checks p.1 l.1 × AreLimits settings ps ls))
  AreLimits settings _ _ = true ≡ false

  -- The maximum delay refers to the initial one.
  pub IsTied : Fields → Type 0
  IsTied settings =
      (spec : Fields) × (get "EMBEDDINGS_RETRY_MAX_DELAY_SECONDS" settings ≡ dict spec)
      × (get "minimum_key" spec ≡ str "EMBEDDINGS_RETRY_INITIAL_DELAY_SECONDS")

  -- What is loaded from a contract, if anything is, are limits of its settings.
  pub AreLoaded : Value → Option (List (String × Fields)) → Type 0
  AreLoaded contract none = Unit
  AreLoaded contract (some ls) =
      (settings : Fields) × (get "settings" (object contract) ≡ dict settings)
      × IsTied settings
      × AreLimits settings runtime_types ls

  -- The limits of these settings, if there are any.
  AreAmong : Fields → List (String × String) → Option (List (String × Fields)) → Type 0
  AreAmong settings ps none = Unit
  AreAmong settings ps (some ls) = AreLimits settings ps ls

  AreNumeric : List (String × String) → Type 0
  AreNumeric [] = Unit
  AreNumeric (p ∷ ps) = IsNumeric p.1 × AreNumeric ps

  limits_among-AreAmong :
      (settings : Fields) (ps : List (String × String))
      → AreNumeric ps
      → are_specs checks settings settings ≡ true
      → AreAmong settings ps (limits_among settings ps)
  unfolding limits_among AreAmong AreLimits AreNumeric
  limits_among-AreAmong settings [] n h = tt
  limits_among-AreAmong settings (p ∷ ps) n h =
      by_option (AreAmong settings (p ∷ ps)) (runtime_limit p.1 (get p.0 settings)) (λ e. tt)
        (λ spec e.
          behind (runtime_limit-lem checks p.1 (get p.0 settings) spec e).0
            (read-IsLimit checks settings p.0 p.1 spec n.0 h e) (limits_among settings ps)
            (limits_among-AreAmong settings ps n.1 h))
    where
      behind :
          {spec : Fields}
          → get p.0 settings ≡ dict spec
          → IsLimit checks p.1 spec
          → (o : Option (List (String × Fields))) → AreAmong settings ps o
          → AreAmong settings
              (p ∷ ps)
              (elim o [ none ↦ none | some rest ↦ some ((p.0, spec) ∷ rest) ])
      behind own limit none l = tt
      behind own limit (some rest) l = (refl, (own, (limit, l)))

  checked-valid :
      (fits : Bool) (v : Value) (settings : Fields)
      → checked_settings checks fits v ≡ some settings
      → (v ≡ dict settings) × (are_specs checks settings settings ≡ true)
  unfolding checked_settings
  checked-valid fits (dict (field name spec d)) settings e =
      let all = field name spec d in
      let found = if-eq-some (fits && are_specs checks all all) e in
      let valid = both fits (are_specs checks all all) found.0 in
      (ap dict found.1, rw found.1 at valid.1)
  checked-valid fits (dict end) settings e = absurd cc
  checked-valid fits null settings e = absurd cc
  checked-valid fits (bool b) settings e = absurd cc
  checked-valid fits (int n) settings e = absurd cc
  checked-valid fits (float t) settings e = absurd cc
  checked-valid fits (str t) settings e = absurd cc
  checked-valid fits (list vs) settings e = absurd cc

  validated :
      (contract : Value) (settings : Fields)
      → validate_contract checks contract ≡ some settings
      → (get "settings" (object contract) ≡ dict settings)
        × (are_specs checks settings settings ≡ true)
  unfolding validate_contract
  validated (dict contract) settings e =
      checked-valid (fits contract) (get "settings" contract) settings e
  validated null settings e = absurd cc
  validated (bool b) settings e = absurd cc
  validated (int n) settings e = absurd cc
  validated (float t) settings e = absurd cc
  validated (str t) settings e = absurd cc
  validated (list vs) settings e = absurd cc

  delay_is_tied-IsTied : (settings : Fields) → delay_is_tied settings ≡ true → IsTied settings
  unfolding delay_is_tied IsTied
  delay_is_tied-IsTied settings h = tied (get "EMBEDDINGS_RETRY_MAX_DELAY_SECONDS" settings) h
    where
      tied :
          (v : Value)
          → (elim v [
            | dict spec ↦ is_text "EMBEDDINGS_RETRY_INITIAL_DELAY_SECONDS" (get "minimum_key" spec)
            | _ ↦ false
          ])
            ≡ true
          → (spec : Fields) × (v ≡ dict spec)
            × (get "minimum_key" spec ≡ str "EMBEDDINGS_RETRY_INITIAL_DELAY_SECONDS")
      tied (dict spec) t = (spec, refl, is_text-eq _ (get "minimum_key" spec) t)
      tied null t = absurd cc
      tied (bool b) t = absurd cc
      tied (int n) t = absurd cc
      tied (float u) t = absurd cc
      tied (str u) t = absurd cc
      tied (list vs) t = absurd cc

  runtime-AreLoaded :
      (contract : Value) (settings : Fields)
      → (get "settings" (object contract) ≡ dict settings)
      → (are_specs checks settings settings ≡ true)
      → IsTied settings
      → AreLoaded contract (limits_among settings runtime_types)
  unfolding AreNumeric IsNumeric AreLoaded AreAmong
  runtime-AreLoaded contract settings own valid tied = found (limits_among settings runtime_types) (
      limits_among-AreAmong settings runtime_types
        (refl, (refl, (refl, (refl, (refl, (refl, tt)))))) valid)
    where
      found :
          (o : Option (List (String × Fields)))
          → AreAmong settings runtime_types o
          → AreLoaded contract o
      found none l = tt
      found (some ls) l = (settings, own, tied, l)

  -- What `load_limits` returns are, in their order, the six runtime limits, each of them the setting
  -- that the contract itself has under the name of that limit. Its type is the one that the code
  -- reads it as, its bounds are finite numbers, ints where it is an integer, and the lower bound is at
  -- most the upper. The maximum delay of those settings refers to the initial delay.
  pub load_limits-AreLoaded : (contract : Value) → AreLoaded contract (load_limits checks contract)
  unfolding load_limits AreLoaded
  load_limits-AreLoaded contract =
      by_option (AreLoaded contract) (validate_contract checks contract) (λ e. tt)
        (λ settings e.
          let valid = validated contract settings e in
          by_branches (AreLoaded contract) (delay_is_tied settings)
            (λ h.
              runtime-AreLoaded contract settings valid.0 valid.1 (delay_is_tied-IsTied settings h))
            (λ h. tt))
