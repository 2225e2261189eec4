-- ===== src/EnvContract/Tests.antt =====
-- Contracts for `load_limits` of openai_compatible_bridge/core/env_limits.py.
use openai_compatible_bridge.Prelude.{
  ℕ, Bool, true, false, none, String, [], ◌∷◌, ◌≡◌, refl, leb, is_some,
}
use openai_compatible_bridge.Prelude.Int.{pos}
use openai_compatible_bridge.Json.{Value, Fields, int, str, dict, end, field, get, has}
use openai_compatible_bridge.EnvContract.{
  Checks, key_among, keys_within, is_bound, are_ordered, is_reference, is_numeric_spec, is_spec_of,
  are_specs, checked_settings, validate_contract, unique_object, limits_among, delay_is_tied,
  load_limits,
}
use openai_compatible_bridge.EnvContract.Loaded.{AreLoaded, load_limits-AreLoaded}

abbrev no_more : Value → Value → Bool
no_more (int (pos a)) (int (pos b)) = leb a b
no_more _ _ = false

abbrev checks : Checks
checks = record { is_finite = λ v. true; at_most = no_more; casefold = λ t. t }

abbrev bounded : String → ℕ → Fields → Value
bounded kind top rest =
    dict (field "type" (str kind) (field "min" (int (pos 1)) (field "max" (int (pos top)) rest)))

abbrev contract : ℕ → Value
contract top = dict (
    field "schema" (str "bridge-env-example-contract/v1") (
      field "settings"
        (dict (
          field "EMBEDDINGS_RETRY_MAX_ATTEMPTS" (bounded "integer" top end) (
            field "EMBEDDINGS_RETRY_INITIAL_DELAY_SECONDS" (bounded "number" 9 end) (
              field "EMBEDDINGS_RETRY_MAX_DELAY_SECONDS"
                (bounded "number" 9
                  (field "minimum_key" (str "EMBEDDINGS_RETRY_INITIAL_DELAY_SECONDS") end))
                (field "EMBEDDINGS_RETRY_TIMEOUT_SECONDS" (bounded "number" 9 end) (
                  field "COST_ADMISSION_WORKERS" (bounded "integer" 9 end)
                    (field "COST_ADMISSION_TIMEOUT_SECONDS" (bounded "number" 9 end) end)))))))
        end))

-- Bounds in the wrong order.
disordered_test : load_limits checks (contract 0) ≡ none
unfolding load_limits validate_contract checked_settings are_specs is_spec_of is_numeric_spec
    is_bound are_ordered key_among keys_within get has
disordered_test = refl

-- A key that comes twice is refused.
twice_test :
    unique_object (("a", int (pos 1)) ∷ ("b", int (pos 2)) ∷ ("a", int (pos 3)) ∷ []) ≡ none
unfolding unique_object has
twice_test = refl

load_limits-AreLoaded_example : AreLoaded checks (contract 5) (load_limits checks (contract 5))
load_limits-AreLoaded_example = load_limits-AreLoaded checks (contract 5)

-- The example is loaded.
loaded_test : is_some (load_limits checks (contract 5)) ≡ true
unfolding load_limits validate_contract checked_settings are_specs is_spec_of is_numeric_spec
    is_bound are_ordered is_reference key_among keys_within get has limits_among delay_is_tied
loaded_test = refl
