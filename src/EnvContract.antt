-- ===== src/EnvContract.antt =====
-- The published contract of the environment: `validate_contract` of
-- openai_compatible_bridge/core/env_contract.py, and `load_limits` of
-- openai_compatible_bridge/core/env_limits.py, from the JSON of the file on. A contract is refused by an
-- exception, which is none, or false, here. `math.isfinite`, the comparison of numbers and
-- `str.casefold` are parameters.
mod Limits
mod Loaded
mod Tests
use openai_compatible_bridge.Prelude.{
  ℕ, Bool, true, false, not, ◌&&◌, ◌||◌, Option, none, some, String, List, [], ◌∷◌, if◌then◌else◌,
  leb, str_eq, ltb,
}
use openai_compatible_bridge.Prelude.Int.{pos}
use openai_compatible_bridge.Prelude.Bytes.{codes, is_digit}
use openai_compatible_bridge.Json.{
  Value, Values, Fields, null, bool, int, float, str, list, dict, nil, cons, end, field, get, has,
  is_text, one_of,
}

-- `math.isfinite`, false where it raises; `a <= b`; `casefold`.
pub record Checks : Type 0 where
  pub is_finite : Value → Bool
  pub at_most : Value → Value → Bool
  pub casefold : String → String

unfoldable pub key_among : String → List String → Bool
key_among key [] = false
key_among key (k ∷ ks) = str_eq k key || key_among key ks

-- `set(d) <= allowed`
unfoldable pub keys_within : List String → Fields → Bool
keys_within allowed end = true
keys_within allowed (field key v d) = key_among key allowed && keys_within allowed d

abbrev pub is_upper : ℕ → Bool
is_upper c = leb b'A' c && leb c b'Z'

abbrev pub is_name_char : ℕ → Bool
is_name_char c = is_upper c || is_digit c || leb b'_' c && leb c b'_'

abbrev pub all_name_chars : List ℕ → Bool
all_name_chars [] = true
all_name_chars (c ∷ cs) = is_name_char c && all_name_chars cs

-- `re.fullmatch(r"[A-Z][A-Z0-9_]*", name)`
abbrev pub is_setting_name : List ℕ → Bool
is_setting_name [] = false
is_setting_name (c ∷ cs) = is_upper c && all_name_chars cs

abbrev pub setting_types : List String
setting_types =
    "credential_path" ∷ "string" ∷ "secret" ∷ "boolean" ∷ "integer" ∷ "number" ∷ "enum" ∷ "csv"
    ∷ "json" ∷ "url" ∷ "path" ∷ "budget" ∷ []

abbrev pub is_int : Value → Bool
is_int (int n) = true
is_int _ = false

abbrev pub is_number : Value → Bool
is_number (int n) = true
is_number (float t) = true
is_number _ = false

abbrev pub is_bool : Value → Bool
is_bool (bool b) = true
is_bool _ = false

abbrev pub is_positive_int : Value → Bool
is_positive_int (int (pos n)) = ltb 0 n
is_positive_int _ = false

-- `spec.get("type") == kind`, of a value that may be no dict.
abbrev pub has_type : String → Value → Bool
has_type kind (dict spec) = is_text kind (get "type" spec)
has_type kind _ = false

-- The texts of a list that holds nothing else, and no empty text.
unfoldable pub nonempty_texts : Values → Option (List String)
nonempty_texts nil = some []
nonempty_texts (cons (str t) vs) = elim (nonempty_texts vs) [
  | none ↦ none
  | some ts ↦ if str_eq t "" then none else some (t ∷ ts)
]
nonempty_texts (cons v vs) = none

-- `len(values) == len(set(values))`
unfoldable pub all_different : List String → Bool
all_different [] = true
all_different (t ∷ ts) = not (key_among t ts) && all_different ts

-- The keys of a contract, and its schema.
abbrev pub fits : Fields → Bool
fits contract =
    has "schema" contract
    && (has "settings" contract
        && (keys_within ("schema" ∷ "settings" ∷ []) contract
            && is_text "bridge-env-example-contract/v1" (get "schema" contract)))

module _ (checks : Checks) where
  -- A bound, if it is there: a finite number, and an int for an integer.
  unfoldable pub is_bound : String → String → Fields → Bool
  is_bound kind key spec =
      let value = get key spec in
      not (has key spec)
      || is_number value && checks.is_finite value && (not (str_eq kind "integer") || is_int value)

  unfoldable pub are_ordered : Fields → Bool
  are_ordered spec =
      not (has "min" spec && has "max" spec) || checks.at_most (get "min" spec) (get "max" spec)

  -- `minimum_key` names another setting of the same type.
  unfoldable pub is_reference : Fields → String → String → Value → Bool
  is_reference settings name kind (str ref) =
      not (str_eq ref name) && has_type kind (get ref settings)
  is_reference settings name kind _ = false

  unfoldable pub is_numeric_spec : Fields → String → String → Fields → Bool
  is_numeric_spec settings name kind spec =
      is_bound kind "min" spec
      && (is_bound kind "max" spec
          && (are_ordered spec
              && (not (has "minimum_key" spec)
                  || is_reference settings name kind (get "minimum_key" spec))))

  unfoldable pub folded : List String → List String
  folded [] = []
  folded (t ∷ ts) = checks.casefold t ∷ folded ts

  abbrev pub is_case_flag : Value → List String → Bool
  is_case_flag (bool true) texts = all_different (folded texts)
  is_case_flag v texts = is_bool v

  abbrev pub are_choices : Option (List String) → Fields → Bool
  are_choices none spec = false
  are_choices (some []) spec = false
  are_choices (some (t ∷ ts)) spec =
      all_different (t ∷ ts)
      && (not (has "case_insensitive" spec) || is_case_flag (get "case_insensitive" spec) (t ∷ ts))

  unfoldable pub is_enum_spec : Fields → Bool
  is_enum_spec spec = elim (get "values" spec) [
    | list vs ↦ are_choices (nonempty_texts vs) spec
    | _ ↦ false
  ]

  unfoldable pub is_csv_spec : Fields → Bool
  is_csv_spec spec = not (has "max_items" spec) || is_positive_int (get "max_items" spec)

  -- A setting of a type that is in the list.
  unfoldable pub is_spec_of : Fields → String → String → Fields → Bool
  is_spec_of settings name kind spec =
      if str_eq kind "integer" || str_eq kind "number"
      then is_numeric_spec settings name kind spec
        && keys_within ("type" ∷ "min" ∷ "max" ∷ "minimum_key" ∷ []) spec
      else if str_eq kind "enum"
      then is_enum_spec spec && keys_within ("type" ∷ "values" ∷ "case_insensitive" ∷ []) spec
      else if str_eq kind "csv"
      then is_csv_spec spec && keys_within ("type" ∷ "max_items" ∷ []) spec
      else keys_within ("type" ∷ []) spec

  abbrev pub is_typed_spec : Fields → String → Value → Fields → Bool
  is_typed_spec settings name (str kind) spec =
      key_among kind setting_types && is_spec_of settings name kind spec
  is_typed_spec settings name _ spec = false

  abbrev pub is_spec : Fields → String → Value → Bool
  is_spec settings name (dict spec) =
      is_setting_name (codes name) && is_typed_spec settings name (get "type" spec) spec
  is_spec settings name _ = false

  -- The loop over the settings.
  unfoldable pub are_specs : Fields → Fields → Bool
  are_specs settings end = true
  are_specs settings (field name spec d) = is_spec settings name spec && are_specs settings d

  -- Settings that are not empty and pass the loop.
  unfoldable pub checked_settings : Bool → Value → Option Fields
  checked_settings fitting (dict (field name spec d)) =
      if fitting && are_specs (field name spec d) (field name spec d)
      then some (field name spec d)
      else none
  checked_settings fitting _ = none

  -- `validate_contract`: the settings, if nothing is raised.
  unfoldable pub validate_contract : Value → Option Fields
  validate_contract (dict contract) = checked_settings (fits contract) (get "settings" contract)
  validate_contract _ = none

-- `_unique_object`: the dict of the pairs, in their order, or none for a key that comes twice.
unfoldable pub unique_object : List (String × Value) → Option Fields
unique_object [] = some end
unique_object (p ∷ ps) = elim (unique_object ps) [
  | none ↦ none
  | some d ↦ if has p.0 d then none else some (field p.0 p.1 d)
]

-- `_RUNTIME_TYPES`
abbrev pub runtime_types : List (String × String)
runtime_types =
    ("EMBEDDINGS_RETRY_MAX_ATTEMPTS", "integer")
    ∷ ("EMBEDDINGS_RETRY_INITIAL_DELAY_SECONDS", "number")
    ∷ ("EMBEDDINGS_RETRY_MAX_DELAY_SECONDS", "number")
    ∷ ("EMBEDDINGS_RETRY_TIMEOUT_SECONDS", "number")
    ∷ ("COST_ADMISSION_WORKERS", "integer")
    ∷ ("COST_ADMISSION_TIMEOUT_SECONDS", "number")
    ∷ []

-- A setting with both bounds.
abbrev pub runtime_limit : String → Value → Option Fields
runtime_limit kind (dict spec) =
    if is_text kind (get "type" spec) && (has "min" spec && has "max" spec) then some spec else none
runtime_limit kind _ = none

-- `result` of `load_limits`
unfoldable pub limits_among : Fields → List (String × String) → Option (List (String × Fields))
limits_among settings [] = some []
limits_among settings (p ∷ ps) = elim (runtime_limit p.1 (get p.0 settings)) [
  | none ↦ none
  | some spec ↦ elim (limits_among settings ps) [
    | none ↦ none
    | some rest ↦ some ((p.0, spec) ∷ rest)
  ]
]

-- The reference of the maximum delay.
unfoldable pub delay_is_tied : Fields → Bool
delay_is_tied settings = elim (get "EMBEDDINGS_RETRY_MAX_DELAY_SECONDS" settings) [
  | dict spec ↦ is_text "EMBEDDINGS_RETRY_INITIAL_DELAY_SECONDS" (get "minimum_key" spec)
  | _ ↦ false
]

-- `load_limits`, from the JSON of the file.
unfoldable pub load_limits : Checks → Value → Option (List (String × Fields))
load_limits checks contract = elim (validate_contract checks contract) [
  | none ↦ none
  | some settings ↦
      let limits = limits_among settings runtime_types in
      if delay_is_tied settings then limits else none
]
