-- ===== src/Providers/Ollama/Request.antt =====
-- What a request may ask of the model: the thinking levels, and the answer's format.
use openai_compatible_bridge.Prelude.{
  ℕ, Bool, true, false, Option, none, some, String, List, [], ◌∷◌, if◌then◌else◌, ◌≡◌, refl, ap,
  by_branches, str_eq, eq_iff, arith,
}
use openai_compatible_bridge.Prelude.Result.{Result, ok, Ensures, guard, ◌>>=◌, ◌>>◌}
use openai_compatible_bridge.Prelude.Bytes.{codes, same_bytes, lower_bytes, strip}
use openai_compatible_bridge.Json.{
  Value, Fields, null, bool, int, float, str, list, dict, get, is_null, is_text,
}
use openai_compatible_bridge.Providers.Ollama.{
  Error, is_one_of, Think, omit, flag, level, think_of_setting, ollama_think_from_env,
  request_reasoning_efforts, normalize_request_reasoning_effort, selected_effort, think_of_effort,
  ollama_think_from_reasoning, Format, no_format, json, schema, nonempty_schema, dict_get,
  ensure_valid_json_schema, format_of_schema, format_of_type, ollama_format_from_response_format,
  json_schema_from_response_format, invalid_request,
}

abbrev levels : List String
levels = "low" ∷ "medium" ∷ "high" ∷ []

-- What Ollama takes for `think`.
abbrev IsThink : Think → Type 0
IsThink omit = Unit
IsThink (flag b) = Unit
IsThink (level text) = is_one_of text levels ≡ true

abbrev IsSetting : Option Think → Type 0
IsSetting none = Unit
IsSetting (some think) = IsThink think

-- Whatever OLLAMA_THINK is set to, it is refused or it becomes a value that Ollama takes.
ollama_think_from_env-IsSetting :
    (value : Option (List ℕ)) → IsSetting (ollama_think_from_env value)
unfolding ollama_think_from_env think_of_setting
ollama_think_from_env-IsSetting none = tt
ollama_think_from_env-IsSetting (some value) =
    let normalized = lower_bytes (strip value) in
    by_branches IsSetting (is_one_of normalized ("" ∷ "omit" ∷ "none" ∷ [])) (λ h. tt)
      (λ h.
        by_branches IsSetting (is_one_of normalized ("1" ∷ "true" ∷ "yes" ∷ "on" ∷ [])) (λ h. tt)
          (λ h.
            by_branches IsSetting (is_one_of normalized ("0" ∷ "false" ∷ "no" ∷ "off" ∷ []))
              (λ h. tt)
              (λ h. by_branches IsSetting (is_one_of normalized levels) (λ h. h) (λ h. tt))))

level-IsThink :
    (effort : List ℕ)
    → is_one_of effort request_reasoning_efforts ≡ true
    → IsThink (if same_bytes effort (codes "none") then flag false else level effort)
level-IsThink effort h =
    by_branches IsThink (same_bytes effort (codes "none")) (λ n. tt) (λ n. ground (arith, h, n))

think_of_effort-IsThink :
    (default : Think) (selected : Value)
    → IsThink default
    → Ensures IsThink (think_of_effort default selected)
unfolding think_of_effort normalize_request_reasoning_effort
think_of_effort-IsThink default null d = d
think_of_effort-IsThink default (str s) d =
    let effort = lower_bytes (strip (codes s)) in
    by_branches
      (λ (normalized : Result Error (List ℕ)). Ensures IsThink (
        normalized >>= λ effort.
        ok (if same_bytes effort (codes "none") then flag false else level effort)))
      (is_one_of effort request_reasoning_efforts) (level-IsThink effort) (λ h. tt)
think_of_effort-IsThink default (bool b) d = tt
think_of_effort-IsThink default (int n) d = tt
think_of_effort-IsThink default (float t) d = tt
think_of_effort-IsThink default (list vs) d = tt
think_of_effort-IsThink default (dict f) d = tt

-- A request, whatever its `reasoning_effort` and `reasoning` hold, is refused, or asks for a value
-- that Ollama takes: the setting, false, or one of the levels low, medium and high.
ollama_think_from_reasoning-IsThink :
    (default : Think) (reasoning_effort reasoning : Value)
    → IsThink default
    → Ensures IsThink (ollama_think_from_reasoning default reasoning_effort reasoning)
unfolding ollama_think_from_reasoning selected_effort
ollama_think_from_reasoning-IsThink default effort null d = think_of_effort-IsThink default effort d
ollama_think_from_reasoning-IsThink default effort (dict f) d =
    think_of_effort-IsThink default (if is_null (get "effort" f) then effort else get "effort" f) d
ollama_think_from_reasoning-IsThink default effort (bool b) d = tt
ollama_think_from_reasoning-IsThink default effort (int n) d = tt
ollama_think_from_reasoning-IsThink default effort (float t) d = tt
ollama_think_from_reasoning-IsThink default effort (str t) d = tt
ollama_think_from_reasoning-IsThink default effort (list vs) d = tt

-- The schema that a request's format sends.
abbrev sent : Format → Option Fields
sent no_format = none
sent json = none
sent (schema d) = some d

module _ (check_schema : Fields → Bool) where
  format_of_schema-sent :
      (found : Option Fields)
      → Ensures (λ format. found ≡ sent format) (format_of_schema check_schema found)
  unfolding format_of_schema ensure_valid_json_schema
  format_of_schema-sent none = tt
  format_of_schema-sent (some d) = checked (check_schema d)
    where
      checked :
          (b : Bool)
          → Ensures (λ format. some d ≡ sent format) (guard b invalid_request >> ok (schema d))
      checked true = refl
      checked false = tt

  Sends : Value → Value → Result Error Format → Type 0
  Sends fmt_type response_format = Ensures λ format.
      (if is_text "json_schema" fmt_type
        then nonempty_schema (dict_get "schema" (dict_get "json_schema" response_format))
        else none)
      ≡ sent format

  format_of_type-sent :
      (fmt_type response_format : Value)
      → Sends fmt_type response_format (format_of_type check_schema fmt_type response_format)
  unfolding format_of_type Sends
  format_of_type-sent (str s) r =
      by_branches (Sends (str s) r) (str_eq s "text") (λ e. rw (same_type s "text" e) refl)
        (λ e.
          by_branches (Sends (str s) r) (str_eq s "json_object")
            (λ e. rw (same_type s "json_object" e) refl)
            (λ e.
              by_branches (Sends (str s) r) (str_eq s "json_schema")
                (λ e. rw e (format_of_schema-sent _)) (λ e. tt)))
    where
      same_type :
          (s t : String) → str_eq s t ≡ true → str_eq s "json_schema" ≡ str_eq t "json_schema"
      same_type s t e = ap (λ u. str_eq u "json_schema") ((eq_iff s t).0 e)
  format_of_type-sent null r = tt
  format_of_type-sent (dict d) r = tt
  format_of_type-sent (bool b) r = tt
  format_of_type-sent (int n) r = tt
  format_of_type-sent (float t) r = tt
  format_of_type-sent (list vs) r = tt

  -- The schema that the answer is checked against is the schema that the request sends: none for
  -- plain text and for plain JSON.
  ollama_format-json_schema :
      (response_format : Value)
      → Ensures
          (λ format. json_schema_from_response_format response_format ≡ sent format)
          (ollama_format_from_response_format check_schema response_format)
  unfolding ollama_format_from_response_format json_schema_from_response_format Sends
  ollama_format-json_schema null = refl
  ollama_format-json_schema (dict d) = format_of_type-sent (get "type" d) (dict d)
  ollama_format-json_schema (bool b) = tt
  ollama_format-json_schema (int n) = tt
  ollama_format-json_schema (float t) = tt
  ollama_format-json_schema (str t) = tt
  ollama_format-json_schema (list vs) = tt
