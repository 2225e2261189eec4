-- ===== src/Providers/Ollama.antt =====
-- The requests of openai_compatible_bridge/providers/ollama.py: what is asked of the model, by the
-- setting OLLAMA_THINK and by the request's own fields. Texts are lists of code points; lowering
-- is that of ASCII, and the texts that are compared are ASCII.
pub mod Reply
pub mod Call
mod Request
mod Valid
mod Tests
use openai_compatible_bridge.Prelude.{
  ℕ, Bool, true, false, not, ◌&&◌, ◌||◌, Option, none, some, String, List, [], ◌∷◌, if◌then◌else◌,
  str_eq,
}
use openai_compatible_bridge.Prelude.Result.{Result, ok, err, guard, ◌>>=◌, ◌>>◌}
use openai_compatible_bridge.Prelude.Bytes.{codes, same_bytes, lower_bytes, strip}
use openai_compatible_bridge.Json.{Value, Fields, null, bool, str, dict, get, end, is_null, is_text}

-- VertexAPIError by its status and code; the code of `of_status` is the status as a text. `crash` is
-- any other exception.
pub data Error : Type 0 where
  api : ℕ → String → Error
  of_status : ℕ → Error
  crash : Error

abbrev pub invalid_request : Error
invalid_request = api 400 "invalid_request"

abbrev pub is_one_of : List ℕ → List String → Bool
is_one_of text [] = false
is_one_of text (word ∷ words) = same_bytes text (codes word) || is_one_of text words

-- The value of `think` in a request; `omit` is None, which leaves the field out.
pub data Think : Type 0 where
  omit : Think
  flag : Bool → Think
  level : List ℕ → Think

-- ValueError, or the setting.
unfoldable pub think_of_setting : List ℕ → Option Think
think_of_setting normalized =
    if is_one_of normalized ("" ∷ "omit" ∷ "none" ∷ [])
    then some omit
    else if is_one_of normalized ("1" ∷ "true" ∷ "yes" ∷ "on" ∷ [])
    then some (flag true)
    else if is_one_of normalized ("0" ∷ "false" ∷ "no" ∷ "off" ∷ [])
    then some (flag false)
    else if is_one_of normalized ("low" ∷ "medium" ∷ "high" ∷ [])
    then some (level normalized)
    else none

-- `_ollama_think_from_env`
unfoldable pub ollama_think_from_env : Option (List ℕ) → Option Think
ollama_think_from_env none = some (flag false)
ollama_think_from_env (some value) = think_of_setting (lower_bytes (strip value))

-- `_REQUEST_REASONING_EFFORTS`
abbrev pub request_reasoning_efforts : List String
request_reasoning_efforts = "low" ∷ "medium" ∷ "high" ∷ "none" ∷ []

-- `_normalize_request_reasoning_effort`
unfoldable pub normalize_request_reasoning_effort : Value → Result Error (List ℕ)
normalize_request_reasoning_effort (str s) =
    let normalized = lower_bytes (strip (codes s)) in
    if is_one_of normalized request_reasoning_efforts then ok normalized else err invalid_request
normalize_request_reasoning_effort _ = err invalid_request

-- The effort that is asked for: that of the object `reasoning`, or else `reasoning_effort`.
unfoldable pub selected_effort : Value → Value → Result Error Value
selected_effort reasoning_effort null = ok reasoning_effort
selected_effort reasoning_effort (dict reasoning) =
    let effort = get "effort" reasoning in ok (if is_null effort then reasoning_effort else effort)
selected_effort reasoning_effort _ = err invalid_request

unfoldable pub think_of_effort : Think → Value → Result Error Think
think_of_effort default null = ok default
think_of_effort default selected = normalize_request_reasoning_effort selected >>= λ effort.
    ok (if same_bytes effort (codes "none") then flag false else level effort)

-- `_ollama_think_from_reasoning`
unfoldable pub ollama_think_from_reasoning : Think → Value → Value → Result Error Think
ollama_think_from_reasoning default reasoning_effort reasoning =
    selected_effort reasoning_effort reasoning >>= think_of_effort default

-- The value of `format` in a request.
pub data Format : Type 0 where
  no_format : Format
  json : Format
  schema : Fields → Format

abbrev pub some_fields : Fields → Bool
some_fields end = false
some_fields _ = true

abbrev pub dict_get : String → Value → Value
dict_get k (dict d) = get k d
dict_get k _ = null

-- `raw_schema`, if it is a dict that is not empty.
abbrev pub nonempty_schema : Value → Option Fields
nonempty_schema (dict d) = if some_fields d then some d else none
nonempty_schema _ = none

module _ (check_schema : Fields → Bool) where
  -- `_ensure_valid_json_schema`; `check_schema` is jsonschema's, true where it raises nothing.
  unfoldable pub ensure_valid_json_schema : Fields → Result Error (Unit {0})
  ensure_valid_json_schema d = guard (check_schema d) invalid_request

  unfoldable pub format_of_schema : Option Fields → Result Error Format
  format_of_schema none = err invalid_request
  format_of_schema (some d) = ensure_valid_json_schema d >> ok (schema d)

  unfoldable pub format_of_type : Value → Value → Result Error Format
  format_of_type (str fmt_type) response_format =
      let of_schema =
        format_of_schema
          (nonempty_schema (dict_get "schema" (dict_get "json_schema" response_format))) in
      if str_eq fmt_type "text"
      then ok no_format
      else if str_eq fmt_type "json_object"
      then ok json
      else if str_eq fmt_type "json_schema"
      then of_schema
      else err invalid_request
  format_of_type _ response_format = err invalid_request

  -- `_ollama_format_from_response_format`
  unfoldable pub ollama_format_from_response_format : Value → Result Error Format
  ollama_format_from_response_format null = ok no_format
  ollama_format_from_response_format (dict d) = format_of_type (get "type" d) (dict d)
  ollama_format_from_response_format _ = err invalid_request

-- `_json_schema_from_response_format`
unfoldable pub json_schema_from_response_format : Value → Option Fields
json_schema_from_response_format response_format =
    if is_text "json_schema" (dict_get "type" response_format)
    then nonempty_schema (dict_get "schema" (dict_get "json_schema" response_format))
    else none
