-- ===== src/Ingress/Answer.antt =====
-- `openai_result_to_anthropic` and `map_status_to_anthropic_error_type` of
-- openai_compatible_bridge/anthropic_ingress.py: the answer that is not streamed.
mod RoundTrip
mod Tests
use openai_compatible_bridge.Prelude.{
  ℕ, Bool, true, false, not, Option, none, some, String, List, [], ◌∷◌, if◌then◌else◌, leb, ◌==◌,
  is_empty, str_eq,
}
use openai_compatible_bridge.Prelude.Int.{ℤ, pos}
use openai_compatible_bridge.Prelude.Result.{Result, ok, err, ◌>>=◌}
use openai_compatible_bridge.Json.{
  Value, Values, nil, cons, Fields, null, str, dict, list, end, field, get, object, truthy, is_text,
}
use openai_compatible_bridge.Ingress.Messages.{Error, crash, Outside, to_text, text_at, get_or}

unfoldable pub map_status_to_anthropic_error_type : ℕ → String
map_status_to_anthropic_error_type status =
    if status == 400
    then "invalid_request_error"
    else if status == 401
    then "authentication_error"
    else if status == 403
    then "permission_error"
    else if status == 404
    then "not_found_error"
    else if status == 429
    then "rate_limit_error"
    else if leb 500 status
    then "api_error"
    else "invalid_request_error"

abbrev pub object_or_empty : Option Value → Fields
object_or_empty none = end
object_or_empty (some v) = object v

abbrev pub text_block : Value → Value
text_block text = dict (field "type" (str "text") (field "text" text end))

abbrev pub tool_use_block : String → String → Fields → Value
tool_use_block id name input = dict (
    field "type" (str "tool_use")
      (field "id" (str id) (field "name" (str name) (field "input" (dict input) end))))

-- `result.get("tool_calls") or []`, for a list or a value that is not truthy; the exception that any
-- other value ends in is left out.
abbrev pub calls_of : Value → Values
calls_of (list vs) = vs
calls_of _ = nil

pub record Answer : Type 0 where
  pub content : Values
  pub stop_reason : String
  pub input_tokens : ℤ
  pub output_tokens : ℤ

module _ (outside : Outside) (int_of : Value → Option ℤ) where
  -- The arguments of a call: an object, or an empty one where they are none.
  abbrev pub parsed_args : Value → Fields
  parsed_args (str s) = object_or_empty (outside.loads s)
  parsed_args v = object v

  unfoldable pub call_with : Fields → Value → Result Error Value
  call_with call (dict fn) = ok (
      tool_use_block (text_at outside "id" call) (text_at outside "name" fn)
        (parsed_args (get_or (str "{}") "arguments" fn)))
  call_with call _ = err crash

  -- One turn of the loop over the calls; `get` of what is no object raises.
  unfoldable pub call_block : Value → Result Error Value
  call_block (dict call) = call_with call (get_or (dict end) "function" call)
  call_block _ = err crash

  unfoldable pub call_blocks : Values → Result Error Values
  call_blocks nil = ok nil
  call_blocks (cons v vs) =
      call_block v >>= λ block. call_blocks vs >>= λ blocks. ok (cons block blocks)

  abbrev pub with_text : Value → Values → Values
  with_text text blocks =
      if truthy text then cons (text_block (str (to_text outside text))) blocks else blocks

  unfoldable pub stop_reason_of : Bool → Value → String
  stop_reason_of has_calls finish =
      if has_calls
      then "tool_use"
      else if is_text "stop" finish
      then "end_turn"
      else if is_text "tool_calls" finish
      then "tool_use"
      else if is_text "length" finish
      then "max_tokens"
      else "end_turn"

  -- `int(usage.get(key, 0) or 0)`
  unfoldable pub usage_count : String → Fields → Result Error ℤ
  usage_count key usage =
      if truthy (get key usage)
      then elim (int_of (get key usage)) [ none ↦ err crash | some n ↦ ok n ]
      else ok (pos 0)

  -- The answer's fields that depend on the result.
  unfoldable pub openai_result_to_anthropic : Fields → Result Error Answer
  openai_result_to_anthropic result = call_blocks (calls_of (get "tool_calls" result)) >>= λ blocks.
      usage_count "prompt_tokens" (object (get "usage" result)) >>= λ input.
      usage_count "completion_tokens" (object (get "usage" result)) >>= λ output. ok (record {
        content = with_text (get "text" result) blocks;
        stop_reason = stop_reason_of (truthy (get "tool_calls" result)) (
            if truthy (get "finish_reason" result) then get "finish_reason" result else str "stop");
        input_tokens = input;
        output_tokens = output;
      })
