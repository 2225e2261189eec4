-- ===== src/Providers/Foundry/Responses/Tests.antt =====
-- Runs of the requests to Responses, of openai_compatible_bridge/providers/foundry.py.
use openai_compatible_bridge.Prelude.{none, some, ◌≡◌, refl}
use openai_compatible_bridge.Prelude.Result.{ok}
use openai_compatible_bridge.Prelude.Bytes.{
  strip, lstrip_space, rstrip_space, is_space, lower_bytes, lower_byte,
}
use openai_compatible_bridge.Json.{
  Value, Values, nil, cons, str, list, dict, end, field, get, has, truthy,
}
use openai_compatible_bridge.Providers.Vertex.Reading.{Builtins, refused, extract_message_text}
use openai_compatible_bridge.Providers.Foundry.Anthropic.{Codec, extended}
use openai_compatible_bridge.Providers.Foundry.Responses.{
  word_of, clamped, clamp_xai_reasoning_effort, text_item, arguments_text, call_item, call_items,
  spoken_items, assistant_items, message_items, xai_input_messages,
}

abbrev builtins : Builtins
builtins = record { int_of_float = λ t. refused; int_of_str = λ t. refused; str_of = λ v. "" }

abbrev codec : Codec
codec = record { decode = λ t. none; encode = λ v. "{}" }

ultra_test : clamp_xai_reasoning_effort builtins codec (str " Ultra") ≡ some "xhigh"
unfolding clamp_xai_reasoning_effort clamped word_of strip lstrip_space rstrip_space is_space
    lower_bytes lower_byte
ultra_test = refl

-- The effort `none` cannot be asked for.
none_test : clamp_xai_reasoning_effort builtins codec (str "none") ≡ none
unfolding clamp_xai_reasoning_effort clamped word_of strip lstrip_space rstrip_space is_space
    lower_bytes lower_byte
none_test = refl

abbrev call : Value
call = dict (field "id" (str "c1") (field "function" (dict (field "name" (str "f") end)) end))

abbrev messages : Values
messages = cons (dict (field "content" (str "a") end)) (
    cons (dict (field "role" (str "assistant") (field "tool_calls" (list (cons call nil)) end)))
      nil)

-- A message without a role is the user's, and a call without arguments has none.
input_test :
    xai_input_messages builtins codec messages
    ≡ ok (
        cons (text_item "user" "a") (
          cons
            (dict (
              field "type" (str "function_call") (
                field "call_id"
                  (str "c1")
                  (field "name" (str "f") (field "arguments" (str "{}") end)))))
            nil))
unfolding xai_input_messages message_items assistant_items spoken_items call_items call_item
    arguments_text extract_message_text extended get has truthy
input_test = refl
