-- ===== src/Ingress/Stream/Tests.antt =====
-- A stream with text and a call.
use openai_compatible_bridge.Prelude.{Option, none, some, List, [], ◌∷◌, ◌≡◌, refl}
use openai_compatible_bridge.Prelude.Int.{ℤ, pos}
use openai_compatible_bridge.Json.{Value, null, str, int, dict, end, field, get, has, truthy}
use openai_compatible_bridge.Ingress.Stream.{
  text_block, tool_use, tool_use_reason, Sse, message_start, content_block_start, text_delta,
  input_json_delta, content_block_stop, message_delta, message_stop, ProviderEvent, Builtins,
  ensure_start, change_buffer, key_of, take_call, take_calls, feed, tool_block, tool_blocks,
  stop_reason_of, usage_count, token_counts, finish, feed_all, stream,
}
use openai_compatible_bridge.Ingress.Stream.Protocol.{is_message, any_text, stream-is_message}

abbrev int_value : Value → Option ℤ
int_value (int n) = some n
int_value _ = none

abbrev builtins : Builtins
builtins = record { int_of = int_value; str_of = λ v. "?" }

abbrev call_named : Value
call_named = dict (
    field "index" (int (pos 0)) (
      field "id" (str "c1") (
        field "function" (dict (field "name" (str "w") (field "arguments" (str "{\"a\"") end)))
          end)))

abbrev call_rest : Value
call_rest =
    dict (
      field "index" (int (pos 0)) (field "function" (dict (field "arguments" (str ":1}") end)) end))

abbrev provider_events : List ProviderEvent
provider_events =
    record {
      delta_text = "hel";
      delta_tool_calls = call_named ∷ [];
      finish_reason = null;
      usage = null;
    }
    ∷ record {
      delta_text = "";
      delta_tool_calls = call_rest ∷ [];
      finish_reason = str "tool_calls";
      usage = null;
    }
    ∷ []

abbrev out : List Sse
out =
    message_start
    ∷ content_block_start 0 text_block
    ∷ text_delta 0 "hel"
    ∷ content_block_stop 0
    ∷ content_block_start 1 (tool_use "c1" "w")
    ∷ input_json_delta 1 "{\"a\":1}"
    ∷ content_block_stop 1
    ∷ message_delta tool_use_reason (pos 3) (pos 1)
    ∷ message_stop
    ∷ []

stream_out : stream builtins (λ key. "toolu_stream_0") provider_events 3 "hel" ≡ some out
unfolding stream finish token_counts usage_count stop_reason_of tool_blocks tool_block feed_all feed
    take_calls take_call key_of change_buffer ensure_start get has truthy
stream_out = refl

stream-is_message_example : is_message out ≡ any_text provider_events
stream-is_message_example =
    stream-is_message builtins (λ key. "toolu_stream_0") provider_events 3 "hel" out stream_out
