-- ===== src/Ingress/Answer/Tests.antt =====
-- An answer with a text and a call, sent back.
use openai_compatible_bridge.Prelude.{Option, none, some, List, [], ◌∷◌, map, ◌≡◌, refl}
use openai_compatible_bridge.Prelude.Int.{ℤ, pos}
use openai_compatible_bridge.Prelude.Result.{ok}
use openai_compatible_bridge.Json.{Value, nil, cons, str, int, dict, end, get, has, truthy}
use openai_compatible_bridge.Ingress.Messages.{
  ToolCall, Outside, assistant, anthropic_messages_to_openai,
}
use openai_compatible_bridge.Ingress.Answer.{
  Answer, text_block, tool_use_block, call_block, call_blocks, call_with, stop_reason_of,
  usage_count, openai_result_to_anthropic,
}
use openai_compatible_bridge.Ingress.Answer.RoundTrip.{
  result_of, next_messages, spoken, rewritten,
  openai_result_to_anthropic-anthropic_messages_to_openai,
}

abbrev outside : Outside
outside = record { str_of = λ v. "?"; dumps = λ d. "{}"; loads = λ s. some (dict end) }

abbrev int_of : Value → Option ℤ
int_of (int n) = some n
int_of _ = none

abbrev calls : List ToolCall
calls = record { id = "c1"; name = "weather"; arguments = " {} " } ∷ []

abbrev answer : Answer
answer = record {
  content = cons (text_block (str "hi")) (cons (tool_use_block "c1" "weather" end) nil);
  stop_reason = "tool_use";
  input_tokens = pos 0;
  output_tokens = pos 0;
}

answer_of_result : openai_result_to_anthropic outside int_of (result_of "hi" calls end) ≡ ok answer
unfolding openai_result_to_anthropic call_blocks call_block call_with stop_reason_of usage_count get
    has truthy
answer_of_result = refl

openai_result_to_anthropic-anthropic_messages_to_openai_example :
    anthropic_messages_to_openai outside (next_messages answer)
    ≡ ok (assistant (spoken outside int_of "hi" calls) (map (rewritten outside int_of) calls) ∷ [])
openai_result_to_anthropic-anthropic_messages_to_openai_example =
    openai_result_to_anthropic-anthropic_messages_to_openai outside int_of "hi" calls end answer
      (refl, tt) answer_of_result
