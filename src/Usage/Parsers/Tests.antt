-- ===== src/Usage/Parsers/Tests.antt =====
-- Responses of the providers, and the instances of the theorems about their usage.
use openai_compatible_bridge.Prelude.{◌≡◌, refl, some}
use openai_compatible_bridge.Prelude.Int.{pos}
use openai_compatible_bridge.Json.{Value, int, dict, end, field}
use openai_compatible_bridge.Usage.{
  NormalizedUsage, no_usage, chat, ollama, foundry, chat_payload, chat_usage, google_usage,
  eval_usage, openai_usage, responses_usage, has_google, has_eval, has_openai, has_responses,
}
use openai_compatible_bridge.Usage.Parsers.{raw_usage, stopped_early, observe_usage}
use openai_compatible_bridge.Usage.Parsers.Agreement.{observe_usage-eq-raw_usage}
use openai_compatible_bridge.Usage.Parsers.Dimensions.{Sound, observe_usage-Sound}

abbrev openai_response : Value
openai_response = dict (
    field "usage"
      (dict (field "prompt_tokens" (int (pos 7)) (field "completion_tokens" (int (pos 5)) end)))
      end)

abbrev twelve : NormalizedUsage
twelve = record no_usage { prompt_tokens = 7; completion_tokens = 5; total_tokens = 12 }

foundry_observed : observe_usage foundry openai_response chat ≡ some twelve
unfolding observe_usage google_usage eval_usage openai_usage responses_usage chat_usage chat_payload
    has_google has_eval has_openai has_responses
foundry_observed = refl

-- A response with two kinds of counters: the parser of the provider and the older one differ.
abbrev mixed : Value
mixed = dict (
    field "usageMetadata"
      (dict
        (field "promptTokenCount" (int (pos 1)) (field "candidatesTokenCount" (int (pos 1)) end)))
      (field "prompt_eval_count" (int (pos 9)) (field "eval_count" (int (pos 9)) end)))

mixed_differs :
    (observe_usage ollama mixed chat
      ≡ some (record no_usage { prompt_tokens = 9; completion_tokens = 9; total_tokens = 18 }))
    × (raw_usage mixed chat
        ≡ some (record no_usage { prompt_tokens = 1; completion_tokens = 1; total_tokens = 2 }))
unfolding observe_usage google_usage eval_usage openai_usage responses_usage chat_usage chat_payload
    has_google has_eval has_openai has_responses
mixed_differs = (refl, refl)

observe_usage-eq-raw_usage_example :
    observe_usage foundry openai_response chat ≡ raw_usage openai_response chat
unfolding stopped_early
observe_usage-eq-raw_usage_example =
    observe_usage-eq-raw_usage foundry openai_response chat refl (λ d h. tt)

observe_usage-Sound_example : Sound openai_response chat twelve
unfolding stopped_early
observe_usage-Sound_example =
    observe_usage-Sound foundry openai_response chat twelve refl foundry_observed
