-- ===== src/Providers/Ollama/Tests.antt =====
-- Requests on concrete settings and fields.
use openai_compatible_bridge.Prelude.{true}
use openai_compatible_bridge.Prelude.Result.{Ensures}
use openai_compatible_bridge.Json.{Value, str, dict, end, field}
use openai_compatible_bridge.Providers.Ollama.{flag, json_schema_from_response_format}
use openai_compatible_bridge.Providers.Ollama.Reply.{Outside, Answer}
use openai_compatible_bridge.Providers.Ollama.Call.{Ask, Body, Post, response, call_generate}
use openai_compatible_bridge.Providers.Ollama.Valid.{Satisfies, call_generate-Satisfies}
use openai_compatible_bridge.Json.{nil, null}
use openai_compatible_bridge.Prelude.{none, some}

abbrev outside : Outside
outside = record { loads = λ text. some null; is_valid = λ schema parsed. true; int_of = λ v. none }

abbrev wanted : Value
wanted = dict (
    field "type" (str "json_schema") (
      field "json_schema" (dict (field "schema" (dict (field "type" (str "object") end)) end)) end))

abbrev ask : Ask
ask = record {
  model = "m";
  messages = nil;
  max_tokens = null;
  temperature = null;
  top_p = null;
  stop = null;
  response_format = wanted;
  reasoning_effort = str "high";
  reasoning = null;
}

abbrev reply : Body → Post
reply body =
    response 200 (some (dict (field "message" (dict (field "content" (str "{}") end)) end)))

call_generate-Satisfies_example :
    Ensures
      (λ (answer : Answer). Satisfies outside (json_schema_from_response_format wanted) answer.text)
      (call_generate outside (λ d. true) (flag true) ask none reply)
call_generate-Satisfies_example =
    call_generate-Satisfies outside (λ d. true) (flag true) ask none reply
