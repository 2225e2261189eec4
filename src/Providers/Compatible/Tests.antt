-- ===== src/Providers/Compatible/Tests.antt =====
-- Runs of openai_compatible_bridge/providers/openai_compatible.py.
use openai_compatible_bridge.Prelude.{
  ℕ, Bool, true, false, Option, none, some, String, List, [], ◌∷◌, ◌≡◌, refl, if◌then◌else◌,
}
use openai_compatible_bridge.Prelude.Result.{err, Ensures}
use openai_compatible_bridge.Prelude.Bytes.{codes, same_bytes}
use openai_compatible_bridge.Json.{
  Value, Values, Fields, null, nil, cons, str, list, dict, end, field,
}
use openai_compatible_bridge.Providers.Vertex.Reading.{Builtins, refused}
use openai_compatible_bridge.Providers.Compatible.{
  config_error, resolve_extra_headers, checked_headers, is_header_name, is_header_char,
  all_header_chars, is_reserved_name, size_of, resolve_api_key, Surroundings, ChatArguments,
  ChatRequest, chat_request,
}
use openai_compatible_bridge.Providers.Compatible.Headers.{AreOwned, chat_request-AreOwned}
use openai_compatible_bridge.Providers.Compatible.Answer.{stream_lines}
use openai_compatible_bridge.Providers.Compatible.Lines.{IsStream, deltas, stream_lines-events}

abbrev outside : Surroundings
outside = record { getenv = λ name. some (codes "secret"); scheme_of = λ url. some (codes "https") }

abbrev builtins : Builtins
builtins = record { int_of_float = λ t. refused; int_of_str = λ t. refused; str_of = λ v. "" }

-- An alias whose key stands in the environment, with a header of its own.
abbrev alias : Fields
alias = field "base_url" (str "https://up.example/v1/") (
    field "api_key_env" (str "UP_KEY")
      (field "extra_headers" (dict (field "x-session" (str "1") end)) end))

abbrev arguments : ChatArguments
arguments = record {
  model = "m";
  messages = nil;
  max_tokens = null;
  temperature = null;
  top_p = null;
  stop = null;
  response_format = null;
  tools = null;
  tool_choice = null;
  parallel_tool_calls = null;
  reasoning_effort = null;
}

-- A header of the bridge, written in another case, is refused.
refused_test :
    resolve_extra_headers (field "extra_headers" (dict (field "AUTHORIZATION" (str "x") end)) end)
    ≡ err config_error
unfolding resolve_extra_headers checked_headers is_header_name all_header_chars is_header_char
    is_reserved_name size_of openai_compatible_bridge.Json.get
    openai_compatible_bridge.Prelude.Bytes.lower_bytes
refused_test = refl

chat_request-AreOwned_example :
    Ensures
      (λ (r : ChatRequest). AreOwned (resolve_api_key outside alias) (r.headers))
      (chat_request outside alias arguments false)
chat_request-AreOwned_example = chat_request-AreOwned outside alias arguments false

-- `json.loads` on the two texts that are read below.
abbrev loads : List ℕ → Option Value
loads text =
    if same_bytes text (codes "{}")
    then some (dict end)
    else if same_bytes text (codes "[]")
    then some (list nil)
    else none

abbrev lines : List (List ℕ)
lines =
    codes "data: {}"
    ∷ []
    ∷ codes ": comment"
    ∷ codes "data: []"
    ∷ codes "data: [DONE]"
    ∷ codes "data: {}"
    ∷ []

stream_lines-events_example :
    (es : List Fields) × IsStream loads lines es
    × (stream_lines builtins loads lines ≡ deltas builtins es)
stream_lines-events_example = stream_lines-events loads builtins lines
