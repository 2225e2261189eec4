-- ===== src/Transforms/Google/Tests.antt =====
-- Runs of the conversion for Google, of openai_compatible_bridge/core/transforms.py.
use openai_compatible_bridge.Prelude.{true, false, none, some, String, [], ◌∷◌, ◌≡◌, refl}
use openai_compatible_bridge.Prelude.Result.{ok}
use openai_compatible_bridge.Json.{
  Value, Values, nil, cons, str, list, dict, end, field, get, has, truthy,
}
use openai_compatible_bridge.Providers.Vertex.Schema.{set}
use openai_compatible_bridge.Providers.Vertex.Reading.{Builtins, refused, extract_message_text}
use openai_compatible_bridge.Transforms.{Outside, google_json_object}
use openai_compatible_bridge.Transforms.Google.{
  appended, text_part, are_responses, google_function_call_part, note_call, take_calls,
  take_assistant, response_name, response_part, push_response, take_google, take_google_all,
  google_contents_and_system, google_declaration, google_declarations, google_tools,
}

abbrev builtins : Builtins
builtins = record { int_of_float = λ t. refused; int_of_str = λ t. refused; str_of = λ v. "" }

abbrev outside : Outside
outside = record {
  int_of = λ v. none;
  str_of = λ v. "";
  loads = λ t. some (dict end);
  suffixed = λ t n. t;
  call_of = λ t n. t;
}

abbrev call : String → Value
call id = dict (field "id" (str id) (field "function" (dict (field "name" (str "f") end)) end))

abbrev answer : String → Value
answer id = dict (field "role" (str "tool") (field "tool_call_id" (str id) end))

-- Two calls of an assistant, and the results of both.
abbrev messages : Values
messages = cons (dict (field "content" (str "go") end)) (
    cons
      (dict (
        field "role" (str "assistant")
          (field "tool_calls" (list (cons (call "a") (cons (call "b") nil))) end)))
      (cons (answer "a") (cons (answer "b") nil)))

abbrev called : Value
called =
    dict (field "functionCall" (dict (field "name" (str "f") (field "args" (dict end) end))) end)

abbrev responded : Value
responded =
    dict (
      field "functionResponse" (dict (field "name" (str "f") (field "response" (dict end) end)))
        end)

-- The results stand in one content, and each has the name of its call.
contents_test :
    google_contents_and_system builtins outside messages
    ≡ ok (
      record { is_user = true; content_parts = cons responded (cons responded nil) }
          ∷ record { is_user = false; content_parts = cons called (cons called nil) }
          ∷ record { is_user = true; content_parts = cons (text_part "go") nil }
          ∷ [],
      nil,
    )
unfolding google_contents_and_system take_google_all take_google take_assistant take_calls note_call
    google_function_call_part google_json_object response_part response_name push_response
    are_responses appended extract_message_text set get has truthy
contents_test = refl

-- A tool without a name is left out, and without a tool there is no entry.
tools_test : google_tools builtins outside (cons (dict end) nil) ≡ none
unfolding google_tools google_declarations google_declaration get has
tools_test = refl
