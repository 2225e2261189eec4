-- ===== src/Providers/Foundry/Responses.antt =====
-- The requests to the two protocols of Responses: `_build_xai_request_body` and
-- `_build_openai_responses_request_body` of openai_compatible_bridge/providers/foundry.py, with
-- `_xai_input_messages` and `_clamp_xai_reasoning_effort` of openai_compatible_bridge/core/transforms.py.
mod Efforts
mod Tests
use openai_compatible_bridge.Prelude.{
  ℕ, Bool, true, false, not, Option, none, some, String, List, [], ◌∷◌, if◌then◌else◌, str_eq,
}
use openai_compatible_bridge.Prelude.Result.{Result, ok, err, ◌>>=◌}
use openai_compatible_bridge.Prelude.Bytes.{codes, same_bytes, lower_bytes, strip}
use openai_compatible_bridge.Json.{
  Value, Values, Fields, null, bool, int, float, str, list, dict, nil, cons, end, field, get,
  truthy, is_text, is_null,
}
use openai_compatible_bridge.Providers.Ollama.{Error, crash}
use openai_compatible_bridge.Providers.Ollama.Call.{with_option}
use openai_compatible_bridge.Providers.Vertex.Reading.{
  Builtins, get_or, dict_of, extract_message_text,
}
use openai_compatible_bridge.Providers.Foundry.Anthropic.{
  Codec, extended, result_content, first_truthy, role_of, tool_fields, empty_schema, forced_name,
}

-- The first of the words that a text is.
unfoldable pub word_of : List ℕ → List String → Option String
word_of text [] = none
word_of text (word ∷ words) =
    let rest = word_of text words in if same_bytes text (codes word) then some word else rest

-- `_XAI_SUPPORTED_EFFORTS`
abbrev pub supported_efforts : List String
supported_efforts = "minimal" ∷ "low" ∷ "medium" ∷ "high" ∷ "xhigh" ∷ []

-- `_clamp_xai_reasoning_effort`, for the text that was lowered; the empty text is no word.
unfoldable pub clamped : List ℕ → Option String
clamped text = elim (word_of text supported_efforts) [
  | some word ↦ some word
  | none ↦ elim (word_of text ("max" ∷ "ultra" ∷ [])) [ some word ↦ some "xhigh" | none ↦ none ]
]

abbrev pub text_item : String → String → Value
text_item role text = dict (field "role" (str role) (field "content" (str text) end))

-- What a `for` runs over, where its elements are dicts: the elements of a text and of a dict are texts.
abbrev pub iterated : Value → Result Error Values
iterated (list vs) = ok vs
iterated (dict end) = ok nil
iterated (str text) = if str_eq text "" then ok nil else err crash
iterated _ = err crash

-- A tool of the request.
unfoldable pub function_tool : Value → Result Error Value
function_tool t = dict_of t >>= λ d. tool_fields d >>= λ fn.
    let parameters = get "parameters" fn in
    ok (
      dict (
        field "type" (str "function") (
          field "name" (get_or "name" (str "") fn) (
            field "description" (get_or "description" (str "") fn)
              (field "parameters" (if truthy parameters then parameters else empty_schema) end)))))

unfoldable pub function_tools : Values → Result Error Values
function_tools nil = ok nil
function_tools (cons t ts) =
    function_tool t >>= λ tool. function_tools ts >>= λ rest. ok (cons tool rest)

unfoldable pub tools_value : Value → Result Error Value
tools_value null = ok null
tools_value tools = iterated tools >>= λ ts. function_tools ts >>= λ entries. ok (list entries)

-- The entry of `tool_choice`, None for none.
unfoldable pub choice_value : Value → Value
choice_value (dict choice) =
    let name = forced_name choice in
    if truthy name
    then dict (field "type" (str "function") (field "name" name end))
    else dict choice
choice_value (str choice) = str choice
choice_value _ = null

-- The entry `text` of a response format, None for none.
unfoldable pub text_format : Value → Result Error Value
text_format null = ok null
text_format (dict d) =
    let formatted = λ (format : Value). dict (field "format" format end) in
    ok (
      if is_text "json_object" (get "type" d)
      then formatted (dict (field "type" (str "json_object") end))
      else if is_text "json_schema" (get "type" d)
      then formatted (dict d)
      else null)
text_format _ = err crash

-- The arguments that both protocols take.
pub record ResponsesArguments : Type 0 where
  pub request_model : String
  pub request_messages : Values
  pub output_limit : Value
  pub is_streamed : Bool
  pub request_tools : Value
  pub request_choice : Value

-- Those that only the protocol of xAI takes.
pub record Sampling : Type 0 where
  pub sampling_temperature : Value
  pub sampling_top_p : Value
  pub sampling_stop : Value
  pub sampling_format : Value
  pub sampling_effort : Value

module _ (builtins : Builtins) (codec : Codec) where
  -- `_clamp_xai_reasoning_effort`
  unfoldable pub clamp_xai_reasoning_effort : Value → Option String
  clamp_xai_reasoning_effort null = none
  clamp_xai_reasoning_effort (str text) = clamped (lower_bytes (strip (codes text)))
  clamp_xai_reasoning_effort effort = clamped (lower_bytes (strip (codes (builtins.str_of effort))))

  -- `args_str`
  unfoldable pub arguments_text : Value → String
  arguments_text (str raw) = if str_eq raw "" then "{}" else raw
  arguments_text raw = if truthy raw then codec.encode raw else "{}"

  unfoldable pub call_item : Value → Result Error Value
  call_item (dict tc) = dict_of (get_or "function" (dict end) tc) >>= λ fn. ok (
      dict (
        field "type" (str "function_call") (
          field "call_id" (first_truthy (get "id" tc) (get "call_id" tc)) (
            field "name" (get_or "name" (str "") fn)
              (field "arguments" (str (arguments_text (get "arguments" fn))) end)))))
  call_item _ = err crash

  unfoldable pub call_items : Values → Result Error Values
  call_items nil = ok nil
  call_items (cons tc tcs) = call_item tc >>= λ item. call_items tcs >>= λ rest. ok (cons item rest)

  unfoldable pub output_item : Fields → Value
  output_item message = dict (
      field "type" (str "function_call_output") (
        field "call_id" (first_truthy (get "tool_call_id" message) (get "id" message))
          (field "output" (str (result_content builtins codec (get "content" message))) end)))

  -- The text of an assistant, unless it is empty, and what follows it.
  unfoldable pub spoken_items : Value → Values → Result Error Values
  spoken_items content rest =
      if truthy content
      then (extract_message_text builtins content >>= λ text.
          ok (if str_eq text "" then rest else cons (text_item "assistant" text) rest))
      else ok rest

  unfoldable pub assistant_items : Fields → Result Error Values
  assistant_items message =
      let content = get "content" message in
      let tool_calls = get "tool_calls" message in
      if truthy tool_calls
      then (iterated tool_calls >>= λ tcs. call_items tcs >>= spoken_items content)
      else spoken_items content
          (if truthy content then nil else cons (text_item "assistant" "") nil)

  unfoldable pub message_items : Value → Result Error Values
  message_items message = dict_of message >>= λ m.
      let role = role_of builtins codec m in
      if str_eq role "tool"
      then ok (cons (output_item m) nil)
      else if str_eq role "assistant"
      then assistant_items m
      else (extract_message_text builtins (get "content" m) >>= λ text.
          ok (cons (text_item role text) nil))

  -- `_xai_input_messages`
  unfoldable pub xai_input_messages : Values → Result Error Values
  xai_input_messages nil = ok nil
  xai_input_messages (cons message messages) = message_items message >>= λ items.
      xai_input_messages messages >>= λ rest. ok (extended items rest)

  abbrev pub effort_value : Option String → Value
  effort_value none = null
  effort_value (some effort) = dict (field "effort" (str effort) end)

  -- `_build_xai_request_body`
  unfoldable pub build_xai_request_body : ResponsesArguments → Sampling → Result Error Fields
  build_xai_request_body a s = xai_input_messages a.request_messages >>= λ input.
      text_format s.sampling_format >>= λ text. tools_value a.request_tools >>= λ tools. ok (
        field "model" (str a.request_model) (
          field "input" (list input) (
            field "stream" (bool a.is_streamed) (
              with_option "max_output_tokens" a.output_limit (
                with_option "temperature" s.sampling_temperature (
                  with_option "top_p" s.sampling_top_p (
                    with_option "stop" s.sampling_stop (
                      with_option "reasoning"
                        (effort_value (clamp_xai_reasoning_effort s.sampling_effort))
                        (with_option "text" text (
                          with_option "tools" tools (
                            with_option "tool_choice" (choice_value a.request_choice) end)))))))))))

  -- `_build_openai_responses_request_body`
  unfoldable pub build_openai_responses_request_body : ResponsesArguments → Result Error Fields
  build_openai_responses_request_body a = xai_input_messages a.request_messages >>= λ input.
      tools_value a.request_tools >>= λ tools. ok (
        field "model" (str a.request_model) (
          field "input" (list input) (
            field "stream" (bool a.is_streamed) (
              with_option "max_output_tokens" a.output_limit (
                with_option "tools" tools
                  (with_option "tool_choice" (choice_value a.request_choice) end))))))
