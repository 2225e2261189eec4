-- ===== src/Ingress/Request.antt =====
-- `parse_anthropic_chat_params` of openai_compatible_bridge/anthropic_ingress.py, with its parts
-- `_system_to_text`, `anthropic_tools_to_openai` and `anthropic_tool_choice_to_openai`.
use Prim.Native.String.{◌++◌ as text_append}
use openai_compatible_bridge.Prelude.{
  ℕ, suc, Bool, true, false, ◌||◌, Option, none, some, String, List, [], ◌∷◌, if◌then◌else◌,
}
use openai_compatible_bridge.Prelude.Int.{pos}
use openai_compatible_bridge.Prelude.Result.{Result, ok, err, guard, ◌>>=◌, ◌>>◌}
use openai_compatible_bridge.Json.{
  Value, Values, nil, cons, Fields, null, bool, int, float, str, dict, list, end, get, has, truthy,
  one_of, is_text, is_null,
}
use openai_compatible_bridge.Ingress.Messages.{
  Error, bad_request, crash, Message, system, Outside, to_text, text_at, is_nonempty, required_text,
  get_or, anthropic_messages_to_openai,
}

pub record Tool : Type 0 where
  pub tool_name : String
  pub description : String
  pub parameters : Fields

pub data ToolChoice : Type 0 where
  auto : ToolChoice
  required : ToolChoice
  no_tool : ToolChoice
  function : String → ToolChoice

pub record Params : Type 0 where
  pub model : String
  pub messages : List Message
  pub max_tokens : ℕ
  pub temperature : Value
  pub top_p : Value
  pub reasoning_effort : Value
  pub stop : Value
  pub stream : Bool
  pub tools : Option (List Tool)
  pub tool_choice : Option ToolChoice

-- `isinstance(value, (int, float))`, or None.
abbrev pub is_number_or_null : Value → Bool
is_number_or_null null = true
is_number_or_null (bool b) = true
is_number_or_null (int n) = true
is_number_or_null (float t) = true
is_number_or_null _ = false

abbrev pub all_texts : Values → Bool
all_texts nil = true
all_texts (cons (str s) vs) = all_texts vs
all_texts (cons _ vs) = false

abbrev pub is_stop : Value → Bool
is_stop null = true
is_stop (str s) = true
is_stop (list vs) = all_texts vs
is_stop _ = false

abbrev pub efforts : List String
efforts = "low" ∷ "medium" ∷ "high" ∷ "xhigh" ∷ "max" ∷ []

abbrev pub is_effort : Value → Bool
is_effort null = true
is_effort v = one_of v efforts

abbrev pub positive : Value → Result Error ℕ
positive (int (pos (suc n))) = ok (suc n)
positive _ = err bad_request

-- The effort of `output_config`, which is None or an object.
abbrev pub effort_of : Value → Result Error Value
effort_of null = ok null
effort_of (dict d) = ok (get "effort" d)
effort_of _ = err bad_request

abbrev pub the_bool : Value → Result Error Bool
the_bool (bool b) = ok b
the_bool _ = err bad_request

-- A value among the texts that `"".join` is given.
abbrev pub joinable : Value → Result Error String
joinable (str s) = ok s
joinable _ = err crash

unfoldable pub choice_name : Fields → Value → Value
choice_name d (dict tool) = if truthy (get "name" d) then get "name" d else get "name" tool
choice_name d _ = get "name" d

-- `anthropic_tool_choice_to_openai`
unfoldable pub anthropic_tool_choice_to_openai : Value → Result Error (Option ToolChoice)
anthropic_tool_choice_to_openai null = ok none
anthropic_tool_choice_to_openai (dict d) =
    let choice_type = get "type" d in
    if is_text "auto" choice_type
    then ok (some auto)
    else if is_text "any" choice_type
    then ok (some required)
    else if is_text "none" choice_type
    then ok (some no_tool)
    else if is_text "tool" choice_type
    then (required_text (choice_name d (get "tool" d)) >>= λ name. ok (some (function name)))
    else err bad_request
anthropic_tool_choice_to_openai _ = err bad_request

module _ (outside : Outside) where
  -- What a block of `system` adds.
  unfoldable pub system_part : Value → Result Error String
  system_part (dict d) =
      if one_of (get "type" d) ("text" ∷ []) || is_null (get "type" d) || has "text" d
      then joinable (get_or (str "") "text" d)
      else ok ""
  system_part v = ok (to_text outside v)

  unfoldable pub system_parts : Values → Result Error String
  system_parts nil = ok ""
  system_parts (cons v vs) =
      system_part v >>= λ part. system_parts vs >>= λ rest. ok (text_append part rest)

  -- `_system_to_text`
  unfoldable pub system_to_text : Value → Result Error String
  system_to_text null = ok ""
  system_to_text (str s) = ok s
  system_to_text (list vs) = system_parts vs
  system_to_text _ = err bad_request

  abbrev pub schema_of : Value → Result Error Fields
  schema_of (dict d) = ok d
  schema_of _ = err bad_request

  unfoldable pub tool_entry : Value → Result Error Tool
  tool_entry (dict d) = required_text (get "name" d) >>= λ name.
      schema_of (get_or (dict end) "input_schema" d) >>= λ parameters. ok (record {
        tool_name = name;
        description = text_at outside "description" d;
        parameters = parameters;
      })
  tool_entry _ = err bad_request

  unfoldable pub tool_entries : Values → Result Error (List Tool)
  tool_entries nil = ok []
  tool_entries (cons v vs) = tool_entry v >>= λ tool. tool_entries vs >>= λ tools. ok (tool ∷ tools)

  -- `anthropic_tools_to_openai`
  unfoldable pub anthropic_tools_to_openai : Value → Result Error (Option (List Tool))
  anthropic_tools_to_openai null = ok none
  anthropic_tools_to_openai (list (cons v vs)) =
      tool_entries (cons v vs) >>= λ tools. ok (some tools)
  anthropic_tools_to_openai _ = err bad_request

  abbrev pub with_system : String → List Message → List Message
  with_system text messages = if is_nonempty text then system text ∷ messages else messages

  -- `parse_anthropic_chat_params`, in the order of its tests.
  unfoldable pub parse_params : Fields → Result Error Params
  parse_params d = required_text (get "model" d) >>= λ model.
      anthropic_messages_to_openai outside (get "messages" d) >>= λ messages.
      positive (get "max_tokens" d) >>= λ max_tokens.
      system_to_text (get "system" d) >>= λ system_text.
      guard (is_number_or_null (get "temperature" d)) bad_request
      >> guard (is_number_or_null (get "top_p" d)) bad_request
      >> guard (is_stop (get "stop_sequences" d)) bad_request
      >> (effort_of (get "output_config" d) >>= λ effort.
          guard (is_effort effort) bad_request
          >> (the_bool (get_or (bool false) "stream" d) >>= λ stream.
              anthropic_tools_to_openai (get "tools" d) >>= λ tools.
              anthropic_tool_choice_to_openai (get "tool_choice" d) >>= λ choice. ok (record {
                model = model;
                messages = with_system system_text messages;
                max_tokens = max_tokens;
                temperature = get "temperature" d;
                top_p = get "top_p" d;
                reasoning_effort = effort;
                stop = get "stop_sequences" d;
                stream = stream;
                tools = tools;
                tool_choice = choice;
              })))

  unfoldable pub parse_anthropic_chat_params : Value → Result Error Params
  parse_anthropic_chat_params (dict d) = parse_params d
  parse_anthropic_chat_params _ = err bad_request
