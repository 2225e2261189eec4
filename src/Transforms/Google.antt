-- ===== src/Transforms/Google.antt =====
-- The conversion of messages and tools for Google's GenerateContent, of
-- openai_compatible_bridge/core/transforms.py: `_google_function_call_part`,
-- `_google_contents_and_system`, `_google_tools` and `_google_tool_config`. The contents are kept with
-- the newest first.
mod Tests
use openai_compatible_bridge.Prelude.{
  ℕ, Bool, true, false, not, ◌&&◌, Option, none, some, String, List, [], ◌∷◌, if◌then◌else◌, str_eq,
}
use openai_compatible_bridge.Prelude.Result.{Result, ok, err, ◌>>=◌}
use openai_compatible_bridge.Json.{
  Value, Values, Fields, null, bool, int, float, str, list, dict, nil, cons, end, field, get, has,
  object, truthy, is_null, is_text, is_dict,
}
use openai_compatible_bridge.Providers.Ollama.{Error, crash}
use openai_compatible_bridge.Providers.Vertex.Schema.{set}
use openai_compatible_bridge.Providers.Vertex.Reading.{
  Builtins, get_or, dict_of, extract_message_text,
}
use openai_compatible_bridge.Transforms.{Outside, google_json_object}

pub record GoogleContent : Type 0 where
  pub is_user : Bool
  pub content_parts : Values

-- The local variables of the loop.
pub record GoogleHistory : Type 0 where
  pub google_contents : List GoogleContent
  pub google_system : Values
  pub tool_names : Fields
  pub native_ids : Fields

-- `parts.append(part)`
unfoldable pub appended : Values → Value → Values
appended nil part = cons part nil
appended (cons p ps) part = cons p (appended ps part)

abbrev pub text_part : String → Value
text_part text = dict (field "text" (str text) end)

-- `all("functionResponse" in previous for previous in parts)`
unfoldable pub are_responses : Values → Bool
are_responses nil = true
are_responses (cons (dict part) parts) = has "functionResponse" part && are_responses parts
are_responses (cons part parts) = false

-- What a `for` over `value or []` runs over; the elements of a text and of a dict have no `get`.
abbrev pub call_list : Value → Result Error Values
call_list (list vs) = ok vs
call_list value = if truthy value then err crash else ok nil

module _ (builtins : Builtins) (outside : Outside) where
  abbrev pub text_of_value : Value → String
  text_of_value (str t) = t
  text_of_value v = outside.str_of v

  abbrev pub message_text : Value → Result Error String
  message_text content = extract_message_text builtins content

  -- `_google_function_call_part`: the part, and the name.
  unfoldable pub google_function_call_part : Value → Result Error (Fields × String)
  google_function_call_part (dict tool_call) =
      let function = object (get "function" tool_call) in
      let name = text_of_value (get_or "name" (str "") function) in
      let args = google_json_object outside "value" (get_or "arguments" (str "{}") function) in
      let native = object (get "_google_part" tool_call) in
      let built =
        field "functionCall" (dict (field "name" (str name) (field "args" (dict args) end))) end in
      ok ((if is_dict (get "functionCall" native) then native else built), name)
  google_function_call_part tool_call = err crash

  -- The names and the identifiers of a call that has an identifier.
  unfoldable pub note_call : Value → Fields → String → GoogleHistory → GoogleHistory
  note_call call_id part name h =
      let key = text_of_value call_id in
      let native_id = get "id" (object (get "functionCall" part)) in
      if truthy call_id
      then record h {
        tool_names = set key (str name) h.tool_names;
        native_ids = (if truthy native_id then set key native_id h.native_ids else h.native_ids);
      }
      else h

  -- The calls of an assistant, behind the parts before them.
  unfoldable pub take_calls :
      Values → Values → GoogleHistory → Result Error (Values × GoogleHistory)
  take_calls nil parts h = ok (parts, h)
  take_calls (cons tool_call tool_calls) parts h = google_function_call_part tool_call >>= λ part.
      take_calls tool_calls (appended parts (dict part.0))
        (note_call (get "id" (object tool_call)) part.0 part.1 h)

  abbrev pub some_parts : Values → Values
  some_parts nil = cons (text_part "") nil
  some_parts parts = parts

  abbrev pub push_content : Bool → Values → GoogleHistory → GoogleHistory
  push_content user parts h = record h {
    google_contents = record { is_user = user; content_parts = parts } ∷ h.google_contents;
  }

  unfoldable pub take_assistant : Fields → GoogleHistory → Result Error GoogleHistory
  take_assistant message h = message_text (get "content" message) >>= λ text.
      call_list (get "tool_calls" message) >>= λ tool_calls.
      take_calls tool_calls (if str_eq text "" then nil else cons (text_part text) nil) h >>= λ out.
      ok (push_content false (some_parts out.0) out.1)

  -- `a or b or c` of the name of a response, for a name that may be missing.
  unfoldable pub response_name : Fields → String → GoogleHistory → String
  response_name message call_id h =
      if truthy (get "name" message)
      then text_of_value (get "name" message)
      else if truthy (get call_id h.tool_names)
      then text_of_value (get call_id h.tool_names)
      else call_id

  unfoldable pub response_part : Fields → GoogleHistory → Value
  response_part message h =
      let tool_call_id = get "tool_call_id" message in
      let raw_id =
        if truthy tool_call_id
        then tool_call_id
        else (if truthy (get "id" message) then get "id" message else str "") in
      let call_id = text_of_value raw_id in
      dict (
        field "functionResponse"
          (dict (
            field "name" (str (response_name message call_id h)) (
              field "response" (dict (google_json_object outside "content" (get "content" message)))
                (if has call_id h.native_ids
                  then field "id" (get call_id h.native_ids) end
                  else end))))
          end)

  -- A response joins the responses that the newest content consists of.
  unfoldable pub push_response : Value → List GoogleContent → List GoogleContent
  push_response part [] = record { is_user = true; content_parts = cons part nil } ∷ []
  push_response part (c ∷ cs) =
      if c.is_user && are_responses c.content_parts
      then record { is_user = true; content_parts = appended c.content_parts part } ∷ cs
      else record { is_user = true; content_parts = cons part nil } ∷ c ∷ cs

  unfoldable pub take_google : GoogleHistory → Value → Result Error GoogleHistory
  take_google h message = dict_of message >>= λ m.
      let role = text_of_value (get_or "role" (str "user") m) in
      if str_eq role "system"
      then (message_text (get "content" m) >>= λ text. ok (
          if str_eq text ""
          then h
          else record h { google_system = appended h.google_system (text_part text) }))
      else if str_eq role "assistant"
      then take_assistant m h
      else if str_eq role "tool"
      then ok (record h { google_contents = push_response (response_part m h) h.google_contents })
      else (message_text (get "content" m) >>= λ text.
          ok (push_content true (cons (text_part text) nil) h))

  unfoldable pub take_google_all : GoogleHistory → Values → Result Error GoogleHistory
  take_google_all h nil = ok h
  take_google_all h (cons m ms) = take_google h m >>= λ next. take_google_all next ms

  abbrev pub some_contents : List GoogleContent → List GoogleContent
  some_contents [] = record { is_user = true; content_parts = cons (text_part "") nil } ∷ []
  some_contents (c ∷ cs) = c ∷ cs

  -- `_google_contents_and_system`
  unfoldable pub google_contents_and_system : Values → Result Error (List GoogleContent × Values)
  google_contents_and_system messages =
      take_google_all
        (record { google_contents = []; google_system = nil; tool_names = end; native_ids = end })
        messages
      >>= λ h. ok (some_contents h.google_contents, h.google_system)

  abbrev pub with_entry : Bool → String → Value → Fields → Fields
  with_entry present key value rest = if present then field key value rest else rest

  -- A declaration, unless the function has no name.
  unfoldable pub google_declaration : Value → Option Value
  google_declaration tool =
      let function = object (get "function" (object tool)) in
      let name = text_of_value (get_or "name" (str "") function) in
      let description = get "description" function in
      let parameters = get "parameters" function in
      if str_eq name ""
      then none
      else some (
          dict (
            field "name" (str name) (
              with_entry (truthy description) "description" (str (text_of_value description))
                (with_entry (not (is_null parameters)) "parameters" parameters end))))

  unfoldable pub google_declarations : Values → Values
  google_declarations nil = nil
  google_declarations (cons tool tools) = elim (google_declaration tool) [
    | none ↦ google_declarations tools
    | some d ↦ cons d (google_declarations tools)
  ]

  -- `_google_tools`, for a list.
  unfoldable pub google_tools : Values → Option Value
  google_tools tools = elim (google_declarations tools) [
    | nil ↦ none
    | cons d ds ↦
        some (list (cons (dict (field "functionDeclarations" (list (cons d ds)) end)) nil))
  ]

  abbrev pub calling_config : String → Fields → Value
  calling_config mode rest =
      dict (field "functionCallingConfig" (dict (field "mode" (str mode) rest)) end)

  -- The name that a choice allows.
  abbrev pub allowed_name : Fields → Value
  allowed_name choice = elim (get "function" choice) [
    | dict function ↦ get "name" function
    | _ ↦ get "name" choice
  ]

  -- `_google_tool_config`
  unfoldable pub google_tool_config : Value → Option Value
  google_tool_config null = none
  google_tool_config (dict choice) =
      let name = allowed_name choice in
      some (
        calling_config "ANY" (
          with_entry (truthy name) "allowedFunctionNames"
            (list (cons (str (text_of_value name)) nil)) end))
  google_tool_config tool_choice =
      if is_text "none" tool_choice
      then some (calling_config "NONE" end)
      else if is_text "required" tool_choice
      then some (calling_config "ANY" end)
      else some (calling_config "AUTO" end)
