-- ===== src/Providers/Foundry/Anthropic.antt =====
-- The request to Anthropic's protocol: `_build_anthropic_request_body` of
-- openai_compatible_bridge/providers/foundry.py, and `_append_anthropic_turn` of
-- openai_compatible_bridge/core/transforms.py. The turns are kept with the newest first. `json.loads`
-- and `json.dumps` are parameters. The lists are values here: that a turn shares its list with the
-- message it came from is left out.
mod Turns
mod Tests
use Prim.Native.String.{◌++◌ as text_append}
use openai_compatible_bridge.Prelude.{
  ℕ, zero, Bool, true, false, not, ◌&&◌, Option, none, some, String, List, [], ◌∷◌, ◌++◌,
  if◌then◌else◌, str_eq, is_empty,
}
use openai_compatible_bridge.Prelude.Int.{ℤ, pos}
use openai_compatible_bridge.Prelude.Result.{Result, ok, err, ◌>>=◌}
use openai_compatible_bridge.Prelude.Bytes.{codes, strip}
use openai_compatible_bridge.Json.{
  Value, Values, Fields, null, bool, int, float, str, list, dict, nil, cons, end, field, get,
  truthy, is_text, is_null, is_dict, object,
}
use openai_compatible_bridge.Providers.Ollama.{Error, crash}
use openai_compatible_bridge.Providers.Vertex.Reading.{
  Builtins, get_or, dict_of, extract_message_text,
}

-- The two roles of Anthropic's protocol.
pub data Role : Type 0 where
  user assistant : Role

pub record Turn : Type 0 where
  pub role : Role
  pub content : Value

abbrev pub same_role : Role → Role → Bool
same_role user user = true
same_role assistant assistant = true
same_role _ _ = false

abbrev pub text_entry : String → Value
text_entry text = dict (field "type" (str "text") (field "text" (str text) end))

-- `xs.extend(ys)`
unfoldable pub extended : Values → Values → Values
extended nil ys = ys
extended (cons x xs) ys = cons x (extended xs ys)

-- A block for a text, unless it is empty.
abbrev pub text_entries : String → Values
text_entries text = if str_eq text "" then nil else cons (text_entry text) nil

-- Two texts in one content.
abbrev pub joined_text : String → String → String
joined_text before text =
    if str_eq before ""
    then text
    else if str_eq text ""
    then before
    else text_append before (text_append "\n\n" text)

-- `json.loads` of a text, or None where it raises, and `json.dumps`.
pub record Codec : Type 0 where
  pub decode : String → Option Value
  pub encode : Value → String

module _ (builtins : Builtins) where
  -- The content of a turn that is added to.
  unfoldable pub joined_content : Value → Value → Result Error Value
  joined_content (list before) (list blocks) = ok (list (extended before blocks))
  joined_content (list before) content = extract_message_text builtins content >>= λ text.
      ok (list (extended before (text_entries text)))
  joined_content before (list blocks) = extract_message_text builtins before >>= λ text.
      ok (list (extended (text_entries text) blocks))
  joined_content before content = extract_message_text builtins before >>= λ text.
      extract_message_text builtins content >>= λ added. ok (str (joined_text text added))

  -- `_append_anthropic_turn`
  unfoldable pub append_anthropic_turn : List Turn → Role → Value → Result Error (List Turn)
  append_anthropic_turn [] role content = ok (record { role = role; content = content } ∷ [])
  append_anthropic_turn (t ∷ turns) role content =
      let joined = joined_content t.content content >>= λ c.
      ok (record { role = t.role; content = c } ∷ turns) in
      if same_role t.role role
      then joined
      else ok (record { role = role; content = content } ∷ t ∷ turns)

abbrev pub or_empty_text : Value → Value
or_empty_text content = if is_null content then str "" else content

-- `a or b or ""`
abbrev pub first_truthy : Value → Value → Value
first_truthy a b = if truthy a then a else if truthy b then b else str ""

-- The state of the loop: the texts of the system, and the turns, the newest first.
pub record Conversation : Type 0 where
  pub system_parts : List String
  pub turns : List Turn

-- A tool, from its entry in the request.
unfoldable pub tool_fields : Fields → Result Error Fields
tool_fields t =
    if is_text "function" (get "type" t) then dict_of (get_or "function" (dict end) t) else ok t

abbrev pub empty_schema : Value
empty_schema = dict (field "type" (str "object") (field "properties" (dict end) end))

unfoldable pub anthropic_tool : Value → Result Error Value
anthropic_tool t = dict_of t >>= λ d. tool_fields d >>= λ fn.
    let parameters = get "parameters" fn in
    ok (
      dict (
        field "name" (get_or "name" (str "") fn) (
          field "description" (get_or "description" (str "") fn)
            (field "input_schema" (if truthy parameters then parameters else empty_schema) end))))

unfoldable pub anthropic_tools : Values → Result Error Values
anthropic_tools nil = ok nil
anthropic_tools (cons t ts) =
    anthropic_tool t >>= λ tool. anthropic_tools ts >>= λ rest. ok (cons tool rest)

-- The name that a choice forces: that of its function, or its own.
abbrev pub forced_name : Fields → Value
forced_name choice = elim (get "function" choice) [
  | dict fn ↦ get "name" fn
  | _ ↦ get "name" choice
]

-- The entry of `tool_choice`, before the entries that follow it.
unfoldable pub with_choice : Value → Fields → Fields
with_choice (dict choice) rest =
    let name = forced_name choice in
    if truthy name
    then field "tool_choice" (dict (field "type" (str "tool") (field "name" name end))) rest
    else rest
with_choice tool_choice rest =
    if is_text "auto" tool_choice
    then field "tool_choice" (dict (field "type" (str "auto") end)) rest
    else if is_text "required" tool_choice
    then field "tool_choice" (dict (field "type" (str "any") end)) rest
    else rest

-- The entries of the tools; what is truthy and no list has no tools to get from.
unfoldable pub tool_entries : Value → Value → Result Error Fields
tool_entries tools tool_choice =
    if truthy tools && not (is_text "none" tool_choice)
    then elim tools [
      | list ts ↦ anthropic_tools ts >>= λ entries.
          ok (field "tools" (list entries) (with_choice tool_choice end))
      | _ ↦ err crash
    ]
    else ok end

-- `[stop] if isinstance(stop, str) else stop`
abbrev pub stop_entry : Value → Fields → Fields
stop_entry null rest = rest
stop_entry (str s) rest = field "stop_sequences" (list (cons (str s) nil)) rest
stop_entry stop rest = field "stop_sequences" stop rest

-- `"\n\n".join(part for part in system_parts if part)`
unfoldable pub joined_parts : List String → String
joined_parts [] = ""
joined_parts (part ∷ parts) = joined_text part (joined_parts parts)

abbrev pub system_entry : List String → Fields → Fields
system_entry [] rest = rest
system_entry (part ∷ parts) rest = field "system" (str (joined_parts (part ∷ parts))) rest

-- `max_tokens or 4096`
abbrev pub token_limit : Option ℤ → ℤ
token_limit none = pos 4096
token_limit (some (pos zero)) = pos 4096
token_limit (some n) = n

abbrev pub role_text : Role → String
role_text user = "user"
role_text assistant = "assistant"

-- The turns as JSON, the oldest first.
unfoldable pub turn_values : List Turn → Values → Values
turn_values [] rest = rest
turn_values (t ∷ ts) rest =
    turn_values ts
      (cons (dict (field "role" (str (role_text t.role)) (field "content" t.content end))) rest)

-- A request without a turn gets an empty one.
abbrev pub some_turns : List Turn → List Turn
some_turns [] = record { role = user; content = str "" } ∷ []
some_turns (t ∷ ts) = t ∷ ts

module _ (builtins : Builtins) (codec : Codec) where
  -- `input_dict`
  unfoldable pub tool_input : Value → Value
  tool_input (str raw) =
      if is_empty (strip (codes raw))
      then dict end
      else elim (codec.decode raw) [ none ↦ dict end | some v ↦ v ]
  tool_input (dict d) = dict d
  tool_input _ = dict end

  -- A call of a tool, as a block.
  unfoldable pub tool_use : Value → Result Error Value
  tool_use (dict tc) = dict_of (get_or "function" (dict end) tc) >>= λ fn. ok (
      dict (
        field "type" (str "tool_use") (
          field "id" (get_or "id" (str "") tc) (
            field "name" (get_or "name" (str "") fn)
              (field "input" (tool_input (get_or "arguments" (str "{}") fn)) end)))))
  tool_use _ = err crash

  unfoldable pub tool_uses : Values → Result Error Values
  tool_uses nil = ok nil
  tool_uses (cons tc tcs) = tool_use tc >>= λ block. tool_uses tcs >>= λ rest. ok (cons block rest)

  -- The blocks of tool calls that are truthy: the elements of a text and of a dict have no `get`.
  unfoldable pub call_blocks : Value → Result Error Values
  call_blocks (list tcs) = tool_uses tcs
  call_blocks _ = err crash

  -- The text of a content that is truthy.
  unfoldable pub content_text : Value → Result Error String
  content_text content = if truthy content then extract_message_text builtins content else ok ""

  unfoldable pub assistant_content : Fields → Result Error Value
  assistant_content message =
      let content = get "content" message in
      let tool_calls = get "tool_calls" message in
      if truthy tool_calls
      then (content_text content >>= λ text.
          call_blocks tool_calls >>= λ blocks. ok (list (extended (text_entries text) blocks)))
      else ok (or_empty_text content)

  -- `result_content`
  unfoldable pub result_content : Value → String
  result_content (dict d) = codec.encode (dict d)
  result_content (list vs) = codec.encode (list vs)
  result_content (str text) = text
  result_content null = ""
  result_content value = builtins.str_of value

  unfoldable pub tool_block : Fields → Value
  tool_block message = dict (
      field "type" (str "tool_result") (
        field "tool_use_id" (first_truthy (get "tool_call_id" message) (get "id" message)) (
          field "content" (str (result_content (get_or "content" (str "") message)))
            (if truthy (get "is_error" message) then field "is_error" (bool true) end else end))))

  abbrev pub role_of : Fields → String
  role_of message = elim (get_or "role" (str "user") message) [
    | str role ↦ role
    | role ↦ builtins.str_of role
  ]

  abbrev pub added : Conversation → Role → Value → Result Error Conversation
  added c role content = append_anthropic_turn builtins c.turns role content >>= λ turns.
      ok (record { system_parts = c.system_parts; turns = turns })

  -- A message of the loop.
  unfoldable pub take_message : Conversation → Value → Result Error Conversation
  take_message c message = dict_of message >>= λ m.
      let content = get "content" m in
      if str_eq (role_of m) "system"
      then (if truthy content
          then (extract_message_text builtins content >>= λ text.
              ok (record { system_parts = c.system_parts ++ text ∷ []; turns = c.turns }))
          else ok c)
      else if str_eq (role_of m) "assistant"
      then (assistant_content m >>= λ blocks. added c assistant blocks)
      else if str_eq (role_of m) "tool"
      then added c user (list (cons (tool_block m) nil))
      else added c user (or_empty_text content)

  unfoldable pub take_messages : Conversation → Values → Result Error Conversation
  take_messages c nil = ok c
  take_messages c (cons m ms) = take_message c m >>= λ next. take_messages next ms

  -- The system's texts and the turns of a request.
  unfoldable pub conversation_of : Values → Result Error Conversation
  conversation_of messages =
      take_messages (record { system_parts = []; turns = [] }) messages >>= λ c.
      ok (record { system_parts = c.system_parts; turns = some_turns c.turns })

  -- `_build_anthropic_request_body`
  unfoldable pub build_anthropic_request_body :
      String → Values → Option ℤ → Value → Bool → Value → Value → Result Error Fields
  build_anthropic_request_body model messages max_tokens stop stream tools tool_choice =
      conversation_of messages >>= λ c. tool_entries tools tool_choice >>= λ entries. ok (
        field "model" (str model) (
          field "messages" (list (turn_values c.turns nil)) (
            field "max_tokens" (int (token_limit max_tokens)) (
              field "stream" (bool stream)
                (system_entry c.system_parts (stop_entry stop entries))))))
