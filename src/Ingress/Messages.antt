-- ===== src/Ingress/Messages.antt =====
-- The conversion of requests in openai_compatible_bridge/anthropic_ingress.py: the messages, and
-- what they hold. `str()` of a value that is no text, json.dumps of an object and json.loads of a
-- text are parameters.

use Prim.Native.String.{◌++◌ as text_append}
use openai_compatible_bridge.Prelude.{
  Bool, false, not, ◌||◌, Option, none, some, String, List, [], ◌∷◌, ◌++◌, if◌then◌else◌, is_empty,
  str_eq,
}
use openai_compatible_bridge.Prelude.Result.{Result, ok, err, guard, ◌>>=◌, ◌>>◌}
use openai_compatible_bridge.Json.{
  Value, Values, nil, cons, Fields, null, bool, str, dict, list, end, get, has, truthy, one_of,
  is_text,
}

-- AnthropicBadRequest, or the exception of a built-in.
pub data Error : Type 0 where
  bad_request : Error
  crash : Error

pub record ToolCall : Type 0 where
  pub id : String
  pub name : String
  pub arguments : String

-- A message in the OpenAI format; None as the content of an assistant is `none`.
pub data Message : Type 0 where
  system : String → Message
  user : String → Message
  assistant : Option String → List ToolCall → Message
  tool : String → String → Bool → Message

-- What a content block stands for.
pub data Piece : Type 0 where
  text_part : String → Piece
  skipped : Piece
  call : ToolCall → Piece
  tool_message : Message → Piece

-- `"".join(parts)`
abbrev pub join : List String → String
join [] = ""
join (part ∷ parts) = text_append part (join parts)

abbrev pub is_nonempty : String → Bool
is_nonempty s = not (str_eq s "")

abbrev pub text_parts : List Piece → List String
text_parts [] = []
text_parts (text_part s ∷ pieces) = s ∷ text_parts pieces
text_parts (_ ∷ pieces) = text_parts pieces

abbrev pub tool_calls : List Piece → List ToolCall
tool_calls [] = []
tool_calls (call c ∷ pieces) = c ∷ tool_calls pieces
tool_calls (_ ∷ pieces) = tool_calls pieces

abbrev pub tool_messages : List Piece → List Message
tool_messages [] = []
tool_messages (tool_message m ∷ pieces) = m ∷ tool_messages pieces
tool_messages (_ ∷ pieces) = tool_messages pieces

pub record Outside : Type 0 where
  pub str_of : Value → String
  pub dumps : Fields → String
  pub loads : String → Option Value

-- A non-empty text, or a refusal.
abbrev pub required_text : Value → Result Error String
required_text (str s) = if is_nonempty s then ok s else err bad_request
required_text _ = err bad_request

-- `d.get(key, default)`
abbrev pub get_or : Value → String → Fields → Value
get_or default key d = if has key d then get key d else default

-- `value is True`
abbrev pub is_true : Value → Bool
is_true (bool b) = b
is_true _ = false

module _ (outside : Outside) where
  -- `str(value)`
  abbrev pub to_text : Value → String
  to_text (str s) = s
  to_text v = outside.str_of v

  -- `str(d.get(key, ""))`
  abbrev pub text_at : String → Fields → String
  text_at key d = if has key d then to_text (get key d) else ""

  unfoldable pub extract_parts : Values → List String
  extract_parts nil = []
  extract_parts (cons (dict d) vs) =
      let rest = extract_parts vs in
      if is_text "text" (get "type" d)
      then elim (get "text" d) [ str s ↦ s ∷ rest | _ ↦ rest ]
      else rest
  extract_parts (cons (str s) vs) = s ∷ extract_parts vs
  extract_parts (cons _ vs) = extract_parts vs

  -- `_extract_text`
  unfoldable pub extract_text : Value → String
  extract_text null = ""
  extract_text (str s) = s
  extract_text (list vs) = join (extract_parts vs)
  extract_text v = outside.str_of v

  -- The text of a block in a list of `tool_result`.
  unfoldable pub tool_result_part : Value → Result Error String
  tool_result_part (dict d) =
      if is_text "text" (get "type" d)
      then ok (text_at "text" d)
      else if one_of (get "type" d) ("thinking" ∷ "redacted_thinking" ∷ [])
      then ok ""
      else if has "text" d
      then ok (to_text (get "text" d))
      else err bad_request
  tool_result_part (str s) = ok s
  tool_result_part _ = ok ""

  unfoldable pub tool_result_parts : Values → Result Error String
  tool_result_parts nil = ok ""
  tool_result_parts (cons v vs) =
      tool_result_part v >>= λ part. tool_result_parts vs >>= λ rest. ok (text_append part rest)

  -- `_tool_result_to_text`
  unfoldable pub tool_result_to_text : Value → Result Error String
  tool_result_to_text null = ok ""
  tool_result_to_text (str s) = ok s
  tool_result_to_text (list vs) = tool_result_parts vs
  tool_result_to_text v = ok (outside.str_of v)

  abbrev pub input_text : Value → Result Error String
  input_text (dict d) = ok (outside.dumps d)
  input_text (str s) = ok s
  input_text _ = err bad_request

  unfoldable pub tool_use_piece : Fields → Result Error Piece
  tool_use_piece block = required_text (get "name" block) >>= λ name.
      input_text (get_or (dict end) "input" block) >>= λ args.
      ok (call (record { id = text_at "id" block; name = name; arguments = args }))

  unfoldable pub tool_result_piece : Fields → Result Error Piece
  tool_result_piece block =
      guard (truthy (get "tool_use_id" block)) bad_request
      >> (tool_result_to_text (get_or (str "") "content" block) >>= λ text. ok (
          tool_message
            (tool (to_text (get "tool_use_id" block)) text (is_true (get "is_error" block)))))

  -- One turn of the loop over the content blocks.
  unfoldable pub block_piece : String → Value → Result Error Piece
  block_piece role (dict block) =
      let block_type = get "type" block in
      if is_text "text" block_type
      then ok (text_part (text_at "text" block))
      else if one_of block_type ("thinking" ∷ "redacted_thinking" ∷ [])
      then ok skipped
      else if is_text "tool_use" block_type
      then (guard (str_eq role "assistant") bad_request >> tool_use_piece block)
      else if is_text "tool_result" block_type
      then (guard (str_eq role "user") bad_request >> tool_result_piece block)
      else err bad_request
  block_piece role _ = err bad_request

  unfoldable pub block_pieces : String → Values → Result Error (List Piece)
  block_pieces role nil = ok []
  block_pieces role (cons v vs) =
      block_piece role v >>= λ piece. block_pieces role vs >>= λ pieces. ok (piece ∷ pieces)

  -- What the pieces of a message become.
  unfoldable pub entries : String → List Piece → List Message
  entries role pieces =
      let text = join (text_parts pieces) in
      let content = if is_nonempty text || is_empty (tool_calls pieces) then some text else none in
      if str_eq role "assistant"
      then assistant content (tool_calls pieces) ∷ []
      else (if is_nonempty text || is_empty (tool_messages pieces) then user text ∷ [] else [])
        ++ tool_messages pieces

  abbrev pub plain : String → String → Message
  plain role text = if str_eq role "assistant" then assistant (some text) [] else user text

  unfoldable pub content_messages : String → Value → Result Error (List Message)
  content_messages role (str s) = ok (plain role s ∷ [])
  content_messages role (list vs) = block_pieces role vs >>= λ pieces. ok (entries role pieces)
  content_messages role _ = err bad_request

  -- One turn of the loop over the messages.
  unfoldable pub message_entries : Value → Result Error (List Message)
  message_entries (dict message) =
      let content = get "content" message in
      if is_text "system" (get "role" message)
      then ok (system (extract_text content) ∷ [])
      else if is_text "user" (get "role" message)
      then content_messages "user" content
      else if is_text "assistant" (get "role" message)
      then content_messages "assistant" content
      else err bad_request
  message_entries _ = err bad_request

  unfoldable pub all_entries : Values → Result Error (List Message)
  all_entries nil = ok []
  all_entries (cons v vs) =
      message_entries v >>= λ first. all_entries vs >>= λ rest. ok (first ++ rest)

  -- `anthropic_messages_to_openai`
  unfoldable pub anthropic_messages_to_openai : Value → Result Error (List Message)
  anthropic_messages_to_openai (list (cons v vs)) = all_entries (cons v vs)
  anthropic_messages_to_openai _ = err bad_request
