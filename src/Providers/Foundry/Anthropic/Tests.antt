-- ===== src/Providers/Foundry/Anthropic/Tests.antt =====
-- A request to Anthropic's protocol, of openai_compatible_bridge/providers/foundry.py.
use openai_compatible_bridge.Prelude.{
  ℕ, Bool, true, false, Option, none, some, String, List, [], ◌∷◌, ◌≡◌, refl,
}
use openai_compatible_bridge.Prelude.Result.{ok, Ensures}
use openai_compatible_bridge.Json.{
  Value, Values, Fields, nil, cons, str, list, dict, end, field, get, has, truthy,
}
use openai_compatible_bridge.Providers.Vertex.Reading.{Builtins, refused, extract_message_text}
use openai_compatible_bridge.Providers.Foundry.Anthropic.{
  user, assistant, Codec, Conversation, text_entry, extended, joined_content, append_anthropic_turn,
  tool_input, tool_use, tool_uses, call_blocks, content_text, assistant_content, tool_block,
  result_content, take_message, take_messages, conversation_of,
}
use openai_compatible_bridge.Providers.Foundry.Anthropic.Turns.{AreTurns, conversation_of-AreTurns}

abbrev builtins : Builtins
builtins = record { int_of_float = λ t. refused; int_of_str = λ t. refused; str_of = λ v. "" }

abbrev codec : Codec
codec = record { decode = λ t. some (dict end); encode = λ v. "{}" }

abbrev message : String → Fields → Value
message role rest = dict (field "role" (str role) rest)

abbrev said : String → Fields
said text = field "content" (str text) end

abbrev call : Value
call = dict (
    field "id" (str "c1")
      (field "function" (dict (field "name" (str "f") (field "arguments" (str "{}") end))) end))

-- Two texts of the user, a call, its result, and one more text of the user.
abbrev messages : Values
messages = cons (message "system" (said "be brief")) (
    cons (message "user" (said "a")) (
      cons (message "user" (said "b")) (
        cons (message "assistant" (field "tool_calls" (list (cons call nil)) end)) (
          cons (message "tool" (field "tool_call_id" (str "c1") (said "1")))
            (cons (message "user" (said "c")) nil)))))

abbrev result_entry : Value
result_entry = dict (
    field "type" (str "tool_result")
      (field "tool_use_id" (str "c1") (field "content" (str "1") end)))

abbrev use_entry : Value
use_entry = dict (
    field "type" (str "tool_use")
      (field "id" (str "c1") (field "name" (str "f") (field "input" (dict end) end))))

conversation_test :
    conversation_of builtins codec messages
    ≡ ok (record {
      system_parts = "be brief" ∷ [];
      turns =
          record { role = user; content = list (cons result_entry (cons (text_entry "c") nil)) }
          ∷ record { role = assistant; content = list (cons use_entry nil) }
          ∷ record { role = user; content = str "a\n\nb" }
          ∷ [];
    })
unfolding conversation_of take_messages take_message assistant_content append_anthropic_turn
    joined_content extended tool_block tool_use tool_uses tool_input call_blocks content_text
    result_content extract_message_text get has truthy openai_compatible_bridge.Prelude.Bytes.strip
    openai_compatible_bridge.Prelude.Bytes.rstrip_space
    openai_compatible_bridge.Prelude.Bytes.lstrip_space
    openai_compatible_bridge.Prelude.Bytes.is_space
conversation_test = refl

conversation_of-AreTurns_example :
    Ensures (λ (c : Conversation). AreTurns c.turns) (conversation_of builtins codec messages)
conversation_of-AreTurns_example = conversation_of-AreTurns builtins codec messages
