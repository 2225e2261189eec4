-- ===== src/Providers/Ollama/Reply/Tests.antt =====
-- A stream of three lines, and the same reply in one piece.
use openai_compatible_bridge.Prelude.{true, Option, none, some, [], ◌∷◌, map, ◌≡◌, refl, String}
use openai_compatible_bridge.Prelude.Int.{ℤ, pos, ◌+ℤ◌}
use openai_compatible_bridge.Prelude.Result.{ok, ◌>>=◌}
use openai_compatible_bridge.Json.{
  Value, Fields, null, bool, int, str, dict, end, field, get, truthy,
}
use openai_compatible_bridge.Providers.Ollama.Reply.{
  Tokens, Outside, generate, tokens_of, token_count,
}
use openai_compatible_bridge.Providers.Ollama.Reply.Stream.{fresh, stream_values, joined}
use openai_compatible_bridge.Providers.Ollama.Reply.Join.{stream_values-generate, value}

abbrev int_value : Value → Option ℤ
int_value (int n) = some n
int_value _ = none

abbrev outside : Outside
outside = record { loads = λ text. some null; is_valid = λ schema parsed. true; int_of = int_value }

abbrev line : String → Fields → Fields
line text rest = field "message" (dict (field "content" (str text) end)) rest

abbrev counts : Fields
counts = field "done" (bool true) (field "eval_count" (int (pos 5)) end)

abbrev tokens : Tokens
tokens = record { prompt_tokens = pos 0; completion_tokens = pos 5; total_tokens = pos 0 +ℤ pos 5 }

abbrev schema : Option Fields
schema = some (field "type" (str "object") end)

stream_values-generate_example :
    value (
      joined (
        stream_values outside schema fresh
          (map dict (line "{<thi" end ∷ line "nk>hm</think>" end ∷ line "}" counts ∷ []))))
    ≡ value (
        generate outside schema (dict (line "{<think>hm</think>}" counts)) >>= λ answer.
        ok answer.text)
unfolding get truthy tokens_of token_count
stream_values-generate_example =
    stream_values-generate outside schema (line "{<thi" end ∷ line "nk>hm</think>" end ∷ [])
      (line "}" counts) (line "{<think>hm</think>}" counts) tokens (refl, (refl, tt)) refl refl refl
      refl refl
