-- ===== src/Providers/Ollama/Reply.antt =====
-- The answers of openai_compatible_bridge/providers/ollama.py: what `generate` makes of the reply's
-- JSON, and `stream_chat` of its lines. What the code calls elsewhere is a parameter: `json.loads`
-- on a text, jsonschema's `validate`, and Python's `int()` on a value that is no int.
pub mod Stream
mod Held
mod Line
mod Join
mod Tests
use openai_compatible_bridge.Prelude.{
  ℕ, zero, suc, ◌+◌, Bool, true, false, not, ◌&&◌, ◌||◌, Option, none, some, String, List, [], ◌∷◌,
  ◌++◌, if◌then◌else◌, ◌==◌, ltb, length, concat,
}
use openai_compatible_bridge.Prelude.Int.{ℤ, pos, negsuc, ◌+ℤ◌}
use openai_compatible_bridge.Prelude.Result.{Result, ok, err, guard, ◌>>=◌, ◌>>◌}
use openai_compatible_bridge.Prelude.Bytes.{codes}
use openai_compatible_bridge.Json.{
  Value, Fields, null, bool, int, float, str, list, dict, end, get, object, truthy, is_dict,
}
use openai_compatible_bridge.Providers.Ollama.{Error, api, crash, dict_get}
use openai_compatible_bridge.Providers.Think.{Stripper, new, Step, feed, finish, strip_think_blocks}

-- `_content_text`
abbrev pub content_text : Value → List ℕ
content_text (str s) = codes s
content_text _ = []

abbrev pub is_zero : ℤ → Bool
is_zero (pos n) = n == 0
is_zero (negsuc n) = false

-- `_raise_if_empty_after_reasoning_normalization`
unfoldable pub raise_if_empty_after_reasoning_normalization :
    ℕ → ℕ → ℕ → ℤ → Result Error (Unit {0})
raise_if_empty_after_reasoning_normalization raw_chars normalized_chars thinking_chars
      completion_tokens =
    if ltb 0 normalized_chars
    then ok tt
    else if raw_chars == 0 && thinking_chars == 0 && is_zero completion_tokens
    then ok tt
    else err (api 502 "empty_content_after_think_strip")

-- A step of the filter always has a result (`Think.Feed.strip_think_blocks-visible`).
abbrev pub or_crash {ℓ} : {A : Type ℓ} → Option A → Result Error A
or_crash none = err crash
or_crash (some a) = ok a

-- `_normalize_ollama_message_content`, on the texts `content` and `thinking` of the message.
unfoldable pub normalize_content : List ℕ → ℕ → ℤ → Result Error (List ℕ)
normalize_content content thinking_chars completion_tokens =
    or_crash (strip_think_blocks content) >>= λ normalized.
    raise_if_empty_after_reasoning_normalization (length content) (length normalized) thinking_chars
      completion_tokens
    >> ok normalized

unfoldable pub normalize_ollama_message_content : Fields → ℤ → Result Error (List ℕ)
normalize_ollama_message_content message completion_tokens =
    normalize_content (content_text (get "content" message))
      (length (content_text (get "thinking" message))) completion_tokens

pub record Tokens : Type 0 where
  pub prompt_tokens : ℤ
  pub completion_tokens : ℤ
  pub total_tokens : ℤ

pub record Answer : Type 0 where
  pub text : List ℕ
  pub finish_reason : Value
  pub usage : Tokens

pub record Delta : Type 0 where
  pub delta_text : List ℕ
  pub delta_finish_reason : Value
  pub delta_usage : Option Tokens

-- `json.loads` of a text, or None where it raises; whether the value satisfies the schema; `int()`
-- of a value, or None where it raises.
pub record Outside : Type 0 where
  pub loads : List ℕ → Option Value
  pub is_valid : Fields → Value → Bool
  pub int_of : Value → Option ℤ

module _ (outside : Outside) where
  unfoldable pub check_parsed : Fields → Option Value → Result Error (Unit {0})
  check_parsed schema none = err (api 502 "invalid_schema_output")
  check_parsed schema (some parsed) =
      guard (outside.is_valid schema parsed) (api 502 "invalid_schema_output")

  -- `_validate_json_schema_output`
  unfoldable pub validate_json_schema_output : List ℕ → Option Fields → Result Error (Unit {0})
  validate_json_schema_output content none = ok tt
  validate_json_schema_output content (some schema) = check_parsed schema (outside.loads content)

  -- `int(data.get(key, 0) or 0)`
  unfoldable pub token_count : String → Fields → Result Error ℤ
  token_count key data_ =
      let value = get key data_ in
      if truthy value then or_crash (outside.int_of value) else ok (pos 0)

  unfoldable pub tokens_of : Fields → Result Error Tokens
  tokens_of data_ = token_count "prompt_eval_count" data_ >>= λ prompt.
      token_count "eval_count" data_ >>= λ completion. ok (record {
        prompt_tokens = prompt;
        completion_tokens = completion;
        total_tokens = prompt +ℤ completion;
      })

  -- The reply to a content that is already taken out of its message.
  unfoldable pub answer_text : Option Fields → List ℕ → ℕ → ℤ → Result Error (List ℕ)
  answer_text output_schema content thinking_chars completion_tokens =
      normalize_content content thinking_chars completion_tokens >>= λ normalized.
      validate_json_schema_output normalized output_schema >> ok normalized

  -- What `generate` makes of `resp.json()`; a reply that is no dict has no `get`.
  unfoldable pub generate : Option Fields → Value → Result Error Answer
  generate output_schema (dict data_) =
      let message = object (get "message" data_) in
      tokens_of data_ >>= λ tokens.
      answer_text output_schema (content_text (get "content" message))
        (length (content_text (get "thinking" message))) tokens.completion_tokens
      >>= λ text. ok (record {
        text = text;
        finish_reason =
            (if truthy (get "done_reason" data_) then get "done_reason" data_ else str "stop");
        usage = tokens;
      })
  generate output_schema _ = err crash
