-- ===== src/Providers/Ollama/Valid.antt =====
-- An answer that is returned satisfies the schema that was asked for.
use openai_compatible_bridge.Prelude.{
  ℕ, Bool, true, false, Option, none, some, List, leb, ◌≡◌, refl, length, by_branches,
}
use openai_compatible_bridge.Prelude.Result.{
  Result, guard, ◌>>=◌, Ensures, Ensures-bind, Ensures-then,
}
use openai_compatible_bridge.Prelude.Int.{ℤ}
use openai_compatible_bridge.Json.{
  Value, Fields, null, bool, int, float, str, dict, list, get, object,
}
use openai_compatible_bridge.Providers.Ollama.{Error, api, Think, json_schema_from_response_format}
use openai_compatible_bridge.Providers.Ollama.Reply.{
  Outside, Answer, generate, check_parsed, validate_json_schema_output, answer_text,
  normalize_content, tokens_of, content_text,
}
use openai_compatible_bridge.Providers.Ollama.Call.{
  Ask, Body, Post, timed_out, request_failed, response, body_of, answered, call_generate,
}

module _ (outside : Outside) where
  abbrev pub Satisfies : Option Fields → List ℕ → Type 0
  Satisfies none text = Unit
  Satisfies (some schema) text =
      (parsed : Value) × (outside.loads text ≡ some parsed)
      × (outside.is_valid schema parsed ≡ true)

  check_parsed-valid :
      (schema : Fields) (text : List ℕ) (parsed : Option Value)
      → outside.loads text ≡ parsed
      → Ensures (λ done. Satisfies (some schema) text) (check_parsed outside schema parsed)
  unfolding check_parsed
  check_parsed-valid schema text none e = tt
  check_parsed-valid schema text (some parsed) e = valid (outside.is_valid schema parsed) refl
    where
      valid :
          (b : Bool)
          → outside.is_valid schema parsed ≡ b
          → Ensures
              (λ done. Satisfies (some schema) text)
              (guard b (api 502 "invalid_schema_output"))
      valid true v = (parsed, e, v)
      valid false v = tt

  validate-Satisfies :
      (output_schema : Option Fields) (text : List ℕ)
      → Ensures
          (λ done. Satisfies output_schema text)
          (validate_json_schema_output outside text output_schema)
  unfolding validate_json_schema_output
  validate-Satisfies none text = tt
  validate-Satisfies (some schema) text = check_parsed-valid schema text (outside.loads text) refl

  answer_text-Satisfies :
      (output_schema : Option Fields) (content : List ℕ) (thinking : ℕ) (completion : ℤ)
      → Ensures
          (Satisfies output_schema)
          (answer_text outside output_schema content thinking completion)
  unfolding answer_text
  answer_text-Satisfies schema content thinking completion =
      Ensures-then (Satisfies schema) (normalize_content content thinking completion) _ (λ text.
        Ensures-bind (λ done. Satisfies schema text) (Satisfies schema)
          (validate_json_schema_output outside text schema) _ (validate-Satisfies schema text)
          (λ done s. s))

  abbrev Answers : Option Fields → Result Error Answer → Type 0
  Answers schema = Ensures λ (answer : Answer). Satisfies schema answer.text

  generate-Satisfies :
      (output_schema : Option Fields) (payload : Value)
      → Answers output_schema (generate outside output_schema payload)
  unfolding generate
  generate-Satisfies schema (dict d) =
      Ensures-then (λ (answer : Answer). Satisfies schema answer.text) (tokens_of outside d) _
        (λ tokens.
          Ensures-bind (Satisfies schema) (λ (answer : Answer). Satisfies schema answer.text)
            (answer_text outside schema (content_text (get "content" (object (get "message" d))))
              (length (content_text (get "thinking" (object (get "message" d)))))
              tokens.completion_tokens)
            _ (answer_text-Satisfies schema _ _ _) (λ text s. s))
  generate-Satisfies schema null = tt
  generate-Satisfies schema (bool b) = tt
  generate-Satisfies schema (int n) = tt
  generate-Satisfies schema (float t) = tt
  generate-Satisfies schema (str t) = tt
  generate-Satisfies schema (list vs) = tt

  module _ (check_schema : Fields → Bool) (ollama_think : Think) where
    answered-Satisfies :
        (output_schema : Option Fields) (post : Post)
        → Answers output_schema (answered outside check_schema ollama_think output_schema post)
    unfolding answered
    answered-Satisfies schema timed_out = tt
    answered-Satisfies schema request_failed = tt
    answered-Satisfies schema (response status none) =
        by_branches (Answers schema) (leb 400 status) (λ b. tt) (λ b. tt)
    answered-Satisfies schema (response status (some payload)) =
        by_branches (Answers schema) (leb 400 status) (λ b. tt)
          (λ b. generate-Satisfies schema payload)

    sent-Satisfies :
        (ask : Ask) (http : Body → Post)
        → Answers (json_schema_from_response_format ask.response_format) (
            body_of outside check_schema ollama_think false ask >>= λ body.
            answered outside check_schema ollama_think
              (json_schema_from_response_format ask.response_format)
              (http body))
    sent-Satisfies ask http =
        Ensures-then
          (λ (answer : Answer).
            Satisfies (json_schema_from_response_format ask.response_format) answer.text)
          (body_of outside check_schema ollama_think false ask) _
          (λ body.
            answered-Satisfies (json_schema_from_response_format ask.response_format) (http body))

    -- Whatever the server sends, an answer that `generate` returns to a request with a JSON schema
    -- is a text that `json.loads` reads, as a value that the schema accepts.
    pub call_generate-Satisfies :
        (ask : Ask) (timeout : Option Bool) (http : Body → Post)
        → Ensures
            (λ (answer : Answer).
              Satisfies (json_schema_from_response_format ask.response_format) answer.text)
            (call_generate outside check_schema ollama_think ask timeout http)
    unfolding call_generate
    call_generate-Satisfies ask (some false) http = tt
    call_generate-Satisfies ask (some true) http = sent-Satisfies ask http
    call_generate-Satisfies ask none http = sent-Satisfies ask http
