-- ===== src/Providers/Ollama/Reply/Join.antt =====
-- The stream and the single reply agree: the deltas, put together, are the text that `generate`
-- returns for the same message in one piece.
use openai_compatible_bridge.Prelude.{
  ℕ, ◌+◌, true, Option, none, some, List, [], ◌∷◌, ◌++◌, map, All, length, concat, ◌≡◌, refl, sym,
  ap, ◌∙◌, arith,
}
use openai_compatible_bridge.Prelude.Maybe.{◌>>=◌ as then_maybe}
use openai_compatible_bridge.Prelude.Int.{ℤ}
use openai_compatible_bridge.Prelude.Result.{Result, ok, err, ◌>>=◌, ◌>>◌}
use openai_compatible_bridge.Json.{Fields, dict, get, truthy}
use openai_compatible_bridge.Providers.Ollama.{Error}
use openai_compatible_bridge.Providers.Think.{
  new, Step, finish, feed_all, shown, strip_think_blocks,
}
use openai_compatible_bridge.Providers.Think.Feed.{shown-strip_think_blocks}
use openai_compatible_bridge.Providers.Ollama.Reply.{
  raise_if_empty_after_reasoning_normalization, or_crash, Tokens, Answer, Outside,
  validate_json_schema_output, tokens_of, normalize_content, answer_text, generate,
}
use openai_compatible_bridge.Providers.Ollama.Reply.Stream.{
  fresh, content_of, thinking_of, stream_values, joined,
}
use openai_compatible_bridge.Providers.Ollama.Reply.Held.{
  raise_same, thinking_chars_of, IsPiece, shown_from, held, ended,
}
use openai_compatible_bridge.Providers.Ollama.Reply.Line.{joined_from}

shown_from-new :
    (pieces : List (List ℕ)) → shown_from new pieces ≡ or_crash (strip_think_blocks (concat pieces))
unfolding shown_from shown
shown_from-new pieces =
    at_once (feed_all new pieces) ∙ ap or_crash (shown-strip_think_blocks pieces)
  where
    at_once :
        (fed : Option Step)
        → (or_crash fed >>= λ out. ok (out.0 ++ (finish out.1).0))
          ≡ or_crash (then_maybe fed (λ out. some (out.0 ++ (finish out.1).0)))
    at_once none = refl
    at_once (some out) = refl

-- The value, if no exception is raised.
abbrev pub value {ℓ} : {A : Type ℓ} → Result Error A → Option A
value (ok a) = some a
value (err e) = none

check_last :
    (first : Result Error (Unit {0})) (text : List ℕ)
    → value (first >> ok tt >> ok text) ≡ value (first >> ok text)
check_last (ok done) text = refl
check_last (err e) text = refl

check_fails :
    (first : Result Error (Unit {0})) (e : Error) (text : List ℕ)
    → value (first >> err e >> ok text) ≡ none
check_fails (ok done) e text = refl
check_fails (err e') e text = refl

-- Two checks, in either order.
checks_swap :
    (first : List ℕ → Result Error (Unit {0})) (second : Result Error (Unit {0})) (text : List ℕ)
    → value (first text >> second >> ok text)
      ≡ value ((second >> ok text) >>= λ text. first text >> ok text)
checks_swap first (ok done) text = check_last (first text) text
checks_swap first (err e) text = check_fails (first text) e text

held-nil : (output_schema : Option Fields) → held output_schema [] ≡ []
held-nil none = refl
held-nil (some schema) = refl

same_text :
    (made : Result Error (List ℕ)) (f : List ℕ → Answer)
    → ((text : List ℕ) → (f text).text ≡ text)
    → value made ≡ value ((made >>= λ text. ok (f text)) >>= λ answer. ok answer.text)
same_text (ok text) f h = ap some (sym (h text))
same_text (err e) f h = refl

module _ (outside : Outside) (output_schema : Option Fields) where
  ended-answer_text :
      (content : List ℕ) (thinking : ℕ) (completion : ℤ)
      → value (
          or_crash (strip_think_blocks content)
          >>= ended outside output_schema fresh (length content) thinking completion)
        ≡ value (answer_text outside output_schema content thinking completion)
  unfolding answer_text normalize_content ended
  ended-answer_text content thinking completion = stripped (strip_think_blocks content)
    where
      stripped :
          (out : Option (List ℕ))
          → value (
              or_crash out
              >>= ended outside output_schema fresh (length content) thinking completion)
            ≡ value (
                (or_crash out >>= λ normalized.
                raise_if_empty_after_reasoning_normalization
                  (length content)
                  (length normalized)
                  thinking
                  completion
                >> ok normalized)
                >>= λ normalized.
                    validate_json_schema_output outside normalized output_schema >> ok normalized)
      stripped none = refl
      stripped (some out) = rw (held-nil output_schema) (
          rw
            (raise_same {raw = 0 + length content} {raw' = length content}
              {normalized = 0 + length out} {normalized' = length out} {thinking = 0 + thinking}
              {thinking' = thinking} completion (omega arith) (omega arith) (omega arith))
            (checks_swap (λ text. validate_json_schema_output outside text output_schema) _ out))

  joined-answer_text :
      (pieces : List Fields) (last : Fields) (tokens : Tokens)
      → All IsPiece pieces
      → truthy (get "done" last) ≡ true
      → tokens_of outside last ≡ ok tokens
      → value (joined (stream_values outside output_schema fresh (map dict (pieces ++ last ∷ []))))
        ≡ value (
            answer_text outside output_schema
              (concat (map content_of (pieces ++ last ∷ [])))
              (thinking_chars_of (pieces ++ last ∷ []))
              tokens.completion_tokens)
  joined-answer_text pieces last tokens p d t =
      ap value (joined_from outside output_schema last tokens fresh pieces p d t)
      ∙ ap
          (λ (shown : Result Error (List ℕ)). value (
            shown
            >>= ended outside output_schema fresh
                (length (concat (map content_of (pieces ++ last ∷ []))))
                (thinking_chars_of (pieces ++ last ∷ [])) tokens.completion_tokens))
          (shown_from-new (map content_of (pieces ++ last ∷ [])))
      ∙ ended-answer_text (concat (map content_of (pieces ++ last ∷ [])))
          (thinking_chars_of (pieces ++ last ∷ [])) tokens.completion_tokens

  -- The deltas of a stream, put together, are the text that `generate` returns for the same message
  -- in one piece with the same token counts; and one of the two fails exactly if the other does. The
  -- lines but the last have no `done`, and the counts of the last are numbers.
  pub stream_values-generate :
      (pieces : List Fields) (last whole : Fields) (tokens : Tokens)
      → All IsPiece pieces
      → truthy (get "done" last) ≡ true
      → tokens_of outside last ≡ ok tokens
      → content_of whole ≡ concat (map content_of (pieces ++ last ∷ []))
      → length (thinking_of whole) ≡ thinking_chars_of (pieces ++ last ∷ [])
      → tokens_of outside whole ≡ ok tokens
      → value (joined (stream_values outside output_schema fresh (map dict (pieces ++ last ∷ []))))
        ≡ value (generate outside output_schema (dict whole) >>= λ answer. ok answer.text)
  unfolding generate
  stream_values-generate pieces last whole tokens p d t c k u =
      joined-answer_text pieces last tokens p d t
      ∙ rw u (rw c (rw k (same_text _ _ (λ text. refl))))
