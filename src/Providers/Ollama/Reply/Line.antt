-- ===== src/Providers/Ollama/Reply/Line.antt =====
-- One line of a stream, and all lines: what they make, put together.
use openai_compatible_bridge.Prelude.{
  ℕ, ◌+◌, true, Option, none, some, List, [], ◌∷◌, ◌++◌, map, All, if◌then◌else◌, length,
  length-append, concat, ◌≡◌, refl, sym, ap, ◌∙◌, arith,
}
use openai_compatible_bridge.Prelude.Int.{ℤ}
use openai_compatible_bridge.Prelude.Result.{Result, ok, err, ◌>>=◌, ◌>>◌}
use openai_compatible_bridge.Json.{Value, Fields, dict, get, truthy}
use openai_compatible_bridge.Providers.Ollama.{Error}
use openai_compatible_bridge.Providers.Think.{Step, feed, finish, feed_all, shown}
use openai_compatible_bridge.Providers.Ollama.Reply.{
  or_crash, Tokens, Delta, Outside, validate_json_schema_output, tokens_of,
}
use openai_compatible_bridge.Providers.Ollama.Reply.Stream.{
  Reader, held_back, let_out, content_of, thinking_of, counted, last_line, next_line, stream_line,
  stream_values, joined,
}
use mathlib.Core.List.{append_assoc, append-nil}
use openai_compatible_bridge.Providers.Ollama.Reply.Held.{
  raise_same, thinking_chars_of, IsPiece, shown_from, shown_from-feed, held, concat-snoc,
  let_out_text, checks_append, checks_before, ended,
}

module _ (outside : Outside) (output_schema : Option Fields) where
  joined-stream_values :
      (reader : Reader) (value : Value) (values : List Value)
      → joined (stream_values outside output_schema reader (value ∷ values)) ≡ (
          stream_line outside output_schema reader value >>= λ out.
          joined (stream_values outside output_schema out.1 values) >>= λ text.
          ok (out.0.delta_text ++ text))
  unfolding stream_values
  joined-stream_values reader value values = line (stream_line outside output_schema reader value)
    where
      rest :
          (delta : Delta) (stream : List Delta × Result Error Reader)
          → joined (delta ∷ stream.0, stream.1)
            ≡ (joined stream >>= λ text. ok (delta.delta_text ++ text))
      rest delta (deltas, ok reader) = refl
      rest delta (deltas, err e) = refl

      line :
          (res : Result Error (Delta × Reader))
          → joined (elim res [
            | err e ↦ ([], err e)
            | ok out ↦
                let rest = stream_values outside output_schema out.1 values in
                (out.0 ∷ rest.0, rest.1)
          ])
            ≡ (res >>= λ out. joined (stream_values outside output_schema out.1 values) >>= λ text.
                ok (out.0.delta_text ++ text))
      line (err e) = refl
      line (ok out) = rest out.0 (stream_values outside output_schema out.1 values)

  let_out-held :
      (shown : List ℕ) (buffer : List (List ℕ))
      → (let_out output_schema shown buffer).0 ≡ held output_schema buffer ++ shown
  let_out-held shown buffer = let_out_text output_schema shown buffer

  last_joined :
      (reader : Reader) (last : Fields) (tokens : Tokens) (fed : Step)
      → tokens_of outside last ≡ ok tokens
      → (last_line outside output_schema reader last fed >>= λ out. ok (out.0.delta_text ++ []))
        ≡ ended outside output_schema reader
            (length (content_of last))
            (length (thinking_of last))
            tokens.completion_tokens
            (fed.0 ++ (finish fed.1).0)
  unfolding ended last_line
  last_joined reader last tokens fed t = rw t (
      rw (let_out-held (fed.0 ++ (finish fed.1).0) reader.buffered_schema_content) (
        checks_append
          (validate_json_schema_output outside
            (held output_schema reader.buffered_schema_content ++ (fed.0 ++ (finish fed.1).0))
            output_schema)
          _ _))

ended-next :
    (outside : Outside) (output_schema : Option Fields) (reader : Reader) (piece : Fields)
    (fed : Step) (content : List ℕ) (thinking : ℕ) (completion : ℤ) (shown : List ℕ)
    → (let out = held_back output_schema fed.0 reader.buffered_schema_content in
        ended outside output_schema
          (counted reader piece fed.1 fed.0 out.1)
          (length content)
          thinking
          completion
          shown
        >>= λ text. ok (out.0 ++ text))
      ≡ ended outside output_schema reader
          (length (content_of piece ++ content))
          (length (thinking_of piece) + thinking)
          completion
          (fed.0 ++ shown)
unfolding ended validate_json_schema_output
ended-next outside none reader piece fed content thinking completion shown =
    checks_before (ok tt) _ fed.0 shown
    ∙ ap (λ (check : Result Error (Unit {0})). check >> ok (fed.0 ++ shown))
        (raise_same completion (omega (arith, length-append (content_of piece) content))
          (omega (arith, length-append fed.0 shown)) (omega arith))
ended-next outside (some schema) reader piece fed content thinking completion shown =
    let text =
      ap (λ before. before ++ shown) (concat-snoc reader.buffered_schema_content fed.0)
      ∙ append_assoc (concat reader.buffered_schema_content) fed.0 shown in
    rw text (
      checks_before (validate_json_schema_output outside _ (some schema)) _ [] _
      ∙ ap
          (λ (check : Result Error (Unit {0})).
            validate_json_schema_output outside
              (concat reader.buffered_schema_content ++ (fed.0 ++ shown)) (some schema)
            >> check
            >> ok (concat reader.buffered_schema_content ++ (fed.0 ++ shown)))
          (raise_same completion (omega (arith, length-append (content_of piece) content))
            (omega (arith, length-append fed.0 shown)) (omega arith)))

ended-next_bind :
    (outside : Outside) (output_schema : Option Fields) (reader : Reader) (piece : Fields)
    (fed : Step) (content : List ℕ) (thinking : ℕ) (completion : ℤ) (shown : Result Error (List ℕ))
    → (let out = held_back output_schema fed.0 reader.buffered_schema_content in
        (shown
          >>= ended outside output_schema
              (counted reader piece fed.1 fed.0 out.1)
              (length content)
              thinking
              completion)
        >>= λ text. ok (out.0 ++ text))
      ≡ ((shown >>= λ shown. ok (fed.0 ++ shown))
          >>= ended outside output_schema reader
              (length (content_of piece ++ content))
              (length (thinking_of piece) + thinking)
              completion)
ended-next_bind outside output_schema reader piece fed content thinking completion (err e) = refl
ended-next_bind outside output_schema reader piece fed content thinking completion (ok shown) =
    ended-next outside output_schema reader piece fed content thinking completion shown

pub plus_zero : (n : ℕ) → n + 0 ≡ n
plus_zero n = omega arith

module _ (outside : Outside) (output_schema : Option Fields) (last : Fields) (tokens : Tokens) where
  ends :
      (reader : Reader) (fed : Option Step)
      → truthy (get "done" last) ≡ true
      → tokens_of outside last ≡ ok tokens
      → ((or_crash fed >>= λ fed.
            if truthy (get "done" last)
            then last_line outside output_schema reader last fed
            else next_line outside output_schema reader last fed)
          >>= λ out. ok (out.0.delta_text ++ []))
        ≡ ((or_crash fed >>= λ fed. shown_from fed.1 [] >>= λ shown. ok (fed.0 ++ shown))
            >>= ended outside output_schema reader
                (length (content_of last))
                (length (thinking_of last))
                tokens.completion_tokens)
  unfolding shown_from feed_all
  ends reader none d t = refl
  ends reader (some fed) d t = rw d (last_joined outside output_schema reader last tokens fed t)

  goes_on :
      (reader : Reader) (piece : Fields) (fed : Option Step) (values : List Value)
      (pieces : List (List ℕ)) (thinking : ℕ)
      → IsPiece piece
      → ((next : Reader)
          → joined (stream_values outside output_schema next values) ≡ (
              shown_from next.think_stripper pieces
              >>= ended outside output_schema next
                  (length (concat pieces))
                  thinking
                  tokens.completion_tokens))
      → ((or_crash fed >>= λ fed.
            if truthy (get "done" piece)
            then last_line outside output_schema reader piece fed
            else next_line outside output_schema reader piece fed)
          >>= λ out. joined (stream_values outside output_schema out.1 values) >>= λ text.
              ok (out.0.delta_text ++ text))
        ≡ ((or_crash fed >>= λ fed. shown_from fed.1 pieces >>= λ shown. ok (fed.0 ++ shown))
            >>= ended outside output_schema reader
                (length (content_of piece ++ concat pieces))
                (length (thinking_of piece) + thinking)
                tokens.completion_tokens)
  unfolding next_line
  goes_on reader piece none values pieces thinking p rest = refl
  goes_on reader piece (some fed) values pieces thinking p rest = rw p (
      rw (rest _) (
        ended-next_bind outside output_schema reader piece fed (concat pieces) thinking
          tokens.completion_tokens (shown_from fed.1 pieces)))

  pub joined_from :
      (reader : Reader) (pieces : List Fields)
      → All IsPiece pieces
      → truthy (get "done" last) ≡ true
      → tokens_of outside last ≡ ok tokens
      → joined (stream_values outside output_schema reader (map dict (pieces ++ last ∷ []))) ≡ (
          shown_from reader.think_stripper (map content_of (pieces ++ last ∷ []))
          >>= ended outside output_schema reader
              (length (concat (map content_of (pieces ++ last ∷ []))))
              (thinking_chars_of (pieces ++ last ∷ []))
              tokens.completion_tokens)
  unfolding stream_line stream_values
  joined_from reader [] p d t = rw (append-nil (content_of last)) (
      rw (plus_zero (length (thinking_of last))) (
        joined-stream_values outside output_schema reader (dict last) []
        ∙ ends reader (feed reader.think_stripper (content_of last)) d t
        ∙ ap
            (λ (shown : Result Error (List ℕ)).
              shown
              >>= ended outside output_schema reader (length (content_of last))
                  (length (thinking_of last)) tokens.completion_tokens)
            (sym (shown_from-feed reader.think_stripper (content_of last) []))))
  joined_from reader (piece ∷ pieces) p d t =
      joined-stream_values outside output_schema reader (dict piece)
        (map dict (pieces ++ last ∷ []))
      ∙ goes_on reader piece (feed reader.think_stripper (content_of piece))
          (map dict (pieces ++ last ∷ [])) (map content_of (pieces ++ last ∷ []))
          (thinking_chars_of (pieces ++ last ∷ [])) p.0 (λ next. joined_from next pieces p.1 d t)
      ∙ ap
          (λ (shown : Result Error (List ℕ)).
            shown
            >>= ended outside output_schema reader
                (length (content_of piece ++ concat (map content_of (pieces ++ last ∷ []))))
                (thinking_chars_of (piece ∷ pieces ++ last ∷ [])) tokens.completion_tokens)
          (sym (
            shown_from-feed reader.think_stripper (content_of piece)
              (map content_of (pieces ++ last ∷ []))))
