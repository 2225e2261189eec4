-- ===== src/Providers/Ollama/Reply/Held.antt =====
-- What a stream shows and holds back, and the checks at its end.
use openai_compatible_bridge.Prelude.{
  ℕ, ◌+◌, false, Option, none, some, List, [], ◌∷◌, ◌++◌, length, concat, ◌≡◌, refl, sym, ap, ◌∙◌,
}
use openai_compatible_bridge.Prelude.Maybe.{◌>>=◌ as then_maybe}
use openai_compatible_bridge.Prelude.Int.{ℤ}
use openai_compatible_bridge.Prelude.Result.{Result, ok, err, ◌>>=◌, ◌>>◌}
use openai_compatible_bridge.Json.{Fields, get, truthy}
use openai_compatible_bridge.Providers.Ollama.{Error}
use openai_compatible_bridge.Providers.Think.{
  Stripper, Step, shown_too, feed, finish, feed_all, shown,
}
use openai_compatible_bridge.Providers.Ollama.Reply.{
  raise_if_empty_after_reasoning_normalization, or_crash, Delta, Outside,
  validate_json_schema_output,
}
use openai_compatible_bridge.Providers.Ollama.Reply.Stream.{Reader, let_out, thinking_of}
use mathlib.Core.List.{append_assoc, append-nil}

-- The thinking of all lines, counted.
abbrev pub thinking_chars_of : List Fields → ℕ
thinking_chars_of [] = 0
thinking_chars_of (d ∷ ds) = length (thinking_of d) + thinking_chars_of ds

-- A line that is not the last.
abbrev pub IsPiece : Fields → Type 0
IsPiece data_ = truthy (get "done" data_) ≡ false

-- What the filter shows from one of its states on.
unfoldable pub shown_from : Stripper → List (List ℕ) → Result Error (List ℕ)
shown_from stripper pieces =
    or_crash (feed_all stripper pieces) >>= λ out. ok (out.0 ++ (finish out.1).0)

pub shown_from-feed :
    (stripper : Stripper) (piece : List ℕ) (pieces : List (List ℕ))
    → shown_from stripper (piece ∷ pieces) ≡ (
        or_crash (feed stripper piece) >>= λ fed.
        shown_from fed.1 pieces >>= λ shown. ok (fed.0 ++ shown))
unfolding shown_from feed_all
shown_from-feed stripper piece pieces = fed (feed stripper piece)
  where
    rest :
        (before : List ℕ) (out : Option Step)
        → (or_crash (shown_too before out) >>= λ out. ok (out.0 ++ (finish out.1).0)) ≡ (
            (or_crash out >>= λ out. ok (out.0 ++ (finish out.1).0)) >>= λ shown.
            ok (before ++ shown))
    rest before none = refl
    rest before (some out) = ap ok (append_assoc before out.0 (finish out.1).0)

    fed :
        (out : Option Step)
        → (or_crash (then_maybe out (λ fed. shown_too fed.0 (feed_all fed.1 pieces))) >>= λ out.
            ok (out.0 ++ (finish out.1).0))
          ≡ (or_crash out >>= λ fed. shown_from fed.1 pieces >>= λ shown. ok (fed.0 ++ shown))
    fed none = refl
    fed (some out) = rest out.0 (feed_all out.1 pieces)

-- What the lines held back before.
abbrev pub held : Option Fields → List (List ℕ) → List ℕ
held none buffer = []
held (some schema) buffer = concat buffer

pub concat-snoc : (xss : List (List ℕ)) (xs : List ℕ) → concat (xss ++ xs ∷ []) ≡ concat xss ++ xs
concat-snoc [] xs = append-nil xs
concat-snoc (ys ∷ xss) xs =
    ap (λ rest. ys ++ rest) (concat-snoc xss xs) ∙ sym (append_assoc ys _ xs)

pub let_out_text :
    (output_schema : Option Fields) (shown : List ℕ) (buffer : List (List ℕ))
    → (let_out output_schema shown buffer).0 ≡ held output_schema buffer ++ shown
let_out_text none shown buffer = refl
let_out_text (some schema) shown buffer = concat-snoc buffer shown

-- After two checks, a text and nothing more.
pub checks_append :
    (first second : Result Error (Unit {0})) (out : Delta × Reader)
    → ((first >> second >> ok out) >>= λ out. ok (out.0.delta_text ++ []))
      ≡ (first >> second >> ok out.0.delta_text)
checks_append (err e) second out = refl
checks_append (ok done) (err e) out = refl
checks_append (ok done) (ok done') out = ap ok (append-nil out.0.delta_text)

pub checks_before :
    (first second : Result Error (Unit {0})) (before text : List ℕ)
    → ((first >> second >> ok text) >>= λ text. ok (before ++ text))
      ≡ (first >> second >> ok (before ++ text))
checks_before (err e) second before text = refl
checks_before (ok done) (err e) before text = refl
checks_before (ok done) (ok done') before text = refl

pub raise_same :
    {raw raw' normalized normalized' thinking thinking' : ℕ} (completion : ℤ)
    → raw ≡ raw'
    → normalized ≡ normalized'
    → thinking ≡ thinking'
    → raise_if_empty_after_reasoning_normalization raw normalized thinking completion
      ≡ raise_if_empty_after_reasoning_normalization raw' normalized' thinking' completion
raise_same completion r n t = rw r (rw n (rw t refl))

module _ (outside : Outside) (output_schema : Option Fields) where
  -- What comes of all that is shown, at the end.
  unfoldable pub ended : Reader → ℕ → ℕ → ℤ → List ℕ → Result Error (List ℕ)
  ended reader content_chars thinking completion shown =
      let text = held output_schema reader.buffered_schema_content ++ shown in
      validate_json_schema_output outside text output_schema
      >> raise_if_empty_after_reasoning_normalization (reader.raw_content_chars + content_chars)
          (reader.normalized_content_chars + length shown) (reader.thinking_chars + thinking)
          completion
      >> ok text
