-- ===== src/Providers/Compatible/Lines.antt =====
-- The stream of openai_compatible_bridge/providers/openai_compatible.py, described without its loop:
-- the events before the line that ends it, one delta for each.
use openai_compatible_bridge.Prelude.{
  ℕ, Bool, true, false, Option, none, some, List, [], ◌∷◌, ◌++◌, ◌≡◌, ◌≢◌, refl, ap, ◌∙◌, inl, inr,
  Bool-cases, take, drop, if◌then◌else◌,
}
use openai_compatible_bridge.Prelude.Result.{Result, ok}
use openai_compatible_bridge.Prelude.Bytes.{codes, same_bytes, strip}
use openai_compatible_bridge.Json.{Value, Fields, null, bool, int, float, str, list, dict}
use openai_compatible_bridge.Providers.Ollama.{Error}
use openai_compatible_bridge.Providers.Vertex.Reading.{Builtins}
use openai_compatible_bridge.Prelude.Texts.{same-equal, take-drop}
use openai_compatible_bridge.Providers.Compatible.Answer.{
  ChatDelta, Line, skipped, done, event, data_of, read_line, chat_delta, yielded, stream_lines,
}

-- One delta for each event, up to the first that raises.
pub deltas : Builtins → List Fields → List ChatDelta × Result Error (Unit {0})
deltas builtins [] = ([], ok tt)
deltas builtins (e ∷ es) = yielded (chat_delta builtins e) (deltas builtins es)

both_ways : {b : Bool} → b ≡ true → b ≡ false → ⊥
both_ways t f = cc

module _ (loads : List ℕ → Option Value) where
  -- A line that is neither the end of a stream nor an event of it, with or without `data:`.
  pub record IsOther (line : List ℕ) : Type 0 where
    pub no_end : (rest : List ℕ) → line ≡ codes "data:" ++ rest → strip rest ≢ codes "[DONE]"
    pub no_event :
        (rest : List ℕ) (d : Fields)
        → line ≡ codes "data:" ++ rest
        → loads (strip rest) ≢ some (dict d)

  -- The events that the lines hold.
  pub data IsStream : List (List ℕ) → List Fields → Type 0 where
    exhausted : IsStream [] []
    ended :
        (rest : List ℕ) (lines : List (List ℕ))
        → strip rest ≡ codes "[DONE]"
        → IsStream ((codes "data:" ++ rest) ∷ lines) []
    held :
        (rest : List ℕ) (d : Fields) (lines : List (List ℕ)) (es : List Fields)
        → strip rest ≢ codes "[DONE]"
        → loads (strip rest) ≡ some (dict d)
        → IsStream lines es
        → IsStream ((codes "data:" ++ rest) ∷ lines) (d ∷ es)
    passed :
        (line : List ℕ) (lines : List (List ℕ)) (es : List Fields)
        → IsOther line
        → IsStream lines es
        → IsStream (line ∷ lines) es

  -- What one line is read as.
  Reads : List ℕ → Line → Type 0
  Reads line skipped = IsOther line
  Reads line done = (rest : List ℕ) × (line ≡ codes "data:" ++ rest) × (strip rest ≡ codes "[DONE]")
  Reads line (event d) =
      (rest : List ℕ) × (line ≡ codes "data:" ++ rest)
      × (strip rest ≢ codes "[DONE]")
      × (loads (strip rest) ≡ some (dict d))

  -- An event or nothing, by the JSON that was read.
  IsData : Option Value → Line → Type 0
  IsData o skipped = (d : Fields) → o ≢ some (dict d)
  IsData o done = true ≡ false
  IsData o (event d) = o ≡ some (dict d)

  data_of-IsData : (raw : List ℕ) → IsData (loads raw) (data_of loads raw)
  unfolding IsData
  data_of-IsData raw = found (loads raw)
    where
      found : (o : Option Value) → IsData o (elim o [ some (dict d) ↦ event d | _ ↦ skipped ])
      found none = λ d. cc
      found (some (dict e)) = refl
      found (some null) = λ d. cc
      found (some (bool b)) = λ d. cc
      found (some (int n)) = λ d. cc
      found (some (float t)) = λ d. cc
      found (some (str t)) = λ d. cc
      found (some (list vs)) = λ d. cc

  -- The text behind `data:` of a line that has it.
  same_rest : (line rest : List ℕ) → line ≡ codes "data:" ++ rest → drop 5 line ≡ rest
  same_rest line rest e = ap (drop 5) e

  event-Reads :
      (line : List ℕ)
      → line ≡ codes "data:" ++ drop 5 line
      → strip (drop 5 line) ≢ codes "[DONE]"
      → (l : Line) → IsData (loads (strip (drop 5 line))) l
      → Reads line l
  unfolding Reads IsData
  event-Reads line e n skipped h = record {
    no_end = λ rest w. rw (same_rest line rest w) at n;
    no_event = λ rest d w. (rw (same_rest line rest w) at h) d;
  }
  event-Reads line e n done h = absurd cc
  event-Reads line e n (event d) h = (drop 5 line, e, n, h)

  read_line-Reads : (line : List ℕ) → Reads line (read_line loads line)
  unfolding read_line Reads
  read_line-Reads line = elim (Bool-cases (same_bytes (take 5 line) (codes "data:"))) [
    | inr m ↦
        let other = λ (rest : List ℕ) (w : line ≡ codes "data:" ++ rest).
          both_ways (ap (λ x. same_bytes (take 5 x) (codes "data:")) w) m in
        rw m (record {
          no_end = λ rest w. absurd (other rest w);
          no_event = λ rest d w. absurd (other rest w);
        })
    | inl m ↦
        let whole =
          take-drop 5 line
          ∙ ap (λ x. x ++ drop 5 line) (same-equal (take 5 line) (codes "data:") m) in
        rw m (marked whole)
  ]
    where
      marked :
          line ≡ codes "data:" ++ drop 5 line
          → Reads line (
              if same_bytes (strip (drop 5 line)) (codes "[DONE]")
              then done
              else data_of loads (strip (drop 5 line)))
      marked whole = elim (Bool-cases (same_bytes (strip (drop 5 line)) (codes "[DONE]"))) [
        | inl s ↦ rw s (drop 5 line, whole, same-equal _ (codes "[DONE]") s)
        | inr s ↦ rw s (
            event-Reads line whole (λ e. both_ways (ap (λ x. same_bytes x (codes "[DONE]")) e) s)
              (data_of loads (strip (drop 5 line))) (data_of-IsData (strip (drop 5 line))))
      ]

  module _ (builtins : Builtins) where
    -- The stream yields one delta for each of its events, in their order, up to the first delta that
    -- raises. The events are the JSON objects that stand behind `data:`, with spaces around them,
    -- before the first line that has the end marker of a stream there; every other line before that
    -- one is passed over, and the lines behind it are not read.
    pub stream_lines-events :
        (lines : List (List ℕ))
        → (es : List Fields) × IsStream lines es
          × (stream_lines builtins loads lines ≡ deltas builtins es)
    unfolding stream_lines deltas Reads
    stream_lines-events [] = ([], exhausted, refl)
    stream_lines-events (line ∷ lines) =
        step (read_line loads line) (read_line-Reads line) (stream_lines-events lines)
      where
        step :
            (l : Line)
            → Reads line l
            → ((es : List Fields) × IsStream lines es
                × (stream_lines builtins loads lines ≡ deltas builtins es))
            → (es : List Fields) × IsStream (line ∷ lines) es
              × ((elim l [
                | skipped ↦ stream_lines builtins loads lines
                | done ↦ ([], ok tt)
                | event e ↦ yielded (chat_delta builtins e) (stream_lines builtins loads lines)
              ])
                  ≡ deltas builtins es)
        step skipped other (es, h, e) = (es, passed line lines es other h, e)
        step done (rest, w, marked) h = ([], rw w (ended rest lines marked), refl)
        step (event d) (rest, w, unmarked, own) (es, h, e) = (
          d ∷ es,
          rw w (held rest d lines es unmarked own h),
          ap (yielded (chat_delta builtins d)) e,
        )
