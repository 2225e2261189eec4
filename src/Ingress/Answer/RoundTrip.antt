-- ===== src/Ingress/Answer/RoundTrip.antt =====
-- An answer that comes back as part of the next request.
use openai_compatible_bridge.Prelude.{
  Bool, true, false, not, ◌||◌, Option, none, some, String, List, [], ◌∷◌, map, All, if◌then◌else◌,
  is_empty, str_eq, eq_iff, ◌≡◌, refl, sym, ap, ◌∙◌, Bool-cases, inl, inr,
}
use openai_compatible_bridge.Prelude.Int.{ℤ}
use openai_compatible_bridge.Prelude.Result.{Result, ok, err, Ensures-eq, ◌>>=◌}
use openai_compatible_bridge.Json.{
  Value, Values, nil, cons, Fields, str, dict, list, end, field, get, has, truthy, one_of,
}
use text.Mathlib.TextLemmas.{append-nil}
use openai_compatible_bridge.Ingress.Messages.{
  Error, ToolCall, assistant, text_part, call, is_nonempty, text_parts, tool_calls, Outside,
  tool_use_piece, block_piece, block_pieces, entries, content_messages, message_entries,
  all_entries, anthropic_messages_to_openai,
}
use openai_compatible_bridge.Ingress.Answer.{
  tool_use_block, Answer, parsed_args, call_with, call_block, call_blocks, with_text,
  openai_result_to_anthropic,
}

refuted : (b : Bool) → not b ≡ false → b ≡ true
refuted true h = refl
refuted false h = cc

-- A call as the providers' clients return it.
abbrev pub call_value : ToolCall → Value
call_value c = dict (
    field "id" (str c.id) (
      field "type" (str "function") (
        field "function"
          (dict (field "name" (str c.name) (field "arguments" (str c.arguments) end))) end)))

abbrev pub call_values : List ToolCall → Values
call_values [] = nil
call_values (c ∷ cs) = cons (call_value c) (call_values cs)

-- A result with its text, its calls, and whatever else it holds.
abbrev pub result_of : String → List ToolCall → Fields → Fields
result_of text calls rest =
    field "text" (str text) (field "tool_calls" (list (call_values calls)) rest)

-- The answer as a message of the next request.
abbrev pub next_messages : Answer → Value
next_messages answer =
    list
      (cons (dict (field "role" (str "assistant") (field "content" (list answer.content) end))) nil)

abbrev pub IsNamed : ToolCall → Type 0
IsNamed c = is_nonempty c.name ≡ true

module _ (outside : Outside) (int_of : Value → Option ℤ) where
  -- The call with its arguments written anew; arguments that are no object become an empty one.
  abbrev pub rewritten : ToolCall → ToolCall
  rewritten c = record c {
    arguments = outside.dumps (parsed_args outside int_of (str c.arguments));
  }

  blocks_of : List ToolCall → Values
  blocks_of [] = nil
  blocks_of (c ∷ cs) =
      cons (tool_use_block c.id c.name (parsed_args outside int_of (str c.arguments)))
        (blocks_of cs)

  call_blocks-call_values :
      (calls : List ToolCall)
      → call_blocks outside int_of (call_values calls) ≡ ok (blocks_of calls)
  unfolding call_blocks call_block call_with get has blocks_of
  call_blocks-call_values [] = refl
  call_blocks-call_values (c ∷ cs) = rw (call_blocks-call_values cs) refl

  block_pieces-blocks_of :
      (calls : List ToolCall)
      → All IsNamed calls
      → block_pieces outside "assistant" (blocks_of calls)
        ≡ ok (map (λ c. call (rewritten c)) calls)
  unfolding block_pieces block_piece tool_use_piece get has one_of blocks_of
  block_pieces-blocks_of [] n = refl
  block_pieces-blocks_of (c ∷ cs) n = rw n.0 (rw (block_pieces-blocks_of cs n.1) refl)

  texts-calls :
      (calls : List ToolCall)
      → (text_parts (map (λ c. call (rewritten c)) calls) ≡ [])
        × (tool_calls (map (λ c. call (rewritten c)) calls) ≡ map rewritten calls)
  texts-calls [] = (refl, refl)
  texts-calls (c ∷ cs) =
      let rest = texts-calls cs in (rest.0, ap (λ calls. rewritten c ∷ calls) rest.1)

  -- What the next request makes of the answer's text and calls; None without text beside calls.
  abbrev pub spoken : String → List ToolCall → Option String
  spoken text calls = if is_nonempty text || is_empty calls then some text else none

  entries-calls :
      (calls : List ToolCall)
      → entries outside "assistant" (map (λ c. call (rewritten c)) calls)
        ≡ assistant (spoken "" calls) (map rewritten calls) ∷ []
  unfolding entries
  entries-calls [] = refl
  entries-calls (c ∷ cs) = let rest = texts-calls cs in rw rest.0 (rw rest.1 refl)

  entries-text :
      (text : String) (calls : List ToolCall)
      → is_nonempty text ≡ true
      → entries outside "assistant" (text_part text ∷ map (λ c. call (rewritten c)) calls)
        ≡ assistant (some text) (map rewritten calls) ∷ []
  unfolding entries
  entries-text text calls h =
      let rest = texts-calls calls in rw rest.0 (rw rest.1 (rw (append-nil text) (rw h refl)))

  content_messages-answer :
      (text : String) (calls : List ToolCall)
      → All IsNamed calls
      → content_messages outside "assistant"
          (list (with_text outside int_of (str text) (blocks_of calls)))
        ≡ ok (assistant (spoken text calls) (map rewritten calls) ∷ [])
  unfolding content_messages truthy block_pieces block_piece get has
  content_messages-answer text calls n = elim (Bool-cases (is_nonempty text)) [
    | inl h ↦ rw h (rw (block_pieces-blocks_of calls n) (ap ok (entries-text text calls h)))
    | inr h ↦ rw h (
        rw (block_pieces-blocks_of calls n) (
          ap ok (
            entries-calls calls
            ∙ ap
                (λ text.
                  assistant (if is_empty calls then some text else none) (map rewritten calls) ∷ [])
                (sym ((eq_iff text "").0 (refuted (str_eq text "") h))))))
  ]

  content-answer :
      (made : Values) (stop_reason : String) (input output : Result Error ℤ) (answer : Answer)
      → (input >>= λ input. output >>= λ output. ok (record {
        content = made;
        stop_reason = stop_reason;
        input_tokens = input;
        output_tokens = output;
      }))
        ≡ ok answer
      → made ≡ answer.content
  content-answer made reason (ok i) (ok o) answer h =
      Ensures-eq (λ (answer : Answer). made ≡ answer.content) h refl
  content-answer made reason (ok i) (err e) answer h = cc
  content-answer made reason (err e) output answer h = cc

  -- What an answer holds comes back, when a client sends it as an assistant message of its next
  -- request: the same text, and the same calls in order, with their arguments written anew. The
  -- calls have names.
  pub openai_result_to_anthropic-anthropic_messages_to_openai :
      (text : String) (calls : List ToolCall) (rest : Fields) (answer : Answer)
      → All IsNamed calls
      → openai_result_to_anthropic outside int_of (result_of text calls rest) ≡ ok answer
      → anthropic_messages_to_openai outside (next_messages answer)
        ≡ ok (assistant (spoken text calls) (map rewritten calls) ∷ [])
  unfolding openai_result_to_anthropic get anthropic_messages_to_openai all_entries message_entries
  openai_result_to_anthropic-anthropic_messages_to_openai text calls rest answer n h =
      let made =
        content-answer (with_text outside int_of (str text) (blocks_of calls)) _ _ _ answer
          (rw (call_blocks-call_values calls) at h) in
      rw (← made) (rw (content_messages-answer text calls n) refl)
