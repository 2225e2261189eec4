-- ===== src/Providers/Ollama/Reply/Stream.antt =====
-- `OllamaChatClient.stream_chat` of openai_compatible_bridge/providers/ollama.py, from the first
-- line of the reply: what it yields for each line, and the exception that ends it, if any.
use openai_compatible_bridge.Prelude.{
  ℕ, ◌+◌, Option, none, some, List, [], ◌∷◌, ◌++◌, map, if◌then◌else◌, length, concat, is_empty,
}
use openai_compatible_bridge.Prelude.Result.{Result, ok, err, ◌>>=◌, ◌>>◌}
use openai_compatible_bridge.Json.{Value, Fields, null, dict, get, object, truthy}
use openai_compatible_bridge.Providers.Ollama.{Error, crash}
use openai_compatible_bridge.Providers.Think.{Stripper, new, Step, feed, finish}
use openai_compatible_bridge.Providers.Ollama.Reply.{
  content_text, raise_if_empty_after_reasoning_normalization, or_crash, Delta, Outside,
  validate_json_schema_output, tokens_of,
}

-- The local variables of `stream_chat`.
pub record Reader : Type 0 where
  pub think_stripper : Stripper
  pub raw_content_chars : ℕ
  pub normalized_content_chars : ℕ
  pub thinking_chars : ℕ
  pub buffered_schema_content : List (List ℕ)

abbrev pub fresh : Reader
fresh = record {
  think_stripper = new;
  raw_content_chars = 0;
  normalized_content_chars = 0;
  thinking_chars = 0;
  buffered_schema_content = [];
}

-- With a schema, the text of a line that is not the last is held back.
abbrev pub held_back : Option Fields → List ℕ → List (List ℕ) → List ℕ × List (List ℕ)
held_back none shown buffer = (shown, buffer)
held_back (some schema) shown buffer = ([], buffer ++ shown ∷ [])

-- The last line then yields all of it.
abbrev pub let_out : Option Fields → List ℕ → List (List ℕ) → List ℕ × List (List ℕ)
let_out none shown buffer = (shown, buffer)
let_out (some schema) shown buffer = (concat (buffer ++ shown ∷ []), buffer ++ shown ∷ [])

abbrev pub content_of : Fields → List ℕ
content_of data_ = content_text (get "content" (object (get "message" data_)))

abbrev pub thinking_of : Fields → List ℕ
thinking_of data_ = content_text (get "thinking" (object (get "message" data_)))

-- The counts of a line, added.
abbrev pub counted : Reader → Fields → Stripper → List ℕ → List (List ℕ) → Reader
counted reader data_ stripper shown buffer = record {
  think_stripper = stripper;
  raw_content_chars = reader.raw_content_chars + length (content_of data_);
  normalized_content_chars = reader.normalized_content_chars + length shown;
  thinking_chars = reader.thinking_chars + length (thinking_of data_);
  buffered_schema_content = buffer;
}

module _ (outside : Outside) (output_schema : Option Fields) where
  -- A line whose `done` is set.
  unfoldable pub last_line : Reader → Fields → Step → Result Error (Delta × Reader)
  last_line reader data_ fed =
      let finished = finish fed.1 in
      let shown = fed.0 ++ finished.0 in
      let out = let_out output_schema shown reader.buffered_schema_content in
      let reader' = counted reader data_ finished.1 shown out.1 in
      tokens_of outside data_ >>= λ tokens.
      validate_json_schema_output outside out.0 output_schema
      >> raise_if_empty_after_reasoning_normalization reader'.raw_content_chars
          reader'.normalized_content_chars reader'.thinking_chars tokens.completion_tokens
      >> ok (
        record {
          delta_text = out.0;
          delta_finish_reason = get "done_reason" data_;
          delta_usage = some tokens;
        },
        reader',
      )

  unfoldable pub next_line : Reader → Fields → Step → Result Error (Delta × Reader)
  next_line reader data_ fed =
      let out = held_back output_schema fed.0 reader.buffered_schema_content in
      ok (
        record { delta_text = out.0; delta_finish_reason = null; delta_usage = none },
        counted reader data_ fed.1 fed.0 out.1,
      )

  -- One turn of the `async for`, on the value of the line; without a dict, `data.get` raises.
  unfoldable pub stream_line : Reader → Value → Result Error (Delta × Reader)
  stream_line reader (dict data_) =
      or_crash (feed reader.think_stripper (content_of data_)) >>= λ fed.
      if truthy (get "done" data_) then last_line reader data_ fed else next_line reader data_ fed
  stream_line reader _ = err crash

  -- What is yielded, and how it ends.
  unfoldable pub stream_values : Reader → List Value → List Delta × Result Error Reader
  stream_values reader [] = ([], ok reader)
  stream_values reader (value ∷ values) = elim (stream_line reader value) [
    | err e ↦ ([], err e)
    | ok out ↦ let rest = stream_values out.1 values in (out.0 ∷ rest.0, rest.1)
  ]

  -- The lines that hold JSON; the others are passed over.
  unfoldable pub decoded : List (List ℕ) → List Value
  decoded [] = []
  decoded (line ∷ lines) =
      let rest = decoded lines in
      if is_empty line
      then rest
      else elim (outside.loads line) [ none ↦ rest | some value ↦ value ∷ rest ]

  unfoldable pub stream_chat : List (List ℕ) → List Delta × Result Error Reader
  stream_chat lines = stream_values fresh (decoded lines)

-- The text that a client puts together, if the stream does not fail.
abbrev pub joined : List Delta × Result Error Reader → Result Error (List ℕ)
joined stream = stream.1 >>= λ reader. ok (concat (map (λ (d : Delta). d.delta_text) stream.0))
