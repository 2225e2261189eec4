-- ===== src/Providers/Compatible/Answer.antt =====
-- What `generate` and `stream_chat` of openai_compatible_bridge/providers/openai_compatible.py make of
-- an answer.
use openai_compatible_bridge.Prelude.{
  ℕ, Option, none, some, String, List, [], ◌∷◌, if◌then◌else◌, leb, drop, take, str_eq,
}
use openai_compatible_bridge.Prelude.Result.{Result, ok, err, ◌>>=◌}
use openai_compatible_bridge.Prelude.Bytes.{codes, same_bytes, strip}
use openai_compatible_bridge.Json.{
  Value, Values, Fields, str, list, dict, cons, end, get, object, truthy,
}
use openai_compatible_bridge.Providers.Ollama.{Error, api, of_status, crash}
use openai_compatible_bridge.Providers.Ollama.Call.{
  Post, timed_out, request_failed, response, Open, open_timed_out, open_failed, opened,
}
use openai_compatible_bridge.Providers.Ollama.Reply.{Tokens}
use openai_compatible_bridge.Providers.Vertex.Reading.{
  Builtins, get_or, dict_of, or_empty, extract_message_text, coerce_openai_usage, meta_count,
}

pub record ChatResult : Type 0 where
  pub result_text : Option String
  pub result_tool_calls : Option Values
  pub result_finish_reason : Value
  pub result_usage : Tokens

pub record ChatDelta : Type 0 where
  pub chat_delta_text : String
  pub chat_delta_tool_calls : Option Values
  pub chat_delta_finish_reason : Value
  pub chat_delta_usage : Option Fields

-- A list that is not empty.
abbrev pub nonempty_list : Value → Option Values
nonempty_list (list (cons v vs)) = some (cons v vs)
nonempty_list _ = none

-- `value or other`
abbrev pub or_else : Value → Value → Value
or_else value other = if truthy value then value else other

abbrev pub first_choice_of : Value → Value
first_choice_of (list (cons choice rest)) = choice
first_choice_of _ = dict end

-- What a line of the stream is.
pub data Line : Type 0 where
  skipped : Line
  done : Line
  event : Fields → Line

module _ (builtins : Builtins) where
  unfoldable pub openai_error_code : ℕ → Fields → Error
  openai_error_code status e =
      if truthy (get "code" e)
      then api status (builtins.str_of (get "code" e))
      else if truthy (get "type" e)
      then api status (builtins.str_of (get "type" e))
      else of_status status

  -- `map_http_error_for_provider` for openai_compatible, from the JSON of the answer, if it has any.
  unfoldable pub map_http_error : ℕ → Option Value → Error
  map_http_error status none = of_status status
  map_http_error status (some payload) = elim (get_or "error" (dict end) (object payload)) [
    | dict e ↦ openai_error_code status e
    | str message ↦ of_status status
    | _ ↦ crash
  ]

  -- The three counts of `usage or {}`.
  unfoldable pub result_tokens : Value → Result Error Tokens
  result_tokens usage = dict_of (or_empty usage) >>= λ d.
      meta_count builtins "prompt_tokens" d >>= λ prompt.
      meta_count builtins "completion_tokens" d >>= λ completion.
      meta_count builtins "total_tokens" d >>= λ total.
      ok (record { prompt_tokens = prompt; completion_tokens = completion; total_tokens = total })

  -- The text and the reason of a choice, by whether it has tool calls.
  unfoldable pub choice_text : Option Values → Value → Value → Result Error (Option String × Value)
  choice_text none content finish =
      extract_message_text builtins (or_else content (str "")) >>= λ text.
      ok (some text, or_else finish (str "stop"))
  choice_text (some tool_calls) content finish = extract_message_text builtins content >>= λ text.
      ok ((if str_eq text "" then none else some text), or_else finish (str "tool_calls"))

  unfoldable pub result_of_choice : Value → Value → Result Error ChatResult
  result_of_choice usage first_choice = dict_of (or_empty first_choice) >>= λ choice.
      let message = object (get "message" choice) in
      let tool_calls = nonempty_list (get "tool_calls" message) in
      choice_text tool_calls (get "content" message) (get "finish_reason" choice) >>= λ out.
      result_tokens usage >>= λ tokens. ok (record {
        result_text = out.0;
        result_tool_calls = tool_calls;
        result_finish_reason = out.1;
        result_usage = tokens;
      })

  -- `generate`, from the JSON of the answer.
  unfoldable pub chat_result : Value → Result Error ChatResult
  chat_result payload = elim (get "choices" (object payload)) [
    | list (cons choice rest) ↦ result_of_choice (get "usage" (object payload)) choice
    | _ ↦ err (api 502 "bad_gateway")
  ]

  -- `generate`, from what the HTTP client does.
  unfoldable pub chat_answer : Post → Result Error ChatResult
  chat_answer timed_out = err (api 504 "timeout")
  chat_answer request_failed = err (api 502 "connection_error")
  chat_answer (response status payload) =
      if leb 400 status
      then err (map_http_error status payload)
      else elim payload [ none ↦ err (api 502 "bad_gateway") | some value ↦ chat_result value ]

  unfoldable pub delta_usage_of : Value → Result Error (Option Fields)
  delta_usage_of (dict usage) = coerce_openai_usage builtins (dict usage) >>= λ n. ok (some n)
  delta_usage_of _ = ok none

  -- What is yielded for an event.
  unfoldable pub chat_delta : Fields → Result Error ChatDelta
  chat_delta e =
      let choice = object (first_choice_of (get "choices" e)) in
      let delta = object (get "delta" choice) in
      extract_message_text builtins (get_or "content" (str "") delta) >>= λ text.
      delta_usage_of (get "usage" e) >>= λ usage. ok (record {
        chat_delta_text = text;
        chat_delta_tool_calls = nonempty_list (get "tool_calls" delta);
        chat_delta_finish_reason = get "finish_reason" choice;
        chat_delta_usage = usage;
      })

module _ (loads : List ℕ → Option Value) where
  abbrev pub data_of : List ℕ → Line
  data_of raw = elim (loads raw) [ some (dict d) ↦ event d | _ ↦ skipped ]

  -- `line.startswith("data:")`; an empty line does not.
  unfoldable pub read_line : List ℕ → Line
  read_line line =
      let raw = strip (drop 5 line) in
      if same_bytes (take 5 line) (codes "data:")
      then (if same_bytes raw (codes "[DONE]") then done else data_of raw)
      else skipped

-- `yield`, before what follows; the exception ends the stream.
abbrev pub yielded :
    Result Error ChatDelta
    → List ChatDelta × Result Error (Unit {0})
    → List ChatDelta × Result Error (Unit {0})
yielded (err x) rest = ([], err x)
yielded (ok delta) rest = (delta ∷ rest.0, rest.1)

module _ (builtins : Builtins) (loads : List ℕ → Option Value) where
  -- The loop over the lines: what it yields, and the exception that ends it, if any.
  unfoldable pub stream_lines : List (List ℕ) → List ChatDelta × Result Error (Unit {0})
  stream_lines [] = ([], ok tt)
  stream_lines (line ∷ lines) =
      let rest = stream_lines lines in
      elim (read_line loads line) [
        | skipped ↦ rest
        | done ↦ ([], ok tt)
        | event e ↦ yielded (chat_delta builtins e) rest
      ]

  -- `stream_chat`, from what entering the stream does.
  unfoldable pub stream_answer : Option Value → Open → List ChatDelta × Result Error (Unit {0})
  stream_answer payload open_timed_out = ([], err (api 504 "timeout"))
  stream_answer payload open_failed = ([], err (api 502 "connection_error"))
  stream_answer payload (opened status lines) =
      if leb 400 status
      then ([], err (map_http_error builtins status payload))
      else stream_lines lines
