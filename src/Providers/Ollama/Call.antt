-- ===== src/Providers/Ollama/Call.antt =====
-- `OllamaChatClient.generate` and `stream_chat` of openai_compatible_bridge/providers/ollama.py as a
-- whole: the body of the request, and how the answer of the HTTP client becomes a result. What the
-- client does is an input; so is whether a given `timeout_seconds` is finite and positive.
use openai_compatible_bridge.Prelude.{
  ℕ, Bool, true, false, Option, none, some, String, List, [], if◌then◌else◌, leb,
}
use openai_compatible_bridge.Prelude.Result.{Result, ok, err, ◌>>=◌}
use openai_compatible_bridge.Json.{Value, Values, nil, cons, Fields, str, list, end, field, is_null}
use openai_compatible_bridge.Providers.Ollama.{
  Error, api, of_status, invalid_request, Think, Format, ollama_think_from_reasoning,
  ollama_format_from_response_format, json_schema_from_response_format,
}
use openai_compatible_bridge.Providers.Ollama.Reply.{Outside, Answer, Delta, generate}
use openai_compatible_bridge.Providers.Ollama.Reply.Stream.{Reader, stream_chat}

-- The arguments of a call; None is `null`.
pub record Ask : Type 0 where
  pub model : String
  pub messages : Values
  pub max_tokens : Value
  pub temperature : Value
  pub top_p : Value
  pub stop : Value
  pub response_format : Value
  pub reasoning_effort : Value
  pub reasoning : Value

-- The JSON body; the field of an `omit`, of empty options and of `no_format` is left out.
pub record Body : Type 0 where
  pub body_model : String
  pub body_messages : Values
  pub body_stream : Bool
  pub body_think : Think
  pub body_options : Fields
  pub body_format : Format

-- `if value is not None: options[key] = value`
abbrev pub with_option : String → Value → Fields → Fields
with_option key value options = if is_null value then options else field key value options

-- `[stop] if isinstance(stop, str) else list(stop)`
abbrev pub stop_list : Value → Value
stop_list (str s) = list (cons (str s) nil)
stop_list stop = stop

unfoldable pub options_of : Ask → Fields
options_of ask = with_option "num_predict" ask.max_tokens (
    with_option "temperature" ask.temperature
      (with_option "top_p" ask.top_p (with_option "stop" (stop_list ask.stop) end)))

-- What `self.http.post` does: it times out, it fails, or there is a response with this status,
-- whose JSON may be unreadable.
pub data Post : Type 0 where
  timed_out : Post
  request_failed : Post
  response : ℕ → Option Value → Post

-- What entering the stream does; the lines are those of the response.
pub data Open : Type 0 where
  open_timed_out : Open
  open_failed : Open
  opened : ℕ → List (List ℕ) → Open

module _ (outside : Outside) (check_schema : Fields → Bool) (ollama_think : Think) where
  -- The body, from the arguments.
  unfoldable pub body_of : Bool → Ask → Result Error Body
  body_of stream ask =
      ollama_think_from_reasoning ollama_think ask.reasoning_effort ask.reasoning >>= λ think.
      ollama_format_from_response_format check_schema ask.response_format >>= λ format. ok (record {
        body_model = ask.model;
        body_messages = ask.messages;
        body_stream = stream;
        body_think = think;
        body_options = options_of ask;
        body_format = format;
      })

  unfoldable pub answered : Option Fields → Post → Result Error Answer
  answered output_schema timed_out = err (api 504 "timeout")
  answered output_schema request_failed = err (api 502 "connection_error")
  answered output_schema (response status none) =
      if leb 400 status then err (of_status status) else err (api 502 "bad_gateway")
  answered output_schema (response status (some payload)) =
      if leb 400 status then err (of_status status) else generate outside output_schema payload

  -- `generate`; the second argument is None without a timeout, or whether it is finite and positive.
  unfoldable pub call_generate : Ask → Option Bool → (Body → Post) → Result Error Answer
  call_generate ask (some false) http = err invalid_request
  call_generate ask timeout http = body_of false ask >>= λ body.
      answered (json_schema_from_response_format ask.response_format) (http body)

  unfoldable pub streamed : Option Fields → Open → List Delta × Result Error Reader
  streamed output_schema open_timed_out = ([], err (api 504 "timeout"))
  streamed output_schema open_failed = ([], err (api 502 "connection_error"))
  streamed output_schema (opened status lines) =
      if leb 400 status
      then ([], err (of_status status))
      else stream_chat outside output_schema lines

  -- `stream_chat`
  unfoldable pub call_stream : Ask → (Body → Open) → List Delta × Result Error Reader
  call_stream ask http = elim (body_of true ask) [
    | err e ↦ ([], err e)
    | ok body ↦ streamed (json_schema_from_response_format ask.response_format) (http body)
  ]
