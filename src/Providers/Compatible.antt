-- ===== src/Providers/Compatible.antt =====
-- openai_compatible_bridge/providers/openai_compatible.py: the configuration of an alias, the request,
-- and what `generate` and `stream_chat` make of the answer; also the errors that
-- `map_http_error_for_provider` of openai_compatible_bridge/core/provider_adapter.py maps for it. The
-- environment, `urllib.parse.urlsplit`, `json.loads` and what the HTTP client does are parameters.
-- Texts of headers and of lines are lists of code points; what is lowered is ASCII.
pub mod Answer
mod Headers
mod Lines
mod Tests
use openai_compatible_bridge.Prelude.{
  ℕ, zero, suc, ◌-◌, Bool, true, false, not, ◌&&◌, ◌||◌, Option, none, some, String, List, [], ◌∷◌,
  ◌++◌, if◌then◌else◌, ◌==◌, ltb, leb, elem, is_empty, length,
}
use openai_compatible_bridge.Prelude.Result.{Result, ok, err, guard, ◌>>=◌, ◌>>◌}
use openai_compatible_bridge.Prelude.Bytes.{codes, same_bytes, lower_bytes, is_digit, rstrip, strip}
use openai_compatible_bridge.Json.{
  Value, Values, Fields, null, bool, str, list, dict, end, field, get, truthy,
}
use openai_compatible_bridge.Providers.Ollama.{Error, api, crash, is_one_of}
use openai_compatible_bridge.Providers.Ollama.Call.{with_option}

abbrev pub config_error : Error
config_error = api 503 "provider_config_error"

-- The characters of `_HEADER_NAME` that are neither letters nor digits.
abbrev pub header_marks : List ℕ
header_marks = codes "!#$%&'*+.^_`|~-"

unfoldable pub is_header_char : ℕ → Bool
is_header_char c =
    leb b'A' c && leb c b'Z' || leb b'a' c && leb c b'z' || is_digit c || elem c header_marks

unfoldable pub all_header_chars : List ℕ → Bool
all_header_chars [] = true
all_header_chars (c ∷ cs) = is_header_char c && all_header_chars cs

-- `_HEADER_NAME.fullmatch`
unfoldable pub is_header_name : List ℕ → Bool
is_header_name name = not (is_empty name) && leb (length name) 64 && all_header_chars name

-- `_RESERVED_HEADERS`
abbrev pub reserved_headers : List String
reserved_headers =
    "authorization" ∷ "content-type" ∷ "content-length" ∷ "host" ∷ "transfer-encoding" ∷ []

unfoldable pub is_reserved_name : String → Bool
is_reserved_name name = is_one_of (lower_bytes (codes name)) reserved_headers

-- `"\n" in value or "\r" in value`
abbrev pub breaks_line : String → Bool
breaks_line value = elem 10 (codes value) || elem 13 (codes value)

-- `len(extra)`
unfoldable pub size_of : Fields → ℕ
size_of end = 0
size_of (field key v d) = suc (size_of d)

-- The headers of a dict, or the exception at the first that is refused.
unfoldable pub checked_headers : Fields → Result Error Fields
checked_headers end = ok end
checked_headers (field name (str value) d) =
    guard (is_header_name (codes name)) config_error
    >> (guard (not (is_reserved_name name || breaks_line value)) config_error
        >> (checked_headers d >>= λ rest. ok (field name (str value) rest)))
checked_headers (field name value d) = err config_error

-- `_resolve_extra_headers`; MAX_EXTRA_HEADERS is 16.
unfoldable pub resolve_extra_headers : Fields → Result Error Fields
resolve_extra_headers cfg = elim (get "extra_headers" cfg) [
  | null ↦ ok end
  | dict extra ↦ guard (leb (size_of extra) 16) config_error >> checked_headers extra
  | _ ↦ err config_error
]

-- `(value or "").strip()`; what is truthy and no str has no `strip`.
unfoldable pub stripped : Value → Result Error (List ℕ)
stripped (str text) = ok (strip (codes text))
stripped value = if truthy value then err crash else ok []

-- `(value or "").strip() if isinstance(value, str) else ""`
abbrev pub stripped_str : Value → List ℕ
stripped_str (str text) = strip (codes text)
stripped_str _ = []

-- A text, unless it is empty.
abbrev pub nonempty_text : List ℕ → Option (List ℕ)
nonempty_text text = if is_empty text then none else some text

unfoldable pub checked_scheme : List ℕ → Option (List ℕ) → Result Error (List ℕ)
checked_scheme base_url none = err crash
checked_scheme base_url (some scheme) =
    guard (is_one_of (lower_bytes scheme) ("http" ∷ "https" ∷ [])) config_error >> ok base_url

-- The environment, and the scheme that `urlsplit` finds, or None where it raises.
pub record Surroundings : Type 0 where
  pub getenv : List ℕ → Option (List ℕ)
  pub scheme_of : List ℕ → Option (List ℕ)

module _ (outside : Surroundings) where
  -- `_resolve_base_url`
  unfoldable pub resolve_base_url : Fields → Result Error (List ℕ)
  resolve_base_url cfg = stripped (get "base_url" cfg) >>= λ text.
      let base_url = rstrip b'/' text in
      guard (not (is_empty base_url)) config_error
      >> checked_scheme base_url (outside.scheme_of base_url)

  unfoldable pub env_key : List ℕ → Option (List ℕ)
  env_key env_name =
      if is_empty env_name
      then none
      else elim (outside.getenv env_name) [ none ↦ none | some v ↦ nonempty_text (strip v) ]

  -- `_resolve_api_key`
  unfoldable pub resolve_api_key : Fields → Option (List ℕ)
  resolve_api_key cfg =
      let direct = stripped_str (get "api_key" cfg) in
      if is_empty direct then env_key (stripped_str (get "api_key_env" cfg)) else some direct

-- A header of a request.
abbrev pub Header : Type 0
Header = List ℕ × List ℕ

-- `headers[name] = value`
unfoldable pub set_header : List ℕ → List ℕ → List Header → List Header
set_header name value [] = (name, value) ∷ []
set_header name value (h ∷ hs) =
    let rest = set_header name value hs in
    if same_bytes (h.0) name then (name, value) ∷ hs else h ∷ rest

-- `{**headers, **extra}`
unfoldable pub with_headers : List Header → Fields → List Header
with_headers headers end = headers
with_headers headers (field name (str value) d) =
    with_headers (set_header (codes name) (codes value) headers) d
with_headers headers (field name value d) = with_headers headers d

abbrev pub bearer : List ℕ → List ℕ
bearer key = codes "Bearer " ++ key

-- The headers of a request.
unfoldable pub request_headers : Option (List ℕ) → Fields → List Header
request_headers api_key extra =
    let headers = with_headers ((codes "Content-Type", codes "application/json") ∷ []) extra in
    elim api_key [
      | none ↦ headers
      | some key ↦ set_header (codes "Authorization") (bearer key) headers
    ]

-- The arguments of a call; None is `null`.
pub record ChatArguments : Type 0 where
  pub model : String
  pub messages : Values
  pub max_tokens : Value
  pub temperature : Value
  pub top_p : Value
  pub stop : Value
  pub response_format : Value
  pub tools : Value
  pub tool_choice : Value
  pub parallel_tool_calls : Value
  pub reasoning_effort : Value

-- `_build_request_body`
unfoldable pub build_request_body : ChatArguments → Bool → Fields
build_request_body a stream = field "model" (str a.model) (
    field "messages" (list a.messages) (
      field "stream" (bool stream) (
        with_option "max_tokens" a.max_tokens (
          with_option "temperature" a.temperature (
            with_option "top_p" a.top_p (
              with_option "stop" a.stop (
                with_option "response_format" a.response_format (
                  with_option "tools" a.tools (
                    with_option "tool_choice" a.tool_choice (
                      with_option "parallel_tool_calls" a.parallel_tool_calls
                        (with_option "reasoning_effort" a.reasoning_effort end)))))))))))

pub record ChatRequest : Type 0 where
  pub url : List ℕ
  pub headers : List Header
  pub body : Fields

-- The request of `generate` and of `stream_chat`, before it is sent.
unfoldable pub chat_request :
    Surroundings → Fields → ChatArguments → Bool → Result Error ChatRequest
chat_request outside cfg a stream = resolve_base_url outside cfg >>= λ base_url.
    resolve_extra_headers cfg >>= λ extra. ok (record {
      url = base_url ++ codes "/chat/completions";
      headers = request_headers (resolve_api_key outside cfg) extra;
      body = build_request_body a stream;
    })
