-- ===== src/Metering/Stream.antt =====
-- _StreamUsage of openai_compatible_bridge/core/metered_http.py: what the lines of a streamed
-- response say about its usage. Python's own operations on text are a parameter.
pub mod Buffer
pub mod Discard
use text.Mathlib.Text.{starts_with}
use openai_compatible_bridge.Prelude.{
  ℕ, ◌+◌, ◌*◌, Bool, true, false, not, ◌&&◌, ◌||◌, Option, none, some, String, List, [], ◌∷◌, ◌++◌,
  if◌then◌else◌, is_empty, ltb, str_eq,
}
use openai_compatible_bridge.Prelude.Int.{ℤ, pos}
use openai_compatible_bridge.Json.{
  Value, null, bool, int, str, dict, Fields, end, field, get, has, is_null, object, count_of,
  is_text,
}
use openai_compatible_bridge.Usage.{NormalizedUsage, Endpoint, Provider, is_error}
use openai_compatible_bridge.Usage.Parsers.{observe_usage}

-- The operations of Python that the code calls. `encode` and `loads` may raise, which is none.
pub record Texts : Type 0 where
  pub len : String → ℕ
  pub encoded_size : String → Option ℕ
  pub strip : String → String
  pub lstrip : String → String
  pub without_first : ℕ → String → String
  pub join_lines : List String → String
  pub loads : String → Option Value

abbrev pub max_bytes : ℕ
max_bytes = 64 * 1024

pub record StreamUsage : Type 0 where
  pub endpoint : Endpoint
  pub provider : Provider
  pub last_usage : Option NormalizedUsage
  pub input_tokens : Option ℕ
  pub data_lines : List String
  pub buffered_bytes : ℕ
  pub invalid : Bool
  pub done : Bool

-- `__init__`
abbrev pub new_stream : Endpoint → Provider → StreamUsage
new_stream e p = record {
  endpoint = e;
  provider = p;
  last_usage = none;
  input_tokens = none;
  data_lines = [];
  buffered_bytes = 0;
  invalid = false;
  done = false;
}

-- The property `usage`.
unfoldable pub usage : StreamUsage → Option NormalizedUsage
usage s = if s.invalid then none else s.last_usage

-- `_discard`
unfoldable pub discard : StreamUsage → StreamUsage
discard s = record s { data_lines = []; buffered_bytes = 0; invalid = true }

-- The assignments to `_usage`, with and without the check behind it.
unfoldable pub observed : Value → StreamUsage → StreamUsage
observed payload s = record s { last_usage = observe_usage s.provider payload s.endpoint }

or_discard : StreamUsage → StreamUsage
or_discard s = elim (s.last_usage) [ none ↦ discard s | some u ↦ s ]

-- `{"usage": value}`
abbrev pub with_usage : Value → Value
with_usage v = dict (field "usage" v end)

abbrev pub value_of : Option ℕ → Value
value_of none = null
value_of (some n) = int (pos n)

-- `{"input_tokens": tokens, **usage}`
unfoldable pub merged : Option ℕ → Fields → Value
merged tokens d =
    dict (if has "input_tokens" d then d else field "input_tokens" (value_of tokens) d)

-- The branch of `_observe` for an event that ends an incomplete response.
pub observe_incomplete : Fields → StreamUsage → StreamUsage
observe_incomplete d s =
    let response = object (get "response" d) in
    if not (is_null (get "error" d))
      || (not (is_null (get "error" response))
          || not (is_text "incomplete" (get "status" response)))
    then discard s
    else or_discard (observed (with_usage (get "usage" response)) s)

-- Whether a value is a str that begins with "response.".
unfoldable pub is_response_event : Value → Bool
is_response_event (str t) = starts_with t "response."
is_response_event _ = false

unfoldable pub is_true : Value → Bool
is_true (bool b) = b
is_true _ = false

unfoldable pub has_usage_key : Fields → Bool
has_usage_key d =
    has "usage" d || (has "usageMetadata" d || (has "prompt_eval_count" d || has "eval_count" d))

-- The branches of `_observe` behind its error check.
unfoldable pub observe_event : Fields → StreamUsage → StreamUsage
observe_event d s =
    let event_type = get "type" d in
    if is_text "message_start" event_type
    then record s {
      input_tokens =
          count_of (get "input_tokens" (object (get "usage" (object (get "message" d)))));
      last_usage = none;
    }
    else if is_text "message_delta" event_type
    then observed (with_usage (merged s.input_tokens (object (get "usage" d)))) s
    else if is_text "response.completed" event_type
    then observed (dict d) s
    else if is_response_event event_type
    then s
    else if has "done" d
    then if is_true (get "done" d) then observed (dict d) s else s
    else if has_usage_key d
    then observed (dict d) s
    else s

-- `_observe`
unfoldable pub observe : Value → StreamUsage → StreamUsage
observe (dict d) s =
    if is_text "response.incomplete" (get "type" d)
    then observe_incomplete d s
    else if is_error d
    then discard s
    else observe_event d s
observe _ s = discard s

module _ (T : Texts) where
  -- `self._observe(json.loads(text))`; what raises is discarded by the caller.
  unfoldable pub observe_text : String → StreamUsage → StreamUsage
  observe_text text s = elim (T.loads text) [ none ↦ discard s | some v ↦ observe v s ]

  -- `finish`
  unfoldable pub finish : StreamUsage → StreamUsage
  finish s =
      if is_empty s.data_lines
      then s
      else observe_text (T.join_lines s.data_lines)
          (record s { data_lines = []; buffered_bytes = 0 })

  -- `data.removeprefix(" ")`
  unfoldable pub without_space : String → String
  without_space t = if starts_with t " " then T.without_first 1 t else t

  -- A data line that is no end mark.
  unfoldable pub append_data : String → Option ℕ → StreamUsage → StreamUsage
  append_data content none s = discard s
  append_data content (some size) s =
      if ltb max_bytes (s.buffered_bytes + (size + 1)) then discard s else record s {
        data_lines = s.data_lines ++ content ∷ [];
        buffered_bytes = s.buffered_bytes + (size + 1);
      }

  unfoldable pub feed_data : String → StreamUsage → StreamUsage
  feed_data content s =
      if str_eq (T.strip content) "[DONE]"
      then record (finish s) { done = true }
      else append_data content (T.encoded_size content) s

  -- `line.startswith((":", "event:", "id:", "retry:"))`
  unfoldable pub is_ignored : String → Bool
  is_ignored line =
      starts_with line ":"
      || (starts_with line "event:" || (starts_with line "id:" || starts_with line "retry:"))

  -- `_feed_line` for a line that is short enough.
  unfoldable pub feed_short : String → StreamUsage → StreamUsage
  feed_short line s =
      if str_eq line ""
      then finish s
      else if starts_with line "data:"
      then feed_data (without_space (T.without_first 5 line)) s
      else if is_ignored line
      then s
      else if starts_with (T.lstrip line) "{" || starts_with (T.lstrip line) "["
      then observe_text line (finish s)
      else discard s

  unfoldable pub feed_sized : String → Option ℕ → StreamUsage → StreamUsage
  feed_sized line none s = discard s
  feed_sized line (some size) s = if ltb max_bytes size then discard s else feed_short line s

  -- `feed_line`: a line that is too long is not encoded, and an observer that is invalid does nothing.
  unfoldable pub feed_line : String → StreamUsage → StreamUsage
  feed_line line s =
      if s.invalid
      then s
      else if ltb max_bytes (T.len line)
      then discard s
      else feed_sized line (T.encoded_size line) s

  -- The lines of a response, one by one.
  unfoldable pub feed_lines : List String → StreamUsage → StreamUsage
  feed_lines [] s = s
  feed_lines (line ∷ lines) s = feed_lines lines (feed_line line s)
