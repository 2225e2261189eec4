-- ===== src/Ingress/Stream.antt =====
-- `AnthropicStreamState` of openai_compatible_bridge/anthropic_ingress.py: it turns the events of a
-- provider's stream into those of the Anthropic format. An event is kept as its payload, without
-- the framing of `sse_event`. The two built-ins that the code applies to any value are parameters.
mod Protocol
mod Tests
use Prim.Native.String.{◌++◌ as text_append}
use openai_compatible_bridge.Prelude.{
  ℕ, zero, suc, ◌+◌, ◌/◌, Bool, true, false, not, ◌&&◌, Option, none, some, String, List, [], ◌∷◌,
  ◌++◌, if◌then◌else◌, length, str_eq,
}
use openai_compatible_bridge.Prelude.Int.{ℤ, pos, ltb_ℤ, leb_ℤ}
use openai_compatible_bridge.Prelude.Maybe.{◌>>=◌}
use openai_compatible_bridge.Prelude.Bytes.{codes}
use openai_compatible_bridge.Json.{
  Value, Fields, null, str, dict, get, has, object, truthy, is_null, is_text, is_dict,
}

pub data Block : Type 0 where
  text_block : Block
  tool_use : String → String → Block

pub data StopReason : Type 0 where
  end_turn : StopReason
  tool_use_reason : StopReason
  max_tokens : StopReason

pub data Sse : Type 0 where
  message_start : Sse
  content_block_start : ℕ → Block → Sse
  text_delta : ℕ → String → Sse
  input_json_delta : ℕ → String → Sse
  content_block_stop : ℕ → Sse
  message_delta : StopReason → ℤ → ℤ → Sse
  message_stop : Sse

-- An entry of `tool_buffers`.
pub record Buffer : Type 0 where
  pub id : String
  pub name : String
  pub arguments : String

abbrev pub empty_buffer : Buffer
empty_buffer = record { id = ""; name = ""; arguments = "" }

-- `tool_buffers`, with its keys in ascending order; they are only read in that order.
abbrev pub Buffers : Type 0
Buffers = List (ℤ × Buffer)

-- An event of a provider's stream; without a value, `finish_reason` and `usage` are null.
pub record ProviderEvent : Type 0 where
  pub delta_text : String
  pub delta_tool_calls : List Value
  pub finish_reason : Value
  pub usage : Value

pub record StreamState : Type 0 where
  pub started : Bool
  pub text_open : Bool
  pub text_chars : ℕ
  pub tool_buffers : Buffers
  pub finish_reason : Value
  pub usage : Value
  pub saw_event : Bool

-- `__init__`
abbrev pub new_stream_state : StreamState
new_stream_state = record {
  started = false;
  text_open = false;
  text_chars = 0;
  tool_buffers = [];
  finish_reason = null;
  usage = null;
  saw_event = false;
}

-- `_ensure_start`: what it returns, and the flag it sets.
unfoldable pub ensure_start : Bool → List Sse
ensure_start true = []
ensure_start false = message_start ∷ content_block_start 0 text_block ∷ []

-- `setdefault(key, …)`, and a change of the entry.
unfoldable pub change_buffer : ℤ → (Buffer → Buffer) → Buffers → Buffers
change_buffer key f [] = (key, f empty_buffer) ∷ []
change_buffer key f (b ∷ bs) =
    let rest = change_buffer key f bs in
    if ltb_ℤ key b.0
    then (key, f empty_buffer) ∷ b ∷ bs
    else if ltb_ℤ b.0 key
    then b ∷ rest
    else (key, f b.1) ∷ bs

abbrev pub is_text_delta : ProviderEvent → Bool
is_text_delta event = not (str_eq event.delta_text "")

-- `int(value)`, or None where it raises; `str(value)` of a value that is no text.
pub record Builtins : Type 0 where
  pub int_of : Value → Option ℤ
  pub str_of : Value → String

module _ (builtins : Builtins) where
  abbrev pub text_or : Value → String
  text_or (str s) = s
  text_or v = builtins.str_of v

  abbrev pub key_or : ℕ → Option ℤ → ℤ
  key_or position none = pos position
  key_or position (some key) = key

  -- The key of a call; without an `index`, or with one that is no number, its position. (An infinite
  -- float, on which `int` raises an OverflowError, is left out.)
  unfoldable pub key_of : ℕ → Fields → ℤ
  key_of position call =
      if has "index" call
      then key_or position (builtins.int_of (get "index" call))
      else pos position

  abbrev pub added : Value → String → String
  added (str args) old = text_append old args
  added _ old = old

  -- What a call changes in its buffer.
  unfoldable pub take_call : Fields → Buffer → Buffer
  take_call call buf =
      let fn = object (get "function" call) in
      record {
        id = (if truthy (get "id" call) then text_or (get "id" call) else buf.id);
        name = (if truthy (get "name" fn) then text_or (get "name" fn) else buf.name);
        arguments = added (get "arguments" fn) buf.arguments;
      }

  -- The `for` loop over `delta_tool_calls`, from a position on.
  unfoldable pub take_calls : ℕ → List Value → Buffers → Buffers
  take_calls position [] buffers = buffers
  take_calls position (dict call ∷ calls) buffers =
      take_calls (suc position) calls
        (change_buffer (key_of position call) (take_call call) buffers)
  take_calls position (_ ∷ calls) buffers = take_calls (suc position) calls buffers

  -- `feed`
  unfoldable pub feed : StreamState → ProviderEvent → List Sse × StreamState
  feed s event =
      let start = ensure_start s.started in
      let has_text = is_text_delta event in
      (
        start ++ (if has_text then text_delta 0 event.delta_text ∷ [] else []),
        record {
          started = true;
          text_open = (if has_text then true else s.text_open);
          text_chars = s.text_chars + length (codes event.delta_text);
          tool_buffers = take_calls 0 event.delta_tool_calls s.tool_buffers;
          finish_reason =
              (if is_null event.finish_reason then s.finish_reason else event.finish_reason);
          usage = (if is_dict event.usage then event.usage else s.usage);
          saw_event = true;
        },
      )

  -- The block of a buffer. Its arguments are sent as they came; the code parses them too, and uses
  -- the result for nothing.
  unfoldable pub tool_block : (ℤ → String) → ℕ → ℤ × Buffer → List Sse
  tool_block toolu_stream index b =
      content_block_start index
        (tool_use (if str_eq b.1.id "" then toolu_stream b.0 else b.1.id) b.1.name)
      ∷ input_json_delta index b.1.arguments
      ∷ content_block_stop index
      ∷ []

  unfoldable pub tool_blocks : (ℤ → String) → ℕ → Buffers → List Sse
  tool_blocks toolu_stream index [] = []
  tool_blocks toolu_stream index (b ∷ bs) =
      tool_block toolu_stream index b ++ tool_blocks toolu_stream (suc index) bs

  unfoldable pub stop_reason_of : Value → StopReason
  stop_reason_of reason =
      if is_text "tool_calls" reason
      then tool_use_reason
      else if is_text "length" reason
      then max_tokens
      else end_turn

  -- `int(self.usage.get(key, 0) or 0)`
  unfoldable pub usage_count : String → Fields → Option ℤ
  usage_count key usage =
      if truthy (get key usage) then builtins.int_of (get key usage) else some (pos 0)

  -- The counts of the usage, or an estimate from the texts; None where `int` raises.
  unfoldable pub token_counts : Value → ℕ → String → Option (ℤ × ℤ)
  token_counts (dict usage) prompt_tokens completion_text =
      usage_count "prompt_tokens" usage >>= λ input.
      usage_count "completion_tokens" usage >>= λ output. some (input, output)
  token_counts _ prompt_tokens completion_text = some (
    pos prompt_tokens,
    pos (if str_eq completion_text "" then 0 else (length (codes completion_text) + 3) / 4),
  )

  -- `finish`; `toolu_stream` is the text f"toolu_stream_{key}".
  unfoldable pub finish : (ℤ → String) → StreamState → ℕ → String → Option (List Sse)
  finish toolu_stream s prompt_tokens completion_text =
      token_counts s.usage prompt_tokens completion_text >>= λ counts. some (
        ensure_start s.started
        ++ (if s.text_open then content_block_stop 0 ∷ [] else [])
        ++ tool_blocks toolu_stream 1 s.tool_buffers
        ++ message_delta (stop_reason_of s.finish_reason) counts.0 counts.1 ∷ message_stop ∷ [])

  -- Every `feed`, and the state afterwards.
  unfoldable pub feed_all : StreamState → List ProviderEvent → List Sse × StreamState
  feed_all s [] = ([], s)
  feed_all s (event ∷ events) =
      let out = feed s event in let rest = feed_all out.1 events in (out.0 ++ rest.0, rest.1)

  -- A stream that ends well, as the generator of `_anthropic_stream` yields it.
  unfoldable pub stream : (ℤ → String) → List ProviderEvent → ℕ → String → Option (List Sse)
  stream toolu_stream events prompt_tokens completion_text =
      let fed = feed_all new_stream_state events in
      finish toolu_stream fed.1 prompt_tokens completion_text >>= λ ending. some (fed.0 ++ ending)
