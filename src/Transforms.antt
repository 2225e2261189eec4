-- ===== src/Transforms.antt =====
-- Conversions of answers in openai_compatible_bridge/core/transforms.py: the counts of a usage, the
-- reasons for an end, and the calls of a Google answer with their identifiers. int(), str() and
-- json.loads are parameters, and so are the texts
-- f"{base}_{suffix}" and f"call_{name}_{part_index}". The native parts that are kept for a later
-- request, with the limit on their bytes, are left out.
mod Fresh
mod Tests
pub mod Google
use openai_compatible_bridge.Prelude.{
  ℕ, zero, suc, ◌+◌, ◌==◌, Bool, true, false, not, ◌&&◌, ◌||◌, Option, none, some, String, List, [],
  ◌∷◌, ◌++◌, if◌then◌else◌, length, str_eq,
}
use openai_compatible_bridge.Prelude.Int.{ℤ, pos, pos_part}
use openai_compatible_bridge.Prelude.Maybe.{◌>>=◌}
use openai_compatible_bridge.Json.{
  Value, Values, nil, cons, Fields, null, bool, int, str, dict, list, end, field, get, has, truthy,
  object, count_of,
}

pub record Counts : Type 0 where
  pub prompt_tokens : ℕ
  pub completion_tokens : ℕ
  pub total_tokens : ℕ

pub record Outside : Type 0 where
  pub int_of : Value → Option ℤ
  pub str_of : Value → String
  pub loads : String → Option Value
  pub suffixed : String → ℕ → String
  pub call_of : String → ℕ → String

-- `call_id in used`
unfoldable pub is_used : String → List String → Bool
is_used id [] = false
is_used id (u ∷ used) = str_eq id u || is_used id used

abbrev pub mapped : List (String × String) → String → String
mapped [] reason = reason
mapped (m ∷ ms) reason = if str_eq m.0 reason then m.1 else mapped ms reason

-- The table of `_map_finish_reason`.
abbrev pub finish_reasons : List (String × String)
finish_reasons =
    ("end_turn", "stop")
    ∷ ("stop_sequence", "stop")
    ∷ ("completed", "stop")
    ∷ ("STOP", "stop")
    ∷ ("max_tokens", "length")
    ∷ ("max_output_tokens", "length")
    ∷ ("MAX_TOKENS", "length")
    ∷ ("length", "length")
    ∷ ("SAFETY", "content_filter")
    ∷ ("RECITATION", "content_filter")
    ∷ ("BLOCKLIST", "content_filter")
    ∷ ("PROHIBITED_CONTENT", "content_filter")
    ∷ ("SPII", "content_filter")
    ∷ ("MALFORMED_FUNCTION_CALL", "tool_calls")
    ∷ []

module _ (outside : Outside) where
  abbrev pub to_text : Value → String
  to_text (str s) = s
  to_text v = outside.str_of v

  -- `as_int`: max(0, int(value or 0)), or 0 where int raises.
  unfoldable pub as_int : Value → ℕ
  as_int value =
      if truthy value then elim (outside.int_of value) [ none ↦ 0 | some n ↦ pos_part n ] else 0

  -- `_usage`
  unfoldable pub usage_of : Value → Value → Value → Counts
  usage_of prompt completion total =
      let sum = as_int prompt + as_int completion in
      record {
        prompt_tokens = as_int prompt;
        completion_tokens = as_int completion;
        total_tokens = (if as_int total == 0 then sum else as_int total);
      }

  -- `_google_usage`, with the cached tokens if they are given.
  unfoldable pub google_usage : Value → Counts × Option ℕ
  google_usage usage =
      let d = object usage in
      (
        usage_of (get "promptTokenCount" d) (get "candidatesTokenCount" d)
            (get "totalTokenCount" d),
        count_of (get "cachedContentTokenCount" d),
      )

  -- `_map_finish_reason`
  unfoldable pub map_finish_reason : Value → Option String
  map_finish_reason null = none
  map_finish_reason reason = some (mapped finish_reasons (to_text reason))

  abbrev pub keyed : String → Value → Fields
  keyed key v = field key v end

  abbrev pub parsed_object : String → String → Option Value → Fields
  parsed_object key text none = keyed key (str text)
  parsed_object key text (some (dict d)) = d
  parsed_object key text (some v) = keyed key v

  -- `_google_json_object`
  unfoldable pub google_json_object : String → Value → Fields
  google_json_object key (dict d) = d
  google_json_object key (str s) = parsed_object key s (outside.loads s)
  google_json_object key null = end
  google_json_object key v = keyed key v

  -- The `while call_id in used` loop, from a suffix on; none when the fuel is spent.
  unfoldable pub next_id : ℕ → String → ℕ → String → List String → Option String
  next_id zero base suffix id used = none
  next_id (suc fuel) base suffix id used =
      let rest = next_id fuel base (suc suffix) (outside.suffixed base suffix) used in
      if is_used id used then rest else some id

  -- The identifier of a call without one of its own.
  unfoldable pub fresh_id : String → List String → Option String
  fresh_id base used = next_id (suc (suc (length used))) base 1 base used

-- A call; its arguments are an object, of which the answer has the text.
pub record Call : Type 0 where
  pub id : String
  pub name : String
  pub arguments : Fields

-- What the loop over the parts has collected.
pub record Collected : Type 0 where
  pub text_parts : List String
  pub tool_calls : List Call
  pub used : List String

module _ (outside : Outside) where
  abbrev pub text_at : String → Fields → String
  text_at key d = if has key d then to_text outside (get key d) else ""

  -- The identifier of a call: its own, or a new one.
  unfoldable pub call_id : ℕ → Fields → List String → Option String
  call_id index fn used =
      if truthy (get "id" fn)
      then some (to_text outside (get "id" fn))
      else fresh_id outside (outside.call_of (text_at "name" fn) index) used

  unfoldable pub take_call : ℕ → Value → Collected → Option Collected
  take_call index (dict fn) c = call_id index fn c.used >>= λ id. some (record c {
    tool_calls =
        c.tool_calls
        ++ record {
          id = id;
          name = text_at "name" fn;
          arguments =
              google_json_object outside "value"
                (if has "args" fn then get "args" fn else dict end);
        }
          ∷ [];
    used = id ∷ c.used;
  })
  take_call index _ c = some c

  abbrev pub take_text : Value → Collected → Collected
  take_text null c = c
  take_text v c = record c { text_parts = c.text_parts ++ to_text outside v ∷ [] }

  abbrev pub is_thought : Value → Bool
  is_thought (bool b) = b
  is_thought _ = false

  -- One turn of the loop over the parts.
  unfoldable pub take_part : ℕ → Value → Collected → Option Collected
  take_part index (dict part) c =
      if is_thought (get "thought" part)
      then some c
      else take_call index (get "functionCall" part) (take_text (get "text" part) c)
  take_part index _ c = some c

  unfoldable pub take_parts : ℕ → Values → Collected → Option Collected
  take_parts index nil c = some c
  take_parts index (cons v vs) c = take_part index v c >>= take_parts (suc index) vs
