-- ===== src/Providers/Vertex/Reading.antt =====
-- What openai_compatible_bridge/providers/vertex.py reads from the JSON of an upstream, also for the
-- other providers: texts, counts of tokens, chunks of a stream, and errors.
mod Usage
mod Tests
use openai_compatible_bridge.Prelude.{
  ℕ, ◌+◌, Bool, true, false, not, ◌&&◌, ◌||◌, Option, none, some, String, List, [], ◌∷◌,
  if◌then◌else◌, ◌==◌, str_eq,
}
use openai_compatible_bridge.Prelude.Int.{ℤ, pos, negsuc}
use openai_compatible_bridge.Prelude.Result.{Result, ok, err, ◌>>=◌}
use openai_compatible_bridge.Json.{
  Value, Values, Fields, null, bool, int, float, str, list, dict, nil, cons, end, field, get, has,
  object, truthy, is_text,
}
use openai_compatible_bridge.Providers.Ollama.{Error, api, of_status, crash}
use openai_compatible_bridge.Providers.Ollama.Reply.{Tokens, or_crash}
use Prim.Native.String.{◌++◌ as text_append}

-- `d.get(key, default)`
abbrev pub get_or : String → Value → Fields → Value
get_or key default d = if has key d then get key d else default

-- `value or {}`
abbrev pub or_empty : Value → Value
or_empty value = if truthy value then value else dict end

-- The dict, where the code calls `get` on a value that may be none.
abbrev pub dict_of : Value → Result Error Fields
dict_of (dict d) = ok d
dict_of _ = err crash

-- What `int(value)` does: it returns, it raises a TypeError or a ValueError, or something else.
pub data Conversion : Type 0 where
  converted : ℤ → Conversion
  refused : Conversion
  raised : Conversion

-- `int()` of a float and of a str, and `str()` of a value.
pub record Builtins : Type 0 where
  pub int_of_float : String → Conversion
  pub int_of_str : String → Conversion
  pub str_of : Value → String

abbrev pub not_negative : ℤ → Option ℕ
not_negative (pos n) = some n
not_negative (negsuc n) = none

abbrev pub parsed : Conversion → Result Error (Option ℕ)
parsed (converted n) = ok (not_negative n)
parsed refused = ok none
parsed raised = err crash

abbrev pub or_zero : Option ℕ → ℕ
or_zero none = 0
or_zero (some n) = n

-- `_map_finish_reason`; a list and a dict are no keys.
unfoldable pub map_finish_reason : Value → Result Error String
map_finish_reason (list vs) = err crash
map_finish_reason (dict d) = err crash
map_finish_reason reason =
    if is_text "MAX_TOKENS" reason
    then ok "length"
    else if is_text "SAFETY" reason || is_text "RECITATION" reason
    then ok "content_filter"
    else ok "stop"

-- The texts of the parts that are dicts.
unfoldable pub part_texts : Values → Result Error String
part_texts nil = ok ""
part_texts (cons (dict part) parts) = elim (get_or "text" (str "") part) [
  | str t ↦ part_texts parts >>= λ rest. ok (text_append t rest)
  | _ ↦ err crash
]
part_texts (cons part parts) = part_texts parts

-- The join over `parts`: the characters of a str and the keys of a dict are no dicts.
unfoldable pub joined_parts : Value → Result Error String
joined_parts (list parts) = part_texts parts
joined_parts (dict d) = ok ""
joined_parts (str t) = ok ""
joined_parts value = if truthy value then err crash else ok ""

pub record Chunk : Type 0 where
  pub delta_text : String
  pub finish_reason : Option String
  pub usage : Option Tokens

-- The entry of a detail, which an empty one has not.
abbrev pub with_detail : String → Fields → Fields → Fields
with_detail key end rest = rest
with_detail key (field j v d) rest = field key (dict (field j v d)) rest

abbrev pub with_count : String → Option ℕ → Fields → Fields
with_count key none rest = rest
with_count key (some n) rest = field key (int (pos n)) rest

-- `normalized` of `_coerce_openai_usage`
unfoldable pub usage_dict : ℕ → ℕ → ℕ → Fields → Fields → Option ℕ → Option ℕ → Fields
usage_dict prompt completion total prompt_details completion_details cache_read cache_creation =
    field "prompt_tokens" (int (pos prompt)) (
      field "completion_tokens" (int (pos completion)) (
        field "total_tokens" (int (pos total)) (
          with_detail "prompt_tokens_details" prompt_details (
            with_detail "completion_tokens_details" completion_details (
              with_count "cache_read_input_tokens" cache_read
                (with_count "cache_creation_input_tokens" cache_creation end))))))

module _ (builtins : Builtins) where
  unfoldable pub int_of : Value → Conversion
  int_of (int n) = converted n
  int_of (bool true) = converted (pos 1)
  int_of (bool false) = converted (pos 0)
  int_of (float t) = builtins.int_of_float t
  int_of (str t) = builtins.int_of_str t
  int_of _ = refused

  -- The text of an item of a message's parts.
  unfoldable pub item_text : Value → Result Error String
  item_text (dict item) =
      if is_text "text" (get "type" item)
      then elim (get_or "text" (str "") item) [ str t ↦ ok t | _ ↦ err crash ]
      else ok ""
  item_text (str t) = ok t
  item_text _ = ok ""

  unfoldable pub item_texts : Values → Result Error String
  item_texts nil = ok ""
  item_texts (cons item items) =
      item_text item >>= λ t. item_texts items >>= λ rest. ok (text_append t rest)

  -- `_extract_message_text`
  unfoldable pub extract_message_text : Value → Result Error String
  extract_message_text (str t) = ok t
  extract_message_text (list items) = item_texts items
  extract_message_text null = ok ""
  extract_message_text content = ok (builtins.str_of content)

  -- `parse_int` of `_coerce_openai_usage`
  unfoldable pub parse_int : Value → Result Error (Option ℕ)
  parse_int (bool b) = ok none
  parse_int value = parsed (int_of value)

  -- `int_value` of `_coerce_openai_usage`
  unfoldable pub int_value : String → Fields → Result Error ℕ
  int_value key usage = parse_int (get_or key (int (pos 0)) usage) >>= λ n. ok (or_zero n)

  -- The counts of a detail, as the fields of a dict; what is no count is left out.
  unfoldable pub detail_of : Fields → Result Error Fields
  detail_of end = ok end
  detail_of (field key value d) = parse_int value >>= λ n.
      detail_of d >>= λ rest. ok (elim n [ none ↦ rest | some k ↦ field key (int (pos k)) rest ])

  unfoldable pub detail_counts : Value → Result Error Fields
  detail_counts (dict raw_detail) = detail_of raw_detail
  detail_counts _ = ok end

  -- A count of the cache: None for a missing key too.
  unfoldable pub cache_count : String → Fields → Result Error (Option ℕ)
  cache_count key usage = if has key usage then parse_int (get key usage) else ok none

  -- `_coerce_openai_usage`
  unfoldable pub coerce_openai_usage : Value → Result Error Fields
  coerce_openai_usage value =
      let usage = object value in
      int_value "prompt_tokens" usage >>= λ prompt.
      int_value "completion_tokens" usage >>= λ completion.
      int_value "total_tokens" usage >>= λ given.
      detail_counts (get "prompt_tokens_details" usage) >>= λ prompt_details.
      detail_counts (get "completion_tokens_details" usage) >>= λ completion_details.
      cache_count "cache_read_input_tokens" usage >>= λ cache_read.
      cache_count "cache_creation_input_tokens" usage >>= λ cache_creation. ok (
        usage_dict prompt completion (if given == 0 then prompt + completion else given)
          prompt_details completion_details cache_read cache_creation)

  -- `int(meta.get(key, 0) or 0)`
  unfoldable pub meta_count : String → Fields → Result Error ℤ
  meta_count key meta =
      let value = get key meta in
      if truthy value
      then elim (int_of value) [ converted n ↦ ok n | refused ↦ err crash | raised ↦ err crash ]
      else ok (pos 0)

  unfoldable pub chunk_usage : Value → Result Error (Option Tokens)
  chunk_usage (dict (field j v d)) =
      let meta = field j v d in
      meta_count "promptTokenCount" meta >>= λ prompt.
      meta_count "candidatesTokenCount" meta >>= λ completion.
      meta_count "totalTokenCount" meta >>= λ total. ok (
        some
          (record { prompt_tokens = prompt; completion_tokens = completion; total_tokens = total }))
  chunk_usage _ = ok none

  -- The text and the reason of a candidate.
  unfoldable pub candidate_of : Value → Result Error (String × Option String)
  candidate_of candidate = dict_of (or_empty candidate) >>= λ c.
      dict_of (or_empty (get "content" c)) >>= λ content.
      joined_parts (get "parts" content) >>= λ text.
      (if truthy (get "finishReason" c)
        then (map_finish_reason (get "finishReason" c) >>= λ reason. ok (some reason))
        else ok none)
      >>= λ reason. ok (text, reason)

  unfoldable pub first_candidate : Value → Result Error (String × Option String)
  first_candidate (list (cons candidate rest)) = candidate_of candidate
  first_candidate candidates = if truthy candidates then err crash else ok ("", none)

  -- `_parse_stream_chunk`
  unfoldable pub parse_stream_chunk : Value → Result Error Chunk
  parse_stream_chunk chunk = first_candidate (get "candidates" (object chunk)) >>= λ first.
      chunk_usage (get "usageMetadata" (object chunk)) >>= λ usage.
      ok (record { delta_text = first.0; finish_reason = first.1; usage = usage })

  unfoldable pub error_code : ℕ → Fields → Error
  error_code status e =
      if truthy (get "status" e)
      then api status (builtins.str_of (get "status" e))
      else if truthy (get "code" e)
      then api status (builtins.str_of (get "code" e))
      else of_status status

  -- `_parse_vertex_error`, from the status and the JSON of a response, if it has any.
  unfoldable pub parse_vertex_error : ℕ → Option Value → Error
  parse_vertex_error status none = of_status status
  parse_vertex_error status (some payload) = elim (get_or "error" (dict end) (object payload)) [
    | dict e ↦ error_code status e
    | _ ↦ crash
  ]

-- `_vertex_host`
unfoldable pub vertex_host : String → String
vertex_host location =
    if str_eq location "global"
    then "aiplatform.googleapis.com"
    else text_append location "-aiplatform.googleapis.com"
