-- ===== src/Providers/Vertex/Reading/Tests.antt =====
-- Runs of the readers of openai_compatible_bridge/providers/vertex.py.
use openai_compatible_bridge.Prelude.{none, some, ◌≡◌, refl, if◌then◌else◌, str_eq}
use openai_compatible_bridge.Prelude.Int.{pos, negsuc}
use openai_compatible_bridge.Prelude.Result.{ok, Ensures}
use openai_compatible_bridge.Json.{Fields, nil, cons, int, str, list, dict, end, field, get, has}
use openai_compatible_bridge.Providers.Vertex.Reading.{
  Builtins, refused, raised, int_of, parse_int, int_value, detail_of, detail_counts, cache_count,
  usage_dict, coerce_openai_usage, extract_message_text, item_text, item_texts,
}
use openai_compatible_bridge.Providers.Vertex.Reading.Usage.{coerce_openai_usage-again}

-- `int()` of an infinite float raises an OverflowError.
abbrev builtins : Builtins
builtins = record {
  int_of_float = λ t. if str_eq t "Infinity" then raised else refused;
  int_of_str = λ t. refused;
  str_of = λ v. "";
}

abbrev details : Fields
details = field "cached_tokens" (int (pos 3)) (field "audio" (str "x") end)

abbrev given : Fields
given = field "prompt_tokens" (int (pos 5)) (
    field "completion_tokens" (int (negsuc 0)) (
      field "prompt_tokens_details" (dict details)
        (field "cache_read_input_tokens" (int (pos 3)) end)))

coerced_test :
    coerce_openai_usage builtins (dict given)
    ≡ ok (usage_dict 5 0 5 (field "cached_tokens" (int (pos 3)) end) end (some 3) none)
unfolding coerce_openai_usage int_value get has parse_int int_of detail_counts detail_of cache_count
coerced_test = refl

text_test :
    extract_message_text builtins (
      list (
        cons
          (dict (field "type" (str "text") (field "text" (str "Hel") end)))
          (cons (int (pos 1)) (cons (str "lo") nil))))
    ≡ ok "Hello"
unfolding extract_message_text item_text item_texts get has
text_test = refl

coerce_openai_usage-again_example :
    Ensures
      (λ normalized. coerce_openai_usage builtins (dict normalized) ≡ ok normalized)
      (coerce_openai_usage builtins (dict given))
coerce_openai_usage-again_example = coerce_openai_usage-again builtins (dict given)
