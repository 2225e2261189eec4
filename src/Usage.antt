-- ===== src/Usage.antt =====
-- Token usage read from provider responses: openai_compatible_bridge/core/provider_adapter.py (the
-- parsers) and openai_compatible_bridge/core/metered_http.py (`_raw_usage`, `_observe_usage`).
-- NormalizedUsage is that of openai_compatible_bridge/core/cost_tracking.py.
pub mod Parsers
use openai_compatible_bridge.Prelude.{
  ℕ, ◌+◌, Bool, true, false, not, ◌&&◌, ◌||◌, Option, none, some, String, List, [], ◌∷◌,
  if◌then◌else◌, is_some,
}
use openai_compatible_bridge.Prelude.Maybe.{◌>>=◌}
use openai_compatible_bridge.Json.{
  Value, list, dict, Values, nil, cons, Fields, get, has, is_null, is_dict, object, count_of,
  one_of, is_text,
}

-- Its fields are the non-negative ints that `__post_init__` asks for.
pub record NormalizedUsage : Type 0 where
  pub prompt_tokens : ℕ
  pub completion_tokens : ℕ
  pub total_tokens : ℕ
  pub embedding_tokens : ℕ
  pub rerank_units : ℕ

abbrev pub no_usage : NormalizedUsage
no_usage = record {
  prompt_tokens = 0;
  completion_tokens = 0;
  total_tokens = 0;
  embedding_tokens = 0;
  rerank_units = 0;
}

-- The endpoint names that the code tells apart.
pub data Endpoint : Type 0 where
  chat embeddings rerank elsewhere : Endpoint

-- SUPPORTED_PROVIDERS; `unknown` is any other name, and None.
pub data Provider : Type 0 where
  vertex ollama foundry openai_compat openai_compatible jetbrains unknown : Provider

-- `_is_error`
unfoldable pub is_error : Fields → Bool
unfolding get one_of
is_error d =
    not (is_null (get "error" d))
    || (one_of (get "type" d) ("error" ∷ "response.failed" ∷ "response.incomplete" ∷ [])
        || one_of (get "status" d) ("failed" ∷ "cancelled" ∷ "incomplete" ∷ []))

-- `_count(d[key])` where the key is there, else the value given.
count_or : String → Option ℕ → Fields → Option ℕ
unfolding get has
count_or key other d = if has key d then count_of (get key d) else other

-- The completion tokens with the thoughts, where a key for those is given.
with_thoughts : Option String → Fields → ℕ → Option ℕ
unfolding count_or
with_thoughts none d completion = some completion
with_thoughts (some key) d completion = do
  thoughts ← count_or key (some 0) d
  some (completion + thoughts)

-- `_chat_usage`
pub chat_usage : Fields → String → String → String → Option String → Option NormalizedUsage
unfolding with_thoughts
chat_usage d input_key output_key total_key thoughts_key = do
  prompt ← count_of (get input_key d)
  answer ← count_of (get output_key d)
  completion ← with_thoughts thoughts_key d answer
  total ← count_or total_key (some (prompt + completion)) d
  some (record no_usage {
    prompt_tokens = prompt;
    completion_tokens = completion;
    total_tokens = total;
  })

-- The `_chat_usage` calls of the parsers.
pub google_usage : Fields → Option NormalizedUsage
google_usage d =
    chat_usage (object (get "usageMetadata" d)) "promptTokenCount" "candidatesTokenCount"
      "totalTokenCount" (some "thoughtsTokenCount")

pub eval_usage : Fields → Option NormalizedUsage
eval_usage d = chat_usage d "prompt_eval_count" "eval_count" "total_tokens" none

pub openai_usage : Fields → Option NormalizedUsage
openai_usage usage = chat_usage usage "prompt_tokens" "completion_tokens" "total_tokens" none

pub responses_usage : Fields → Option NormalizedUsage
responses_usage usage = chat_usage usage "input_tokens" "output_tokens" "total_tokens" none

pub has_google : Fields → Bool
unfolding has
has_google d = has "usageMetadata" d

pub has_eval : Fields → Bool
unfolding has
has_eval d = has "prompt_eval_count" d || has "eval_count" d

pub has_openai : Fields → Bool
unfolding has
has_openai usage = has "prompt_tokens" usage || has "completion_tokens" usage

pub has_responses : Fields → Bool
unfolding has
has_responses usage = has "input_tokens" usage || has "output_tokens" usage

-- The first key of a list that the dict has decides: its count.
first_count : List String → Fields → Option ℕ
unfolding get has
first_count [] d = none
first_count (key ∷ keys) d =
    let rest = first_count keys d in if has key d then count_of (get key d) else rest

-- The token count of one element of `predictions`.
prediction_tokens : Value → Option ℕ
unfolding get
prediction_tokens p =
    count_of (get "token_count" (object (get "statistics" (object (get "embeddings" (object p))))))

-- The loop over `predictions`.
total_tokens_of : ℕ → Values → Option ℕ
unfolding prediction_tokens
total_tokens_of total nil = some total
total_tokens_of total (cons p ps) = do
  tokens ← prediction_tokens p
  total_tokens_of (total + tokens) ps

predictions_count : Value → Option ℕ
unfolding total_tokens_of
predictions_count (list nil) = none
predictions_count (list (cons p ps)) = total_tokens_of 0 (cons p ps)
predictions_count _ = none

-- A count that stands under the key, and is none.
bad_count : String → Fields → Bool
unfolding get has
bad_count key d = has key d && not (is_some (count_of (get key d)))

google_embedding_keys : List String
google_embedding_keys =
    "promptTokenCount" ∷ "totalTokenCount" ∷ "tokenCount" ∷ "token_count" ∷ "inputTokens"
    ∷ "input_tokens" ∷ []

google_embedding_count : Fields → Option ℕ
unfolding first_count bad_count google_embedding_keys
google_embedding_count usage =
    if bad_count "totalTokenCount" usage then none else first_count google_embedding_keys usage

openai_embedding_count : Fields → Option ℕ
unfolding bad_count get has
openai_embedding_count usage =
    if bad_count "total_tokens" usage
    then none
    else count_of
        (get (if has "prompt_tokens" usage then "prompt_tokens" else "input_tokens") usage)

-- `_embedding_count`
pub embedding_count : Fields → Option ℕ
unfolding google_embedding_count openai_embedding_count predictions_count
embedding_count d =
    if has "usageMetadata" d
    then google_embedding_count (object (get "usageMetadata" d))
    else if has "usage" d
    then openai_embedding_count (object (get "usage" d))
    else if has "embedding" d
    then count_of (get "token_count" (object (get "statistics" (object (get "embedding" d)))))
    else predictions_count (get "predictions" d)

unless_error : Fields → Option Fields
unfolding is_error
unless_error d = if is_error d then none else some d

-- The chat payload: that of the response inside a completion event, which may be an error.
pub chat_payload : Fields → Option Fields
unfolding unless_error get
chat_payload d =
    if is_text "response.completed" (get "type" d)
    then unless_error (object (get "response" d))
    else some d

pub embedding_usage : Fields → Option NormalizedUsage
unfolding embedding_count
embedding_usage d = do
  tokens ← embedding_count d
  some (record no_usage { embedding_tokens = tokens; total_tokens = tokens })

unfoldable pub rerank_usage : Fields → Option NormalizedUsage
unfolding get
rerank_usage d = do
  units ← count_of (get "rerank_units" (object (get "usage" d)))
  some (record no_usage { rerank_units = units })
