-- ===== src/Providers/Vertex/Embeddings.antt =====
-- `VertexEmbeddingClient` of openai_compatible_bridge/providers/vertex.py: the requests of a list of
-- texts, in batches or one by one, and the embeddings read from the answers. What the retry policy
-- returns for a request is a parameter (`Embedding.Retry` models the policy), a function of the body;
-- so is which of two failures `asyncio.gather` sees first. A token that cannot be had is left out.
mod Batches
mod Counts
mod Tests
use openai_compatible_bridge.Prelude.{
  ℕ, zero, suc, Bool, true, false, not, ◌&&◌, Option, none, some, String, List, [], ◌∷◌, map, max,
  if◌then◌else◌, ◌==◌, leb, str_eq, length, take, drop, concat,
}
use openai_compatible_bridge.Prelude.Int.{ℤ, pos, pos_part}
use openai_compatible_bridge.Prelude.Result.{Result, ok, err, guard, ◌>>=◌, ◌>>◌}
use openai_compatible_bridge.Json.{
  Value, Values, Fields, null, bool, int, float, str, list, dict, nil, cons, end, field, get,
  truthy, is_null,
}
use openai_compatible_bridge.Providers.Ollama.{Error, api, crash}
use openai_compatible_bridge.Providers.Ollama.Call.{Post, timed_out, request_failed, response}
use openai_compatible_bridge.Providers.Vertex.Reading.{
  Builtins, converted, refused, raised, int_of, get_or, dict_of, or_empty, parse_vertex_error,
}

-- `chunked` counts on by the size, to the end of the items.
unfoldable pub chunks : ℕ → ℕ → List String → List (List String)
chunks zero size items = []
chunks (suc fuel) size [] = []
chunks (suc fuel) size (x ∷ xs) = take size (x ∷ xs) ∷ chunks fuel size (drop size (x ∷ xs))

-- `chunked`
unfoldable pub chunked : List String → ℤ → List (List String)
chunked items size = chunks (length items) (max 1 (pos_part size)) items

-- The elements of a JSON list.
unfoldable pub elements : Values → List Value
elements nil = []
elements (cons v vs) = v ∷ elements vs

unfoldable pub values_of : List Value → Values
values_of [] = nil
values_of (v ∷ vs) = cons v (values_of vs)

pub record Embedding : Type 0 where
  pub values : Value
  pub token_count : ℤ

-- What a call is asked with, besides the texts.
pub record Job : Type 0 where
  pub dimensions : Option ℤ
  pub task_type : String
  pub title : String
  pub auto_truncate : Bool

-- `if task_type and task_type != "UNSPECIFIED"`, `if title`: an empty text is no text.
abbrev pub with_task : String → String → Fields → Fields
with_task key task_type rest =
    if not (str_eq task_type "") && not (str_eq task_type "UNSPECIFIED")
    then field key (str task_type) rest
    else rest

abbrev pub with_title : String → Fields → Fields
with_title title rest = if str_eq title "" then rest else field "title" (str title) rest

abbrev pub with_dimensions : Option ℤ → Fields → Fields
with_dimensions none rest = rest
with_dimensions (some n) rest = field "outputDimensionality" (int n) rest

unfoldable pub instance_of : Job → String → Value
instance_of job text =
    dict
      (field "content" (str text) (with_task "task_type" job.task_type (with_title job.title end)))

-- The body of `_predict`.
unfoldable pub predict_body : Job → List String → Value
predict_body job texts = dict (
    field "instances" (list (values_of (map (instance_of job) texts))) (
      field "parameters"
        (dict (field "autoTruncate" (bool job.auto_truncate) (with_dimensions job.dimensions end)))
        end))

-- The body of `_embed_content_single`.
unfoldable pub content_body : Job → String → Value
content_body job text = dict (
    field "content"
      (dict (field "parts" (list (cons (dict (field "text" (str text) end)) nil)) end))
      (with_dimensions job.dimensions (with_task "taskType" job.task_type end)))

abbrev pub bad_gateway : Error
bad_gateway = api 502 "bad_gateway"

-- Each result in its order, or the failure that is raised first.
unfoldable pub gather {ℓ} :
    {A : Type ℓ} → (Error → Error → Error) → List (Result Error A) → Result Error (List A)
gather first [] = ok []
gather first (ok a ∷ rs) = gather first rs >>= λ rest. ok (a ∷ rest)
gather first (err e ∷ rs) = elim (gather first rs) [ ok rest ↦ err e | err f ↦ err (first e f) ]

-- `results.append(…)` for each of a list.
unfoldable pub collected {ℓ κ} :
    {A : Type ℓ} {B : Type κ} → (A → Result Error B) → List A → Result Error (List B)
collected f [] = ok []
collected f (x ∷ xs) = f x >>= λ y. collected f xs >>= λ ys. ok (y ∷ ys)

-- The first of the keys whose value is not None.
unfoldable pub first_value : List String → Fields → Value
first_value [] d = null
first_value (key ∷ keys) d = if is_null (get key d) then first_value keys d else get key d

abbrev pub dict_or_empty : Value → Fields
dict_or_empty (dict d) = d
dict_or_empty _ = end

unfoldable pub predictions_of : ℕ → Value → Result Error (List Value)
predictions_of wanted (list vs) =
    let predictions = elements vs in
    guard (length predictions == wanted) bad_gateway >> ok predictions
predictions_of wanted _ = err bad_gateway

module _ (builtins : Builtins) where
  -- The JSON of the answer, or the exception.
  unfoldable pub answer_json : Post → Result Error Value
  answer_json timed_out = err (api 504 "timeout")
  answer_json request_failed = err (api 502 "connection_error")
  answer_json (response status payload) =
      if leb 400 status
      then err (parse_vertex_error builtins status payload)
      else elim payload [ none ↦ err bad_gateway | some data_ ↦ ok data_ ]

  -- `_predict`, from what the request's answer is.
  unfoldable pub predict : (Value → Post) → Job → List String → Result Error (List Value)
  predict send job texts = answer_json (send (predict_body job texts)) >>= λ data_.
      dict_of data_ >>= λ d. predictions_of (length texts) (get "predictions" d)

  -- `int(…)` with 0 for a TypeError and a ValueError.
  unfoldable pub count_or_zero : Value → Result Error ℤ
  count_or_zero value = elim (int_of builtins value) [
    | converted n ↦ ok n
    | refused ↦ ok (pos 0)
    | raised ↦ err crash
  ]

  unfoldable pub embedding_of : Value → Result Error Embedding
  embedding_of prediction =
      let emb = dict_or_empty (get_or "embeddings" (dict end) (dict_or_empty prediction)) in
      dict_of (get_or "statistics" (dict end) emb) >>= λ stats.
      count_or_zero (get_or "token_count" (int (pos 0)) stats) >>= λ n.
      ok (record { values = get_or "values" (list nil) emb; token_count = n })

  -- The count of an answer of embedContent.
  unfoldable pub content_count : Value → Result Error ℤ
  content_count (dict usage) =
      let value =
        first_value ("tokenCount" ∷ "token_count" ∷ "inputTokens" ∷ "input_tokens" ∷ []) usage in
      if is_null value then ok (pos 0) else count_or_zero value
  content_count _ = ok (pos 0)

  unfoldable pub content_embedding : Value → Result Error Embedding
  content_embedding data_ = dict_of data_ >>= λ d.
      let found = get_or "values" (list nil) (dict_or_empty (get_or "embedding" (dict end) d)) in
      guard (truthy found) bad_gateway >> content_count (or_empty (get "usageMetadata" d)) >>= λ n.
      ok (record { values = found; token_count = n })

  -- `_embed_content_single`
  unfoldable pub embed_content_single : (Value → Post) → Job → String → Result Error Value
  embed_content_single send job text = answer_json (send (content_body job text))

module _ (builtins : Builtins) (first : Error → Error → Error) where
  -- `_embed_all_predict`
  unfoldable pub embed_all_predict :
      (Value → Post) → Job → ℤ → List String → Result Error (List Embedding)
  embed_all_predict send job batch_size texts =
      gather first (map (predict builtins send job) (chunked texts batch_size)) >>= λ chunk_results.
      collected (embedding_of builtins) (concat chunk_results)

  -- `_embed_all_embed_content`
  unfoldable pub embed_all_embed_content :
      (Value → Post) → Job → List String → Result Error (List Embedding)
  embed_all_embed_content send job texts =
      gather first (map (embed_content_single builtins send job) texts)
      >>= collected (content_embedding builtins)

  -- `embed`, for the `api` and the `max_instances` of the model's configuration.
  unfoldable pub embed :
      (Value → Post) → String → ℤ → Job → List String → Result Error (List Embedding)
  embed send api_name batch_size job texts =
      if str_eq api_name "embedContent"
      then embed_all_embed_content send job texts
      else embed_all_predict send job batch_size texts
