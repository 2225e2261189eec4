-- ===== src/Providers/Vertex/Embeddings/Tests.antt =====
-- Runs of the embeddings of openai_compatible_bridge/providers/vertex.py.
use openai_compatible_bridge.Prelude.{
  true, none, some, String, List, [], ◌∷◌, map, ◌≡◌, refl, ap, length,
}
use openai_compatible_bridge.Prelude.Int.{pos}
use openai_compatible_bridge.Prelude.Result.{Ensures}
use openai_compatible_bridge.Json.{Value, Values, nil, cons, str, list, dict, end, field, get}
use openai_compatible_bridge.Providers.Ollama.{Error}
use openai_compatible_bridge.Providers.Ollama.Call.{Post, response}
use openai_compatible_bridge.Providers.Vertex.Reading.{Builtins, refused}
use openai_compatible_bridge.Providers.Vertex.Embeddings.{
  chunks, chunked, Job, instance_of, predict_body, values_of, collected, embedding_of,
  embed_all_predict, embed,
}
use openai_compatible_bridge.Providers.Vertex.Embeddings.Batches.{Predicts, embed_all_predict-each}
use openai_compatible_bridge.Providers.Vertex.Embeddings.Counts.{embed-length}

abbrev builtins : Builtins
builtins = record { int_of_float = λ t. refused; int_of_str = λ t. refused; str_of = λ v. "" }

abbrev earlier : Error → Error → Error
earlier e f = e

abbrev job : Job
job = record { dimensions = none; task_type = "UNSPECIFIED"; title = ""; auto_truncate = true }

abbrev texts : List String
texts = "a" ∷ "b" ∷ "c" ∷ []

-- The prediction of a text: a vector that holds it.
abbrev prediction : Value → Value
prediction content =
    dict (field "embeddings" (dict (field "values" (list (cons content nil)) end)) end)

-- An upstream that predicts for each instance of the request.
abbrev predictions : Values → Values
predictions nil = nil
predictions (cons (dict instance_) vs) =
    cons (prediction (get "content" instance_)) (predictions vs)
predictions (cons v vs) = predictions vs

abbrev upstream : Value → Post
upstream (dict body) = elim (get "instances" body) [
  | list vs ↦ response 200 (some (dict (field "predictions" (list (predictions vs)) end)))
  | _ ↦ response 400 none
]
upstream _ = response 400 none

predictions-instances :
    (xs : List String)
    → predictions (values_of (map (instance_of job) xs))
      ≡ values_of (map (λ t. prediction (str t)) xs)
unfolding values_of instance_of get
predictions-instances [] = refl
predictions-instances (x ∷ xs) = ap (cons (prediction (str x))) (predictions-instances xs)

upstream-Predicts : Predicts (λ t. prediction (str t)) upstream job
unfolding predict_body get
upstream-Predicts xs =
    ap (λ vs. response 200 (some (dict (field "predictions" (list vs) end))))
      (predictions-instances xs)

chunked_test : chunked texts (pos 2) ≡ ("a" ∷ "b" ∷ []) ∷ ("c" ∷ []) ∷ []
unfolding chunked chunks
chunked_test = refl

embed_all_predict-each_example :
    embed_all_predict builtins earlier upstream job (pos 2) texts
    ≡ collected (embedding_of builtins) (map (λ t. prediction (str t)) texts)
embed_all_predict-each_example =
    embed_all_predict-each builtins earlier (λ t. prediction (str t)) upstream job (pos 2) texts
      upstream-Predicts

embed-length_example :
    Ensures
      (λ es. length es ≡ length texts)
      (embed builtins earlier upstream "predict" (pos 2) job texts)
embed-length_example = embed-length builtins earlier upstream job "predict" (pos 2) texts
