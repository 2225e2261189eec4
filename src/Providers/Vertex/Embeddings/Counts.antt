-- ===== src/Providers/Vertex/Embeddings/Counts.antt =====
-- How many embeddings `embed` of openai_compatible_bridge/providers/vertex.py returns.
use openai_compatible_bridge.Prelude.{
  ℕ, suc, String, List, [], ◌∷◌, map, ◌≡◌, refl, ap, ◌∙◌, length, concat, ◌==◌, ==_iff,
  length-append, str_eq, by_branches, arith,
}
use openai_compatible_bridge.Prelude.Int.{ℤ}
use openai_compatible_bridge.Prelude.Result.{
  Result, ok, err, Ensures, Ensures-bind, Ensures-then, Ensures-guard,
}
use openai_compatible_bridge.Json.{Value, null, bool, int, float, str, list, dict, get}
use openai_compatible_bridge.Providers.Ollama.{Error}
use openai_compatible_bridge.Providers.Ollama.Call.{Post}
use openai_compatible_bridge.Providers.Vertex.Reading.{Builtins, dict_of}
use openai_compatible_bridge.Providers.Vertex.Embeddings.{
  chunked, elements, Job, predict_body, bad_gateway, gather, collected, answer_json, predictions_of,
  predict, embedding_of, embed_all_predict, content_embedding, embed_content_single,
  embed_all_embed_content, embed,
}
use openai_compatible_bridge.Providers.Vertex.Embeddings.Batches.{concat-chunked}

collected-length {ℓ κ} :
    {A : Type ℓ} {B : Type κ} (f : A → Result Error B) (xs : List A)
    → Ensures (λ ys. length ys ≡ length xs) (collected f xs)
unfolding collected
collected-length f [] = refl
collected-length f (x ∷ xs) =
    Ensures-then (λ ys. length ys ≡ suc (length xs)) (f x) _
      (λ y.
        Ensures-bind (λ ys. length ys ≡ length xs) (λ ys. length ys ≡ suc (length xs))
          (collected f xs) _ (collected-length f xs) (λ ys h. ap suc h))

-- What holds of every result holds of the results that are gathered.
module _ {A B : Type 0} (first : Error → Error → Error) (f : A → Result Error B)
    (Q : A → B → Type 0) (P : List A → List B → Type 0) (begin : P [] [])
    (step : (x : A) (y : B) (xs : List A) (ys : List B) → Q x y → P xs ys → P (x ∷ xs) (y ∷ ys))
    (each : (x : A) → Ensures (Q x) (f x)) where
  gather-step :
      (x : A) (xs : List A) (r : Result Error B)
      → Ensures (Q x) r
      → Ensures (P xs) (gather first (map f xs))
      → Ensures (P (x ∷ xs)) (gather first (r ∷ map f xs))
  unfolding gather
  gather-step x xs (ok y) q h = Ensures-bind (P xs) (P (x ∷ xs)) _ _ h (λ ys k. step x y xs ys q k)
  gather-step x xs (err e) q h = failed (gather first (map f xs))
    where
      failed :
          (r : Result Error (List B))
          → Ensures (P (x ∷ xs)) (elim r [ ok rest ↦ err e | err g ↦ err (first e g) ])
      failed (ok rest) = tt
      failed (err g) = tt

  gather-Ensures : (xs : List A) → Ensures (P xs) (gather first (map f xs))
  unfolding gather
  gather-Ensures [] = begin
  gather-Ensures (x ∷ xs) = gather-step x xs (f x) (each x) (gather-Ensures xs)

module _ (builtins : Builtins) (first : Error → Error → Error) (send : Value → Post)
    (job : Job) where
  predictions_of-length :
      (wanted : ℕ) (v : Value) → Ensures (λ ps. length ps ≡ wanted) (predictions_of wanted v)
  unfolding predictions_of
  predictions_of-length wanted (list vs) =
      Ensures-bind _ (λ ps. length ps ≡ wanted) _ _
        (Ensures-guard (length (elements vs) == wanted) bad_gateway)
        (λ done e. (==_iff (length (elements vs)) wanted).0 e)
  predictions_of-length wanted null = tt
  predictions_of-length wanted (bool b) = tt
  predictions_of-length wanted (int n) = tt
  predictions_of-length wanted (float t) = tt
  predictions_of-length wanted (str t) = tt
  predictions_of-length wanted (dict d) = tt

  predict-length :
      (texts : List String)
      → Ensures (λ ps. length ps ≡ length texts) (predict builtins send job texts)
  unfolding predict
  predict-length texts =
      let Same = λ (ps : List Value). length ps ≡ length texts in
      Ensures-then Same (answer_json builtins (send (predict_body job texts))) _ (λ data_.
        Ensures-then Same (dict_of data_) _
          (λ d. predictions_of-length (length texts) (get "predictions" d)))

  SameLength : List (List String) → List (List Value) → Type 0
  SameLength xss yss = length (concat yss) ≡ length (concat xss)

  batches-length :
      (xss : List (List String))
      → Ensures (SameLength xss) (gather first (map (predict builtins send job) xss))
  unfolding SameLength
  batches-length =
      gather-Ensures first (predict builtins send job) (λ xs ys. length ys ≡ length xs) SameLength
        refl
        (λ x y xs ys q h.
          omega (arith, length-append x (concat xs), length-append y (concat ys), q, h))
        predict-length

  predicted-length :
      (batch_size : ℤ) (texts : List String)
      → Ensures
          (λ es. length es ≡ length texts)
          (embed_all_predict builtins first send job batch_size texts)
  unfolding embed_all_predict SameLength
  predicted-length batch_size texts =
      Ensures-bind (SameLength (chunked texts batch_size)) (λ es. length es ≡ length texts) _ _
        (batches-length (chunked texts batch_size))
        (λ pss h.
          rw (h ∙ ap length (concat-chunked texts batch_size)) at
            (collected-length (embedding_of builtins) (concat pss)))

  contents-length :
      (texts : List String)
      → Ensures
          (λ es. length es ≡ length texts)
          (embed_all_embed_content builtins first send job texts)
  unfolding embed_all_embed_content
  contents-length texts =
      Ensures-bind (λ ds. length ds ≡ length texts) (λ es. length es ≡ length texts) _ _
        (gather-Ensures first (embed_content_single builtins send job) (λ x y. Unit {0})
          (λ xs ys. length ys ≡ length xs) refl (λ x y xs ys q h. ap suc h) (λ x. anything _) texts)
        (λ ds h. rw h at (collected-length (content_embedding builtins) ds))
    where
      anything : (r : Result Error Value) → Ensures (λ y. Unit {0}) r
      anything (ok y) = tt
      anything (err e) = tt

  -- Whatever the upstream answers, an `embed` that returns has one embedding for each text: with
  -- either API, and for every size of a batch, also one that is not positive.
  pub embed-length :
      (api_name : String) (batch_size : ℤ) (texts : List String)
      → Ensures
          (λ es. length es ≡ length texts)
          (embed builtins first send api_name batch_size job texts)
  unfolding embed
  embed-length api_name batch_size texts =
      by_branches (Ensures (λ es. length es ≡ length texts)) (str_eq api_name "embedContent")
        (λ h. contents-length texts) (λ h. predicted-length batch_size texts)
