-- ===== src/Providers/Vertex/Embeddings/Batches.antt =====
-- The batches of openai_compatible_bridge/providers/vertex.py: `chunked` splits the texts, and the
-- answers to the batches are put together again in the order of the texts.
use openai_compatible_bridge.Prelude.{
  ℕ, zero, suc, ◌≤◌, max, some, String, List, [], ◌∷◌, ◌++◌, map, ◌≡◌, refl, sym, ap, ◌∙◌, length,
  take, drop, concat, All, ==_iff, arith,
}
use openai_compatible_bridge.Prelude.Int.{ℤ, pos_part}
use openai_compatible_bridge.Prelude.Result.{Result, ok}
use openai_compatible_bridge.Json.{Value, list, dict, field, end, get}
use openai_compatible_bridge.Providers.Ollama.{Error}
use openai_compatible_bridge.Providers.Ollama.Call.{Post, response}
use openai_compatible_bridge.Providers.Vertex.Reading.{Builtins}
use openai_compatible_bridge.Providers.Vertex.Embeddings.{
  chunks, chunked, elements, values_of, Job, predict_body, gather, collected, answer_json,
  predictions_of, predict, embedding_of, embed_all_predict,
}

take-drop : (n : ℕ) (xs : List String) → take n xs ++ drop n xs ≡ xs
take-drop zero xs = refl
take-drop (suc n) [] = refl
take-drop (suc n) (x ∷ xs) = ap (λ ys. x ∷ ys) (take-drop n xs)

length-drop : (n : ℕ) (xs : List String) → length (drop (suc n) xs) ≤ length xs
length-drop n [] = omega arith
length-drop zero (x ∷ xs) = omega arith
length-drop (suc n) (x ∷ xs) = omega (arith, length-drop n xs)

length-drop-suc :
    (n : ℕ) (x : String) (xs : List String) → length (drop (suc n) (x ∷ xs)) ≤ length xs
length-drop-suc zero x xs = omega arith
length-drop-suc (suc n) x xs = length-drop n xs

length-take : (n : ℕ) (xs : List String) → length (take n xs) ≤ n
length-take zero xs = omega arith
length-take (suc n) [] = omega arith
length-take (suc n) (x ∷ xs) = omega (arith, length-take n xs)

concat-chunks :
    (fuel n : ℕ) (xs : List String) → length xs ≤ fuel → concat (chunks fuel (suc n) xs) ≡ xs
unfolding chunks
concat-chunks zero n [] h = refl
concat-chunks zero n (x ∷ xs) h = absurd (omega (arith, h))
concat-chunks (suc fuel) n [] h = refl
concat-chunks (suc fuel) n (x ∷ xs) h =
    let rest = drop (suc n) (x ∷ xs) in
    ap (λ ys. take (suc n) (x ∷ xs) ++ ys)
      (concat-chunks fuel n rest (omega (arith, h, length-drop-suc n x xs)))
    ∙ take-drop (suc n) (x ∷ xs)

chunks-bounded :
    (fuel n : ℕ) (xs : List String) → All (λ chunk. length chunk ≤ n) (chunks fuel n xs)
unfolding chunks
chunks-bounded zero n xs = tt
chunks-bounded (suc fuel) n [] = tt
chunks-bounded (suc fuel) n (x ∷ xs) =
    (length-take n (x ∷ xs), chunks-bounded fuel n (drop n (x ∷ xs)))

-- A size is at least one.
some_size : (n : ℕ) → (k : ℕ) × (max 1 n ≡ suc k)
some_size zero = (0, refl)
some_size (suc n) = (n, omega arith)

pub concat-chunked : (items : List String) (size : ℤ) → concat (chunked items size) ≡ items
unfolding chunked
concat-chunked items size =
    let n = some_size (pos_part size) in
    rw (n.1) (concat-chunks (length items) (n.0) items (omega arith))

-- The chunks of a list are the list, in its order, and none is longer than the size, or than one
-- where the size is not positive.
chunked-Splits :
    (items : List String) (size : ℤ)
    → (concat (chunked items size) ≡ items)
      × All (λ chunk. length chunk ≤ max 1 (pos_part size)) (chunked items size)
unfolding chunked
chunked-Splits items size =
    (concat-chunked items size, chunks-bounded (length items) (max 1 (pos_part size)) items)

gather-map :
    (first : Error → Error → Error) {A : Type 0} (f : List String → Result Error A)
    (g : List String → A) (xss : List (List String))
    → ((xs : List String) → f xs ≡ ok (g xs))
    → gather first (map f xss) ≡ ok (map g xss)
unfolding gather
gather-map first f g [] h = refl
gather-map first f g (xs ∷ xss) h = rw (h xs) (rw (gather-map first f g xss h) refl)

map-append : (p : String → Value) (xs ys : List String) → map p (xs ++ ys) ≡ map p xs ++ map p ys
map-append p [] ys = refl
map-append p (x ∷ xs) ys = ap (λ zs. p x ∷ zs) (map-append p xs ys)

concat-map :
    (p : String → Value) (xss : List (List String)) → concat (map (map p) xss) ≡ map p (concat xss)
concat-map p [] = refl
concat-map p (xs ∷ xss) =
    ap (λ zs. map p xs ++ zs) (concat-map p xss) ∙ sym (map-append p xs (concat xss))

elements-values_of : (vs : List Value) → elements (values_of vs) ≡ vs
unfolding elements values_of
elements-values_of [] = refl
elements-values_of (v ∷ vs) = ap (λ ws. v ∷ ws) (elements-values_of vs)

length-map : (p : String → Value) (xs : List String) → length (map p xs) ≡ length xs
length-map p [] = refl
length-map p (x ∷ xs) = ap suc (length-map p xs)

-- An answer with the prediction of each text.
abbrev pub Predicts : (String → Value) → (Value → Post) → Job → Type 0
Predicts p send job =
    (texts : List String)
    → send (predict_body job texts)
      ≡ response 200 (some (dict (field "predictions" (list (values_of (map p texts))) end)))

module _ (builtins : Builtins) (first : Error → Error → Error) where
  predict-predicted :
      (p : String → Value) (send : Value → Post) (job : Job) (texts : List String)
      → Predicts p send job
      → predict builtins send job texts ≡ ok (map p texts)
  unfolding predict answer_json predictions_of get
  predict-predicted p send job texts h = rw (h texts) (
      rw (elements-values_of (map p texts))
        (rw ((==_iff (length (map p texts)) (length texts)).1 (length-map p texts)) refl))

  -- When the model predicts each text by itself, the embeddings are those of the texts, one by one
  -- and in their order, whatever the size of the batches is.
  pub embed_all_predict-each :
      (p : String → Value) (send : Value → Post) (job : Job) (batch_size : ℤ) (texts : List String)
      → Predicts p send job
      → embed_all_predict builtins first send job batch_size texts
        ≡ collected (embedding_of builtins) (map p texts)
  unfolding embed_all_predict
  embed_all_predict-each p send job batch_size texts h =
      rw
        (gather-map first (predict builtins send job) (map p) (chunked texts batch_size)
          (λ xs. predict-predicted p send job xs h))
        (ap (collected (embedding_of builtins))
          (concat-map p (chunked texts batch_size) ∙ ap (map p) (concat-chunked texts batch_size)))
