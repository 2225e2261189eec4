-- ===== src/Embedding/Request/Tests.antt =====
-- Runs of the request checks, and the instances of their theorems.
use openai_compatible_bridge.Prelude.{
  ℕ, ◌≤◌, ◌≡◌, ◌↔◌, refl, none, some, List, [], ◌∷◌, true, false, length,
}
use openai_compatible_bridge.Prelude.Bytes.{codes}
use openai_compatible_bridge.Embedding.Request.{
  RequestScope, Received, chunk, unknown, ready, rejected, refused, served, request_too_large,
  receive_body, admit,
}
use openai_compatible_bridge.Embedding.Request.Body.{sent_body, Declares, receive_body_exact}
use openai_compatible_bridge.Embedding.Request.Declared.{
  IsEmbeddingPost, HasSoleLength, IsDecimal, admit_exact,
}

abbrev parts : List Received
parts = chunk (1 ∷ 2 ∷ []) true ∷ unknown ∷ chunk (3 ∷ []) false ∷ []

abbrev whole_body : List ℕ
whole_body = 1 ∷ 2 ∷ 3 ∷ []

too_large : receive_body 2 none [] parts ≡ rejected request_too_large
unfolding receive_body
too_large = refl

receive_body_exact_example : (receive_body 3 (some 3) [] parts ≡ ready whole_body) ↔ (
    (sent_body parts ≡ some whole_body)
    × (length whole_body ≤ 3)
    × Declares (some 3) (length whole_body))
receive_body_exact_example = receive_body_exact 3 (some 3) parts whole_body

abbrev post : RequestScope
post = record {
  kind = "http";
  method = some "POST";
  path = codes "/v1/embeddings/";
  headers = (codes "Content-Length", codes "42") ∷ [];
}

post_served : admit 100 post ≡ served (some 42)
unfolding admit
post_served = refl

too_long_rejected : admit 41 post ≡ refused request_too_large
unfolding admit
too_long_rejected = refl

admit_exact_example : (admit 100 post ≡ served (some 42)) ↔ (
    IsEmbeddingPost post
    × ((value : List ℕ) × HasSoleLength post.headers value × IsDecimal value 42)
    × (42 ≤ 100))
admit_exact_example = admit_exact 100 post 42
