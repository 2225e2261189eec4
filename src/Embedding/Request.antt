-- ===== src/Embedding/Request.antt =====
-- The request checks of EmbeddingRequestLimits (openai_compatible_bridge/embedding_limits.py): the
-- route and the declared length in `__call__`, and the body in `_receive_body`. Header names and
-- values and the body are bytes; a path is its code points.
pub mod Body
pub mod Declared
mod Tests
use openai_compatible_bridge.Prelude.{
  ℕ, ◌+◌, Bool, true, false, not, ◌&&◌, ◌||◌, Option, none, some, String, List, [], ◌∷◌, ◌++◌, ◌==◌,
  if◌then◌else◌, ltb, leb, str_eq, length,
}
use openai_compatible_bridge.Prelude.Bytes.{
  codes, same_bytes, lower_bytes, is_number, digits_value, rstrip,
}

-- The ASGI scope, as far as it is read.
pub record RequestScope : Type 0 where
  pub kind : String
  pub method : Option String
  pub path : List ℕ
  pub headers : List (List ℕ × List ℕ)

-- Why `_reject` answers.
pub data Rejection : Type 0 where
  invalid_content_length request_too_large length_mismatch concurrency_limit : Rejection

-- The status of each answer of `_reject`.
pub rejection_status : Rejection → ℕ
rejection_status invalid_content_length = 400
rejection_status request_too_large = 413
rejection_status length_mismatch = 400
rejection_status concurrency_limit = 429

-- `__call__` up to its tasks: the request is none of its business, is refused, or is served with
-- the length that it declares.
pub data Admission : Type 0 where
  pass_through : Admission
  refused : Rejection → Admission
  served : Option ℕ → Admission

text_is : Option String → String → Bool
text_is none t = false
text_is (some s) t = str_eq s t

-- The test on the scope: a POST to /v1/embeddings, trailing slashes aside.
pub is_embedding_request : RequestScope → Bool
unfolding text_is rstrip
is_embedding_request r =
    str_eq r.kind "http"
    && text_is r.method "POST"
    && same_bytes (rstrip b'/' r.path) (codes "/v1/embeddings")

-- The values of the content-length headers, in order.
pub content_lengths : List (List ℕ × List ℕ) → List (List ℕ)
unfolding lower_bytes
content_lengths [] = []
content_lengths ((name, value) ∷ hs) =
    let rest = content_lengths hs in
    if same_bytes (lower_bytes name) (codes "content-length") then value ∷ rest else rest

-- Digits that `int` reads: it refuses more than 4300 of them with a ValueError.
abbrev pub is_readable : List ℕ → Bool
is_readable value = is_number value && leb (length value) 4300

-- The check of the declared length against the limit.
check_declared : ℕ → List (List ℕ) → Admission
unfolding digits_value
check_declared max_bytes [] = served none
check_declared max_bytes (value ∷ []) =
    if not (is_readable value)
    then refused invalid_content_length
    else if ltb max_bytes (digits_value 0 value)
    then refused request_too_large
    else served (some (digits_value 0 value))
check_declared max_bytes (value ∷ other ∷ values) = refused invalid_content_length

pub admit : ℕ → RequestScope → Admission
unfolding is_embedding_request content_lengths check_declared
admit max_bytes r =
    if not (is_embedding_request r)
    then pass_through
    else check_declared max_bytes (content_lengths r.headers)

-- An ASGI event: the end of the connection, a part of the body (and whether more follows), or any
-- other.
pub data Received : Type 0 where
  disconnect : Received
  chunk : List ℕ → Bool → Received
  unknown : Received

-- What `_receive_body` comes to. `starved` is a wait for an event that has not come.
pub data Reception : Type 0 where
  disconnected starved : Reception
  rejected : Rejection → Reception
  ready : List ℕ → Reception

-- The check behind the loop.
check_length : Option ℕ → List ℕ → Reception
check_length none body = ready body
check_length (some n) body = if n == length body then ready body else rejected length_mismatch

-- `_receive_body`, with the bytes buffered so far.
pub receive_body : ℕ → Option ℕ → List ℕ → List Received → Reception
unfolding check_length
receive_body max_bytes declared body [] = starved
receive_body max_bytes declared body (disconnect ∷ events) = disconnected
receive_body max_bytes declared body (unknown ∷ events) =
    receive_body max_bytes declared body events
receive_body max_bytes declared body (chunk piece more ∷ events) =
    let rest = receive_body max_bytes declared (body ++ piece) events in
    if ltb max_bytes (length body + length piece)
    then rejected request_too_large
    else if more
    then rest
    else check_length declared (body ++ piece)
