-- ===== src/Providers/Compatible/Headers.antt =====
-- Who sets the headers of a request of openai_compatible_bridge/providers/openai_compatible.py.
use openai_compatible_bridge.Prelude.{
  ℕ, Bool, true, false, not, ◌||◌, Option, none, some, String, List, [], ◌∷◌, ◌≡◌, refl, sym, ap,
  ◌∙◌, if◌then◌else◌, Bool-cases, inl, inr, leb,
}
use openai_compatible_bridge.Prelude.Result.{
  ok, err, guard, Ensures, ◌>>◌, Ensures-bind, Ensures-then, Ensures-guard,
}
use openai_compatible_bridge.Prelude.Bytes.{codes, same_bytes, lower_bytes}
use openai_compatible_bridge.Prelude.Texts.{same-equal}
use openai_compatible_bridge.Json.{
  Value, Fields, null, bool, int, float, str, list, dict, end, field, get,
}
use openai_compatible_bridge.Providers.Ollama.{is_one_of}
use openai_compatible_bridge.Providers.Compatible.{
  config_error, is_header_name, is_reserved_name, reserved_headers, breaks_line, size_of,
  checked_headers, resolve_extra_headers, resolve_api_key, resolve_base_url, Header, set_header,
  with_headers, bearer, request_headers, Surroundings, ChatArguments, ChatRequest, chat_request,
}

-- The values of the headers of a name, which is written in lower case.
pub header_values : String → List Header → List (List ℕ)
header_values name [] = []
header_values name (h ∷ hs) =
    let rest = header_values name hs in
    if same_bytes (lower_bytes (h.0)) (codes name) then h.1 ∷ rest else rest

unequal : false ≡ true → ⊥
unequal h = cc

-- Another header leaves the values of a name as they are.
set_header-other :
    (k : String) (name value : List ℕ) (hs : List Header)
    → same_bytes (lower_bytes name) (codes k) ≡ false
    → header_values k (set_header name value hs) ≡ header_values k hs
unfolding header_values set_header
set_header-other k name value [] n = rw n refl
set_header-other k name value (h ∷ hs) n = elim (Bool-cases (same_bytes (h.0) name)) [
  | inl e ↦
      let other = ap (λ x. same_bytes (lower_bytes x) (codes k)) (same-equal (h.0) name e) ∙ n in
      rw e (rw n (rw other refl))
  | inr e ↦ rw e (rw (set_header-other k name value hs n) refl)
]

-- A header that has no value yet has the one that is set.
set_header-only :
    (k : String) (name value : List ℕ) (hs : List Header)
    → same_bytes (lower_bytes name) (codes k) ≡ true
    → header_values k hs ≡ []
    → header_values k (set_header name value hs) ≡ value ∷ []
unfolding header_values set_header
set_header-only k name value [] n e = rw n refl
set_header-only k name value (h ∷ hs) n e =
    elim (Bool-cases (same_bytes (lower_bytes (h.0)) (codes k))) [
      | inl m ↦ absurd (filled (header_values k hs) (rw m at e))
      | inr m ↦ elim (Bool-cases (same_bytes (h.0) name)) [
        | inl s ↦ absurd (clash s m)
        | inr s ↦ rw s (rw m (set_header-only k name value hs n (rw m at e)))
      ]
    ]
  where
    filled : (vs : List (List ℕ)) → (h.1 ∷ vs) ≡ [] → ⊥
    filled vs p = cc

    clash : same_bytes (h.0) name ≡ true → same_bytes (lower_bytes (h.0)) (codes k) ≡ false → ⊥
    clash s m =
        unequal
          (sym m ∙ ap (λ x. same_bytes (lower_bytes x) (codes k)) (same-equal (h.0) name s) ∙ n)

-- No name is reserved.
pub AreFree : Fields → Type 0
AreFree end = Unit
AreFree (field name v d) = (is_reserved_name name ≡ false) × AreFree d

checked_headers-AreFree : (d : Fields) → Ensures AreFree (checked_headers d)
unfolding checked_headers AreFree
checked_headers-AreFree end = tt
checked_headers-AreFree (field name (str value) d) =
    Ensures-then AreFree (guard (is_header_name (codes name)) config_error) _ (λ a.
      Ensures-bind _ AreFree _ _
        (Ensures-guard (not (is_reserved_name name || breaks_line value)) config_error)
        (λ b free.
          Ensures-bind AreFree AreFree _ (λ rest. ok (field name (str value) rest))
            (checked_headers-AreFree d) (λ rest h. (unreserved (is_reserved_name name) free, h))))
  where
    unreserved : (b : Bool) → not (b || breaks_line value) ≡ true → b ≡ false
    unreserved true h = absurd cc
    unreserved false h = refl
checked_headers-AreFree (field name null d) = tt
checked_headers-AreFree (field name (bool b) d) = tt
checked_headers-AreFree (field name (int n) d) = tt
checked_headers-AreFree (field name (float t) d) = tt
checked_headers-AreFree (field name (list vs) d) = tt
checked_headers-AreFree (field name (dict e) d) = tt

resolve_extra_headers-AreFree : (cfg : Fields) → Ensures AreFree (resolve_extra_headers cfg)
unfolding resolve_extra_headers AreFree
resolve_extra_headers-AreFree cfg = found (get "extra_headers" cfg)
  where
    found :
        (v : Value)
        → Ensures AreFree (elim v [
          | null ↦ ok end
          | dict extra ↦ guard (leb (size_of extra) 16) config_error >> checked_headers extra
          | _ ↦ err config_error
        ])
    found (dict extra) =
        Ensures-then AreFree (guard (leb (size_of extra) 16) config_error) _
          (λ a. checked_headers-AreFree extra)
    found null = tt
    found (bool b) = tt
    found (int n) = tt
    found (float t) = tt
    found (str t) = tt
    found (list vs) = tt

-- A name of the list that none of the words is.
not_one_of :
    (k : String) (x : List ℕ)
    → is_one_of (codes k) reserved_headers ≡ true
    → is_one_of x reserved_headers ≡ false
    → same_bytes x (codes k) ≡ false
not_one_of k x r n = elim (Bool-cases (same_bytes x (codes k))) [
  | inl e ↦
      absurd
        (unequal (sym n ∙ ap (λ y. is_one_of y reserved_headers) (same-equal x (codes k) e) ∙ r))
  | inr e ↦ e
]

-- Headers whose names are not reserved leave the reserved ones as they are.
with_headers-reserved :
    (k : String) (headers : List Header) (extra : Fields)
    → is_one_of (codes k) reserved_headers ≡ true
    → AreFree extra
    → header_values k (with_headers headers extra) ≡ header_values k headers
unfolding with_headers AreFree is_reserved_name
with_headers-reserved k headers end r h = refl
with_headers-reserved k headers (field name (str value) d) r h =
    with_headers-reserved k (set_header (codes name) (codes value) headers) d r (h.1)
    ∙ set_header-other k (codes name) (codes value) headers
        (not_one_of k (lower_bytes (codes name)) r (h.0))
with_headers-reserved k headers (field name null d) r h = with_headers-reserved k headers d r (h.1)
with_headers-reserved k headers (field name (bool b) d) r h =
    with_headers-reserved k headers d r (h.1)
with_headers-reserved k headers (field name (int n) d) r h =
    with_headers-reserved k headers d r (h.1)
with_headers-reserved k headers (field name (float t) d) r h =
    with_headers-reserved k headers d r (h.1)
with_headers-reserved k headers (field name (list vs) d) r h =
    with_headers-reserved k headers d r (h.1)
with_headers-reserved k headers (field name (dict e) d) r h =
    with_headers-reserved k headers d r (h.1)

-- The value of `Authorization` with a key, and none without.
abbrev pub authorization : Option (List ℕ) → List (List ℕ)
authorization none = []
authorization (some key) = bearer key ∷ []

-- The headers of a request that the bridge answers for.
pub record AreOwned (api_key : Option (List ℕ)) (headers : List Header) : Type 0 where
  pub key : header_values "authorization" headers ≡ authorization api_key
  pub json : header_values "content-type" headers ≡ codes "application/json" ∷ []
  pub no_host : header_values "host" headers ≡ []
  pub no_length : header_values "content-length" headers ≡ []
  pub no_encoding : header_values "transfer-encoding" headers ≡ []

abbrev begin : List Header
begin = (codes "Content-Type", codes "application/json") ∷ []

request_headers-AreOwned :
    (api_key : Option (List ℕ)) (extra : Fields)
    → AreFree extra
    → AreOwned api_key (request_headers api_key extra)
unfolding request_headers header_values lower_bytes
request_headers-AreOwned api_key extra free = owned api_key
  where
    kept :
        (k : String)
        → is_one_of (codes k) reserved_headers ≡ true
        → header_values k (with_headers begin extra) ≡ header_values k begin
    kept k r = with_headers-reserved k begin extra r free

    beside :
        (k : String) (key : List ℕ)
        → is_one_of (codes k) reserved_headers ≡ true
        → same_bytes (lower_bytes (codes "Authorization")) (codes k) ≡ false
        → header_values k
            (set_header (codes "Authorization") (bearer key) (with_headers begin extra))
          ≡ header_values k begin
    beside k key r n =
        set_header-other k (codes "Authorization") (bearer key) (with_headers begin extra) n
        ∙ kept k r

    owned : (api_key : Option (List ℕ)) → AreOwned api_key (request_headers api_key extra)
    owned none = record {
      key = kept "authorization" refl;
      json = kept "content-type" refl;
      no_host = kept "host" refl;
      no_length = kept "content-length" refl;
      no_encoding = kept "transfer-encoding" refl;
    }
    owned (some key) = record {
      key =
          set_header-only "authorization" (codes "Authorization") (bearer key)
            (with_headers begin extra) refl (kept "authorization" refl);
      json = beside "content-type" key refl refl;
      no_host = beside "host" key refl refl;
      no_length = beside "content-length" key refl refl;
      no_encoding = beside "transfer-encoding" key refl refl;
    }

-- Whatever headers an alias configures, and in whatever case it writes their names: a request that is
-- sent has the alias's key as its only `Authorization`, or no `Authorization` where there is no key,
-- `application/json` as its only `Content-Type`, and no `Host`, `Content-Length` and
-- `Transfer-Encoding` of the alias.
pub chat_request-AreOwned :
    (outside : Surroundings) (cfg : Fields) (a : ChatArguments) (stream : Bool)
    → Ensures
        (λ (r : ChatRequest). AreOwned (resolve_api_key outside cfg) (r.headers))
        (chat_request outside cfg a stream)
unfolding chat_request
chat_request-AreOwned outside cfg a stream =
    let Owned = λ (r : ChatRequest). AreOwned (resolve_api_key outside cfg) (r.headers) in
    Ensures-then Owned (resolve_base_url outside cfg) _ (λ base_url.
      Ensures-bind AreFree Owned (resolve_extra_headers cfg) _ (resolve_extra_headers-AreFree cfg)
        (λ extra free. request_headers-AreOwned (resolve_api_key outside cfg) extra free))
