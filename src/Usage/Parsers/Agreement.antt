-- ===== src/Usage/Parsers/Agreement.antt =====
-- The parsers of the providers against the older parser for all of them
-- (openai_compatible_bridge/core/metered_http.py and core/provider_adapter.py).
use openai_compatible_bridge.Prelude.{
  ◌≡◌, refl, inl, inr, Bool, true, false, Option, none, some, arith, if◌then◌else◌, Option-cases,
}
use openai_compatible_bridge.Prelude.Maybe.{◌>>=◌}
use openai_compatible_bridge.Json.{Value, Fields, object}
use openai_compatible_bridge.Usage.{
  NormalizedUsage, Endpoint, chat, embeddings, rerank, elsewhere, Provider, vertex, ollama, foundry,
  openai_compat, openai_compatible, jetbrains, unknown, is_error, has_google, has_eval,
  chat_payload,
}
use openai_compatible_bridge.Usage.Parsers.{
  vertex_chat, ollama_chat, foundry_chat, openai_compat_chat, raw_chat, chat_only, any_endpoint,
  parse_vertex_usage, parse_usage_for_provider, raw_usage, or_raw, stopped_early, observe_usage,
}

-- On one chat payload: where the provider's parser finds a usage, so does the older one, the same.
foundry_chat-raw_chat :
    (d : Fields) (u : NormalizedUsage) → foundry_chat d ≡ some u → raw_chat d ≡ some u
unfolding foundry_chat raw_chat
foundry_chat-raw_chat d u h = ground (arith, h)

vertex_chat-raw_chat :
    (d : Fields) (u : NormalizedUsage)
    → (has_google d ≡ false → has_eval d ≡ false)
    → vertex_chat d ≡ some u
    → raw_chat d ≡ some u
unfolding vertex_chat raw_chat
vertex_chat-raw_chat d u n h = ground (arith, h, n)

openai_compat_chat-raw_chat :
    (d : Fields) (u : NormalizedUsage)
    → has_google d ≡ false
    → has_eval d ≡ false
    → openai_compat_chat d ≡ some u
    → raw_chat d ≡ some u
unfolding openai_compat_chat raw_chat
openai_compat_chat-raw_chat d u g n h = ground (arith, h)

ollama_chat-raw_chat :
    (d : Fields) (u : NormalizedUsage)
    → has_google d ≡ false
    → ollama_chat d ≡ some u
    → raw_chat d ≡ some u
unfolding ollama_chat raw_chat
ollama_chat-raw_chat d u g h = ground (arith, h)

-- The keys that a provider's parser does not look at do not stand in the chat payload.
abbrev pub HasOwnKeys : Provider → Fields → Type 0
HasOwnKeys vertex d = has_google d ≡ false → has_eval d ≡ false
HasOwnKeys ollama d = has_google d ≡ false
HasOwnKeys openai_compat d = (has_google d ≡ false) × (has_eval d ≡ false)
HasOwnKeys openai_compatible d = (has_google d ≡ false) × (has_eval d ≡ false)
HasOwnKeys _ d = Unit

-- The parser that each provider uses on a chat payload.
chat_parser : Provider → Fields → Option NormalizedUsage
chat_parser vertex d = vertex_chat d
chat_parser ollama d = ollama_chat d
chat_parser foundry d = foundry_chat d
chat_parser jetbrains d = foundry_chat d
chat_parser openai_compat d = openai_compat_chat d
chat_parser openai_compatible d = openai_compat_chat d
chat_parser unknown d = none

chat_parser-raw_chat :
    (p : Provider) (d : Fields) (u : NormalizedUsage)
    → HasOwnKeys p d
    → chat_parser p d ≡ some u
    → raw_chat d ≡ some u
unfolding chat_parser
chat_parser-raw_chat vertex d u k h = vertex_chat-raw_chat d u k h
chat_parser-raw_chat ollama d u k h = ollama_chat-raw_chat d u k h
chat_parser-raw_chat foundry d u k h = foundry_chat-raw_chat d u h
chat_parser-raw_chat jetbrains d u k h = foundry_chat-raw_chat d u h
chat_parser-raw_chat openai_compat d u k h = openai_compat_chat-raw_chat d u k.0 k.1 h
chat_parser-raw_chat openai_compatible d u k h = openai_compat_chat-raw_chat d u k.0 k.1 h
chat_parser-raw_chat unknown d u k h = cc

-- On the payload of a chat response, inside a completion event or not.
inner-raw_chat :
    (p : Provider) (o : Option Fields) (u : NormalizedUsage)
    → ((d : Fields) → o ≡ some d → HasOwnKeys p d)
    → (o >>= λ d. chat_parser p d) ≡ some u
    → (o >>= λ d. raw_chat d) ≡ some u
inner-raw_chat p none u k h = cc
inner-raw_chat p (some d) u k h = chat_parser-raw_chat p d u (k d refl) h

ollama-inner :
    (d : Fields) (u : NormalizedUsage)
    → ollama_chat d ≡ some u
    → (chat_payload d >>= λ x. chat_parser ollama x) ≡ some u
unfolding ollama_chat chat_payload chat_parser
ollama-inner d u h = ground (arith, h)

-- Both parsers refuse an error response first.
unless_some :
    (b : Bool) (x y : Option NormalizedUsage) (u : NormalizedUsage)
    → (x ≡ some u → y ≡ some u)
    → (if b then none else x) ≡ some u
    → (if b then none else y) ≡ some u
unless_some true x y u k h = h
unless_some false x y u k h = k h

-- A parser that knows chat alone.
chat_only-raw_usage :
    (p : Provider) (parse : Fields → Option NormalizedUsage) (payload : Value) (e : Endpoint)
    (u : NormalizedUsage)
    → (parse (object payload) ≡ some u
        → (chat_payload (object payload) >>= λ d. chat_parser p d) ≡ some u)
    → ((d : Fields) → chat_payload (object payload) ≡ some d → HasOwnKeys p d)
    → (if is_error (object payload) then none else chat_only parse e (object payload)) ≡ some u
    → raw_usage payload e ≡ some u
unfolding raw_usage chat_only any_endpoint
chat_only-raw_usage p parse payload chat u i k h =
    unless_some (is_error (object payload)) _ _ u
      (λ q. inner-raw_chat p (chat_payload (object payload)) u k (i q)) h
chat_only-raw_usage p parse payload embeddings u i k h = ground (arith, h)
chat_only-raw_usage p parse payload rerank u i k h = ground (arith, h)
chat_only-raw_usage p parse payload elsewhere u i k h = ground (arith, h)

parse_vertex-raw_usage :
    (payload : Value) (e : Endpoint) (u : NormalizedUsage)
    → ((d : Fields) → chat_payload (object payload) ≡ some d → HasOwnKeys vertex d)
    → parse_vertex_usage payload e ≡ some u
    → raw_usage payload e ≡ some u
unfolding raw_usage parse_vertex_usage any_endpoint chat_parser
parse_vertex-raw_usage payload chat u k h =
    unless_some (is_error (object payload)) _ _ u
      (λ q. inner-raw_chat vertex (chat_payload (object payload)) u k q) h
parse_vertex-raw_usage payload embeddings u k h = h
parse_vertex-raw_usage payload rerank u k h = h
parse_vertex-raw_usage payload elsewhere u k h = h

parse-raw_usage :
    (p : Provider) (payload : Value) (e : Endpoint) (u : NormalizedUsage)
    → ((d : Fields) → chat_payload (object payload) ≡ some d → HasOwnKeys p d)
    → parse_usage_for_provider p payload e ≡ some u
    → raw_usage payload e ≡ some u
unfolding parse_usage_for_provider chat_parser
parse-raw_usage vertex payload e u k h = parse_vertex-raw_usage payload e u k h
parse-raw_usage ollama payload e u k h =
    chat_only-raw_usage ollama ollama_chat payload e u (ollama-inner (object payload) u) k h
parse-raw_usage foundry payload e u k h =
    chat_only-raw_usage foundry (λ (x : Fields). chat_payload x >>= λ d. foundry_chat d) payload e u
      (λ q. q) k h
parse-raw_usage jetbrains payload e u k h =
    chat_only-raw_usage jetbrains (λ (x : Fields). chat_payload x >>= λ d. foundry_chat d) payload e
      u (λ q. q) k h
parse-raw_usage openai_compat payload e u k h =
    chat_only-raw_usage openai_compat (λ (x : Fields). chat_payload x >>= λ d. openai_compat_chat d)
      payload e u (λ q. q) k h
parse-raw_usage openai_compatible payload e u k h =
    chat_only-raw_usage openai_compatible
      (λ (x : Fields). chat_payload x >>= λ d. openai_compat_chat d) payload e u (λ q. q) k h
parse-raw_usage unknown payload e u k h = cc

-- Where the keys that a provider's parser ignores are absent from the chat payload, and the response
-- is no JetBrains one that stopped early, the provider's own parser changes nothing: the observed
-- usage is that of the older parser, for every provider, payload and endpoint.
pub observe_usage-eq-raw_usage :
    (p : Provider) (payload : Value) (e : Endpoint)
    → stopped_early p payload e ≡ false
    → ((d : Fields) → chat_payload (object payload) ≡ some d → HasOwnKeys p d)
    → observe_usage p payload e ≡ raw_usage payload e
unfolding observe_usage or_raw
observe_usage-eq-raw_usage p payload e s k =
    elim (Option-cases (parse_usage_for_provider p payload e)) [
      | inl n ↦ rw (s, n)
      | inr (u, q) ↦ rw (s, q, parse-raw_usage p payload e u k q)
    ]
