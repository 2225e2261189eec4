-- ===== src/Usage/Parsers/Dimensions.antt =====
-- Which responses yield a usage, and which of its counters they can set
-- (openai_compatible_bridge/core/metered_http.py and core/provider_adapter.py).
use mathlib.Core.Path.{subst}
use openai_compatible_bridge.Prelude.{
  ℕ, ◌≡◌, refl, inl, inr, Bool, true, false, Option, none, some, arith, if◌then◌else◌, Bool-cases,
  ◌+◌, String, some_inj,
}
use openai_compatible_bridge.Prelude.Maybe.{◌>>=◌}
use openai_compatible_bridge.Json.{Value, Fields, get, object, count_of}
use openai_compatible_bridge.Usage.{
  NormalizedUsage, Endpoint, chat, embeddings, rerank, elsewhere, Provider, vertex, ollama, foundry,
  openai_compat, openai_compatible, jetbrains, unknown, is_error, google_usage, eval_usage,
  openai_usage, responses_usage, chat_payload, embedding_usage, rerank_usage, no_usage, chat_usage,
  with_thoughts, count_or, embedding_count,
}
use openai_compatible_bridge.Usage.Parsers.{
  vertex_chat, ollama_chat, foundry_chat, openai_compat_chat, raw_chat, chat_only, any_endpoint,
  parse_foundry_usage, parse_openai_compat_usage, parse_usage_for_provider, raw_usage, or_raw,
  stopped_early, observe_usage,
}

-- The counters that a response of this endpoint can set.
abbrev pub Bills : Endpoint → NormalizedUsage → Type 0
Bills chat u = (u.embedding_tokens ≡ 0) × (u.rerank_units ≡ 0)
Bills embeddings u =
    (u.total_tokens ≡ u.embedding_tokens)
    × (u.prompt_tokens ≡ 0)
    × (u.completion_tokens ≡ 0)
    × (u.rerank_units ≡ 0)
Bills rerank u =
    (u.prompt_tokens ≡ 0)
    × (u.completion_tokens ≡ 0)
    × (u.total_tokens ≡ 0)
    × (u.embedding_tokens ≡ 0)
Bills elsewhere u = ⊥

-- A usage, if there is one, has the property.
abbrev pub Holds : (NormalizedUsage → Type 0) → Option NormalizedUsage → Type 0
Holds P none = Unit
Holds P (some u) = P u

chat_usage-Bills :
    (d : Fields) (a b c : String) (t : Option String) → Holds (Bills chat) (chat_usage d a b c t)
unfolding chat_usage
chat_usage-Bills d a b c t = done (count_of (get a d)) (count_of (get b d))
  where
    total :
        (p n : ℕ) (o : Option ℕ)
        → Holds (Bills chat) (
            o >>= λ k.
            some (record no_usage { prompt_tokens = p; completion_tokens = n; total_tokens = k }))
    total p n none = tt
    total p n (some k) = (refl, refl)

    sum :
        (p : ℕ) (o : Option ℕ)
        → Holds (Bills chat) (
            o >>= λ n. count_or c (some (p + n)) d >>= λ k.
            some (record no_usage { prompt_tokens = p; completion_tokens = n; total_tokens = k }))
    sum p none = tt
    sum p (some n) = total p n (count_or c (some (p + n)) d)

    done :
        (x y : Option ℕ)
        → Holds (Bills chat) (
            x >>= λ p. y >>= λ m. with_thoughts t d m >>= λ n. count_or c (some (p + n)) d >>= λ k.
            some (record no_usage { prompt_tokens = p; completion_tokens = n; total_tokens = k }))
    done none y = tt
    done (some p) none = tt
    done (some p) (some m) = sum p (with_thoughts t d m)

module _ (d : Fields) where
  google-Bills : Holds (Bills chat) (google_usage d)
  unfolding google_usage
  google-Bills =
      chat_usage-Bills (object (get "usageMetadata" d)) "promptTokenCount" "candidatesTokenCount"
        "totalTokenCount" (some "thoughtsTokenCount")

  eval-Bills : Holds (Bills chat) (eval_usage d)
  unfolding eval_usage
  eval-Bills = chat_usage-Bills d "prompt_eval_count" "eval_count" "total_tokens" none

  openai-Bills : Holds (Bills chat) (openai_usage d)
  unfolding openai_usage
  openai-Bills = chat_usage-Bills d "prompt_tokens" "completion_tokens" "total_tokens" none

  responses-Bills : Holds (Bills chat) (responses_usage d)
  unfolding responses_usage
  responses-Bills = chat_usage-Bills d "input_tokens" "output_tokens" "total_tokens" none

if-Holds :
    (P : NormalizedUsage → Type 0) (b : Bool) (x y : Option NormalizedUsage)
    → Holds P x
    → Holds P y
    → Holds P (if b then x else y)
if-Holds P true x y h k = h
if-Holds P false x y h k = k

bind-Holds :
    (P : NormalizedUsage → Type 0) (o : Option Fields) (f : Fields → Option NormalizedUsage)
    → ((d : Fields) → Holds P (f d))
    → Holds P (o >>= f)
bind-Holds P none f h = tt
bind-Holds P (some d) f h = h d

ruleset chat_rules = (if-Holds, google-Bills, eval-Bills, openai-Bills, responses-Bills)

module _ (d : Fields) where
  vertex_chat-Bills : Holds (Bills chat) (vertex_chat d)
  unfolding vertex_chat
  vertex_chat-Bills = search (chat_rules, tt)

  ollama_chat-Bills : Holds (Bills chat) (ollama_chat d)
  unfolding ollama_chat
  ollama_chat-Bills = search (chat_rules, tt)

  foundry_chat-Bills : Holds (Bills chat) (foundry_chat d)
  unfolding foundry_chat
  foundry_chat-Bills = search (chat_rules, tt)

  openai_compat_chat-Bills : Holds (Bills chat) (openai_compat_chat d)
  unfolding openai_compat_chat
  openai_compat_chat-Bills = search (chat_rules, tt)

  raw_chat-Bills : Holds (Bills chat) (raw_chat d)
  unfolding raw_chat
  raw_chat-Bills = search chat_rules

embedding-Bills : (d : Fields) → Holds (Bills embeddings) (embedding_usage d)
unfolding embedding_usage
embedding-Bills d = counted (embedding_count d)
  where
    counted :
        (o : Option ℕ)
        → Holds
            (Bills embeddings)
            (o >>= λ n. some (record no_usage { embedding_tokens = n; total_tokens = n }))
    counted none = tt
    counted (some n) = (refl, refl, refl, refl)

rerank-Bills : (d : Fields) → Holds (Bills rerank) (rerank_usage d)
unfolding rerank_usage
rerank-Bills d = counted (count_of (get "rerank_units" (object (get "usage" d))))
  where
    counted :
        (o : Option ℕ)
        → Holds (Bills rerank) (o >>= λ n. some (record no_usage { rerank_units = n }))
    counted none = tt
    counted (some n) = (refl, refl, refl, refl)

module _ (parse : Fields → Option NormalizedUsage)
    (bills : (d : Fields) → Holds (Bills chat) (parse d)) where
  any_endpoint-Bills : (e : Endpoint) (d : Fields) → Holds (Bills e) (any_endpoint parse e d)
  unfolding any_endpoint
  any_endpoint-Bills chat d = bills d
  any_endpoint-Bills embeddings d = embedding-Bills d
  any_endpoint-Bills rerank d = rerank-Bills d
  any_endpoint-Bills elsewhere d = tt

  chat_only-Bills : (e : Endpoint) (d : Fields) → Holds (Bills e) (chat_only parse e d)
  unfolding chat_only
  chat_only-Bills chat d = bills d
  chat_only-Bills embeddings d = tt
  chat_only-Bills rerank d = tt
  chat_only-Bills elsewhere d = tt

-- Behind the error check: a usage, if there is one, is of no error response, and bills its endpoint.
abbrev pub Sound : Value → Endpoint → NormalizedUsage → Type 0
Sound payload e u = (is_error (object payload) ≡ false) × Bills e u

checked-Sound :
    (payload : Value) (e : Endpoint) (o : Option NormalizedUsage)
    → Holds (Bills e) o
    → Holds (Sound payload e) (if is_error (object payload) then none else o)
checked-Sound payload e none h =
    if-Holds (Sound payload e) (is_error (object payload)) none none tt tt
checked-Sound payload e (some u) h = elim (Bool-cases (is_error (object payload))) [
  | inl b ↦ rw b tt
  | inr b ↦ rw b (b, h)
]

inner-Bills :
    (parse : Fields → Option NormalizedUsage)
    → ((d : Fields) → Holds (Bills chat) (parse d))
    → (d : Fields) → Holds (Bills chat) (chat_payload d >>= parse)
inner-Bills parse h d = bind-Holds (Bills chat) (chat_payload d) parse h

module _ (payload : Value) (e : Endpoint) where
  raw_usage-Sound : Holds (Sound payload e) (raw_usage payload e)
  unfolding raw_usage
  raw_usage-Sound = checked-Sound payload e _ (
      any_endpoint-Bills (λ (x : Fields). chat_payload x >>= λ d. raw_chat d)
        (inner-Bills (λ d. raw_chat d) raw_chat-Bills) e (object payload))

  foundry-Sound : Holds (Sound payload e) (parse_foundry_usage payload e)
  unfolding parse_foundry_usage
  foundry-Sound = checked-Sound payload e _ (
      chat_only-Bills (λ (x : Fields). chat_payload x >>= λ d. foundry_chat d)
        (inner-Bills (λ d. foundry_chat d) foundry_chat-Bills) e (object payload))

  openai_compat-Sound : Holds (Sound payload e) (parse_openai_compat_usage payload e)
  unfolding parse_openai_compat_usage
  openai_compat-Sound = checked-Sound payload e _ (
      chat_only-Bills (λ (x : Fields). chat_payload x >>= λ d. openai_compat_chat d)
        (inner-Bills (λ d. openai_compat_chat d) openai_compat_chat-Bills) e (object payload))

  parse-Sound : (p : Provider) → Holds (Sound payload e) (parse_usage_for_provider p payload e)
  unfolding parse_usage_for_provider
  parse-Sound vertex = checked-Sound payload e _ (
      any_endpoint-Bills (λ (x : Fields). chat_payload x >>= λ d. vertex_chat d)
        (inner-Bills (λ d. vertex_chat d) vertex_chat-Bills) e (object payload))
  parse-Sound ollama =
      checked-Sound payload e _ (chat_only-Bills ollama_chat ollama_chat-Bills e (object payload))
  parse-Sound foundry = foundry-Sound
  parse-Sound jetbrains = foundry-Sound
  parse-Sound openai_compat = openai_compat-Sound
  parse-Sound openai_compatible = openai_compat-Sound
  parse-Sound unknown = tt

or_raw-Sound :
    (payload : Value) (e : Endpoint) (o : Option NormalizedUsage)
    → Holds (Sound payload e) o
    → Holds (Sound payload e) (or_raw o payload e)
unfolding or_raw
or_raw-Sound payload e none h = raw_usage-Sound payload e
or_raw-Sound payload e (some u) h = h

Holds-eq :
    (P : NormalizedUsage → Type 0) (o : Option NormalizedUsage) (u : NormalizedUsage)
    → o ≡ some u
    → Holds P o
    → P u
Holds-eq P none u q h = cc
Holds-eq P (some v) u q h = subst P (some_inj q) h

-- A usage that is observed, in a response that is no JetBrains chat response that stopped early, is
-- that of a response which is no error, and sets only the counters of the endpoint asked for:
-- prompt, completion and total tokens for a chat, embedding tokens (which are the total) for
-- embeddings, units for a rerank. For any other endpoint there is none.
pub observe_usage-Sound :
    (p : Provider) (payload : Value) (e : Endpoint) (u : NormalizedUsage)
    → stopped_early p payload e ≡ false
    → observe_usage p payload e ≡ some u
    → Sound payload e u
unfolding observe_usage
observe_usage-Sound p payload e u s h =
    Holds-eq (Sound payload e) (or_raw (parse_usage_for_provider p payload e) payload e) u
      (ground (arith, s, h))
      (or_raw-Sound payload e (parse_usage_for_provider p payload e) (parse-Sound payload e p))
