-- ===== src/Usage/Parsers.antt =====
-- The parser of each provider (openai_compatible_bridge/core/provider_adapter.py), the older one for
-- all providers and the choice between them (openai_compatible_bridge/core/metered_http.py).
pub mod Agreement
pub mod Dimensions
mod Tests
use openai_compatible_bridge.Prelude.{
  ℕ, Bool, true, false, ◌&&◌, ◌||◌, Option, none, some, if◌then◌else◌,
}
use openai_compatible_bridge.Prelude.Maybe.{◌>>=◌}
use openai_compatible_bridge.Json.{Value, Fields, get, has, is_null, is_dict, object, is_text}
use openai_compatible_bridge.Usage.{
  NormalizedUsage, Endpoint, chat, embeddings, rerank, elsewhere, Provider, vertex, ollama, foundry,
  openai_compat, openai_compatible, jetbrains, unknown, is_error, google_usage, eval_usage,
  openai_usage, responses_usage, has_google, has_eval, has_openai, has_responses, chat_payload,
  embedding_usage, rerank_usage,
}

vertex_chat : Fields → Option NormalizedUsage
vertex_chat d =
    if has_google d
    then google_usage d
    else let usage = object (get "usage" d) in
      if has_openai usage
      then openai_usage usage
      else if has_responses usage
      then responses_usage usage
      else none

ollama_chat : Fields → Option NormalizedUsage
ollama_chat d =
    if is_text "response.completed" (get "type" d)
    then none
    else if has_eval d
    then eval_usage d
    else let usage = object (get "usage" d) in if has_openai usage then openai_usage usage else none

foundry_chat : Fields → Option NormalizedUsage
foundry_chat d =
    if has_google d
    then google_usage d
    else if has_eval d
    then none
    else let usage = object (get "usage" d) in
      if has_openai usage
      then openai_usage usage
      else if has_responses usage
      then responses_usage usage
      else none

openai_compat_chat : Fields → Option NormalizedUsage
openai_compat_chat d =
    let usage = object (get "usage" d) in
    if has_openai usage
    then openai_usage usage
    else if has_responses usage
    then responses_usage usage
    else none

raw_chat : Fields → Option NormalizedUsage
raw_chat d =
    if has_google d
    then google_usage d
    else if has_eval d
    then eval_usage d
    else let usage = object (get "usage" d) in
      if has_openai usage then openai_usage usage else responses_usage usage

-- The part of a parser behind the error check, for the one endpoint that it knows.
chat_only : (Fields → Option NormalizedUsage) → Endpoint → Fields → Option NormalizedUsage
chat_only parse chat d = parse d
chat_only parse _ d = none

-- The same for all endpoints.
any_endpoint : (Fields → Option NormalizedUsage) → Endpoint → Fields → Option NormalizedUsage
any_endpoint parse embeddings d = embedding_usage d
any_endpoint parse rerank d = rerank_usage d
any_endpoint parse chat d = parse d
any_endpoint parse elsewhere d = none

-- `parse_vertex_usage`
pub parse_vertex_usage : Value → Endpoint → Option NormalizedUsage
unfolding any_endpoint vertex_chat
parse_vertex_usage payload e =
    let d = object payload in
    if is_error d
    then none
    else any_endpoint (λ (x : Fields). do inner ← chat_payload x; vertex_chat inner) e d

-- `parse_ollama_usage`
pub parse_ollama_usage : Value → Endpoint → Option NormalizedUsage
unfolding chat_only ollama_chat
parse_ollama_usage payload e =
    let d = object payload in if is_error d then none else chat_only ollama_chat e d

-- `parse_foundry_usage`
pub parse_foundry_usage : Value → Endpoint → Option NormalizedUsage
unfolding chat_only foundry_chat
parse_foundry_usage payload e =
    let d = object payload in
    if is_error d
    then none
    else chat_only (λ (x : Fields). do inner ← chat_payload x; foundry_chat inner) e d

-- `parse_openai_compat_usage`
pub parse_openai_compat_usage : Value → Endpoint → Option NormalizedUsage
unfolding chat_only openai_compat_chat
parse_openai_compat_usage payload e =
    let d = object payload in
    if is_error d
    then none
    else chat_only (λ (x : Fields). do inner ← chat_payload x; openai_compat_chat inner) e d

-- `parse_usage_for_provider`
pub parse_usage_for_provider : Provider → Value → Endpoint → Option NormalizedUsage
unfolding parse_vertex_usage parse_ollama_usage parse_foundry_usage parse_openai_compat_usage
parse_usage_for_provider vertex payload e = parse_vertex_usage payload e
parse_usage_for_provider ollama payload e = parse_ollama_usage payload e
parse_usage_for_provider foundry payload e = parse_foundry_usage payload e
parse_usage_for_provider openai_compat payload e = parse_openai_compat_usage payload e
parse_usage_for_provider openai_compatible payload e = parse_openai_compat_usage payload e
parse_usage_for_provider jetbrains payload e = parse_foundry_usage payload e
parse_usage_for_provider unknown payload e = none

-- `_raw_usage`
pub raw_usage : Value → Endpoint → Option NormalizedUsage
unfolding any_endpoint raw_chat
raw_usage payload e =
    let d = object payload in
    if is_error d
    then none
    else any_endpoint (λ (x : Fields). do inner ← chat_payload x; raw_chat inner) e d

or_raw : Option NormalizedUsage → Value → Endpoint → Option NormalizedUsage
unfolding raw_usage
or_raw (some u) payload e = some u
or_raw none payload e = raw_usage payload e

-- The JetBrains chat response that stopped early, which is no error for its usage.
pub stopped_early : Provider → Value → Endpoint → Bool
stopped_early jetbrains payload chat =
    is_dict payload
    && (is_text "incomplete" (get "status" (object payload))
        && is_null (get "error" (object payload)))
stopped_early _ payload _ = false

-- `_observe_usage`
unfoldable pub observe_usage : Provider → Value → Endpoint → Option NormalizedUsage
unfolding or_raw parse_usage_for_provider stopped_early
observe_usage p payload e =
    if stopped_early p payload e
    then responses_usage (object (get "usage" (object payload)))
    else or_raw (parse_usage_for_provider p payload e) payload e
