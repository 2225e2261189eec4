-- ===== src/Lib.antt =====
-- A model of openai-compatible-bridge, a gateway that serves several providers of language models
-- under one interface and accounts for what their use costs.
--
-- The parts and how they interact. A request for embeddings passes
-- openai_compatible_bridge/embedding_limits.py, which admits it, gives it one of a bounded number of
-- slots and reads its body. The provider's client sends it, for embeddings under the retry policy of
-- openai_compatible_bridge/core/embedding_resilience.py. Before a paid attempt the budget gate of
-- openai_compatible_bridge/core/cost_tracking.py reserves its forecast in the ledger, or blocks it.
-- The usage that the response reports is read by the parsers of
-- openai_compatible_bridge/core/provider_adapter.py and
-- openai_compatible_bridge/core/metered_http.py, whose client wraps the provider's, and is recorded
-- by the queue of openai_compatible_bridge/core/async_cost.py, which settles the reservation. The
-- reservation context of cost_tracking.py does the same for one request in a synchronous way, and the
-- reconciliation compares the ledger with the provider's bill.
--
-- Where what is modelled:
--   Embedding/Queue    EmbeddingRequestLimits: _acquire_slot, _release_slot, _serve. The steps are
--                      the stretches that one task runs between two points at which it can be
--                      suspended, in any order; a call is known by the number of its arrival.
--   Embedding/Request  EmbeddingRequestLimits: __call__ (route and Content-Length), _receive_body.
--   Embedding/Retry    EmbeddingRetryPolicy with _retryable, _retry_after and _seconds. Floats are
--                      a parameter, a record of operations; the outcomes of sends, sleeps and clocks
--                      are an input of each round, and so is whether the wait for the first slot
--                      is cancelled.
--   EnvContract        validate_contract (openai_compatible_bridge/core/env_contract.py), and
--                      _unique_object and load_limits (openai_compatible_bridge/core/env_limits.py).
--   Json               The values of json.loads that the parsers see.
--   Usage              NormalizedUsage, the parsers of one shape, _embedding_count.
--   Usage/Parsers      parse_vertex_usage, parse_ollama_usage, parse_foundry_usage,
--                      parse_openai_compat_usage, parse_usage_for_provider, _raw_usage,
--                      _observe_usage.
--   Cost/Pricing       PricingCatalog.price_for, pricing_fallbacks, CostEstimator.estimate.
--   Cost/Config        CostTrackingConfig.from_env with _parse_bool, _require_nonempty,
--                      _parse_positive_int, _parse_decimal and _parse_budget_limit.
--   Cost/Catalog       PricingCatalog.from_json and validate_pricing_payload.
--   Cost/Ledger        SQLiteCostRepository: insert_event, sum_estimated_since,
--                      daily_estimated_spend, update_reservation, prune, fetch_events.
--   Cost/Gate          BudgetGate and AttemptBudgetGate: preflight, finalize_success,
--                      release_nonbillable, finalize_estimated_only, _mark_ledger_failure.
--   Cost/Context       BudgetReservationContext: every method. The calls of its accounting are values
--                      that carry their outcome.
--   Cost/Recording     AsyncCostAccounting (openai_compatible_bridge/core/async_cost.py):
--                      before_attempt, record_attempt, _write_records, aclose; Cost/Recording/Gated
--                      has the gate that __init__ makes for the metered providers.
--   Cost/Admission     _admit_io of the same class: slots, waiting calls and their timeouts.
--   Cost/Reconciliation  ReconciliationJob.reconcile_day and the stored results.
--   Ingress/Messages, Ingress/Request, Ingress/Answer, Ingress/Stream
--                      openai_compatible_bridge/anthropic_ingress.py: requests, answers and
--                      AnthropicStreamState. str(), int() of any value, json.dumps and json.loads are
--                      parameters.
--   Cost/Postgres      PostgresCostRepository (openai_compatible_bridge/core/
--                      postgres_cost_repository.py): insert_event, sum_estimated_since,
--                      daily_estimated_spend, update_reservation, prune, fetch_events.
--   Providers/Think    _ThinkBlockStripper of openai_compatible_bridge/providers/ollama.py. Its loop
--                      runs on fuel, one more than the length of the text, since every turn
--                      shortens what is left.
--   Providers/Ollama   the same file's settings, bodies of requests (Ollama/Call) and replies
--                      (Ollama/Reply, and Ollama/Reply/Stream line by line). json.loads, jsonschema
--                      and int() of a value that is no int are parameters.
--   Providers/Vertex/Schema  _sanitize_schema and _apply_response_format of
--                      openai_compatible_bridge/providers/vertex.py. The fuel is a product: the
--                      number of definitions, each of which is inlined at most once on a way down,
--                      by the depth of the schema, which inlining does not exceed.
--   Providers/Vertex/Reading  the same file's _extract_message_text, _coerce_openai_usage,
--                      _parse_stream_chunk, _map_finish_reason, _parse_vertex_error.
--   Providers/Vertex/Embeddings  VertexEmbeddingClient: embed and what it calls; the retry policy's
--                      post is a parameter, and chunked runs on the number of the texts.
--   Providers/Compatible  openai_compatible_bridge/providers/openai_compatible.py: the alias, the
--                      request, generate and stream_chat (Compatible/Answer).
--   Providers/Foundry/Anthropic  _build_anthropic_request_body of
--                      openai_compatible_bridge/providers/foundry.py and _append_anthropic_turn of
--                      openai_compatible_bridge/core/transforms.py.
--   Providers/Foundry/Responses  the requests to xAI's and OpenAI's Responses, with
--                      _xai_input_messages and _clamp_xai_reasoning_effort.
--   Transforms/Google  the requests to Google: _google_contents_and_system, _google_tools,
--                      _google_tool_config.
--   Transforms         openai_compatible_bridge/core/transforms.py: _usage, _google_usage,
--                      _map_finish_reason, _google_json_object and the calls of
--                      _google_response_result. The loop for an identifier runs on fuel, two more
--                      than there are used ones.
--   Metering/Stream    _StreamUsage (openai_compatible_bridge/core/metered_http.py): feed_line, finish,
--                      _observe. Python's text operations and json.loads are a parameter.
--   Metering/Client    _MeteredResponse and MeteredHTTPClient: post, stream.
--   Prelude            Shared names and lemmas: lists over native numbers, integers, results, bytes.
--
-- Conventions. Money is counted in units of 1e-12 USD and prices in 1e-6 USD, so estimates are
-- exact for prices of at most six decimal places. An instant is a second with its microseconds, and
-- a stored time is the place of its text in the order of texts, and in PostgreSQL a number of
-- microseconds. Python's integers have no bound, and the model's have none. Loops are structural
-- recursion on the list of what the loop meets (parts of a body, rounds of a retry, rows of a table,
-- lines of a stream), so there is fuel only where this list says so. Where
-- tasks interleave, a step is what runs between two points of suspension, and a run is any sequence
-- of steps.
--
-- Not modelled: sending responses, logging, SQL beyond the meaning of the statements above, the
-- network calls of the providers, the threads themselves, the pool, the transactions and the schema
-- of the PostgreSQL repository, the reading of the other settings but for the retry policy and
-- OLLAMA_THINK, the registry of models, the other conversions of requests and responses for Vertex,
-- Foundry and JetBrains, and the routes of the web framework.
pub mod EnvContract
pub mod Embedding
pub mod Ingress
pub mod Json
pub mod Metering
pub mod Prelude
pub mod Providers
pub mod Transforms
pub mod Usage
pub mod Cost
