-- ===== src/Embedding.antt =====
-- The limits on embedding requests: openai_compatible_bridge/embedding_limits.py (the queue for
-- slots and the request body) and openai_compatible_bridge/core/embedding_resilience.py (retries).
pub mod Queue
pub mod Request
pub mod Retry
