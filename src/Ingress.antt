-- ===== src/Ingress.antt =====
-- The ingress for clients that speak the Anthropic Messages format,
-- openai_compatible_bridge/anthropic_ingress.py.
pub mod Stream
pub mod Messages
pub mod Request
pub mod Answer
