-- ===== src/Metering.antt =====
-- Measuring the paid attempts: openai_compatible_bridge/core/metered_http.py.
pub mod Stream
pub mod Client
