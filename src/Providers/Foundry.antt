-- ===== src/Providers/Foundry.antt =====
-- openai_compatible_bridge/providers/foundry.py: the requests to its protocols.
pub mod Anthropic
pub mod Responses
