-- ===== src/Providers.antt =====
-- The clients of the model providers, openai_compatible_bridge/providers/.
pub mod Think
pub mod Ollama
pub mod Vertex
pub mod Compatible
pub mod Foundry
