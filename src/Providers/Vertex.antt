-- ===== src/Providers/Vertex.antt =====
-- What openai_compatible_bridge/providers/vertex.py computes without a connection.
pub mod Schema
pub mod Reading
pub mod Embeddings
