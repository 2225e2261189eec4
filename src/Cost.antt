-- ===== src/Cost.antt =====
-- Cost tracking: openai_compatible_bridge/core/cost_tracking.py.
pub mod Pricing
pub mod Config
pub mod Catalog
pub mod Ledger
pub mod Gate
pub mod Context
pub mod Recording
pub mod Reconciliation
pub mod Postgres
pub mod Admission
