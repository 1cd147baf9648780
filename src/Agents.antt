-- ===== src/Agents.antt =====
-- agents/src/agents: the provider and the consumer of a sale.
pub mod Ledger
pub mod Catalogue
pub mod Provider
pub mod Consumer
pub mod Llm
pub mod Tools
pub mod Adapter
