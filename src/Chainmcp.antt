-- ===== src/Chainmcp.antt =====
-- chainmcp/src/chainmcp: the settlement chain as a program sees it.
pub mod Client
pub mod Watch
pub mod Purchase
pub mod Signing
pub mod Reverts
