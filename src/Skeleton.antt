-- ===== src/Skeleton.antt =====
-- e2e/src/e2e/skeleton: the walking skeleton, a chain and a controller in memory.
pub mod Chain
pub mod Stub
pub mod World
