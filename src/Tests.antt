-- ===== src/Tests.antt =====
-- The canonical example run through the development: a world, and an instance of each theorem.
pub mod World
pub mod Sessions
pub mod Proofs
pub mod Purchases
pub mod Sales
pub mod Replies
pub mod Node
pub mod Routes
pub mod Market
pub mod Races
pub mod Plays
pub mod Racks
pub mod Live
pub mod Offers
pub mod Answers
pub mod Json
pub mod Refusals
pub mod Wire
pub mod Consoles
