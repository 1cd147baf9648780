-- ===== src/Controller.antt =====
-- controller/src/controller: the component that honours an entitlement on the network.
pub mod Domain
pub mod Auth
pub mod Translators
pub mod Service
pub mod Sessions
pub mod Activate
pub mod Teardown
pub mod Quiet
pub mod Reach
pub mod App
pub mod ResourceMap
pub mod Runtime
pub mod Overlap
