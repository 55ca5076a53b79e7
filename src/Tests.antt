-- ===== src/Tests.antt =====
-- A concrete platform, and the theorems at concrete inputs.
pub mod Toy
pub mod Agents
pub mod Capabilities
pub mod Messages
pub mod Receipts
pub mod Streams
pub mod VisaRequests
pub mod Grants
pub mod Dispatches
pub mod Acks
pub mod Restarts
pub mod Policies
pub mod Identities
pub mod Visas
