-- ===== src/Relay.antt =====
-- services/api/src/domain/relay-service.ts: the `RelayService`, by what its methods work on.
pub mod Events
pub mod Lookup
pub mod Agents
pub mod Conversations
pub mod Runs
pub mod Clearing
pub mod Messages
pub mod Hierarchy
pub mod Tasks
pub mod Collaboration
pub mod Approvals
pub mod Effects
pub mod Request
pub mod Calls
pub mod Schedules
pub mod Profile
