-- ===== src/Repository.antt =====
-- services/api/src/database/memory-repository.ts, behind the interface of
-- services/api/src/database/repository.ts. `State` holds the data; the operations are in the
-- children named for what they work on.
pub mod State
pub mod Entities
pub mod EventLog
pub mod Jobs
pub mod Commit
pub mod ScheduleClaims
pub mod Push
pub mod Frames
