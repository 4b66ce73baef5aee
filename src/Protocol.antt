-- ===== src/Protocol.antt =====
-- packages/protocol/src/index.ts and services/api/src/model.ts: the data of the system.
mod Enums
mod Entities
mod Inputs
mod Schemas
pub use Enums.*
pub use Entities.*
pub use Inputs.*
unfoldable pub use Schemas.*
