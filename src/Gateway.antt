-- ===== src/Gateway.antt =====
-- src/swarph_cli/gateway/server.py: the handlers of the mesh gateway over its database.
pub mod Db
pub mod Monad
pub mod Replies
pub mod Config
pub mod Frames
pub mod Auth
pub mod TaskQueue
pub mod Tasks
pub mod CouncilJobs
pub mod Council
pub mod Channels
pub mod Grants
pub mod Groups
pub mod PeerRows
pub mod Registry
pub mod Fixtures
mod Tests
