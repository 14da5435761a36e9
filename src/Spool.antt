-- ===== src/Spool.antt =====
-- src/swarph_cli/peer_executor.py: the durable spool of a peer's jobs, and the services that use it.
pub mod Files
pub mod Envelopes
pub mod Claims
pub mod Results
pub mod Requests
pub mod Changes
pub mod Evidence
pub mod Acceptance
pub mod Steps
pub mod Invariant
pub mod Texts
pub mod Lasting
pub mod Phases
pub mod Rest
pub mod Retry
pub mod Fixtures
mod Tests
