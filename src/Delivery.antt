-- ===== src/Delivery.antt =====
-- The ledger of drained messages, src/swarph_cli/delivery_queue.py.
pub mod Entries
pub mod Digest
pub mod Operations
pub mod Receipts
pub mod Status
pub mod Fits
pub mod Steps
pub mod Invariant
pub mod Obligations
pub mod Capacity
pub mod Claims
pub mod Reconcile
pub mod Files
pub mod Loading
pub mod Restart
pub mod Migration
pub mod Fixtures
mod Tests
