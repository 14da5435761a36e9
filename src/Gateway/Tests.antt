-- ===== src/Gateway/Tests.antt =====
-- The gateway's handlers and theorems at concrete data, by component.
mod Callers
mod Peers
mod WorkQueue
mod CouncilQueue
mod Rooms
mod Rights
