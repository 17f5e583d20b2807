-- ===== src/Shm.antt =====
-- ipc-shm.c, the driver proper: its private data and the platform below it (State), the lookups and
-- integrity checks (Lookup), buffers (Buffers), reception (Rx), unmanaged channels (Unmanaged), and
-- the life of channels and instances (Setup, Teardown, Instance).
pub mod State
pub mod Ledger
pub mod Lookup
pub mod Buffers
pub mod Unmanaged
pub mod Rx
pub mod Setup
pub mod Teardown
pub mod Instance
pub mod Frame
pub mod Layout
pub mod Delivery
pub mod Example
mod Tests
