-- ===== src/Store.antt =====
-- src/store: the block device that a volume stands on, the write-back sector cache in front of it,
-- and the in-memory device.
pub mod Device
pub mod Cache
pub mod Access
pub mod Mem
mod Tests
