-- ===== src/Codec.antt =====
-- The pure codecs of src/codec.
pub mod Time
pub mod EntryTime
mod Tests
