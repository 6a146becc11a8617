-- ===== src/Fat.antt =====
-- The FAT backend: src/fat and src/codec/fat.
pub mod Cells
pub mod Volume
pub mod Table
pub mod ClusterMap
mod Tests
