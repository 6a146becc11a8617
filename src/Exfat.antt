-- ===== src/Exfat.antt =====
-- src/exfat: the volume state of an exFAT volume, its allocation table and its allocation bitmap.
pub mod Boot
pub mod Volume
pub mod Table
pub mod Bitmap
mod Tests
