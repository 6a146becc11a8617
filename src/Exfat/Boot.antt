-- ===== src/Exfat/Boot.antt =====
-- src/codec/exfat/boot.rs: the fields of the boot record that a mounted exFAT volume reads, its geometry, and the
-- test of a directory entry's geometry.
pub mod Geometry
pub mod Checksum
use unifat.Prelude.{
  ℕ, ◌+◌, ◌-◌, ◌*◌, ◌/◌, ◌^◌, ◌<◌, min, Bool, true, false, not, ◌&&◌, ◌||◌, if◌then◌else◌, ltb, leb,
  ◌==◌, u32_max,
}

pub record ExfatBootRecord : Type 0 where
  pub volume_len : ℕ
  pub fat_offset : ℕ
  pub fat_len : ℕ
  pub cluster_heap_offset : ℕ
  pub cluster_count : ℕ
  pub root_dir_cluster : ℕ
  pub flags : ℕ
  pub sector_shift : ℕ
  pub cluster_shift : ℕ

-- `1u32.checked_shl(n).unwrap_or(0)`
abbrev pub one_shl : ℕ → ℕ
one_shl n = if ltb n 32 then 2 ^ n else 0

-- `a.div_ceil(b)`
abbrev pub div_ceil : ℕ → ℕ → ℕ
div_ceil a b = (a + (b - 1)) / b

unfoldable pub shifts_valid : ExfatBootRecord → Bool
shifts_valid b =
    (leb 9 b.sector_shift && leb b.sector_shift 12) && leb (b.sector_shift + b.cluster_shift) 25

unfoldable pub bytes_per_sector : ExfatBootRecord → ℕ
bytes_per_sector b = one_shl b.sector_shift

unfoldable pub bytes_per_cluster : ExfatBootRecord → ℕ
bytes_per_cluster b = one_shl (b.sector_shift + b.cluster_shift)

-- Whether the `clusters` of a contiguous run end in the heap.
unfoldable pub run_fits : Bool → ℕ → ℕ → ℕ → Bool
run_fits no_fat_chain first clusters last =
    if no_fat_chain && ltb 0 clusters then not (ltb last (first + clusters - 1)) else true

unfoldable pub entry_geometry_valid : ExfatBootRecord → ℕ → ℕ → ℕ → Bool → Bool
unfolding bytes_per_cluster run_fits
entry_geometry_valid b first data_length valid_data_length no_fat_chain =
    let last_cluster = min (b.cluster_count + 1) u32_max in
    let cluster_bytes = bytes_per_cluster b in
    let clusters = div_ceil data_length cluster_bytes in
    if ltb data_length valid_data_length
    then false
    else if first == 0
    then data_length == 0
    else if ltb first 2 || ltb last_cluster first
    then false
    else if cluster_bytes == 0
    then false
    else if ltb b.cluster_count clusters
    then false
    else run_fits no_fat_chain first clusters last_cluster
