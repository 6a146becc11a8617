-- ===== src/Fat/Cells.antt =====
-- src/codec/fat/fat_entry.rs, src/codec/fat/types.rs: the cells of a file allocation table, and the cell that
-- `FatVfs::write_fat` of src/fat/sector_io.rs makes.
pub mod Decoding
use Prim.Native.Nat.{bit_and, bit_or}
use unifat.Prelude.{ℕ, ◌+◌, ◌-◌, ◌^◌, Bool, true, false, ◌&&◌, if◌then◌else◌, leb, ◌==◌, u32_max}

pub data FatType : Type 0 where
  fat16 fat32 : FatType

unfoldable pub entry_size : FatType → ℕ
entry_size fat16 = 2
entry_size fat32 = 4

pub data FatEntry : Type 0 where
  free : FatEntry
  next : ℕ → FatEntry
  end bad reserved : FatEntry

unfoldable pub value_mask : FatType → ℕ
value_mask fat16 = 0x0000FFFF
value_mask fat32 = 0x0FFFFFFF

unfoldable pub bad_marker : FatType → ℕ
unfolding value_mask
bad_marker ty = value_mask ty - 8

unfoldable pub end_floor : FatType → ℕ
unfolding value_mask
end_floor ty = value_mask ty - 7

unfoldable pub end_value : FatType → ℕ
unfolding value_mask
end_value ty = value_mask ty

unfoldable pub decode_fat_cell : ℕ → ℕ → FatType → FatEntry
unfolding value_mask bad_marker end_floor
decode_fat_cell raw max_cluster ty =
    let cell = bit_and raw (value_mask ty) in
    if cell == 0
    then free
    else if cell == bad_marker ty
    then bad
    else if leb (end_floor ty) cell
    then end
    else if leb 2 cell && leb cell max_cluster
    then next cell
    else reserved

pub data FatWrite : Type 0 where
  free end : FatWrite
  next : ℕ → FatWrite

-- `match value { .. }` of `write_fat`
unfoldable pub value_cell : FatType → FatWrite → ℕ
unfolding end_value
value_cell ty FatWrite.free = 0
value_cell ty FatWrite.end = end_value ty
value_cell ty (FatWrite.next n) = bit_and n (end_value ty)

-- The cell that `write_fat` stores over `old`: the top nibble of a FAT32 cell is kept. `!x` on 32 bits is
-- `u32::MAX - x`.
unfoldable pub written_cell : FatType → FatWrite → ℕ → ℕ
unfolding value_cell end_value
written_cell fat16 value old = value_cell fat16 value
written_cell fat32 value old =
    bit_or (value_cell fat32 value) (bit_and old (u32_max - end_value fat32))
