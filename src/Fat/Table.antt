-- ===== src/Fat/Table.antt =====
-- src/fat/sector_io.rs: reading and writing the cells of the allocation table of a FAT volume.
pub mod Lookup
pub mod Store
pub mod Write
pub mod Alloc
use unifat.Prelude.{
  ℕ, zero, suc, ◌+◌, ◌-◌, ◌*◌, ◌/◌, ◌%◌, Bool, true, false, not, if◌then◌else◌, ltb, leb, ◌&&◌,
  ◌||◌, length, u32_max, min, max, List, [], ◌∷◌, Option, some, none, ◌==◌,
}
use unifat.Error.{Result, ok, err, abort, FsError, corrupt, CorruptKind, FsResult, and_then}
use unifat.Store.Device.{BlockDevice}
use unifat.Fat.Cells.{FatType, FatEntry, FatWrite, entry_size, decode_fat_cell, written_cell}
use unifat.Fat.Volume.{
  FsProperties, Fat32ExtendedFlags, Fat32FsInfo, Ebr, FatVfs, sector_byte_offset, read_bytes,
  write_bytes, saturating_add_32, saturating_mul_32,
}

-- `u32::from_le_bytes`, where missing bytes are zero.
unfoldable pub from_le_bytes : List ℕ → ℕ
from_le_bytes [] = 0
from_le_bytes (b ∷ bs) = b + 256 * from_le_bytes bs

-- The first `n` bytes of `to_le_bytes`.
unfoldable pub to_le_bytes : ℕ → ℕ → List ℕ
to_le_bytes zero x = []
to_le_bytes (suc n) x = x % 256 ∷ to_le_bytes n (x / 256)

abbrev is_free : FatWrite → Bool
is_free FatWrite.free = true
is_free FatWrite.end = false
is_free (FatWrite.next n) = false

abbrev pub active_copy_of : Ebr → ℕ
active_copy_of Ebr.fat16 = 0
active_copy_of (Ebr.fat32 flags info) = if flags.mirroring_disabled then flags.active_fat else 0

abbrev pub mirrors : Ebr → Bool
mirrors Ebr.fat16 = true
mirrors (Ebr.fat32 flags info) = not flags.mirroring_disabled

abbrev pub linked : FatEntry → Option ℕ
linked (FatEntry.next n) = some n
linked FatEntry.free = none
linked FatEntry.end = none
linked FatEntry.bad = none
linked FatEntry.reserved = none

noted_ebr : ℕ → Bool → Ebr → Ebr
noted_ebr cluster freed Ebr.fat16 = Ebr.fat16
noted_ebr cluster freed (Ebr.fat32 flags info) =
    let low = freed && ltb cluster info.first_free_cluster in
    Ebr.fat32 flags (record {
      free_cluster_count = u32_max;
      first_free_cluster = if low then cluster else info.first_free_cluster;
    })

abbrev pub is_fat32 : Ebr → Bool
is_fat32 Ebr.fat16 = false
is_fat32 (Ebr.fat32 flags info) = true

abbrev pub hinted : ℕ → ℕ → Ebr → ℕ
hinted hint max_cluster Ebr.fat16 = hint
hinted hint max_cluster (Ebr.fat32 flags info) =
    if not (info.first_free_cluster == u32_max) && leb info.first_free_cluster max_cluster
    then min hint info.first_free_cluster
    else hint

found_ebr : ℕ → Ebr → Ebr
found_ebr cluster Ebr.fat16 = Ebr.fat16
found_ebr cluster (Ebr.fat32 flags info) =
    Ebr.fat32 flags (record info { first_free_cluster = cluster })

abbrev pub entry_is_free : FatEntry → Bool
entry_is_free FatEntry.free = true
entry_is_free (FatEntry.next n) = false
entry_is_free FatEntry.end = false
entry_is_free FatEntry.bad = false
entry_is_free FatEntry.reserved = false

module _ (D : BlockDevice) where
  open D use {Io}

  unfoldable pub fat_copy_base : FatVfs D → ℕ → ℕ
  unfolding sector_byte_offset
  fat_copy_base v copy =
      sector_byte_offset D v (
        saturating_add_32 v.props.first_fat_sector (saturating_mul_32 copy v.props.fat_sector_size))

  unfoldable pub active_fat_copy : FatVfs D → ℕ
  active_fat_copy v = active_copy_of v.ebr

  unfoldable pub fat_mirroring : FatVfs D → Bool
  fat_mirroring v = mirrors v.ebr

  unfoldable pub check_fat_index : FatVfs D → ℕ → FsResult Io (Unit {0})
  check_fat_index v cluster =
      if ltb cluster 2 || ltb v.props.max_cluster cluster
      then err (corrupt CorruptKind.cluster_chain)
      else ok tt

  -- The offset of a cell in the active copy.
  unfoldable pub active_cell : FatVfs D → ℕ → ℕ
  unfolding fat_copy_base active_fat_copy
  active_cell v cluster = fat_copy_base v (active_fat_copy v) + cluster * entry_size v.fat_type

  unfoldable pub read_fat : FatVfs D → ℕ → FatVfs D × FsResult Io FatEntry
  unfolding check_fat_index active_cell
  read_fat v cluster =
      and_then (v, check_fat_index v cluster)
        (λ v0 _.
          and_then (read_bytes D v0 (active_cell v0 cluster) (entry_size v0.fat_type)) (λ v' raw.
            (v', ok (decode_fat_cell (from_le_bytes raw) v'.props.max_cluster v'.fat_type))))

  unfoldable pub next_cluster : FatVfs D → ℕ → FatVfs D × FsResult Io (Option ℕ)
  unfolding read_fat
  next_cluster v cluster = and_then (read_fat v cluster) (λ v' entry. (v', ok (linked entry)))

  -- `for copy in 0..fat_table_count`, from `copy` on, over the `n` copies that are left.
  unfoldable pub write_copies : ℕ → ℕ → FatVfs D → ℕ → List ℕ → FatVfs D × FsResult Io (Unit {0})
  unfolding fat_copy_base
  write_copies zero copy v cell_off bytes = (v, ok tt)
  write_copies (suc n) copy v cell_off bytes =
      and_then (write_bytes D v (fat_copy_base v copy + cell_off) bytes)
        (λ v' _. write_copies n (copy + 1) v' cell_off bytes)

  -- The new cell, written to every copy or to the active one.
  unfoldable pub store_cell : FatVfs D → ℕ → ℕ → FatVfs D × FsResult Io (Unit {0})
  unfolding write_copies fat_mirroring active_cell
  store_cell v cluster cell =
      let bytes = to_le_bytes (entry_size v.fat_type) cell in
      if fat_mirroring v
      then write_copies v.props.fat_table_count 0 v (cluster * entry_size v.fat_type) bytes
      else write_bytes D v (active_cell v cluster) bytes

  -- The search hints after a write.
  unfoldable pub noted : FatVfs D → ℕ → FatWrite → FatVfs D
  unfolding noted_ebr
  noted v cluster value =
      let freed = is_free value in
      let low = freed && ltb cluster v.first_free_cluster in
      record v {
        first_free_cluster = if low then cluster else v.first_free_cluster;
        ebr = noted_ebr cluster freed v.ebr;
        fsinfo_modified = v.fsinfo_modified || is_fat32 v.ebr;
      }

  -- The cell before the write, which only a FAT32 volume reads.
  unfoldable pub old_cell : FatVfs D → ℕ → FatType → FatVfs D × FsResult Io ℕ
  unfolding active_cell
  old_cell v cluster FatType.fat16 = (v, ok 0)
  old_cell v cluster FatType.fat32 =
      and_then (read_bytes D v (active_cell v cluster) 4) (λ v' raw. (v', ok (from_le_bytes raw)))

  unfoldable pub write_fat : FatVfs D → ℕ → FatWrite → FatVfs D × FsResult Io (Unit {0})
  unfolding check_fat_index old_cell store_cell noted
  write_fat v cluster value =
      and_then (v, check_fat_index v cluster)
        (λ v0 _. and_then (old_cell v0 cluster v0.fat_type) (λ v1 old.
          and_then (store_cell v1 cluster (written_cell v1.fat_type value old))
            (λ v2 _. (noted v2 cluster value, ok tt))))

  -- Where the search for a free cluster starts.
  unfoldable pub search_start : FatVfs D → ℕ
  search_start v = max (hinted v.first_free_cluster v.props.max_cluster v.ebr) 2

  unfoldable pub found_free : FatVfs D → ℕ → FatVfs D
  unfolding found_ebr
  found_free v cluster = record v {
    first_free_cluster = cluster;
    ebr = found_ebr cluster v.ebr;
    fsinfo_modified = v.fsinfo_modified || is_fat32 v.ebr;
  }

  -- `while cluster <= max_cluster`: `n` clusters are left. `cluster += 1` is a sum of 32 bits.
  unfoldable pub free_loop : ℕ → FatVfs D → ℕ → FatVfs D × FsResult Io (Option ℕ)
  unfolding read_fat found_free
  free_loop zero v cluster = (record v { first_free_cluster = v.props.max_cluster }, ok none)
  free_loop (suc n) v cluster = and_then (read_fat v cluster) (λ v' entry.
      elim (entry_is_free entry) [
        | true ↦ (found_free v' cluster, ok (some cluster))
        | false ↦ elim (leb u32_max cluster) [
          | true ↦ (v', abort)
          | false ↦ free_loop n v' (cluster + 1)
        ]
      ])

  unfoldable pub next_free_cluster : FatVfs D → FatVfs D × FsResult Io (Option ℕ)
  unfolding free_loop search_start
  next_free_cluster v = free_loop (v.props.max_cluster + 1 - search_start v) v (search_start v)
