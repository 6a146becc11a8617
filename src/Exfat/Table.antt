-- ===== src/Exfat/Table.antt =====
-- src/exfat/fat_io.rs: the cells of the allocation table of an exFAT volume, and the chains in it.
use unifat.Prelude.{
  u32_max, ℕ, ◌+◌, ◌-◌, ◌*◌, Bool, if◌then◌else◌, ltb, leb, ◌&&◌, ◌==◌, List, Option, some, none,
}
use unifat.Error.{abort, ok, FsResult, and_then}
use unifat.Store.Device.{BlockDevice}
use unifat.Fat.Table.{from_le_bytes, to_le_bytes}
use unifat.Exfat.Boot.{bytes_per_sector, bytes_per_cluster}
use unifat.Exfat.Volume.{ExfatVfs, cluster_to_byte_offset, read_at, write_at}

pub data FatEntry : Type 0 where
  next : ℕ → FatEntry
  free bad eoc invalid : FatEntry

-- `FAT_EOC` and `FAT_BAD`
abbrev pub fat_eoc : ℕ
fat_eoc = 0xFFFFFFFF

abbrev pub fat_bad : ℕ
fat_bad = 0xFFFFFFF7

unfoldable pub classify_fat_entry : ℕ → ℕ → FatEntry
classify_fat_entry raw cluster_count =
    if raw == 0
    then FatEntry.free
    else if raw == fat_bad
    then FatEntry.bad
    else if raw == fat_eoc
    then FatEntry.eoc
    else if leb 2 raw && leb (raw - 1) cluster_count
    then FatEntry.next raw
    else FatEntry.invalid

abbrev pub linked : FatEntry → Option ℕ
linked (FatEntry.next n) = some n
linked FatEntry.free = none
linked FatEntry.bad = none
linked FatEntry.eoc = none
linked FatEntry.invalid = none

module _ (D : BlockDevice) where
  open D use {Io}

  -- The offset of a cell.
  unfoldable pub fat_cell : ExfatVfs D → ℕ → ℕ
  unfolding bytes_per_sector
  fat_cell v cluster = v.boot.fat_offset * bytes_per_sector v.boot + cluster * 4

  unfoldable pub read_fat_entry : ExfatVfs D → ℕ → ExfatVfs D × FsResult Io FatEntry
  unfolding fat_cell read_at classify_fat_entry
  read_fat_entry v cluster =
      and_then (read_at D v (fat_cell v cluster) 4)
        (λ v' raw. (v', ok (classify_fat_entry (from_le_bytes raw) v'.boot.cluster_count)))

  -- The cluster after one, where it is in the heap. Its number is a u32, or the sum panics.
  abbrev pub following : ℕ → ℕ → FsResult Io (Option ℕ)
  following cluster_count current =
      if leb u32_max current
      then abort
      else ok (if ltb (cluster_count + 1) (current + 1) then none else some (current + 1))

  unfoldable pub next_cluster : ExfatVfs D → ℕ → Bool → ExfatVfs D × FsResult Io (Option ℕ)
  unfolding read_fat_entry
  next_cluster v current no_fat_chain =
      if no_fat_chain
      then (v, following v.boot.cluster_count current)
      else and_then (read_fat_entry v current) (λ v' entry. (v', ok (linked entry)))

  unfoldable pub read_cluster_into : ExfatVfs D → ℕ → ExfatVfs D × FsResult Io (List ℕ)
  unfolding bytes_per_sector bytes_per_cluster cluster_to_byte_offset read_at
  read_cluster_into v cluster =
      read_at D v
        (cluster_to_byte_offset v.boot.cluster_heap_offset cluster (bytes_per_sector v.boot)
          (bytes_per_cluster v.boot))
        (bytes_per_cluster v.boot)

  unfoldable pub write_fat_entry : ExfatVfs D → ℕ → ℕ → ExfatVfs D × FsResult Io (Unit {0})
  unfolding fat_cell write_at
  write_fat_entry v cluster value = write_at D v (fat_cell v cluster) (to_le_bytes 4 value)
