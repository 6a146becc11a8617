-- ===== src/Fat/Tests.antt =====
-- A small FAT16 volume on the in-memory device, and the theorems on the allocation table at it.
use unifat.Prelude.{
  All, get_or, suc, zero, ℕ, ◌/◌, ◌%◌, ◌^◌, ◌≤◌, ◌<◌, ◌≡◌, refl, arith, true, false, some, none,
  List, [], ◌∷◌, ◌++◌, replicate, ◌↔◌,
}
use unifat.Error.{ok}
use unifat.Store.Cache.{
  new, slot_index, position, min_stamp, copy_at, write_out, read_in, write_back, install, filled,
  refill, evicted, evict,
}
use unifat.Store.Cache.Refill.{Stands}
use unifat.Store.Access.{read_at, write_at}
use unifat.Store.Access.Runs.{new-Stands}
use unifat.Store.Mem.{MemBlockDevice}
use unifat.Store.Mem.Blocks.{mem_blocks, mem_image, mem_seek, mem_read_exact, mem_write_all}
use unifat.Fat.Cells.{
  FatType, FatEntry, FatWrite, decode_fat_cell, written_cell, bad_marker, end_floor, value_mask,
  value_cell, end_value, entry_size,
}
use unifat.Fat.Cells.Decoding.{
  entry_of, Linkable, value_bits, decode_fat_cell-written_cell, decode_fat_cell-next_iff,
  written_cell-nibble,
}
use unifat.Fat.Volume.{
  FatVfs, Ebr, check_bounds, on_cache, read_bytes, write_bytes, sector_byte_offset,
}
use unifat.Fat.Volume.Bytes.{BytesRead, BytesWritten, read_bytes-slice, write_bytes-overlay}
use unifat.Fat.Table.{
  read_fat, next_cluster, next_free_cluster, write_fat, search_start, free_loop, from_le_bytes,
  to_le_bytes, active_cell, fat_copy_base, active_fat_copy, fat_mirroring, check_fat_index,
  found_free, store_cell, write_copies, old_cell, noted,
}
use unifat.Fat.Table.Store.{IsBytes, Separate}
use unifat.Fat.Table.Write.{EntryWritten, write_fat-entry}
use unifat.Fat.Table.Lookup.{EntryRead, FreeFound, read_fat-entry, next_free_cluster-FreeFound}

-- Clusters 2 and 3 are a chain, cluster 4 is free, and cluster 5 is bad.
abbrev table : List ℕ
table = 0xF8 ∷ 0xFF ∷ 0xFF ∷ 0xFF ∷ 3 ∷ 0 ∷ 0xFF ∷ 0xFF ∷ 0 ∷ 0 ∷ 0xF7 ∷ 0xFF ∷ replicate 4 0

abbrev disk : MemBlockDevice
disk = record { bytes = replicate 16 0 ++ table ++ table ++ replicate 16 0; pos = 0; fixed = true }

abbrev volume : FatVfs mem_blocks
volume = record {
  cache = new mem_blocks disk 16;
  fsinfo_modified = false;
  ebr = Ebr.fat16;
  fat_type = FatType.fat16;
  props = record {
    sector_size = 16;
    cluster_size = 16;
    sec_per_clus = 1;
    total_sectors = 4;
    max_cluster = 5;
    fat_table_count = 2;
    fat_sector_size = 1;
    first_fat_sector = 1;
    first_root_dir_sector = 3;
    first_data_sector = 3;
  };
  first_free_cluster = 2;
}

volume-Stands : Stands mem_blocks volume.cache (mem_image disk)
volume-Stands = new-Stands mem_blocks disk 16 (omega arith)

program : Unit {0}
unfolding new read_at write_at slot_index position min_stamp copy_at write_out read_in write_back
    install filled refill evicted evict mem_seek mem_read_exact mem_write_all check_bounds on_cache
    read_bytes write_bytes sector_byte_offset read_fat next_cluster next_free_cluster write_fat
    search_start free_loop from_le_bytes to_le_bytes active_cell fat_copy_base active_fat_copy
    fat_mirroring check_fat_index found_free store_cell write_copies old_cell noted decode_fat_cell
    written_cell value_mask bad_marker end_floor value_cell end_value entry_size
program = tt

linked_cluster : (next_cluster mem_blocks volume 2).1 ≡ ok (some 3)
unfolding program
linked_cluster = refl

free_cluster : (next_free_cluster mem_blocks volume).1 ≡ ok (some 4)
unfolding program
free_cluster = refl

-- A cell that is written is read back, and the search goes past it.
written_link :
    (read_fat mem_blocks (write_fat mem_blocks volume 4 (FatWrite.next 2)).0 4).1
    ≡ ok (FatEntry.next 2)
unfolding program
written_link = refl

full_after :
    (next_free_cluster mem_blocks (write_fat mem_blocks volume 4 FatWrite.end).0).1 ≡ ok none
unfolding program
full_after = refl

read_fat-entry_example :
    EntryRead mem_blocks volume (mem_image disk) 2 (read_fat mem_blocks volume 2)
read_fat-entry_example = read_fat-entry mem_blocks volume 2 volume-Stands (omega arith)

next_free_cluster-FreeFound_example :
    FreeFound mem_blocks volume
      (mem_image disk)
      (search_start mem_blocks volume)
      (next_free_cluster mem_blocks volume)
next_free_cluster-FreeFound_example =
    next_free_cluster-FreeFound mem_blocks volume volume-Stands (omega arith) (omega arith)

read_bytes-slice_example :
    BytesRead mem_blocks volume (mem_image disk) 14 6 (read_bytes mem_blocks volume 14 6)
read_bytes-slice_example = read_bytes-slice mem_blocks volume 14 6 volume-Stands (omega arith)

write_bytes-overlay_example :
    BytesWritten mem_blocks volume
      (mem_image disk)
      30
      (1 ∷ 2 ∷ 3 ∷ [])
      (write_bytes mem_blocks volume 30 (1 ∷ 2 ∷ 3 ∷ []))
write_bytes-overlay_example =
    write_bytes-overlay mem_blocks volume 30 (1 ∷ 2 ∷ 3 ∷ []) volume-Stands (omega arith)

link_of : Linkable FatType.fat32 100 (FatWrite.next 7)
unfolding Linkable bad_marker value_mask
link_of = (omega arith, omega arith, omega arith)

decode_fat_cell-written_cell_example :
    decode_fat_cell (written_cell FatType.fat32 (FatWrite.next 7) 0xA0000003) 100 FatType.fat32
    ≡ entry_of (FatWrite.next 7)
decode_fat_cell-written_cell_example =
    decode_fat_cell-written_cell FatType.fat32 100 (FatWrite.next 7) 0xA0000003 (omega arith)
      link_of

decode_fat_cell-next_iff_example :
    (decode_fat_cell 0xA0000007 100 FatType.fat32 ≡ FatEntry.next 7) ↔ (
      (0xA0000007 % 2 ^ value_bits FatType.fat32 ≡ 7)
      × (2 ≤ 7)
      × (7 ≤ 100)
      × (7 < bad_marker FatType.fat32))
decode_fat_cell-next_iff_example = decode_fat_cell-next_iff FatType.fat32 0xA0000007 100 7

written_cell-nibble_example :
    written_cell FatType.fat32 FatWrite.end 0xA0000003 / 2 ^ 28 ≡ 0xA0000003 / 2 ^ 28
written_cell-nibble_example = written_cell-nibble FatWrite.end 0xA0000003 (omega arith)

below_256 : (bs : List ℕ) → All (λ b. b < 256) bs → (o : ℕ) → get_or bs o 0 < 256
below_256 [] small o = omega arith
below_256 (b ∷ bs) (first, rest) zero = first
below_256 (b ∷ bs) (first, rest) (suc o) = below_256 bs rest o

disk-IsBytes : IsBytes (mem_image disk)
disk-IsBytes o = below_256 disk.bytes (omega arith) o

copies_apart : Separate mem_blocks volume
unfolding fat_copy_base sector_byte_offset entry_size
copies_apart = (omega arith, λ k lo hi. omega arith)

link_to_two : Linkable FatType.fat16 5 (FatWrite.next 2)
unfolding Linkable bad_marker value_mask
link_to_two = (omega arith, omega arith, omega arith)

write_fat-entry_example :
    EntryWritten mem_blocks 4 (FatWrite.next 2) (write_fat mem_blocks volume 4 (FatWrite.next 2))
write_fat-entry_example =
    write_fat-entry mem_blocks volume 4 (FatWrite.next 2) volume-Stands (omega arith) disk-IsBytes
      copies_apart link_to_two
