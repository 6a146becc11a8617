-- ===== src/Fat/ClusterMap/Tests.antt =====
-- A FAT16 volume in memory with one file of two clusters, and a read that crosses them.

use unifat.Prelude.{
  ℕ, ◌≡◌, refl, arith, true, false, some, none, List, [], ◌∷◌, ◌++◌, replicate, pos,
}
use unifat.Error.{ok, err, FileError}
use unifat.Codec.Time.Days.{calendar, is_date, is_time}
use unifat.Store.Cache.{
  new, slot_index, position, min_stamp, copy_at, write_out, read_in, write_back, install, filled,
  refill, evicted, evict,
}
use unifat.Store.Access.{
  read_at, write_at, store_in, read_through, writeback_overlap, write_back_each, settled,
}
use unifat.Store.Access.Runs.{new-Stands}
use unifat.Store.Mem.{MemBlockDevice}
use unifat.Store.Mem.Blocks.{mem_blocks, mem_image, mem_seek, mem_read_exact, mem_write_all}
use unifat.Fat.Cells.{
  FatType, decode_fat_cell, value_mask, bad_marker, end_floor, entry_size, written_cell, value_cell,
  end_value,
}
use unifat.Fat.Volume.{
  FatVfs, Ebr, check_bounds, on_cache, read_bytes, write_bytes, read_bytes_through,
  sector_byte_offset, cluster_first_sector,
}
use unifat.Fat.Volume.Bytes.{Sized}
use unifat.Fat.Table.{
  read_fat, next_cluster, from_le_bytes, active_cell, fat_copy_base, active_fat_copy,
  check_fat_index, write_fat, next_free_cluster, search_start, free_loop, found_free, store_cell,
  write_copies, old_cell, noted, to_le_bytes, fat_mirroring,
}
use unifat.Fat.Table.Alloc.{
  allocate_clusters, link_prev, claim_loop, free_each, unhook, settle_claims,
}
use unifat.Fat.ClusterMap.{
  WritePatch, fat_backing, mapped, map_next, store_read_at, cluster_to_offset, tail_loop,
  walk_to_tail, grown, map_extend, keep_loop, free_rest, map_free_tail,
}
use unifat.Fat.ClusterMap.Geometry.{Laid}
use unifat.Fat.ClusterMap.Reading.{FatFile, OpenAt, ReadFatFile, read-ReadFatFile}
use unifat.Stream.{opened, walk, seek_to_cluster, span_loop, contiguous_span, touch_accessed}
use unifat.Stream.Content.{nth_cluster}
use unifat.Stream.Methods.{read, read_data}

-- Clusters 2 and 3 are the file's.
abbrev table : List ℕ
table = 0xF8 ∷ 0xFF ∷ 0xFF ∷ 0xFF ∷ 3 ∷ 0 ∷ 0xFF ∷ 0xFF ∷ replicate 8 0

abbrev disk : MemBlockDevice
disk = record {
  bytes = replicate 16 0 ++ table ++ table ++ replicate 14 7 ++ 8 ∷ 9 ∷ 10 ∷ 11 ∷ replicate 46 0;
  pos = 0;
  fixed = true;
}

abbrev volume : FatVfs mem_blocks
volume = record {
  cache = new mem_blocks disk 16;
  fsinfo_modified = false;
  ebr = Ebr.fat16;
  fat_type = FatType.fat16;
  props = record {
    sector_size = 16;
    cluster_size = 16;
    sec_per_clus = 1;
    total_sectors = 7;
    max_cluster = 5;
    fat_table_count = 2;
    fat_sector_size = 1;
    first_fat_sector = 1;
    first_root_dir_sector = 3;
    first_data_sector = 3;
  };
  first_free_cluster = 2;
}

-- Directory entries that cannot be written.
abbrev read_only : WritePatch mem_blocks calendar
read_only patch m = (m, err FileError.read_only)

volume-Sized : Sized volume.props
volume-Sized = omega arith

volume-Laid : Laid volume.props
volume-Laid = omega arith

abbrev file : FatFile mem_blocks calendar read_only volume volume-Sized volume-Laid
file =
    record (opened calendar (fat_backing mem_blocks read_only volume)
      (mapped mem_blocks volume 20 2)
      (record {
        first_cluster = 2;
        len = 20;
        valid_len = 20;
        times = record { created = none; modified = none; accessed = none };
        attributes = record { read_only = false; hidden = false; system = false; archive = false };
        writable = false;
        update_times = false;
        fat_size_cap = true;
      })) { pos = 13 }

now : calendar.Date × calendar.Time
unfolding calendar is_date is_time
now = (((pos 2024, (2, 29)), refl), ((12, (0, (0, 0))), refl))

program : Unit {0}
unfolding new read_at slot_index position min_stamp copy_at write_out read_in write_back install
    filled refill evicted evict read_through writeback_overlap write_back_each settled mem_seek
    mem_read_exact mem_write_all check_bounds on_cache read_bytes read_bytes_through
    sector_byte_offset cluster_first_sector read_fat next_cluster from_le_bytes active_cell
    fat_copy_base active_fat_copy check_fat_index decode_fat_cell value_mask bad_marker end_floor
    entry_size map_next store_read_at cluster_to_offset mapped opened walk seek_to_cluster span_loop
    contiguous_span touch_accessed read read_data now
program = tt

-- The read goes on into the second cluster, up to the end of the file.
across :
    (read calendar (fat_backing mem_blocks read_only volume) file 9 now).1
    ≡ ok (7 ∷ 8 ∷ 9 ∷ 10 ∷ 11 ∷ 0 ∷ 0 ∷ [])
unfolding program
across = refl

file-OpenAt :
    OpenAt mem_blocks calendar read_only volume volume-Sized volume-Laid file (mem_image disk)
unfolding opened mapped nth_cluster
file-OpenAt = record {
  view = (new-Stands mem_blocks disk 16 (omega arith), refl, refl);
  placed = λ c e. e;
}

read-ReadFatFile_example :
    ReadFatFile mem_blocks calendar read_only volume volume-Sized volume-Laid file
      (mem_image disk)
      9
      (read calendar (fat_backing mem_blocks read_only volume) file 9 now)
unfolding opened mapped
read-ReadFatFile_example =
    read-ReadFatFile mem_blocks calendar read_only volume volume-Sized volume-Laid file 9 now
      file-OpenAt (omega arith)

changes : Unit {0}
unfolding program write_at store_in write_bytes write_fat next_free_cluster search_start free_loop
    found_free store_cell write_copies old_cell noted fat_mirroring to_le_bytes written_cell
    value_cell end_value link_prev claim_loop free_each unhook settle_claims allocate_clusters
    tail_loop walk_to_tail grown map_extend keep_loop free_rest map_free_tail
changes = tt

-- A third cluster is linked behind the last one.
linked_behind :
    (map_next mem_blocks 3 (map_extend mem_blocks (some 2) none 48 file.world).0).1 ≡ ok (some 4)
unfolding changes
linked_behind = refl

-- The chain is cut after its first cluster, and the second is free again.
cut_off : (map_next mem_blocks 2 (map_free_tail mem_blocks 2 10 file.world).0).1 ≡ ok none
unfolding changes
cut_off = refl

freed_again :
    (next_free_cluster mem_blocks (map_free_tail mem_blocks 2 10 file.world).0.fs).1 ≡ ok (some 3)
unfolding changes
freed_again = refl
