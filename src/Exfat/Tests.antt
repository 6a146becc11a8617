-- ===== src/Exfat/Tests.antt =====
-- A small exFAT volume on the in-memory device, and the theorems on the bitmap at it.
use unifat.Prelude.{
  zero, suc, length, get_or, ap, ◌≢◌, ℕ, ◌≤◌, ◌≡◌, refl, arith, true, false, some, List, [], ◌∷◌,
  ◌++◌, replicate,
}
use unifat.Error.{ok}
use unifat.Store.Access
use unifat.Store.Cache.{
  new, slot_index, position, min_stamp, copy_at, write_out, read_in, write_back, install, filled,
  refill, evicted, evict,
}
use unifat.Store.Cache.Refill.{Stands}
use unifat.Store.Access.Runs.{new-Stands}
use unifat.Store.Mem.{MemBlockDevice}
use unifat.Store.Mem.Blocks.{mem_blocks, mem_image, mem_seek, mem_read_exact, mem_write_all}
use unifat.Exfat.Boot.{
  ExfatBootRecord, shifts_valid, bytes_per_sector, bytes_per_cluster, entry_geometry_valid,
  run_fits,
}
use unifat.Exfat.Boot.Geometry.{InHeap, entry_geometry_valid-InHeap}
use unifat.Exfat.Boot.Checksum.{boot_region_checksum, boot_region_checksum-in_place}
use unifat.Exfat.Volume.{
  ExfatVfs, bitmap_ok, cluster_to_byte_offset, ensure_volume_dirty, read_at, write_at, flush,
}
use unifat.Exfat.Volume.Synced.{MarkTo}
use unifat.Exfat.Volume.Marked.{MarkedWrite, ensure_volume_dirty-MarkTo, write_at-MarkedWrite}
use unifat.Exfat.Volume.Flushed.{FlushedTo, flush-FlushedTo}
use unifat.Exfat.Bitmap.{
  bitmap_base, bitmap_scan_bytes, find_loop, run_loop, clear_in, scan_window, update_byte,
  bitmap_byte_offset_for_cluster, find_free_cluster, find_free_contiguous_run,
  mark_cluster_allocated, mark_cluster_free,
}
use unifat.Exfat.Bitmap.Search.{Mounted, FreeCluster, find_free_cluster-FreeCluster}
use unifat.Exfat.Bitmap.Runs.{FreeRun, find_free_contiguous_run-FreeRun}
use unifat.Exfat.Bitmap.Ranges.{
  RangeTo, mark_cluster_range_allocated-RangeTo, free_cluster_chain-RangeTo,
}
use unifat.Exfat.Bitmap.{mark_cluster_range_allocated, free_cluster_chain}
use unifat.Exfat.Bitmap.Marks.{BitTo, mark_cluster_allocated-BitTo}

-- Two lists that differ at one place.
differ_at :
    (xs : List ℕ) (a b : ℕ) (ys : List ℕ) (i : ℕ)
    → i ≢ length xs
    → get_or (xs ++ a ∷ ys) i 0 ≡ get_or (xs ++ b ∷ ys) i 0
differ_at [] a b ys zero ne = absurd (ne refl)
differ_at [] a b ys (suc i) ne = refl
differ_at (x ∷ xs) a b ys zero ne = refl
differ_at (x ∷ xs) a b ys (suc i) ne = differ_at xs a b ys i (λ e. ne (ap suc e))

abbrev boot : ExfatBootRecord
boot = record {
  volume_len = 3;
  fat_offset = 2;
  fat_len = 1;
  cluster_heap_offset = 1;
  cluster_count = 10;
  root_dir_cluster = 3;
  flags = 0;
  sector_shift = 9;
  cluster_shift = 0;
}

-- Clusters 2, 3, 4 and 6 are allocated.
abbrev disk : MemBlockDevice
disk = record { bytes = replicate 512 0 ++ 0x17 ∷ 0 ∷ replicate 510 0; pos = 0; fixed = true }

abbrev volume : ExfatVfs mem_blocks
volume = record {
  cache = new mem_blocks disk 512;
  boot = boot;
  bitmap = record { first_cluster = 2; byte_length = 2 };
  dirty_since_mount = false;
  volume_dirty = false;
}

volume-Mounted : Mounted volume.boot volume.bitmap
unfolding shifts_valid bitmap_ok bytes_per_cluster
volume-Mounted = record { shifts = refl; lies = refl; heap = omega arith; count = omega arith }

volume-Stands : Stands mem_blocks volume.cache (mem_image disk)
volume-Stands = new-Stands mem_blocks disk 512 (omega arith)

base_lem : 113 ≤ bitmap_base mem_blocks volume
unfolding bitmap_base cluster_to_byte_offset bytes_per_sector bytes_per_cluster
base_lem = omega arith

program : Unit {0}
unfolding new Access.settled Access.read_at Access.write_at Access.flush Access.flush_device
    slot_index position min_stamp copy_at write_out read_in write_back install filled refill evicted
    evict mem_seek mem_read_exact mem_write_all read_at write_at ensure_volume_dirty
    find_free_cluster find_free_contiguous_run mark_cluster_allocated mark_cluster_free bitmap_base
    bitmap_scan_bytes find_loop run_loop clear_in scan_window update_byte
    bitmap_byte_offset_for_cluster cluster_to_byte_offset bytes_per_sector bytes_per_cluster
program = tt

first_free : (find_free_cluster mem_blocks volume).1 ≡ ok (some 5)
unfolding program
first_free = refl

run_found : (find_free_contiguous_run mem_blocks volume 3).1 ≡ ok (some 7)
unfolding program
run_found = refl

-- A cluster that is marked is no longer found.
next_free :
    (find_free_cluster mem_blocks (mark_cluster_allocated mem_blocks volume 5).0).1 ≡ ok (some 7)
unfolding program
next_free = refl

find_free_cluster-FreeCluster_example :
    FreeCluster mem_blocks volume (mem_image disk) (find_free_cluster mem_blocks volume)
find_free_cluster-FreeCluster_example =
    find_free_cluster-FreeCluster mem_blocks volume volume-Mounted volume-Stands

find_free_contiguous_run-FreeRun_example :
    FreeRun mem_blocks volume (mem_image disk) 3 (find_free_contiguous_run mem_blocks volume 3)
find_free_contiguous_run-FreeRun_example =
    find_free_contiguous_run-FreeRun mem_blocks volume 3 volume-Mounted (omega arith) volume-Stands

mark_cluster_allocated-BitTo_example :
    BitTo mem_blocks volume (mem_image disk) 5 1 (mark_cluster_allocated mem_blocks volume 5)
mark_cluster_allocated-BitTo_example =
    mark_cluster_allocated-BitTo mem_blocks volume 5 volume-Mounted base_lem volume-Stands

mark_cluster_range_allocated-RangeTo_example :
    RangeTo mem_blocks volume
      (mem_image disk)
      7
      3
      1
      (mark_cluster_range_allocated mem_blocks volume 7 3)
mark_cluster_range_allocated-RangeTo_example =
    mark_cluster_range_allocated-RangeTo mem_blocks volume 7 3 volume-Mounted base_lem (omega arith)
      (omega arith) volume-Stands

free_cluster_chain-RangeTo_example :
    RangeTo mem_blocks volume (mem_image disk) 2 3 0 (free_cluster_chain mem_blocks volume 2 3 true)
free_cluster_chain-RangeTo_example =
    free_cluster_chain-RangeTo mem_blocks volume 2 3 volume-Mounted base_lem (omega arith)
      (omega arith) volume-Stands

ensure_volume_dirty-MarkTo_example :
    MarkTo mem_blocks volume (mem_image disk) (ensure_volume_dirty mem_blocks volume)
ensure_volume_dirty-MarkTo_example = ensure_volume_dirty-MarkTo mem_blocks volume volume-Stands

write_at-MarkedWrite_example :
    MarkedWrite mem_blocks volume
      (mem_image disk)
      600
      (1 ∷ 2 ∷ [])
      (write_at mem_blocks volume 600 (1 ∷ 2 ∷ []))
write_at-MarkedWrite_example =
    write_at-MarkedWrite mem_blocks volume 600 (1 ∷ 2 ∷ []) volume-Stands (omega arith)

flush-FlushedTo_example : FlushedTo mem_blocks volume (mem_image disk) (flush mem_blocks volume)
flush-FlushedTo_example = flush-FlushedTo mem_blocks volume volume-Stands

geometry_lem : entry_geometry_valid boot 5 1000 700 true ≡ true
unfolding entry_geometry_valid run_fits bytes_per_cluster
geometry_lem = refl

entry_geometry_valid-InHeap_example : (700 ≤ 1000) × InHeap boot 5 1000
entry_geometry_valid-InHeap_example =
    entry_geometry_valid-InHeap boot 5 1000 700 (omega arith) geometry_lem

abbrev clean_region : List ℕ
clean_region = 1 ∷ 2 ∷ replicate 104 7 ++ 0 ∷ 9 ∷ []

abbrev dirty_region : List ℕ
dirty_region = 1 ∷ 2 ∷ replicate 104 7 ++ 2 ∷ 9 ∷ []

-- The regions differ in the flags.
flags_only :
    (i : ℕ) → i ≢ 106 → i ≢ 107 → i ≢ 112 → get_or clean_region i 0 ≡ get_or dirty_region i 0
flags_only i not_flag not_flag' not_share =
    differ_at (1 ∷ 2 ∷ replicate 104 7) 0 2 (9 ∷ []) i not_flag

boot_region_checksum-in_place_example :
    boot_region_checksum clean_region ≡ boot_region_checksum dirty_region
boot_region_checksum-in_place_example =
    boot_region_checksum-in_place clean_region dirty_region refl flags_only
