-- ===== src/Lib.antt =====
-- unifat is a file system library for FAT16, FAT32 and exFAT volumes on a block device. This
-- development models its storage layer, its time codecs, the allocation table of a FAT volume, the state and
-- the allocation bitmap of an exFAT volume, open files, paths and the table of open handles.
--
-- The parts and where they are:
--   * The sector cache (src/store/cache.rs) is in Store/Cache.antt (slots, lookup, eviction, write-back)
--     and Store/Access.antt (`read_at`, `write_at`, `read_through`, `write_through`, `flush`). The state is
--     the record `SectorCache`: the slots, the clock and the device. An operation takes the state and
--     returns the next state with an `FsResult`: `ok`, `err`, or `abort` for a panic or a loop that does
--     not end.
--   * The device is code of the crate embedded_io: Store/Device.antt states its operations and laws as
--     the record `BlockDevice`. The in-memory device (src/store/mem.rs, Store/Mem.antt) is one in
--     Store/Mem/Blocks.antt.
--   * What a cache promises is said by an image, a function from offsets to bytes. `Stands c f` says that
--     the cache `c` stands for the image `f`: a byte in a slot is the image's, a byte in no slot is on the
--     device. Store/Access/Runs.antt runs sequences of calls against the image.
--   * The time codec (src/codec/time.rs) is in Codec/Time.antt and the stamps of a FAT directory entry
--     (src/codec/fat/entry_time.rs) in Codec/EntryTime.antt. The crate time is the record `Calendar` of
--     operations and documented laws; Codec/Time/Days.antt is a calendar that has them.
--   * The cells of a file allocation table (src/codec/fat/fat_entry.rs) are in Fat/Cells.antt. The volume
--     (src/fat/fs.rs, its fields that the table needs) and its bounded accesses are in Fat/Volume.antt, and
--     the table itself (src/fat/sector_io.rs: `read_fat`, `write_fat`, `next_free_cluster`) in
--     Fat/Table.antt. The state is the record `FatVfs`, whose cache stands for an image of the disk.
--   * The partition adapter (src/mbr.rs) is in Mbr.antt: the record `Partition` over a device `Storage`, its
--     reads, writes and seeks.
--   * An open file (src/vfs/stream.rs, `StreamFile`) is in Stream.antt and Stream/Methods.antt. The volume below
--     it is the record `Backing` (Stream/Traits.antt), which has the operations of the traits in src/vfs/cluster_map.rs,
--     src/vfs/data_store.rs and src/vfs/dir_slot.rs; the laws that it keeps are the record `Laws` of
--     Stream/Content.antt. A FAT volume is one: its cluster map and data store (src/fat/cluster_map.rs,
--     src/fat/data_store.rs) are in Fat/ClusterMap.antt, over the allocation of clusters in Fat/Table/Alloc.antt
--     (src/fat/entry_io.rs), and its laws in Fat/ClusterMap/Laws.antt. `Open` in Stream/Walking.antt says that a file's cluster cache is in its chain.
--   * The exFAT volume (src/exfat/mod.rs, the fields that its byte accesses need) is in Exfat/Volume.antt, the
--     boot record (src/codec/exfat/boot.rs) in Exfat/Boot.antt, the allocation table (src/exfat/fat_io.rs) in
--     Exfat/Table.antt and the bitmap (src/exfat/bitmap.rs) in Exfat/Bitmap.antt. `Mounted` in
--     Exfat/Bitmap/Search.antt is what the mount has checked.
--   * Paths (src/path.rs) are in Path.antt, as lists of character codes, and the table of open files and
--     directories (src/handles.rs) in Handles.antt, as a list of keys and modes in the order of the keys.
--   * Errors (src/error.rs) are in Error.antt. Prelude.antt passes on the library's names, the Boolean
--     tests, lists, images, seek positions and the bit operations.
--
-- Bounds. Words keep their width: a shift is cut to 16 or 32 bits, a cast to u8 is `% 2 ^ 8`. The loops of
-- `read_at` and `write_at` run on fuel, one unit a round; they start with the length of the range, and a
-- round moves a byte at least, so the fuel is enough. The range of a
-- cached access ends at 2^64 at most, and the range of a direct access in a sequence of calls below 2^64, since the
-- source adds offset and length first. A dirty slot holds a sector that starts below 2^64, so that the product
-- of its write-back does not overflow; the clock of the cache is not cut at 2^64, which would take as many calls. The search for a free cluster has one round for each cluster that
-- is left, from its start to the last one; the sum `cluster + 1` that would pass 32 bits is an `abort`. So is the
-- sum `last + 1` of an open file, which links below 2^32 - 1 rule out. The release of the end of a chain has two rounds
-- more than the volume has clusters, since a cluster that was freed has no link. The loops of an open file run on fuel, one unit for a byte that is still
-- wanted; those over the bitmap on one unit a byte of it; the walk of `free_cluster_chain` has the bound of the
-- source, the count of clusters; the components of a path on one unit a character and one more. In an open file
-- the clock is an argument of the method that asks it.
--
-- Not modelled: the borrow flags of the cells that hold the state (each operation borrows once), the drop of an open
-- file and of a volume, the cluster map of exFAT and the directory entries of both formats, names, directories and the facade over the
-- formats, the mount but for the test of the bitmap, and the field layouts that macros of the crate layline derive.
pub mod Prelude
pub mod Error
pub mod Codec
pub mod Exfat
pub mod Fat
pub mod Handles
pub mod Mbr
pub mod Path
pub mod Store
pub mod Stream
