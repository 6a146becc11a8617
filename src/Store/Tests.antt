-- ===== src/Store/Tests.antt =====
-- Runs of the sector cache over the in-memory device, and the theorems at concrete inputs.

use unifat.Prelude.{◌≡◌, refl, true, false, List, [], ◌∷◌, arith}
use unifat.Error.{ok, err, corrupt, CorruptKind}
use unifat.Store.Cache.{
  SectorCache, new, slot_index, position, min_stamp, copy_at, write_out, read_in, write_back,
  install, filled, refill, evicted, evict,
}
use unifat.Store.Cache.Refill.{Stands, Looked, slot_index-Looked}
use unifat.Store.Access.{read_at, write_at, read_through, write_through, flush, settled}
use unifat.Store.Access.Cached.{ReadTo, read_at-slice}
use unifat.Store.Access.Written.{WriteTo, write_at-overlay}
use unifat.Store.Access.Through.{
  ReadThrough, WriteThrough, FlushTo, read_through-slice, write_through-overlay, flush-image,
}
use unifat.Store.Access.Runs.{
  Call, reads, reads_through, writes, writes_through, flushes, run, RunTo, new-Stands, run-ideal,
}
use unifat.Store.Mem.{MemBlockDevice}
use unifat.Store.Mem.Blocks.{mem_blocks, mem_image, mem_seek, mem_read_exact, mem_write_all}

-- Three sectors of four bytes on a device that does not grow.
abbrev device : MemBlockDevice
device = record {
  bytes = 0 ∷ 1 ∷ 2 ∷ 3 ∷ 4 ∷ 5 ∷ 6 ∷ 7 ∷ 8 ∷ 9 ∷ 10 ∷ 11 ∷ [];
  pos = 0;
  fixed = true;
}

abbrev cache : SectorCache mem_blocks
cache = new mem_blocks device 4

cache-Stands : Stands mem_blocks cache (mem_image device)
cache-Stands = new-Stands mem_blocks device 4 (omega arith)

program : Unit {0}
unfolding new read_at write_at read_through write_through flush slot_index position min_stamp
    copy_at write_out read_in write_back install filled refill evicted evict settled run mem_seek
    mem_read_exact mem_write_all
program = tt

straddle : (read_at mem_blocks cache 2 4).1 ≡ ok (2 ∷ 3 ∷ 4 ∷ 5 ∷ [])
unfolding program
straddle = refl

-- A write through the cache is read back, is seen by a direct read, and is on the device at the end.
calls : List Call
calls =
    writes 3 (90 ∷ 91 ∷ [])
    ∷ reads 2 4
    ∷ reads_through 3 2
    ∷ writes_through 4 (92 ∷ [])
    ∷ reads 3 2
    ∷ flushes
    ∷ []

mixed_result : (run mem_blocks cache calls).1 ≡ ok (2 ∷ 90 ∷ 91 ∷ 5 ∷ 90 ∷ 91 ∷ 90 ∷ 92 ∷ [])
unfolding program calls
mixed_result = refl

mixed_bytes :
    (run mem_blocks cache calls).0.storage.bytes
    ≡ 0 ∷ 1 ∷ 2 ∷ 90 ∷ 92 ∷ 5 ∷ 6 ∷ 7 ∷ 8 ∷ 9 ∷ 10 ∷ 11 ∷ []
unfolding program calls
mixed_bytes = refl

-- Past the end of the device a read fails, and so does the write-back of a sector.
past_end : (read_at mem_blocks cache 10 4).1 ≡ err (corrupt CorruptKind.other)
unfolding program
past_end = refl

run-ideal_example : RunTo mem_blocks (mem_image device) calls (run mem_blocks cache calls)
unfolding calls
run-ideal_example = run-ideal mem_blocks cache calls cache-Stands (omega arith)

read_at-slice_example : ReadTo mem_blocks (mem_image device) 2 4 [] (read_at mem_blocks cache 2 4)
read_at-slice_example = read_at-slice mem_blocks cache 2 4 cache-Stands (omega arith)

write_at-overlay_example :
    WriteTo mem_blocks
      (mem_image device)
      3
      (90 ∷ 91 ∷ [])
      (write_at mem_blocks cache 3 (90 ∷ 91 ∷ []))
write_at-overlay_example =
    write_at-overlay mem_blocks cache 3 (90 ∷ 91 ∷ []) cache-Stands (omega arith)

read_through-slice_example :
    ReadThrough mem_blocks (mem_image device) 2 4 (read_through mem_blocks cache 2 4)
read_through-slice_example = read_through-slice mem_blocks cache 2 4 cache-Stands

write_through-overlay_example :
    WriteThrough mem_blocks
      (mem_image device)
      3
      (90 ∷ 91 ∷ [])
      (write_through mem_blocks cache 3 (90 ∷ 91 ∷ []))
write_through-overlay_example = write_through-overlay mem_blocks cache 3 (90 ∷ 91 ∷ []) cache-Stands

flush-image_example : FlushTo mem_blocks (mem_image device) (flush mem_blocks cache)
flush-image_example = flush-image mem_blocks cache cache-Stands

slot_index-Looked_example :
    Looked mem_blocks cache (mem_image device) 2 false (slot_index mem_blocks cache 2 false)
unfolding new
slot_index-Looked_example =
    slot_index-Looked mem_blocks cache 2 false cache-Stands (omega arith) (omega arith)

new-Stands_example : Stands mem_blocks (new mem_blocks device 4) (mem_image device)
new-Stands_example = new-Stands mem_blocks device 4 (omega arith)
