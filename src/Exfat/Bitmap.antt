-- ===== src/Exfat/Bitmap.antt =====
-- src/exfat/bitmap.rs: the allocation bitmap of an exFAT volume, one bit for a cluster, and the release of chains.
pub mod Digits
pub mod Bits
pub mod Search
pub mod Scanning
pub mod Runs
pub mod Changes
pub mod Marks
pub mod Ranges
use Prim.Native.Nat.{bit_and, bit_or}
use unifat.Prelude.{
  ℕ, zero, suc, ◌+◌, ◌-◌, ◌*◌, ◌/◌, ◌%◌, ◌^◌, min, Bool, true, false, if◌then◌else◌, ltb, leb, ◌==◌,
  u32_max, List, [], ◌∷◌, Option, some, none, length,
}
use unifat.Error.{Result, ok, err, abort, FsError, CorruptKind, FsResult, and_then}
use unifat.Store.Device.{BlockDevice}
use unifat.Exfat.Boot.{bytes_per_sector, bytes_per_cluster, div_ceil}
use unifat.Exfat.Volume.{ExfatVfs, cluster_to_byte_offset, read_at, write_at}
use unifat.Exfat.Table.{FatEntry, read_fat_entry, write_fat_entry}

abbrev pub bitmap_window : ℕ
bitmap_window = 512

-- `(b >> bit) & 1`
unfoldable pub bit_of : ℕ → ℕ → ℕ
bit_of b bit = b / 2 ^ bit % 2

-- `for bit in 0..8`, over the `n` bits from `bit` on: the first that is clear.
unfoldable pub clear_bit : ℕ → ℕ → ℕ → Option ℕ
unfolding bit_of
clear_bit zero bit b = none
clear_bit (suc n) bit b = if bit_of b bit == 0 then some bit else clear_bit n (bit + 1) b

-- The number of the first clear bit of a window whose first byte has the number `i`.
abbrev pub or_later : ℕ → Option ℕ → Option ℕ → Option ℕ
or_later i (some bit) later = some (i * 8 + bit)
or_later i none later = later

unfoldable pub clear_in : List ℕ → ℕ → Option ℕ
unfolding clear_bit
clear_in [] i = none
clear_in (b ∷ bs) i =
    let later = clear_in bs (i + 1) in
    if b == 0xFF then later else or_later i (clear_bit 8 0 b) later

-- What a scan has seen: its answer, a panic, or the run of free clusters that it is in.
pub data Scan : Type 0 where
  answer : Option ℕ → Scan
  overflow : Scan
  run : Option ℕ → ℕ → Scan

-- A free cluster joins the run, or starts one.
abbrev pub joined : ℕ → ℕ → Option ℕ → ℕ → Scan
joined count cluster none len =
    if 1 == count then Scan.answer (some cluster) else Scan.run (some cluster) 1
joined count cluster (some start) len =
    if len + 1 == count then Scan.answer (some start) else Scan.run (some start) (len + 1)

-- One bit of the scan for a run.
unfoldable pub scan_bit : ℕ → ℕ → ℕ → ℕ → Option ℕ → ℕ → Scan
scan_bit last count bit cluster start len =
    if ltb last cluster
    then Scan.answer none
    else if ltb u32_max cluster
    then Scan.overflow
    else if bit == 0
    then joined count cluster start len
    else Scan.run none 0

-- The rest of a scan, unless it has an answer.
abbrev pub scan_on : Scan → (Option ℕ → ℕ → Scan) → Scan
scan_on (Scan.answer a) k = Scan.answer a
scan_on Scan.overflow k = Scan.overflow
scan_on (Scan.run start len) k = k start len

-- The `n` bits of a byte from `bit` on; its first bit is that of `cluster`.
unfoldable pub scan_byte : ℕ → ℕ → ℕ → ℕ → ℕ → ℕ → Option ℕ → ℕ → Scan
unfolding scan_bit bit_of
scan_byte last count zero bit b cluster start len = Scan.run start len
scan_byte last count (suc n) bit b cluster start len =
    scan_on (scan_bit last count (bit_of b bit) (cluster + bit) start len)
      (λ start' len'. scan_byte last count n (bit + 1) b cluster start' len')

unfoldable pub scan_window : ℕ → ℕ → List ℕ → ℕ → Option ℕ → ℕ → Scan
unfolding scan_byte
scan_window last count [] i start len = Scan.run start len
scan_window last count (b ∷ bs) i start len =
    scan_on (scan_byte last count 8 0 b (2 + i * 8) start len)
      (λ start' len'. scan_window last count bs (i + 1) start' len')

module _ (D : BlockDevice) where
  open D use {Io}

  unfoldable pub bitmap_base : ExfatVfs D → ℕ
  unfolding cluster_to_byte_offset bytes_per_sector bytes_per_cluster
  bitmap_base v =
      cluster_to_byte_offset v.boot.cluster_heap_offset v.bitmap.first_cluster
        (bytes_per_sector v.boot) (bytes_per_cluster v.boot)

  unfoldable pub bitmap_scan_bytes : ExfatVfs D → ℕ
  bitmap_scan_bytes v = min (div_ceil v.boot.cluster_count 8) v.bitmap.byte_length

  unfoldable pub bitmap_byte_offset_for_cluster : ExfatVfs D → ℕ → Option (ℕ × ℕ)
  unfolding bitmap_base
  bitmap_byte_offset_for_cluster v cluster =
      if ltb cluster 2
      then none
      else if leb v.bitmap.byte_length ((cluster - 2) / 8)
      then none
      else some (bitmap_base v + (cluster - 2) / 8, (cluster - 2) % 8)

  -- `buf[0]` of a buffer of one byte.
  abbrev pub first_byte : List ℕ → ℕ
  first_byte [] = 0
  first_byte (b ∷ bs) = b

  -- A byte of the bitmap read, changed and written.
  unfoldable pub update_byte :
      ExfatVfs D → Option (ℕ × ℕ) → (ℕ → ℕ → ℕ) → ExfatVfs D × FsResult Io (Unit {0})
  unfolding read_at write_at
  update_byte v none change = (v, err FsError.unsupported)
  update_byte v (some (off, bit)) change =
      and_then (read_at D v off 1) (λ v' b. write_at D v' off (change (first_byte b) bit ∷ []))

  -- `b | 1 << bit`
  abbrev pub set_bit : ℕ → ℕ → ℕ
  set_bit b bit = bit_or b (2 ^ bit)

  -- `b & !(1 << bit)`
  abbrev pub reset_bit : ℕ → ℕ → ℕ
  reset_bit b bit = bit_and b (255 - 2 ^ bit)

  unfoldable pub mark_cluster_allocated : ExfatVfs D → ℕ → ExfatVfs D × FsResult Io (Unit {0})
  unfolding update_byte bitmap_byte_offset_for_cluster
  mark_cluster_allocated v cluster =
      update_byte v (bitmap_byte_offset_for_cluster v cluster) set_bit

  unfoldable pub mark_cluster_free : ExfatVfs D → ℕ → ExfatVfs D × FsResult Io (Unit {0})
  unfolding update_byte bitmap_byte_offset_for_cluster
  mark_cluster_free v cluster = update_byte v (bitmap_byte_offset_for_cluster v cluster) reset_bit

  -- The answer of a search, as a u32.
  abbrev pub cluster_found : ℕ → ℕ → FsResult Io (Option ℕ)
  cluster_found last cluster =
      if ltb last cluster then ok none else if ltb u32_max cluster then abort else ok (some cluster)

  -- `while byte_idx < scan_bytes`, a window a round.
  unfoldable pub find_loop : ℕ → ExfatVfs D → ℕ → ℕ → ExfatVfs D × FsResult Io (Option ℕ)
  unfolding bitmap_base read_at clear_in
  find_loop zero v byte_idx scan_bytes =
      if ltb byte_idx scan_bytes then (v, abort) else (v, ok none)
  find_loop (suc fuel) v byte_idx scan_bytes = elim (ltb byte_idx scan_bytes) [
    | false ↦ (v, ok none)
    | true ↦
        let chunk = min (scan_bytes - byte_idx) bitmap_window in
        and_then (read_at D v (bitmap_base v + byte_idx) chunk) (λ v' window.
          elim (clear_in window byte_idx) [
            | some idx ↦ (v', cluster_found (v'.boot.cluster_count + 1) (2 + idx))
            | none ↦ find_loop fuel v' (byte_idx + chunk) scan_bytes
          ])
  ]

  unfoldable pub find_free_cluster : ExfatVfs D → ExfatVfs D × FsResult Io (Option ℕ)
  unfolding find_loop bitmap_scan_bytes
  find_free_cluster v = find_loop (bitmap_scan_bytes v) v 0 (bitmap_scan_bytes v)

  unfoldable pub run_loop :
      ℕ → ExfatVfs D → ℕ → ℕ → ℕ → Option ℕ → ℕ → ExfatVfs D × FsResult Io (Option ℕ)
  unfolding bitmap_base read_at scan_window
  run_loop zero v count byte_idx scan_bytes start len =
      if ltb byte_idx scan_bytes then (v, abort) else (v, ok none)
  run_loop (suc fuel) v count byte_idx scan_bytes start len = elim (ltb byte_idx scan_bytes) [
    | false ↦ (v, ok none)
    | true ↦
        let chunk = min (scan_bytes - byte_idx) bitmap_window in
        and_then (read_at D v (bitmap_base v + byte_idx) chunk) (λ v' window.
          elim (scan_window (v'.boot.cluster_count + 1) count window byte_idx start len) [
            | Scan.answer a ↦ (v', ok a)
            | Scan.overflow ↦ (v', abort)
            | Scan.run start' len' ↦
                run_loop fuel v' count (byte_idx + chunk) scan_bytes start' len'
          ])
  ]

  unfoldable pub find_free_contiguous_run : ExfatVfs D → ℕ → ExfatVfs D × FsResult Io (Option ℕ)
  unfolding run_loop bitmap_scan_bytes
  find_free_contiguous_run v count =
      if count == 0
      then (v, ok none)
      else run_loop (bitmap_scan_bytes v) v count 0 (bitmap_scan_bytes v) none 0

  -- The sum `first + i` of a loop, which panics past a u32.
  abbrev pub u32_or_abort : ℕ → FsResult Io (Unit {0})
  u32_or_abort x = if ltb u32_max x then abort else ok tt

  -- `for i in 0..count`, over the `n` clusters from `cluster` on.
  unfoldable pub mark_cluster_range_allocated :
      ExfatVfs D → ℕ → ℕ → ExfatVfs D × FsResult Io (Unit {0})
  unfolding mark_cluster_allocated
  mark_cluster_range_allocated v first zero = (v, ok tt)
  mark_cluster_range_allocated v first (suc n) =
      and_then (v, u32_or_abort first)
        (λ v0 _.
          and_then (mark_cluster_allocated v0 first)
            (λ v' _. mark_cluster_range_allocated v' (first + 1) n))

  unfoldable pub free_run : ExfatVfs D → ℕ → ℕ → ExfatVfs D × FsResult Io (Unit {0})
  unfolding mark_cluster_free
  free_run v first zero = (v, ok tt)
  free_run v first (suc n) =
      and_then (v, u32_or_abort first)
        (λ v0 _. and_then (mark_cluster_free v0 first) (λ v' _. free_run v' (first + 1) n))

  -- What is done with a cluster before the walk goes on.
  unfoldable pub release : ExfatVfs D → ℕ → ExfatVfs D × FsResult Io (Unit {0})
  unfolding mark_cluster_free write_fat_entry
  release v cur = and_then (mark_cluster_free v cur) (λ v' _. write_fat_entry D v' cur 0)

  -- `while visited <= cap`: `n` clusters are left.
  unfoldable pub free_walk : ℕ → ExfatVfs D → ℕ → ExfatVfs D × FsResult Io (Unit {0})
  unfolding read_fat_entry release
  free_walk zero v cur = (v, err (FsError.corrupt CorruptKind.cluster_chain))
  free_walk (suc n) v cur = and_then (read_fat_entry D v cur) (λ v' entry. elim entry [
    | FatEntry.bad ↦ (v', ok tt)
    | FatEntry.next c ↦ and_then (release v' cur) (λ v'' _. free_walk n v'' c)
    | FatEntry.free ↦ release v' cur
    | FatEntry.eoc ↦ release v' cur
    | FatEntry.invalid ↦ release v' cur
  ])

  unfoldable pub free_cluster_chain :
      ExfatVfs D → ℕ → ℕ → Bool → ExfatVfs D × FsResult Io (Unit {0})
  unfolding free_run free_walk
  free_cluster_chain v first count no_fat_chain =
      if no_fat_chain then free_run v first count else free_walk (v.boot.cluster_count + 1) v first
