-- ===== src/Stream/Methods.antt =====
-- The methods of an open file (src/vfs/stream.rs): read, write, flush, seek, set_len and the setters of stamps.
use unifat.Prelude.{
  ℕ, suc, ◌+◌, ◌-◌, ◌/◌, ◌%◌, min, max, Bool, true, false, not, ◌&&◌, ◌||◌, Option, none, some,
  List, [], if◌then◌else◌, ltb, leb, ◌==◌, length, take, replicate, SeekFrom, start, current, end,
  ℤ, pos, negsuc, saturating_add, checked_sub, checked_add, u32_max,
}
use unifat.Error.{ok, err, FileError, FileResult, and_then}
use unifat.Codec.Time.{Calendar}
use unifat.Stream.Entry.{EntryPatch}
use unifat.Stream.Traits.{Backing}
use unifat.Stream.{
  StreamFile, on_world, seek_to_cluster, contiguous_span, ensure_allocation, or_corrupt, as_u32,
  zero_range, touch_modified, touch_accessed,
}

module _ (K : Calendar) (B : Backing K) where
  open K use {Date, Time}
  open B use {World, Io}

  unfoldable pub flush_entry : StreamFile K B → StreamFile K B × FileResult Io (Unit {0})
  flush_entry s =
      if not s.dirty || not s.writable
      then (s, ok tt)
      else (let patch : EntryPatch K = record {
        size = some s.len;
        valid_size = some s.valid_len;
        first_cluster = some s.first_cluster;
        no_fat_chain = some (B.no_fat_chain s.world);
        times = some s.times;
        attrs = none;
      } in
          and_then (on_world K B s (B.write_patch patch s.world))
            (λ s' _. (record s' { dirty = false }, ok tt)))

  -- The end of a `set_len` that shrinks the file.
  unfoldable pub shrunk : StreamFile K B → ℕ → StreamFile K B
  shrunk s size = record s {
    len = size;
    valid_len = min s.valid_len size;
    chain_tail = none;
    current_cluster = none;
    current_index = 0;
    dirty = true;
  }

  unfoldable pub shrink : StreamFile K B → ℕ → StreamFile K B × FileResult Io (Unit {0})
  unfolding shrunk
  shrink s size =
      if leb 2 s.first_cluster
      then and_then (on_world K B s (B.free_tail s.first_cluster size s.world))
          (λ s' first. (shrunk (record s' { first_cluster = first }) size, ok tt))
      else (shrunk s size, ok tt)

  -- FAT has no valid length: the extension is zeroed.
  unfoldable pub filled_to : StreamFile K B → ℕ → StreamFile K B × FileResult Io (Unit {0})
  filled_to s size =
      if s.fat_size_cap
      then and_then (zero_range K B s s.valid_len size)
          (λ s' _. (record s' { valid_len = size }, ok tt))
      else (s, ok tt)

  unfoldable pub grow : StreamFile K B → ℕ → StreamFile K B × FileResult Io (Unit {0})
  unfolding filled_to
  grow s size =
      if s.fat_size_cap && ltb u32_max size
      then (s, err FileError.file_too_large)
      else and_then (ensure_allocation K B s size) (λ s1 _.
        and_then (filled_to s1 size) (λ s2 _. (record s2 { len = size; dirty = true }, ok tt)))

  unfoldable pub set_len : StreamFile K B → ℕ → StreamFile K B × FileResult Io (Unit {0})
  unfolding shrink grow
  set_len s size =
      if not s.writable
      then (s, err FileError.read_only)
      else if size == s.len
      then (s, ok tt)
      else if ltb size s.len
      then shrink s size
      else grow s size

  unfoldable pub set_created :
      StreamFile K B → Date × Time → StreamFile K B × FileResult Io (Unit {0})
  set_created s when =
      if not s.writable
      then (s, err FileError.read_only)
      else (record s { times = record s.times { created = some when }; dirty = true }, ok tt)

  unfoldable pub set_modified :
      StreamFile K B → Date × Time → StreamFile K B × FileResult Io (Unit {0})
  set_modified s when =
      if not s.writable
      then (s, err FileError.read_only)
      else (record s { times = record s.times { modified = some when }; dirty = true }, ok tt)

  unfoldable pub set_accessed : StreamFile K B → Date → StreamFile K B × FileResult Io (Unit {0})
  set_accessed s when =
      if not s.writable
      then (s, err FileError.read_only)
      else (record s { times = record s.times { accessed = some when }; dirty = true }, ok tt)

  -- The read below the valid length, from the current cluster on.
  unfoldable pub read_data :
      StreamFile K B → ℕ → Date × Time → StreamFile K B × FileResult Io (List ℕ)
  unfolding touch_accessed
  read_data s n now =
      let nth = as_u32 K B (s.pos / B.cluster_size) in
      let in_cluster = s.pos % B.cluster_size in
      and_then (seek_to_cluster K B s nth) (λ s1 _. or_corrupt K B s1 s1.current_cluster (λ cluster.
        let wanted = min n (s1.valid_len - s1.pos) in
        and_then (contiguous_span K B s1 cluster nth (B.cluster_size - in_cluster) wanted)
          (λ s2 span.
            and_then
              (on_world K B s2
                (B.read_at (B.cluster_to_offset cluster + in_cluster) (min wanted span) s2.world))
              (λ s3 bytes. (
                touch_accessed K B (record s3 { pos = s3.pos + min wanted span }) now,
                ok bytes,
              )))))

  -- `read` into a buffer of length `n`: the bytes read.
  unfoldable pub read : StreamFile K B → ℕ → Date × Time → StreamFile K B × FileResult Io (List ℕ)
  unfolding read_data touch_accessed
  read s n now =
      if n == 0 || leb s.len s.pos
      then (s, ok [])
      else if leb s.valid_len s.pos
      then (let k = min (s.len - s.pos) n in
          (touch_accessed K B (record s { pos = s.pos + k }) now, ok (replicate k 0)))
      else read_data s n now

  -- The bytes that the size cap of FAT leaves of a write, or its refusal.
  abbrev pub capped : Bool → ℕ → List ℕ → Option (List ℕ)
  capped false from buf = some buf
  capped true from buf =
      if leb u32_max from
      then none
      else if ltb u32_max (saturating_add from (length buf))
      then some (take (min (u32_max - from) (length buf)) buf)
      else some buf

  -- The end of a write of `n` bytes.
  unfoldable pub wrote : StreamFile K B → ℕ → Date × Time → StreamFile K B
  unfolding touch_modified
  wrote s n now =
      let end' = s.pos + n in
      record (touch_modified K B
        (record s { pos = end'; valid_len = max s.valid_len end'; len = max s.len end' }) now) {
          dirty = true;
        }

  -- The gap between the valid length and the position is zeroed.
  unfoldable pub fill_gap : StreamFile K B → StreamFile K B × FileResult Io (Unit {0})
  fill_gap s = if ltb s.valid_len s.pos then zero_range K B s s.valid_len s.pos else (s, ok tt)

  unfoldable pub write_data :
      StreamFile K B → List ℕ → Date × Time → StreamFile K B × FileResult Io ℕ
  unfolding wrote
  write_data s buf now =
      let nth = as_u32 K B (s.pos / B.cluster_size) in
      let in_cluster = s.pos % B.cluster_size in
      and_then (seek_to_cluster K B s nth) (λ s1 _. or_corrupt K B s1 s1.current_cluster (λ cluster.
        and_then (contiguous_span K B s1 cluster nth (B.cluster_size - in_cluster) (length buf))
          (λ s2 span.
            let n = min (length buf) span in
            and_then
              (on_world K B s2
                (B.write_at (B.cluster_to_offset cluster + in_cluster) (take n buf) s2.world))
              (λ s3 _. (wrote s3 n now, ok n)))))

  -- `checked_add(..).ok_or(FileError::FileTooLarge)?`
  abbrev pub or_too_large :
      {A : Type 0}
      → StreamFile K B
      → Option ℕ
      → (ℕ → StreamFile K B × FileResult Io A)
      → StreamFile K B × FileResult Io A
  or_too_large s none k = (s, err FileError.file_too_large)
  or_too_large s (some end') k = k end'

  -- A write once the cap has been applied.
  unfoldable pub write_capped :
      StreamFile K B → Option (List ℕ) → Date × Time → StreamFile K B × FileResult Io ℕ
  unfolding fill_gap write_data
  write_capped s none now = (s, err FileError.file_too_large)
  write_capped s (some buf) now = or_too_large s (checked_add s.pos (length buf)) (λ needed_end.
      and_then (ensure_allocation K B s needed_end)
        (λ s1 _. and_then (fill_gap s1) (λ s2 _. write_data s2 buf now)))

  unfoldable pub write : StreamFile K B → List ℕ → Date × Time → StreamFile K B × FileResult Io ℕ
  unfolding write_capped
  write s buf now =
      if length buf == 0
      then (s, ok 0)
      else if not s.writable
      then (s, err FileError.read_only)
      else write_capped s (capped s.fat_size_cap s.pos buf) now

  unfoldable pub flush : StreamFile K B → StreamFile K B × FileResult Io (Unit {0})
  unfolding flush_entry
  flush s =
      and_then (on_world K B s (B.flush s.world))
        (λ s1 _. and_then (flush_entry s1) (λ s2 _. on_world K B s2 (B.flush s2.world)))

  -- From `from`, by a signed offset: not before byte 0.
  abbrev pub moved : ℕ → ℤ → Option ℕ
  moved from (pos d) = some (saturating_add from d)
  moved from (negsuc d) = checked_sub from (suc d)

  abbrev pub target : StreamFile K B → SeekFrom → Option ℕ
  target s (start n) = some n
  target s (current d) = moved s.pos d
  target s (end d) = moved s.len d

  abbrev pub arrived : StreamFile K B → Option ℕ → StreamFile K B × FileResult Io ℕ
  arrived s none = (s, err FileError.invalid_seek)
  arrived s (some p) = (record s { pos = p }, ok p)

  unfoldable pub seek : StreamFile K B → SeekFrom → StreamFile K B × FileResult Io ℕ
  seek s from = arrived s (target s from)
