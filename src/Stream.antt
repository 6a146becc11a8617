-- ===== src/Stream.antt =====
-- src/vfs/stream.rs: an open file. The volume below it is an interface, Stream/Traits.antt. A method takes the
-- stream and returns it with its result; `now` is what the clock shows when the method asks it. `usize` has 64
-- bits. The loops run on fuel: one unit for a byte that is still wanted.
pub mod Traits
pub mod Entry
pub mod Methods
pub mod Content
pub mod Walking
pub mod Span
pub mod Reading
mod Tests
use mathlib.Core.Option
use unifat.Prelude.{
  ℕ, zero, suc, ◌+◌, ◌-◌, ◌/◌, ◌%◌, ◌^◌, min, Bool, true, false, not, ◌&&◌, ◌||◌, Option, none,
  some, List, if◌then◌else◌, ltb, leb, ◌==◌, length, take, replicate, SeekFrom, start, current, end,
  ℤ, pos, negsuc, saturating_add, checked_sub, checked_add, u32_max,
}
use unifat.Error.{Result, ok, err, abort, FileError, FileResult, and_then, or_abort}
use unifat.Codec.Time.{Calendar}
use unifat.Stream.Entry.{Attributes, EntryTimes, EntryPatch, Metadata}
use unifat.Stream.Traits.{Backing, ExtendResult}

module _ (K : Calendar) (B : Backing K) where
  open K use {Date, Time}
  open B use {World, Io}

  pub record StreamFile : Type 0 where
    pub world : World
    pub pos : ℕ
    pub len : ℕ
    pub valid_len : ℕ
    pub first_cluster : ℕ
    pub chain_tail : Option ℕ
    pub current_cluster : Option ℕ
    pub current_index : ℕ
    pub writable : Bool
    pub dirty : Bool
    pub times : EntryTimes K
    pub attributes : Attributes
    pub update_times : Bool
    pub fat_size_cap : Bool

  pub record StreamInit : Type 0 where
    pub first_cluster : ℕ
    pub len : ℕ
    pub valid_len : ℕ
    pub times : EntryTimes K
    pub attributes : Attributes
    pub writable : Bool
    pub update_times : Bool
    pub fat_size_cap : Bool

  -- `(c >= 2).then_some(c)`
  abbrev pub at_least_two : ℕ → Option ℕ
  at_least_two c = if leb 2 c then some c else none

  -- `StreamFile::new`
  unfoldable pub opened : World → StreamInit → StreamFile
  opened world init = record {
    world = world;
    pos = 0;
    len = init.len;
    valid_len = min init.valid_len init.len;
    first_cluster = init.first_cluster;
    chain_tail = none;
    current_cluster = at_least_two init.first_cluster;
    current_index = 0;
    writable = init.writable;
    dirty = false;
    times = init.times;
    attributes = init.attributes;
    update_times = init.update_times;
    fat_size_cap = init.fat_size_cap;
  }

  unfoldable pub metadata : StreamFile → Metadata K
  metadata s = record {
    len = s.len;
    is_dir = false;
    attributes = s.attributes;
    created = s.times.created;
    modified = s.times.modified;
    accessed = s.times.accessed;
  }

  -- A call on the volume below.
  abbrev pub on_world :
      {A : Type 0} → StreamFile → World × FileResult Io A → StreamFile × FileResult Io A
  on_world s (w, r) = (record s { world = w }, r)

  -- The cluster that a walk to the `nth` starts at, and its index.
  abbrev pub nearest : Option ℕ → ℕ → ℕ → ℕ → ℕ × ℕ
  nearest none index first nth = (first, 0)
  nearest (some c) index first nth = if leb index nth then (c, index) else (first, 0)

  -- `while idx < nth`: `n` steps are left.
  unfoldable pub walk : ℕ → StreamFile → ℕ → ℕ → StreamFile × FileResult Io (Unit {0})
  walk zero s cur idx = (record s { current_cluster = some cur; current_index = idx }, ok tt)
  walk (suc n) s cur idx = and_then (on_world s (B.next cur s.world)) (λ s' o. elim o [
    | some c ↦ walk n s' c (idx + 1)
    | none ↦ (record s' { current_cluster = none }, ok tt)
  ])

  unfoldable pub seek_to_cluster : StreamFile → ℕ → StreamFile × FileResult Io (Unit {0})
  unfolding walk
  seek_to_cluster s nth =
      if ltb s.first_cluster 2
      then (record s { current_cluster = none }, ok tt)
      else (let (cur, idx) = nearest s.current_cluster s.current_index s.first_cluster nth in
          walk (nth - idx) s cur idx)

  -- `n == last + 1`
  abbrev pub adjacent : Option ℕ → ℕ → Bool
  adjacent none last = false
  adjacent (some n) last = n == last + 1

  -- `last + 1` is a sum of 32 bits, computed where there is a next cluster.
  abbrev pub past_u32 : Option ℕ → ℕ → Bool
  past_u32 none last = false
  past_u32 (some n) last = leb u32_max last

  unfoldable pub span_loop : ℕ → StreamFile → ℕ → ℕ → ℕ → ℕ → StreamFile × FileResult Io ℕ
  span_loop zero s last idx avail wanted =
      if ltb avail wanted
      then (s, abort)
      else (record s { current_cluster = some last; current_index = idx }, ok avail)
  span_loop (suc fuel) s last idx avail wanted = elim (ltb avail wanted) [
    | false ↦ (record s { current_cluster = some last; current_index = idx }, ok avail)
    | true ↦ and_then (on_world s (B.next last s.world)) (λ s' o. elim (past_u32 o last) [
      | true ↦ (s', abort)
      | false ↦ elim (adjacent o last) [
        | true ↦ span_loop fuel s' (last + 1) (idx + 1) (avail + B.cluster_size) wanted
        | false ↦ (record s' { current_cluster = some last; current_index = idx }, ok avail)
      ]
    ])
  ]

  unfoldable pub contiguous_span : StreamFile → ℕ → ℕ → ℕ → ℕ → StreamFile × FileResult Io ℕ
  unfolding span_loop
  contiguous_span s first nth avail wanted = span_loop (wanted - avail) s first nth avail wanted

  unfoldable pub ensure_allocation : StreamFile → ℕ → StreamFile × FileResult Io (Unit {0})
  ensure_allocation s needed_end =
      if leb needed_end (B.allocated_len s.world) && leb 2 s.first_cluster
      then (s, ok tt)
      else and_then
          (on_world s (B.extend (at_least_two s.first_cluster) s.chain_tail needed_end s.world))
          (λ s' res. (
            record s' {
              first_cluster = res.first_cluster;
              chain_tail = at_least_two res.tail;
              current_cluster = none;
              current_index = 0;
              dirty = true;
            },
            ok tt,
          ))

  -- `current.ok_or(FileError::Corrupt)?`
  abbrev pub or_corrupt :
      {A : Type 0}
      → StreamFile
      → Option ℕ
      → (ℕ → StreamFile × FileResult Io A)
      → StreamFile × FileResult Io A
  or_corrupt s none k = (s, err FileError.corrupt)
  or_corrupt s (some c) k = k c

  -- `x as u32`
  abbrev pub as_u32 : ℕ → ℕ
  as_u32 x = x % 2 ^ 32

  unfoldable pub zero_loop : ℕ → StreamFile → ℕ → ℕ → StreamFile × FileResult Io (Unit {0})
  zero_loop zero s from to = if ltb from to then (s, abort) else (s, ok tt)
  zero_loop (suc fuel) s from to = elim (ltb from to) [
    | false ↦ (s, ok tt)
    | true ↦
        let in_cluster = from % B.cluster_size in
        let chunk = min (min (B.cluster_size - in_cluster) (to - from)) 512 in
        and_then (seek_to_cluster s (as_u32 (from / B.cluster_size))) (λ s1 _.
          or_corrupt s1 s1.current_cluster (λ cluster.
            and_then
              (on_world s1 (
                B.write_at (B.cluster_to_offset cluster + in_cluster) (replicate chunk 0) s1.world))
              (λ s2 _. zero_loop fuel s2 (from + chunk) to)))
  ]

  unfoldable pub zero_range : StreamFile → ℕ → ℕ → StreamFile × FileResult Io (Unit {0})
  unfolding zero_loop
  zero_range s from to = zero_loop (to - from) s from to

  unfoldable pub touch_modified : StreamFile → Date × Time → StreamFile
  touch_modified s now =
      if s.update_times
      then record s {
        times = record s.times { modified = some now; accessed = some now.0 };
        dirty = true;
      }
      else s

  unfoldable pub touch_accessed : StreamFile → Date × Time → StreamFile
  touch_accessed s now =
      if s.writable && s.update_times
      then record s { times = record s.times { accessed = some now.0 }; dirty = true }
      else s
