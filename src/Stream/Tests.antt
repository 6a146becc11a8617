-- ===== src/Stream/Tests.antt =====
-- A volume of one file, whose clusters of four bytes lie one after another from cluster 2 on, and an open
-- file on it.

use unifat.Prelude.{
  ℕ, ◌+◌, ◌-◌, ◌*◌, ◌/◌, ◌≡◌, refl, true, false, ◌&&◌, some, none, [], ◌∷◌, Image, slice, overlay,
  if◌then◌else◌, leb, max, end, pos, negsuc,
}
use unifat.Error.{ok, err, FileError}
use unifat.Codec.Time.Days.{calendar, is_date, is_time}
use unifat.Stream.Traits.{Backing}
use unifat.Stream.{
  StreamFile, walk, seek_to_cluster, span_loop, contiguous_span, ensure_allocation, zero_loop,
  zero_range, touch_accessed, touch_modified,
}
use unifat.Stream.Methods.{
  read, read_data, write, write_capped, write_data, fill_gap, wrote, seek, set_len, shrink, shrunk,
  grow, filled_to,
}
use unifat.Stream.Content.{Links}

record Disk : Type 0 where
  bytes : Image
  clusters : ℕ

abbrev chain : ℕ → Links
chain k c = if leb 2 c && leb (c + 1) (k + 1) then some (c + 1) else none

abbrev clusters_for : ℕ → ℕ
clusters_for n = (n + 3) / 4

abbrev disk_backing : Backing calendar
disk_backing = record {
  World = Disk;
  Io = Unit {0};
  next = λ c w. (w, ok (chain w.clusters c));
  extend = λ first tail needed w.
      let k = max w.clusters (clusters_for needed) in
      (record w { clusters = k }, ok (record { first_cluster = 2; tail = k + 1 }));
  free_tail = λ first kept w. (record w { clusters = clusters_for kept }, ok 2);
  cluster_size = 4;
  cluster_to_offset = λ c. (c - 2) * 4;
  no_fat_chain = λ w. false;
  allocated_len = λ w. w.clusters * 4;
  read_at = λ offset n w. (w, ok (slice w.bytes offset n));
  write_at = λ offset buf w. (record w { bytes = overlay w.bytes offset buf }, ok tt);
  flush = λ w. (w, ok tt);
  write_patch = λ patch w. (w, ok tt);
}

-- Three clusters with the bytes 0 to 9 of a file of 14, of which 10 are valid.
abbrev file : StreamFile calendar disk_backing
file = record {
  world = record { bytes = λ o. o; clusters = 4 };
  pos = 3;
  len = 14;
  valid_len = 10;
  first_cluster = 2;
  chain_tail = none;
  current_cluster = none;
  current_index = 0;
  writable = true;
  dirty = false;
  times = record { created = none; modified = none; accessed = none };
  attributes = record { read_only = false; hidden = false; system = false; archive = false };
  update_times = true;
  fat_size_cap = false;
}

now : calendar.Date × calendar.Time
unfolding calendar is_date is_time
now = (((pos 2024, (2, 29)), refl), ((12, (0, (0, 0))), refl))

program : Unit {0}
unfolding slice overlay walk seek_to_cluster span_loop contiguous_span ensure_allocation zero_loop
    zero_range touch_accessed touch_modified read read_data write write_capped write_data fill_gap
    wrote seek set_len shrink shrunk grow filled_to now
program = tt

-- The read crosses a cluster, since the next one is adjacent.
first_read : (read calendar disk_backing file 6 now).1 ≡ ok (3 ∷ 4 ∷ 5 ∷ 6 ∷ 7 ∷ 8 ∷ [])
unfolding program
first_read = refl

-- Past the valid length it reads zeros, up to the length.
zeros_read : (read calendar disk_backing (record file { pos = 12 }) 6 now).1 ≡ ok (0 ∷ 0 ∷ [])
unfolding program
zeros_read = refl

-- A write past the valid length fills the gap with zeros.
gap_filled :
    (read calendar disk_backing
      (record (write calendar disk_backing (record file { pos = 12 }) (7 ∷ 7 ∷ 7 ∷ []) now).0 {
        pos = 9;
      })
      20
      now).1
    ≡ ok (9 ∷ 0 ∷ 0 ∷ 7 ∷ 7 ∷ 7 ∷ [])
unfolding program
gap_filled = refl

before_start : (seek calendar disk_backing file (end (negsuc 14))).1 ≡ err FileError.invalid_seek
unfolding program
before_start = refl
