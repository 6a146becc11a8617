-- ===== src/Fat/ClusterMap.antt =====
-- src/fat/cluster_map.rs and src/fat/data_store.rs: the volume below an open file, where it is a FAT volume. The
-- write of a directory entry, which a read does not make, is a parameter. The release of clusters runs on
-- fuel, two rounds more than the volume has clusters.
pub mod Geometry
pub mod Laws
pub mod Reading
mod Tests
use unifat.Prelude.{
  ℕ, zero, suc, ◌+◌, ◌-◌, ◌*◌, ◌/◌, ◌&&◌, min, max, false, Option, none, some, List, [], ◌∷◌,
  u32_max, if◌then◌else◌, ltb, leb, ◌==◌,
}
use unifat.Error.{ok, err, abort, FileError, file_error, FsResult, FileResult, and_then, or_abort}
use unifat.Codec.Time.{Calendar}
use unifat.Store.Device.{BlockDevice}
use unifat.Fat.Volume.{
  FatVfs, sector_byte_offset, cluster_first_sector, read_bytes_through, write_bytes_through,
}
use unifat.Fat.Cells.{FatWrite}
use unifat.Fat.Table.{next_cluster, write_fat}
use unifat.Fat.Table.Alloc.{allocate_clusters, metadata_barrier}
use unifat.Exfat.Boot.{div_ceil}
use unifat.Stream.Entry.{EntryPatch}
use unifat.Stream.Traits.{Backing, ExtendResult}

-- `next_multiple_of`
abbrev pub next_multiple_of : ℕ → ℕ → ℕ
next_multiple_of x cs = (x + cs - 1) / cs * cs

module _ (D : BlockDevice) where
  open D use {Io}

  pub record FatClusterMap : Type 0 where
    pub fs : FatVfs D
    pub allocated_len : ℕ

  -- `FatClusterMap::new`
  unfoldable pub mapped : FatVfs D → ℕ → ℕ → FatClusterMap
  mapped fs file_size first_cluster = record {
    fs = fs;
    allocated_len =
        if ltb first_cluster 2
        then 0
        else if file_size == 0
        then fs.props.cluster_size
        else next_multiple_of file_size fs.props.cluster_size;
  }

  -- `.map_err(FileError::from)` on a call of the volume.
  abbrev pub on_fs :
      {A : Type 0} → FatClusterMap → FatVfs D × FsResult Io A → FatClusterMap × FileResult Io A
  on_fs m (v, ok a) = (record m { fs = v }, ok a)
  on_fs m (v, err e) = (record m { fs = v }, err (file_error e))
  on_fs m (v, abort) = (record m { fs = v }, abort)

  -- `ClusterMap::next`
  unfoldable pub map_next : ℕ → FatClusterMap → FatClusterMap × FileResult Io (Option ℕ)
  map_next cluster m = on_fs m (next_cluster D m.fs cluster)

  -- `ClusterMap::cluster_to_offset`
  unfoldable pub cluster_to_offset : FatVfs D → ℕ → ℕ
  unfolding sector_byte_offset cluster_first_sector
  cluster_to_offset v cluster = sector_byte_offset D v (cluster_first_sector D v cluster)

  -- `DataStore::read_at` and `DataStore::write_at`
  unfoldable pub store_read_at : ℕ → ℕ → FatClusterMap → FatClusterMap × FileResult Io (List ℕ)
  store_read_at offset n m = on_fs m (read_bytes_through D m.fs offset n)

  unfoldable pub store_write_at :
      ℕ → List ℕ → FatClusterMap → FatClusterMap × FileResult Io (Unit {0})
  store_write_at offset buf m = on_fs m (write_bytes_through D m.fs offset buf)

  -- `FatDataStore::flush`
  unfoldable pub store_flush : FatClusterMap → FatClusterMap × FileResult Io (Unit {0})
  store_flush m = on_fs m (metadata_barrier D m.fs)

  -- `while let Some(n) = self.next(c)?`: `n` more steps are allowed.
  unfoldable tail_loop : ℕ → FatClusterMap → ℕ → FatClusterMap × FileResult Io ℕ
  tail_loop zero m c =
      and_then (map_next c m)
        (λ m' o. elim o [ none ↦ (m', ok c) | some d ↦ (m', err FileError.corrupt) ])
  tail_loop (suc n) m c =
      and_then (map_next c m) (λ m' o. elim o [ none ↦ (m', ok c) | some d ↦ tail_loop n m' d ])

  unfoldable pub walk_to_tail : ℕ → FatClusterMap → FatClusterMap × FileResult Io ℕ
  unfolding tail_loop
  walk_to_tail first m = tail_loop m.fs.props.max_cluster m first

  -- `filter(|&c| c >= 2)`
  abbrev chained : Option ℕ → Option ℕ
  chained none = none
  chained (some c) = if leb 2 c then some c else none

  abbrev or_zero : Option ℕ → ℕ
  or_zero none = 0
  or_zero (some c) = c

  abbrev tail_or_walk : Option ℕ → ℕ → FatClusterMap → FatClusterMap × FileResult Io ℕ
  tail_or_walk none first m = walk_to_tail first m
  tail_or_walk (some t) first m = (m, ok t)

  -- `link_from`
  abbrev link_start : Option ℕ → Option ℕ → FatClusterMap → FatClusterMap × FileResult Io (Option ℕ)
  link_start (some t) first m = (m, ok (some t))
  link_start none (some c) m = and_then (walk_to_tail c m) (λ m' t. (m', ok (some t)))
  link_start none none m = (m, ok none)

  abbrev bytes_needed : Option ℕ → ℕ → ℕ → ℕ → ℕ
  bytes_needed none needed allocated cs = max needed cs
  bytes_needed (some t) needed allocated cs = needed - allocated

  abbrev allocated_after : Option ℕ → ℕ → ℕ → ℕ
  allocated_after none allocated more = more
  allocated_after (some t) allocated more = allocated + more

  abbrev first_of : List ℕ → Option ℕ
  first_of [] = none
  first_of (c ∷ cs) = some c

  abbrev last_of : List ℕ → Option ℕ
  last_of [] = none
  last_of (c ∷ []) = some c
  last_of (c ∷ d ∷ cs) = last_of (d ∷ cs)

  -- `extend` from the choice of `link_from` on.
  unfoldable grown : ℕ → ℕ → Option ℕ → FatClusterMap → FatClusterMap × FileResult Io ExtendResult
  grown first_out needed link_from m =
      let cs = m.fs.props.cluster_size in
      let wanted = max (div_ceil (bytes_needed link_from needed m.allocated_len cs) cs) 1 in
      let n = min wanted u32_max in
      and_then (on_fs m (allocate_clusters D m.fs n link_from)) (λ m' new.
        or_abort m' (first_of new) (λ head. or_abort m' (last_of new) (λ last. (
          record m' { allocated_len = allocated_after link_from m'.allocated_len (n * cs) },
          ok (record { first_cluster = if leb 2 first_out then first_out else head; tail = last }),
        ))))

  -- `ClusterMap::extend`
  unfoldable pub map_extend :
      Option ℕ → Option ℕ → ℕ → FatClusterMap → FatClusterMap × FileResult Io ExtendResult
  unfolding grown
  map_extend first tail needed m =
      let first_out = or_zero (chained first) in
      if leb needed m.allocated_len && leb 2 first_out
      then and_then (tail_or_walk tail first_out m)
          (λ m' t. (m', ok (record { first_cluster = first_out; tail = t })))
      else and_then (link_start (chained tail) (chained first) m)
          (λ m' link_from. grown first_out needed link_from m')

  -- `for _ in 0..keep - 1`: `n` steps are left.
  unfoldable keep_loop : ℕ → FatClusterMap → ℕ → FatClusterMap × FileResult Io ℕ
  keep_loop zero m cur = (m, ok cur)
  keep_loop (suc n) m cur =
      and_then (map_next cur m) (λ m' o. elim o [ none ↦ (m', ok cur) | some d ↦ keep_loop n m' d ])

  -- `while let Some(c) = next`: a round frees a cluster, whose link is then gone.
  unfoldable free_rest : ℕ → FatClusterMap → Option ℕ → FatClusterMap × FileResult Io (Unit {0})
  free_rest fuel m none = (m, ok tt)
  free_rest zero m (some c) = (m, abort)
  free_rest (suc fuel) m (some c) = and_then (map_next c m) (λ m1 next.
      and_then (on_fs m1 (write_fat D m1.fs c FatWrite.free)) (λ m2 _. free_rest fuel m2 next))

  -- `ClusterMap::free_tail`
  unfoldable pub map_free_tail : ℕ → ℕ → FatClusterMap → FatClusterMap × FileResult Io ℕ
  unfolding keep_loop free_rest
  map_free_tail first keep_len m =
      let cs = m.fs.props.cluster_size in
      let keep = if keep_len == 0 then 1 else min (div_ceil keep_len cs) u32_max in
      if ltb first 2
      then (record m { allocated_len = 0 }, ok 0)
      else and_then (keep_loop (keep - 1) m first) (λ m1 cur. and_then (map_next cur m1) (λ m2 next.
        and_then (on_fs m2 (write_fat D m2.fs cur FatWrite.end)) (λ m3 _.
          and_then (free_rest (m3.fs.props.max_cluster + 2) m3 next)
            (λ m4 _. (record m4 { allocated_len = keep * cs }, ok first)))))

  -- The write of a directory entry (src/fat/dir_slot.rs).
  abbrev pub WritePatch : Calendar → Type 0
  WritePatch K = EntryPatch K → FatClusterMap → FatClusterMap × FileResult Io (Unit {0})

  -- An open file's view of the mounted volume `v`, whose geometry does not change.
  abbrev pub fat_backing : {K : Calendar} → WritePatch K → FatVfs D → Backing K
  fat_backing write_patch v = record {
    World = FatClusterMap;
    Io = Io;
    next = map_next;
    extend = map_extend;
    free_tail = map_free_tail;
    cluster_size = v.props.cluster_size;
    cluster_to_offset = cluster_to_offset v;
    no_fat_chain = λ m. false;
    allocated_len = λ m. m.allocated_len;
    read_at = store_read_at;
    write_at = store_write_at;
    flush = store_flush;
    write_patch = write_patch;
  }
