-- ===== src/Exfat/Volume.antt =====
-- src/exfat/mod.rs: the state of a mounted exFAT volume, without its names and handles, its byte accesses, and
-- the flag in the boot record that marks it dirty.
pub mod Synced
pub mod Marked
pub mod Flushed
use Prim.Native.Nat.{bit_and, bit_or}
use unifat.Prelude.{
  ℕ, ◌+◌, ◌-◌, ◌*◌, ◌/◌, ◌%◌, ◌^◌, min, u32_max, leb, Bool, true, false, not, ◌&&◌, ◌||◌,
  if◌then◌else◌, List, [], ◌∷◌,
}
use unifat.Error.{Result, ok, err, abort, FsError, FsResult, and_then}
use unifat.Store.Device.{BlockDevice}
use unifat.Store.Cache.{SectorCache}
use unifat.Store.Access
use unifat.Exfat.Boot.{ExfatBootRecord, bytes_per_cluster, div_ceil}

pub record ClusterRange : Type 0 where
  pub first_cluster : ℕ
  pub byte_length : ℕ

abbrev pub volume_flags_offset : ℕ
volume_flags_offset = 106

-- `VOLUME_DIRTY`
abbrev pub dirty_flag : ℕ
dirty_flag = 2

abbrev pub percent_in_use_offset : ℕ
percent_in_use_offset = 112

unfoldable pub cluster_to_byte_offset : ℕ → ℕ → ℕ → ℕ → ℕ
cluster_to_byte_offset heap_offset cluster sector_bytes cluster_bytes =
    heap_offset * sector_bytes + (cluster - 2) * cluster_bytes

-- The test of `mount` that the bitmap lies in the cluster heap and covers it.
unfoldable pub bitmap_ok : ExfatBootRecord → ClusterRange → Bool
unfolding bytes_per_cluster
bitmap_ok boot bitmap =
    let last_cluster = boot.cluster_count + 1 in
    let bitmap_clusters = min (div_ceil bitmap.byte_length (bytes_per_cluster boot)) u32_max in
    leb 2 bitmap.first_cluster
    && (leb bitmap.first_cluster last_cluster
        && (leb (div_ceil boot.cluster_count 8) bitmap.byte_length
            && leb (bitmap.first_cluster + bitmap_clusters - 1) last_cluster))

-- An error of the storage.
abbrev pub io_result : {Io A : Type 0} → Result Io A → FsResult Io A
io_result (ok a) = ok a
io_result (err e) = err (FsError.io e)
io_result abort = abort

module _ (D : BlockDevice) where
  open D use {Io}

  pub record ExfatVfs : Type 0 where
    pub cache : SectorCache D
    pub boot : ExfatBootRecord
    pub bitmap : ClusterRange
    pub dirty_since_mount : Bool
    pub volume_dirty : Bool

  -- A call on the sector cache of the volume.
  abbrev pub on_cache :
      {A : Type 0} → ExfatVfs → SectorCache D × FsResult Io A → ExfatVfs × FsResult Io A
  on_cache v (c, r) = (record v { cache = c }, r)

  abbrev pub on_device : {A : Type 0} → SectorCache D × Result Io A → SectorCache D × FsResult Io A
  on_device (c, r) = (c, io_result r)

  unfoldable pub read_at : ExfatVfs → ℕ → ℕ → ExfatVfs × FsResult Io (List ℕ)
  read_at v offset len = on_cache v (Access.read_at D v.cache offset len)

  unfoldable pub read_through_at : ExfatVfs → ℕ → ℕ → ExfatVfs × FsResult Io (List ℕ)
  read_through_at v offset len = on_cache v (Access.read_through D v.cache offset len)

  -- `flags.to_le_bytes()` of a u16
  abbrev pub flag_bytes : ℕ → List ℕ
  flag_bytes flags = flags % 256 ∷ flags / 256 ∷ []

  unfoldable pub write_volume_flags : ExfatVfs → ℕ → ExfatVfs × FsResult Io (Unit {0})
  write_volume_flags v flags =
      on_cache v (Access.write_at D v.cache volume_flags_offset (flag_bytes flags))

  unfoldable pub sync : ExfatVfs → ExfatVfs × FsResult Io (Unit {0})
  sync v =
      and_then (on_cache v (Access.flush D v.cache))
        (λ v' _. on_cache v' (on_device (Access.flush_device D v'.cache)))

  unfoldable pub ensure_volume_dirty : ExfatVfs → ExfatVfs × FsResult Io (Unit {0})
  unfolding write_volume_flags sync
  ensure_volume_dirty v =
      if v.dirty_since_mount || v.volume_dirty
      then (v, ok tt)
      else and_then (write_volume_flags v (bit_or v.boot.flags dirty_flag)) (λ v1 _.
        and_then (on_cache v1 (Access.write_at D v1.cache percent_in_use_offset (0xFF ∷ [])))
          (λ v2 _. and_then (sync v2) (λ v3 _. (record v3 { volume_dirty = true }, ok tt))))

  unfoldable pub write_at : ExfatVfs → ℕ → List ℕ → ExfatVfs × FsResult Io (Unit {0})
  unfolding ensure_volume_dirty
  write_at v offset buf =
      and_then (ensure_volume_dirty v) (λ v' _. on_cache v' (Access.write_at D v'.cache offset buf))

  unfoldable pub write_through_at : ExfatVfs → ℕ → List ℕ → ExfatVfs × FsResult Io (Unit {0})
  unfolding ensure_volume_dirty
  write_through_at v offset buf =
      and_then (ensure_volume_dirty v)
        (λ v' _. on_cache v' (Access.write_through D v'.cache offset buf))

  unfoldable pub clear_volume_dirty : ExfatVfs → ExfatVfs × FsResult Io (Unit {0})
  unfolding write_volume_flags
  clear_volume_dirty v =
      if v.dirty_since_mount || not v.volume_dirty
      then (v, ok tt)
      else and_then (write_volume_flags v (bit_and v.boot.flags (2 ^ 16 - 1 - dirty_flag)))
          (λ v' _. (record v' { volume_dirty = false }, ok tt))

  unfoldable pub flush : ExfatVfs → ExfatVfs × FsResult Io (Unit {0})
  unfolding sync clear_volume_dirty
  flush v = and_then (sync v) (λ v1 _. and_then (clear_volume_dirty v1) (λ v2 _. sync v2))
