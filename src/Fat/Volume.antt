-- ===== src/Fat/Volume.antt =====
-- The mounted FAT volume of src/fat/fs.rs, with the fields that the allocation table needs, and the bounded byte
-- accesses of src/fat/sector_io.rs.
pub mod Bytes
use unifat.Prelude.{
  ℕ, ◌+◌, ◌-◌, ◌*◌, Bool, false, if◌then◌else◌, ltb, ◌||◌, length, saturating_add, u32_max, min,
  List,
}
use unifat.Error.{Result, ok, err, abort, FsError, corrupt, CorruptKind, FsResult, and_then}
use unifat.Store.Device.{BlockDevice}
use unifat.Store.Cache.{SectorCache}
use unifat.Store.Access.{read_at, write_at, read_through, write_through}
use unifat.Fat.Cells.{FatType}

pub record FsProperties : Type 0 where
  pub sector_size : ℕ
  pub cluster_size : ℕ
  pub sec_per_clus : ℕ
  pub total_sectors : ℕ
  pub max_cluster : ℕ
  pub fat_table_count : ℕ
  pub fat_sector_size : ℕ
  pub first_fat_sector : ℕ
  pub first_root_dir_sector : ℕ
  pub first_data_sector : ℕ

pub record Fat32ExtendedFlags : Type 0 where
  pub active_fat : ℕ
  pub mirroring_disabled : Bool

pub record Fat32FsInfo : Type 0 where
  pub free_cluster_count : ℕ
  pub first_free_cluster : ℕ

pub data Ebr : Type 0 where
  fat16 : Ebr
  fat32 : Fat32ExtendedFlags → Fat32FsInfo → Ebr

-- Saturating arithmetic on 32 bits.
abbrev pub saturating_add_32 : ℕ → ℕ → ℕ
saturating_add_32 a b = min (a + b) u32_max

abbrev pub saturating_mul_32 : ℕ → ℕ → ℕ
saturating_mul_32 a b = min (a * b) u32_max

module _ (D : BlockDevice) where
  open D use {Io}

  pub record FatVfs : Type 0 where
    pub cache : SectorCache D
    pub fsinfo_modified : Bool
    pub ebr : Ebr
    pub fat_type : FatType
    pub props : FsProperties
    pub first_free_cluster : ℕ

  unfoldable pub sector_byte_offset : FatVfs → ℕ → ℕ
  sector_byte_offset v sector = sector * v.props.sector_size

  unfoldable pub cluster_first_sector : FatVfs → ℕ → ℕ
  cluster_first_sector v cluster =
      saturating_add_32 (saturating_mul_32 (cluster - 2) v.props.sec_per_clus)
        v.props.first_data_sector

  unfoldable pub check_bounds : FatVfs → ℕ → ℕ → FsResult Io (Unit {0})
  check_bounds v offset len =
      let end = saturating_add offset len in
      let volume_end = v.props.total_sectors * v.props.sector_size in
      if ltb volume_end end then err (corrupt CorruptKind.cluster_chain) else ok tt

  -- A call on the sector cache of the volume.
  unfoldable pub on_cache :
      {A : Type 0} → FatVfs → SectorCache D × FsResult Io A → FatVfs × FsResult Io A
  on_cache v (c, r) = (record v { cache = c }, r)

  unfoldable pub read_bytes : FatVfs → ℕ → ℕ → FatVfs × FsResult Io (List ℕ)
  unfolding check_bounds on_cache
  read_bytes v offset len =
      and_then (v, check_bounds v offset len) (λ v' _. on_cache v' (read_at D v'.cache offset len))

  unfoldable pub write_bytes : FatVfs → ℕ → List ℕ → FatVfs × FsResult Io (Unit {0})
  unfolding check_bounds on_cache
  write_bytes v offset buf =
      and_then (v, check_bounds v offset (length buf))
        (λ v' _. on_cache v' (write_at D v'.cache offset buf))

  unfoldable pub read_bytes_through : FatVfs → ℕ → ℕ → FatVfs × FsResult Io (List ℕ)
  unfolding check_bounds on_cache
  read_bytes_through v offset len =
      and_then (v, check_bounds v offset len)
        (λ v' _. on_cache v' (read_through D v'.cache offset len))

  unfoldable pub write_bytes_through : FatVfs → ℕ → List ℕ → FatVfs × FsResult Io (Unit {0})
  unfolding check_bounds on_cache
  write_bytes_through v offset buf =
      and_then (v, check_bounds v offset (length buf))
        (λ v' _. on_cache v' (write_through D v'.cache offset buf))
