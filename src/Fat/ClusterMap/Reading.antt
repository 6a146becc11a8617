-- ===== src/Fat/ClusterMap/Reading.antt =====
-- Reading an open file (src/vfs/stream.rs) of a FAT volume (src/fat/cluster_map.rs, src/fat/data_store.rs).
use mathlib.Core.Option
use unifat.Prelude.{
  ℕ, ◌+◌, ◌-◌, ◌*◌, ◌/◌, ◌%◌, ◌^◌, ◌≤◌, ◌<◌, ◌≡◌, inl, inr, refl, sym, ap, ◌∙◌, subst, Bool-cases,
  Option, some, none, List, Image, if◌then◌else◌, ltb, length, get_elem?,
}
use unifat.Error.{ok, err, abort, FileResult}
use unifat.Codec.Time.{Calendar}
use unifat.Store.Device.{BlockDevice}
use unifat.Fat.Volume.{FatVfs, FsProperties}
use unifat.Fat.Volume.Bytes.{Sized}
use unifat.Fat.ClusterMap.{WritePatch, fat_backing, cluster_to_offset}
use unifat.Fat.ClusterMap.Geometry.{Laid, fat_links, nth_cluster-le, cluster_to_offset-place}
use unifat.Fat.ClusterMap.Laws.{fat_laws}
use unifat.Stream.{StreamFile}
use unifat.Stream.Methods.{read}
use unifat.Stream.Content.{Links, nth_cluster, byte_at}
use unifat.Stream.Walking.{Open}
use unifat.Stream.Reading.{ReadFile, read-ReadFile, file_byte}

-- The byte of a file at a position: in the cluster that the chain has there, whose data lies behind that
-- of the clusters from 2 on, in the data sectors; from the valid length on zero.
unfoldable pub fat_byte : FsProperties → Image → Links → ℕ → ℕ → ℕ → Option ℕ
fat_byte p f g first valid_len i =
    if ltb i valid_len
    then Option.map
        (λ c.
          f (p.first_data_sector * p.sector_size + (c - 2) * p.cluster_size + i % p.cluster_size))
        (nth_cluster g first (i / p.cluster_size))
    else some 0

module _ (D : BlockDevice) (K : Calendar) (write_patch : WritePatch D K) (v : FatVfs D)
    (sized : Sized v.props) (laid : Laid v.props) where
  open D use {Io}
  open K use {Date, Time}

  abbrev pub FatFile : Type 0
  FatFile = StreamFile K (fat_backing D write_patch v)

  -- The stream stands on the volume, whose cache stands for the image `f`, at a place of its chain.
  abbrev pub OpenAt : FatFile → Image → Type 0
  OpenAt s f =
      Open K (fat_backing D write_patch v) (fat_laws D K write_patch v sized laid) s f
        (fat_links D f s.world.fs)

  -- The file has a first cluster in the volume, or none, and its valid length is a part of its length.
  abbrev pub WithinVolume : FatFile → Type 0
  WithinVolume s =
      (s.first_cluster ≤ v.props.max_cluster)
      × (s.valid_len ≤ s.len)
      × (s.valid_len ≤ 2 ^ 32 * v.props.cluster_size)

  -- The bytes read are those of the file.
  abbrev pub BytesFrom : FatFile → Image → FatFile × FileResult Io (List ℕ) → Type 0
  BytesFrom s f (s', ok bytes) =
      (i : ℕ)
      → i < length bytes
      → get_elem? bytes i
        ≡ fat_byte v.props f (fat_links D f s.world.fs) s.first_cluster s.valid_len (s.pos + i)
  BytesFrom s f (s', err e) = Unit
  BytesFrom s f (s', abort) = ⊥

  abbrev pub ReadFatFile : FatFile → Image → ℕ → FatFile × FileResult Io (List ℕ) → Type 0
  ReadFatFile s f n q =
      ReadFile K (fat_backing D write_patch v) (fat_laws D K write_patch v sized laid) s f
        (fat_links D f s.world.fs) n q
      × BytesFrom s f q

  -- The place that the code computes for a byte is the one above.
  file_byte-fat_byte :
      (s : FatFile) (f : Image) (i : ℕ)
      → OpenAt s f
      → WithinVolume s
      → file_byte K
          (fat_backing D write_patch v)
          (fat_laws D K write_patch v sized laid)
          s
          f
          (fat_links D f s.world.fs)
          i
        ≡ fat_byte v.props f (fat_links D f s.world.fs) s.first_cluster s.valid_len i
  unfolding byte_at fat_byte
  file_byte-fat_byte s f i o (first, part, counted) = elim (Bool-cases (ltb i s.valid_len)) [
    | inl valid ↦ rw valid (go (nth_cluster links s.first_cluster (i / cs)) refl)
    | inr past ↦ rw past refl
  ]
    where
      cs : ℕ
      cs = v.props.cluster_size

      links : Links
      links = fat_links D f s.world.fs

      go :
          (l : Option ℕ)
          → nth_cluster links s.first_cluster (i / cs) ≡ l
          → Option.map (λ c. f (cluster_to_offset D v c + i % cs)) l
            ≡ Option.map
                (λ c. f (v.props.first_data_sector * v.props.sector_size + (c - 2) * cs + i % cs))
                l
      go none e = refl
      go (some c) e =
          let props = o.view.1 in
          let inside : c ≤ v.props.max_cluster =
            subst (λ (p : FsProperties). c ≤ p.max_cluster) props
              (nth_cluster-le D f s.world.fs s.first_cluster (i / cs) c
                (subst (λ (p : FsProperties). s.first_cluster ≤ p.max_cluster) (sym props) first)
                e) in
          ap (λ x. some (f (x + i % cs))) (cluster_to_offset-place D v c sized laid inside)

  -- A read of an open file on a FAT volume, whose sector cache stands for an image, whose clusters lie
  -- in its sectors, whose sector size and count fit a u16 and a u32 and whose last cluster has a
  -- number below 2^32 - 1. The first cluster of the file is at most the last of the volume, its valid
  -- length is a part of its length and takes no more than 2^32 clusters, and its place in the chain is
  -- right. A read that succeeds returns the bytes of the file from the position on: up to the valid
  -- length those of the clusters that the table links, in the data sectors of the image, and from
  -- there to the end zeros. They are no more than asked for, and some where there are any, and the
  -- position moves past them. The bytes of the file and its lengths are the same after it, also where
  -- the device fails. It ends, and does not panic.
  pub read-ReadFatFile :
      (s : FatFile) {f : Image} (n : ℕ) (now : Date × Time)
      → OpenAt s f
      → WithinVolume s
      → ReadFatFile s f n (read K (fat_backing D write_patch v) s n now)
  read-ReadFatFile s {f} n now o within =
      let whole =
        read-ReadFile K (fat_backing D write_patch v) (fat_laws D K write_patch v sized laid) s f
          (fat_links D f s.world.fs) n now o (within.1, within.2) in
      (whole, go (read K (fat_backing D write_patch v) s n now) whole)
    where
      go :
          (q : FatFile × FileResult Io (List ℕ))
          → ReadFile K
              (fat_backing D write_patch v)
              (fat_laws D K write_patch v sized laid)
              s
              f
              (fat_links D f s.world.fs)
              n
              q
          → BytesFrom s f q
      go (s', ok bytes) r = λ i lt. r.6 i lt ∙ file_byte-fat_byte s f (s.pos + i) o within
      go (s', err e) r = tt
      go (s', abort) r = r
