-- ===== src/Fat/ClusterMap/Geometry.antt =====
-- The clusters of a FAT volume, as src/fat/cluster_map.rs finds them: their links and their places.
use native.Mathlib.Nat.{mul-le-mul_right}
use mathlib.Core.Option
use unifat.Prelude.{
  ℕ, zero, suc, ◌+◌, ◌-◌, ◌*◌, ◌≤◌, ◌<◌, ◌≡◌, inl, inr, refl, sym, ap, ◌∙◌, subst, arith, true,
  Bool-cases, ◌&&◌, leb, min, Option, some, none, Image, slice, if◌then◌else◌, u32_max,
}
use unifat.Store.Device.{BlockDevice}
use unifat.Fat.Cells.{FatEntry, entry_size}
use unifat.Fat.Cells.Decoding.{decode_fat_cell-next_iff}
use unifat.Fat.Volume.{FatVfs, FsProperties, sector_byte_offset, cluster_first_sector}
use unifat.Fat.Volume.Bytes.{Sized}
use unifat.Fat.Table.{from_le_bytes}
use unifat.Fat.Table.Lookup.{entry_at, cell_place}
use unifat.Fat.ClusterMap.{cluster_to_offset}
use unifat.Stream.Content.{Links, nth_cluster}

-- The clusters from 2 to the last lie in the sectors of the volume, from the first data sector on.
abbrev pub Laid : FsProperties → Type 0
Laid p =
    (p.first_data_sector + (p.max_cluster - 1) * p.sec_per_clus ≤ p.total_sectors)
    × (p.cluster_size ≡ p.sec_per_clus * p.sector_size)
    × (0 < p.cluster_size)
    × (p.max_cluster < u32_max)

-- The cluster that an entry of the table links to.
unfoldable pub link_to : FatEntry → Option ℕ
link_to FatEntry.free = none
link_to (FatEntry.next n) = some n
link_to FatEntry.end = none
link_to FatEntry.bad = none
link_to FatEntry.reserved = none

link_to-next : (entry : FatEntry) (n : ℕ) → link_to entry ≡ some n → entry ≡ FatEntry.next n
unfolding link_to
link_to-next FatEntry.free n e = absurd (Option.none-ne-some n e)
link_to-next (FatEntry.next m) n e = ap FatEntry.next (Option.some-injective m n e)
link_to-next FatEntry.end n e = absurd (Option.none-ne-some n e)
link_to-next FatEntry.bad n e = absurd (Option.none-ne-some n e)
link_to-next FatEntry.reserved n e = absurd (Option.none-ne-some n e)

scaled : (fd x spc ss cs : ℕ) → cs ≡ spc * ss → (x * spc + fd) * ss ≡ fd * ss + x * cs
scaled fd x spc ss cs e = grind arith

module _ (D : BlockDevice) where
  -- The links of the volume's clusters in an image: another number has none.
  unfoldable pub fat_links : Image → FatVfs D → Links
  unfolding link_to
  fat_links f v c =
      if leb 2 c && leb c v.props.max_cluster then link_to (entry_at D f v c) else none

  pub fat_links-inside :
      (f : Image) (v : FatVfs D) (c : ℕ)
      → 2 ≤ c
      → c ≤ v.props.max_cluster
      → fat_links f v c ≡ link_to (entry_at D f v c)
  unfolding fat_links
  fat_links-inside f v c lo hi =
      let inside : leb 2 c && leb c v.props.max_cluster ≡ true = ground arith in rw inside refl

  -- A linked cluster and the one after it are clusters of the volume.
  pub fat_links-range :
      (f : Image) (v : FatVfs D) (c d : ℕ)
      → fat_links f v c ≡ some d
      → (2 ≤ c) × (c ≤ v.props.max_cluster) × (2 ≤ d) × (d ≤ v.props.max_cluster)
  unfolding fat_links entry_at
  fat_links-range f v c d e = elim (Bool-cases (leb 2 c && leb c v.props.max_cluster)) [
    | inl inside ↦
        let linked : link_to (entry_at D f v c) ≡ some d =
          sym (fat_links-inside f v c (ground arith) (ground arith)) ∙ e in
        let (same, two, in_volume, below) =
          (decode_fat_cell-next_iff v.fat_type
              (from_le_bytes (slice f (cell_place D v c) (entry_size v.fat_type)))
              v.props.max_cluster d).0
            (link_to-next (entry_at D f v c) d linked) in
        (ground arith, ground arith, two, in_volume)
    | inr outside ↦ absurd (Option.none-ne-some d (sym (rw outside refl) ∙ e))
  ]

  -- A chain that starts at a cluster of the volume stays in it.
  pub nth_cluster-le :
      (f : Image) (v : FatVfs D) (first k c : ℕ)
      → first ≤ v.props.max_cluster
      → nth_cluster (fat_links f v) first k ≡ some c
      → c ≤ v.props.max_cluster
  unfolding nth_cluster Option.bind
  nth_cluster-le f v first zero c inside e =
      subst (λ n. n ≤ v.props.max_cluster) (Option.some-injective first c e) inside
  nth_cluster-le f v first (suc k) c inside e = go (nth_cluster (fat_links f v) first k) e
    where
      go : (o : Option ℕ) → Option.bind o (fat_links f v) ≡ some c → c ≤ v.props.max_cluster
      go none e' = absurd (Option.none-ne-some c e')
      go (some d) e' = let (lo, hi, two, there) = fat_links-range f v d c e' in there

  -- Where a cluster of the volume lies: no product or sum of the code is held at 32 bits.
  pub cluster_to_offset-place :
      (v : FatVfs D) (c : ℕ)
      → Sized v.props
      → Laid v.props
      → c ≤ v.props.max_cluster
      → cluster_to_offset D v c
        ≡ v.props.first_data_sector * v.props.sector_size + (c - 2) * v.props.cluster_size
  unfolding cluster_to_offset sector_byte_offset cluster_first_sector
  cluster_to_offset-place v c sized (fits, size, some_bytes, counted) inside =
      let near : (c - 2) * v.props.sec_per_clus ≤ (v.props.max_cluster - 1) * v.props.sec_per_clus =
        mul-le-mul_right v.props.sec_per_clus (omega arith) in
      let whole : min (min ((c - 2) * v.props.sec_per_clus) u32_max + v.props.first_data_sector)
            u32_max
          ≡ (c - 2) * v.props.sec_per_clus + v.props.first_data_sector =
        omega arith in
      ap (λ s. s * v.props.sector_size) whole
      ∙ scaled v.props.first_data_sector (c - 2) v.props.sec_per_clus v.props.sector_size
          v.props.cluster_size size
