-- ===== src/Fat/ClusterMap/Laws.antt =====
-- What src/fat/cluster_map.rs and src/fat/data_store.rs return keeps the laws that an open file asks of its volume.
use unifat.Prelude.{
  ℕ, ◌+◌, ◌-◌, ◌*◌, ◌≤◌, ◌≡◌, refl, sym, ap, ◌∙◌, subst, arith, some, List, Image, slice,
}
use unifat.Error.{ok, err, abort, FsResult, and_then}
use unifat.Codec.Time.{Calendar}
use unifat.Store.Device.{BlockDevice}
use unifat.Store.Cache.Refill.{Stands}
use unifat.Fat.Cells.{FatEntry}
use unifat.Fat.Volume.{FatVfs, read_bytes_through}
use unifat.Fat.Volume.Bytes.{Sized, Kept, BytesRead, read_bytes_through-slice}
use unifat.Fat.Table.{linked, read_fat, next_cluster}
use unifat.Fat.Table.Lookup.{cell_place, entry_at, EntryRead, read_fat-entry}
use unifat.Fat.ClusterMap.{
  FatClusterMap, WritePatch, fat_backing, on_fs, map_next, store_read_at, cluster_to_offset,
}
use unifat.Fat.ClusterMap.Geometry.{
  Laid, link_to, fat_links, fat_links-inside, fat_links-range, cluster_to_offset-place,
}
use unifat.Stream.Content.{Links, Looks, Laws}

linked-link_to : (entry : FatEntry) → linked entry ≡ link_to entry
unfolding link_to
linked-link_to FatEntry.free = refl
linked-link_to (FatEntry.next n) = refl
linked-link_to FatEntry.end = refl
linked-link_to FatEntry.bad = refl
linked-link_to FatEntry.reserved = refl

one_on : (x c cs : ℕ) → 2 ≤ c → x + (c + 1 - 2) * cs ≡ x + (c - 2) * cs + cs
one_on x c cs two = let e : c + 1 - 2 ≡ c - 2 + 1 = omega arith in rw e (grind arith)

module _ (D : BlockDevice) (K : Calendar) (write_patch : WritePatch D K) (v : FatVfs D)
    (sized : Sized v.props) (laid : Laid v.props) where
  open D use {Io}

  -- The volume has the image `f` behind its cache, the links of that image, and the geometry of `v`.
  abbrev pub Seen : FatClusterMap D → Image → Links → Type 0
  Seen m f g = Stands D m.fs.cache f × (m.fs.props ≡ v.props) × (g ≡ fat_links D f m.fs)

  Seen-Kept :
      (m : FatClusterMap D) (v' : FatVfs D) (f : Image) (g : Links)
      → Seen m f g
      → Kept D m.fs v' f
      → Seen (record m { fs = v' }) f g
  unfolding fat_links entry_at cell_place
  Seen-Kept m v' f g (stands, props, links) (stands', kept) =
      (stands', ap (λ (w : FatVfs D). w.props) kept ∙ props, links ∙ same)
    where
      same : fat_links D f m.fs ≡ fat_links D f v'
      same = ap (fat_links D f) (sym kept)

  pub map_next-link :
      (m : FatClusterMap D) (f : Image) (g : Links) (c : ℕ)
      → Seen m f g
      → Looks K (fat_backing D write_patch v) (λ m'. Seen m' f g) (λ o. o ≡ g c) (map_next D c m)
  unfolding map_next next_cluster
  map_next-link m f g c (stands, props, links) =
      go (read_fat D m.fs c) (read_fat-entry D m.fs c stands (subst Sized (sym props) sized))
    where
      go :
          (q : FatVfs D × FsResult Io FatEntry)
          → EntryRead D m.fs f c q
          → Looks K
              (fat_backing D write_patch v)
              (λ m'. Seen m' f g)
              (λ o. o ≡ g c)
              (on_fs D m (and_then q (λ v' entry. (v', ok (linked entry)))))
      go (v', ok entry) (kept, e, lo, hi) = (
        Seen-Kept m v' f g (stands, props, links) kept,
        linked-link_to entry
            ∙ ap link_to e
            ∙ sym (fat_links-inside D f m.fs c lo hi)
            ∙ ap (λ h. h c) (sym links),
      )
      go (v', err e) kept = Seen-Kept m v' f g (stands, props, links) kept
      go (v', abort) none_left = none_left

  pub store_read_at-slice :
      (m : FatClusterMap D) (f : Image) (g : Links) (offset n : ℕ)
      → Seen m f g
      → Looks K
          (fat_backing D write_patch v)
          (λ m'. Seen m' f g)
          (λ bytes. bytes ≡ slice f offset n)
          (store_read_at D offset n m)
  unfolding store_read_at
  store_read_at-slice m f g offset n (stands, props, links) =
      go (read_bytes_through D m.fs offset n)
        (read_bytes_through-slice D m.fs offset n stands (subst Sized (sym props) sized))
    where
      go :
          (q : FatVfs D × FsResult Io (List ℕ))
          → BytesRead D m.fs f offset n q
          → Looks K
              (fat_backing D write_patch v)
              (λ m'. Seen m' f g)
              (λ bytes. bytes ≡ slice f offset n)
              (on_fs D m q)
      go (v', ok bytes) (kept, e, inside) = (Seen-Kept m v' f g (stands, props, links) kept, e)
      go (v', err e) kept = Seen-Kept m v' f g (stands, props, links) kept
      go (v', abort) none_left = none_left

  -- A linked cluster, by the geometry of `v`.
  pub link-range :
      (m : FatClusterMap D) (f : Image) (g : Links) (c d : ℕ)
      → Seen m f g
      → g c ≡ some d
      → (2 ≤ c) × (c ≤ v.props.max_cluster) × (2 ≤ d) × (d ≤ v.props.max_cluster)
  link-range m f g c d (stands, props, links) e =
      subst (λ p. (2 ≤ c) × (c ≤ p.max_cluster) × (2 ≤ d) × (d ≤ p.max_cluster)) props
        (fat_links-range D f m.fs c d (ap (λ h. h c) (sym links) ∙ e))

  pub link-affine :
      (m : FatClusterMap D) (f : Image) (g : Links) (c : ℕ)
      → Seen m f g
      → g c ≡ some (c + 1)
      → cluster_to_offset D v (c + 1) ≡ cluster_to_offset D v c + v.props.cluster_size
  link-affine m f g c seen e =
      let (two, hi, two', hi') = link-range m f g c (c + 1) seen e in
      cluster_to_offset-place D v (c + 1) sized laid hi'
      ∙ one_on (v.props.first_data_sector * v.props.sector_size) c v.props.cluster_size two
      ∙ ap (λ o. o + v.props.cluster_size) (sym (cluster_to_offset-place D v c sized laid hi))

  -- A FAT volume keeps the laws.
  abbrev pub fat_laws : Laws K (fat_backing D write_patch v)
  fat_laws = record {
    View = Seen;
    some_bytes = laid.2;
    next-link = map_next-link;
    read_at-slice = store_read_at-slice;
    counted = λ m f g c d seen e.
        let (two, hi, two', hi') = link-range m f g c d seen e in omega (arith, laid.3);
    affine = link-affine;
  }
