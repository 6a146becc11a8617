-- ===== src/Exfat/Bitmap/Marks.antt =====
-- What marking a cluster as allocated or as free does to the bitmap.
use unifat.Prelude.{
  ℕ, zero, suc, ◌+◌, ◌-◌, ◌/◌, ◌%◌, ◌≤◌, ◌<◌, ◌≡◌, ◌≢◌, inl, inr, refl, sym, ap, ◌∙◌, subst, arith,
  Bool-cases, ltb, leb, List, [], ◌∷◌, Image, slice, overlay, overlay-nil, take, take_all,
}
use unifat.Error.{ok, err, abort, FsResult, and_then}
use unifat.Store.Device.{BlockDevice}
use unifat.Store.Cache.{SectorCache}
use unifat.Store.Cache.Refill.{Stands}
use unifat.Store.Access
use unifat.Store.Access.Cached.{ReadTo, read_at-slice}
use unifat.Exfat.Volume.{ExfatVfs, on_cache, read_at, write_at}
use unifat.Exfat.Volume.Synced.{SameData, Touched, IsMarked}
use unifat.Exfat.Volume.Marked.{MarkedWrite, write_at-MarkedWrite}
use unifat.Exfat.Bitmap.{
  bit_of, bitmap_base, bitmap_byte_offset_for_cluster, update_byte, first_byte, set_bit, reset_bit,
  mark_cluster_allocated, mark_cluster_free,
}
use unifat.Exfat.Bitmap.Bits.{bit_at}
use unifat.Exfat.Bitmap.Search.{IsMounted, bitmap-fits, cluster_bit}
use unifat.Exfat.Bitmap.Changes.{SetsBit, sets_one, sets_zero, changed, changed_here, changed_there}

module _ (D : BlockDevice) where
  open D use {Io}

  -- The bits of the other clusters are as they were.
  abbrev pub Others : ExfatVfs D → Image → Image → ℕ → Type 0
  Others v f h cluster = (m : ℕ) → 2 ≤ m → m ≢ cluster → cluster_bit D v h m ≡ cluster_bit D v f m

  abbrev pub BitTo : ExfatVfs D → Image → ℕ → ℕ → ExfatVfs D × FsResult Io (Unit {0}) → Type 0
  BitTo v f cluster t (v', ok _) =
      (h : Image) × Stands D v'.cache h
      × Touched D v v'
      × IsMarked D v'
      × (2 ≤ cluster)
      × ((cluster - 2) / 8 < v.bitmap.byte_length)
      × (cluster_bit D v h cluster ≡ t)
      × Others v f h cluster
  BitTo v f cluster t (v', err e) =
      (h : Image) × Stands D v'.cache h × Touched D v v' × Others v f h cluster
  BitTo v f cluster t (v', abort) = ⊥

  -- The heap lies after the mutable fields of the boot record.
  abbrev pub IsApart : ExfatVfs D → Type 0
  IsApart v = 113 ≤ bitmap_base D v

  others :
      (v : ExfatVfs D) (f g : Image) (cluster : ℕ) (change : ℕ → ℕ → ℕ) (t : ℕ)
      (sets : SetsBit change t)
      → 2 ≤ cluster
      → IsApart v
      → SameData f g
      → Others v f (changed f g (bitmap_base D v) (cluster - 2) change t sets) cluster
  unfolding cluster_bit
  others v f g cluster change t sets two low same m lo ne =
      changed_there f g (bitmap_base D v) (cluster - 2) change t sets same low (m - 2)
        (λ e. ne (omega (arith, e)))

  unchanged :
      (v : ExfatVfs D) (f g : Image) (cluster : ℕ) → IsApart v → SameData f g → Others v f g cluster
  unfolding cluster_bit bit_at
  unchanged v f g cluster low same m lo ne =
      ap (λ b. bit_of b ((m - 2) % 8)) (same (bitmap_base D v + (m - 2) / 8) (inr (omega arith)))

  -- The byte of a cluster in the bitmap, written.
  written :
      (v : ExfatVfs D) (f : Image) (cluster : ℕ) (change : ℕ → ℕ → ℕ) (t : ℕ)
      → SetsBit change t
      → IsApart v
      → 2 ≤ cluster
      → (cluster - 2) / 8 < v.bitmap.byte_length
      → (bytes : List ℕ)
      → bytes ≡ change (f (bitmap_base D v + (cluster - 2) / 8)) ((cluster - 2) % 8) ∷ []
      → (q : ExfatVfs D × FsResult Io (Unit {0}))
      → MarkedWrite D v f (bitmap_base D v + (cluster - 2) / 8) bytes q
      → BitTo v f cluster t q
  unfolding changed
  written v f cluster change t sets low two inside bytes e (v', ok u)
        (g, same, s, touched, marked) =
      (
        changed f g (bitmap_base D v) (cluster - 2) change t sets,
        subst (λ bs. Stands D v'.cache (overlay g (bitmap_base D v + (cluster - 2) / 8) bs)) e s,
        touched,
        marked,
        two,
        inside,
        unfold cluster_bit in changed_here f g (bitmap_base D v) (cluster - 2) change t sets,
        others v f g cluster change t sets two low same,
      )
  written v f cluster change t sets low two inside bytes e (v', err x)
        (g, zero, same, le, s, touched) =
      (
        g,
        rw (sym (overlay-nil g (bitmap_base D v + (cluster - 2) / 8))) s,
        touched,
        unchanged v f g cluster low same,
      )
  written v f cluster change t sets low two inside bytes e (v', err x)
        (g, suc k, same, le, s, touched) =
      (
        changed f g (bitmap_base D v) (cluster - 2) change t sets,
        subst (λ bs. Stands D v'.cache (overlay g (bitmap_base D v + (cluster - 2) / 8) bs))
            (ap (take (suc k)) e
              ∙ take_all (change (f (bitmap_base D v + (cluster - 2) / 8)) ((cluster - 2) % 8) ∷ [])
                  (suc k) (omega arith))
            s,
        touched,
        others v f g cluster change t sets two low same,
      )
  written v f cluster change t sets low two inside bytes e (v', abort) none_left = none_left

  update_byte-BitTo :
      (v : ExfatVfs D) (f : Image) (cluster : ℕ) (change : ℕ → ℕ → ℕ) (t : ℕ)
      → SetsBit change t
      → IsMounted D v
      → IsApart v
      → Stands D v.cache f
      → BitTo v f cluster t (update_byte D v (bitmap_byte_offset_for_cluster D v cluster) change)
  unfolding update_byte bitmap_byte_offset_for_cluster read_at cluster_bit
  update_byte-BitTo v f cluster change t sets m low r = elim (Bool-cases (ltb cluster 2)) [
    | inl early ↦ rw early (f, r, refl, unchanged v f f cluster low (λ o out. refl))
    | inr late ↦ elim (Bool-cases (leb v.bitmap.byte_length ((cluster - 2) / 8))) [
      | inl past ↦ rw (late, past) (f, r, refl, unchanged v f f cluster low (λ o out. refl))
      | inr inside ↦
          rw (late, inside)
            (go (ground arith) (ground arith) (Access.read_at D v.cache off 1)
              (read_at-slice D v.cache off 1 r (let fits = (bitmap-fits D v m).0 in ground arith)))
    ]
  ]
    where
      off : ℕ
      off = bitmap_base D v + (cluster - 2) / 8

      go :
          2 ≤ cluster
          → (cluster - 2) / 8 < v.bitmap.byte_length
          → (q : SectorCache D × FsResult Io (List ℕ)) → ReadTo D f off 1 [] q
          → BitTo v f cluster t (
              and_then
                (on_cache D v q)
                (λ v' b. write_at D v' off (change (first_byte D b) ((cluster - 2) % 8) ∷ [])))
      go two inside (c, ok b) (s, e) =
          unfold slice in
          let fits = (bitmap-fits D v m).0 in
          written (record v { cache = c }) f cluster change t sets low two inside
            (change (first_byte D b) ((cluster - 2) % 8) ∷ [])
            (ap (λ bs. change (first_byte D bs) ((cluster - 2) % 8) ∷ []) e)
            (write_at D (record v { cache = c }) off
              (change (first_byte D b) ((cluster - 2) % 8) ∷ []))
            (write_at-MarkedWrite D (record v { cache = c }) off
              (change (first_byte D b) ((cluster - 2) % 8) ∷ []) s (omega arith))
      go two inside (c, err x) s = (f, s, refl, unchanged v f f cluster low (λ o out. refl))
      go two inside (c, abort) none_left = none_left

  -- On a mounted exFAT volume whose heap lies after the mutable fields of the boot record and whose
  -- sector cache stands for an image, marking a cluster as allocated, if it succeeds, sets the bit of
  -- this cluster, which is one of the bitmap, leaves the volume marked as dirty, and changes the bit
  -- of no other cluster. Where it fails no other bit has changed. It does not panic.
  pub mark_cluster_allocated-BitTo :
      (v : ExfatVfs D) {f : Image} (cluster : ℕ)
      → IsMounted D v
      → IsApart v
      → Stands D v.cache f
      → BitTo v f cluster 1 (mark_cluster_allocated D v cluster)
  unfolding mark_cluster_allocated
  mark_cluster_allocated-BitTo v {f} cluster m low r =
      update_byte-BitTo v f cluster (set_bit D) 1 (sets_one D) m low r

  -- On a mounted exFAT volume whose heap lies after the mutable fields of the boot record and whose
  -- sector cache stands for an image, marking a cluster as free, if it succeeds, clears the bit of
  -- this cluster, which is one of the bitmap, leaves the volume marked as dirty, and changes the bit
  -- of no other cluster. Where it fails no other bit has changed. It does not panic.
  pub mark_cluster_free-BitTo :
      (v : ExfatVfs D) {f : Image} (cluster : ℕ)
      → IsMounted D v
      → IsApart v
      → Stands D v.cache f
      → BitTo v f cluster 0 (mark_cluster_free D v cluster)
  unfolding mark_cluster_free
  mark_cluster_free-BitTo v {f} cluster m low r =
      update_byte-BitTo v f cluster (reset_bit D) 0 (sets_zero D) m low r
