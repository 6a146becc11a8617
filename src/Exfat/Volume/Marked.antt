-- ===== src/Exfat/Volume/Marked.antt =====
-- What the byte accesses of an exFAT volume do to the image that its sector cache stands for, and when the
-- volume is marked dirty.
use Prim.Native.Nat.{bit_or}
use unifat.Prelude.{
  ℕ, ◌+◌, ◌/◌, ◌%◌, ◌^◌, ◌≤◌, ◌≡◌, inl, inr, refl, sym, ap, ◌∙◌, arith, true, ◌||◌, Bool-cases,
  List, [], ◌∷◌, Image, overlay, length, take, overlay-nil, overlay_outside, overlay_inside,
}
use unifat.Error.{ok, err, abort, FsResult, and_then}
use unifat.Store.Device.{BlockDevice}
use unifat.Store.Cache.{SectorCache}
use unifat.Store.Cache.Refill.{Stands}
use unifat.Store.Access
use unifat.Store.Access.Written.{WriteTo, write_at-overlay}
use unifat.Exfat.Volume.{
  ExfatVfs, ensure_volume_dirty, write_at, write_volume_flags, sync, flag_bytes, on_cache,
  dirty_flag, percent_in_use_offset,
}
use unifat.Exfat.Volume.Synced.{
  SameData, SameData-trans, overlay-SameData, part-SameData, Touched, IsMarked, MarkTo, SyncTo,
  sync-SyncTo,
}

module _ (D : BlockDevice) where
  open D use {Io, image}

  -- Once the boot record's bytes are in the cache: the sync, and the mark.
  mark_synced :
      (v : ExfatVfs D) (f g : Image) (c : SectorCache D)
      → SameData f g
      → (g 106 ≡ bit_or v.boot.flags dirty_flag % 256)
        × (g 107 ≡ bit_or v.boot.flags dirty_flag / 256)
      → Stands D c g
      → MarkTo D v f (
          and_then
            (sync D (record v { cache = c }))
            (λ v3 _. (record v3 { volume_dirty = true }, ok tt)))
  mark_synced v f g c same (low, high) r =
      go (sync D (record v { cache = c })) (sync-SyncTo D (record v { cache = c }) r)
    where
      go :
          (q : ExfatVfs D × FsResult Io (Unit {0}))
          → SyncTo D (record v { cache = c }) g q
          → MarkTo D v f (and_then q (λ v3 _. (record v3 { volume_dirty = true }, ok tt)))
      go (v3, ok u) (e, (s, all)) = (
        g,
        same,
        s,
        ap (λ (w : ExfatVfs D). record w { volume_dirty = true }) e,
        ground arith,
        λ clean. (
          all 106 ∙ low ∙ ap (λ (w : ExfatVfs D). bit_or w.boot.flags dirty_flag % 256) (sym e),
          all 107 ∙ high ∙ ap (λ (w : ExfatVfs D). bit_or w.boot.flags dirty_flag / 256) (sym e),
        ),
      )
      go (v3, err x) (e, s) =
          let mark = ap (λ (w : ExfatVfs D). w.volume_dirty) e in
          (
            g,
            same,
            s,
            e ∙ ap (λ m. record v { cache = v3.cache; volume_dirty = m }) (sym mark),
            mark,
          )
      go (v3, abort) (e, none_left) = none_left

  -- The byte for the share of the volume in use, which is no longer known.
  mark_percent :
      (v : ExfatVfs D) (f : Image) (c : SectorCache D)
      → (flags : ℕ) → flags ≡ bit_or v.boot.flags dirty_flag
      → Stands D c (overlay f 106 (flag_bytes D flags))
      → MarkTo D v f (
          and_then
            (on_cache D
              (record v { cache = c })
              (Access.write_at D c percent_in_use_offset (0xFF ∷ [])))
            (λ v2 _. and_then (sync D v2) (λ v3 _. (record v3 { volume_dirty = true }, ok tt))))
  mark_percent v f c flags e r =
      go (Access.write_at D c 112 (0xFF ∷ []))
        (write_at-overlay D c 112 (0xFF ∷ []) r (omega arith))
    where
      g : Image
      g = overlay f 106 (flag_bytes D flags)

      same : SameData f g
      same = overlay-SameData f 106 (flag_bytes D flags) (omega arith) (omega arith)

      go :
          (q : SectorCache D × FsResult Io (Unit {0}))
          → WriteTo D g 112 (0xFF ∷ []) q
          → MarkTo D v f (
              and_then
                (on_cache D (record v { cache = c }) q)
                (λ v2 _. and_then (sync D v2) (λ v3 _. (record v3 { volume_dirty = true }, ok tt))))
      go (c2, ok u) s =
          mark_synced v f (overlay g 112 (0xFF ∷ [])) c2
            (SameData-trans same (overlay-SameData g 112 (0xFF ∷ []) (omega arith) (omega arith)))
            (
              overlay_outside g 112 (0xFF ∷ []) 106 (inl (omega arith))
                  ∙ overlay_inside f 106 (flag_bytes D flags) 106 0 (omega arith) (omega arith)
                  ∙ ap (λ t. t % 256) e,
              overlay_outside g 112 (0xFF ∷ []) 107 (inl (omega arith))
                  ∙ overlay_inside f 106 (flag_bytes D flags) 107 0 (omega arith) (omega arith)
                  ∙ ap (λ t. t / 256) e,
            )
            s
      go (c2, err x) (k, le, s) = (
        overlay g 112 (take k (0xFF ∷ [])),
        SameData-trans same (part-SameData g 112 k (0xFF ∷ []) (omega arith) (omega arith)),
        s,
        refl,
        refl,
      )
      go (c2, abort) none_left = none_left

  -- Marking an exFAT volume as dirty, where its sector cache stands for an image, changes no byte of
  -- the image outside the offsets 106 to 112 of the boot record. Where it succeeds the volume is
  -- marked, and if it was not before, the dirty flag is on the device. Where the device fails, the
  -- volume is marked only if it was before. It does not panic.
  pub ensure_volume_dirty-MarkTo :
      (v : ExfatVfs D) {f : Image} → Stands D v.cache f → MarkTo D v f (ensure_volume_dirty D v)
  unfolding ensure_volume_dirty write_volume_flags
  ensure_volume_dirty-MarkTo v {f} r = elim (Bool-cases (v.dirty_since_mount || v.volume_dirty)) [
    | inl marked ↦ rw marked (f, λ o out. refl, r, refl, marked, λ clean. absurd cc)
    | inr clean ↦ rw clean (
        go (Access.write_at D v.cache 106 (flag_bytes D flags))
          (write_at-overlay D v.cache 106 (flag_bytes D flags) r (omega arith)))
  ]
    where
      flags : ℕ
      flags = bit_or v.boot.flags dirty_flag

      go :
          (q : SectorCache D × FsResult Io (Unit {0}))
          → WriteTo D f 106 (flag_bytes D flags) q
          → MarkTo D v f (
              and_then (on_cache D v q) (λ v1 _.
                and_then
                  (on_cache D v1 (Access.write_at D v1.cache percent_in_use_offset (0xFF ∷ [])))
                  (λ v2 _.
                    and_then (sync D v2) (λ v3 _. (record v3 { volume_dirty = true }, ok tt)))))
      go (c, ok u) s = mark_percent v f c flags refl s
      go (c, err x) (k, le, s) = (
        overlay f 106 (take k (flag_bytes D flags)),
        part-SameData f 106 k (flag_bytes D flags) (omega arith) (omega arith),
        s,
        refl,
        refl,
      )
      go (c, abort) none_left = none_left

  -- What a write leaves.
  abbrev pub MarkedWrite :
      ExfatVfs D → Image → ℕ → List ℕ → ExfatVfs D × FsResult Io (Unit {0}) → Type 0
  MarkedWrite v f off buf (v', ok _) =
      (g : Image) × SameData f g
      × Stands D v'.cache (overlay g off buf)
      × Touched D v v'
      × IsMarked D v'
  MarkedWrite v f off buf (v', err e) =
      (g : Image) × (k : ℕ) × SameData f g
      × (k ≤ length buf)
      × Stands D v'.cache (overlay g off (take k buf))
      × Touched D v v'
  MarkedWrite v f off buf (v', abort) = ⊥

  -- A write to a range that ends at 2^64 at most, on an exFAT volume whose sector cache stands for an
  -- image, if it succeeds, leaves the volume marked as dirty, puts its bytes over the range, and
  -- changes no other byte outside the offsets 106 to 112 of the boot record. Where the device fails, a
  -- front part of the bytes is written. It does not panic.
  pub write_at-MarkedWrite :
      (v : ExfatVfs D) {f : Image} (off : ℕ) (buf : List ℕ)
      → Stands D v.cache f
      → off + length buf ≤ 2 ^ 64
      → MarkedWrite v f off buf (write_at D v off buf)
  unfolding write_at
  write_at-MarkedWrite v {f} off buf r fits =
      go (ensure_volume_dirty D v) (ensure_volume_dirty-MarkTo v r)
    where
      wrote :
          (w : ExfatVfs D) (g : Image)
          → SameData f g
          → Touched D v w
          → IsMarked D w
          → (q : SectorCache D × FsResult Io (Unit {0})) → WriteTo D g off buf q
          → MarkedWrite v f off buf (on_cache D w q)
      wrote w g same t marked (c, ok u) s =
          (g, same, s, ap (λ (x : ExfatVfs D). record x { cache = c }) t, marked)
      wrote w g same t marked (c, err x) (k, le, s) =
          (g, k, same, le, s, ap (λ (x : ExfatVfs D). record x { cache = c }) t)
      wrote w g same t marked (c, abort) none_left = none_left

      go :
          (q : ExfatVfs D × FsResult Io (Unit {0}))
          → MarkTo D v f q
          → MarkedWrite v f off buf
              (and_then q (λ v' _. on_cache D v' (Access.write_at D v'.cache off buf)))
      go (w, ok u) (g, same, s, t, marked, on_disk) =
          wrote w g same t marked (Access.write_at D w.cache off buf)
            (write_at-overlay D w.cache off buf s fits)
      go (w, err x) (g, same, s, t, mark) = (g, 0, same, omega arith, rw (overlay-nil g off) s, t)
      go (w, abort) none_left = none_left
