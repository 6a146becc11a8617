-- ===== src/Exfat/Volume/Flushed.antt =====
-- What the flush of an exFAT volume leaves on the device, and when it takes the mark away.
use Prim.Native.Nat.{bit_and}
use unifat.Prelude.{
  ℕ, ◌-◌, ◌/◌, ◌%◌, ◌^◌, ◌≡◌, inl, inr, refl, sym, ap, ◌∙◌, subst, arith, true, false, not, ◌||◌,
  Bool-cases, Image, overlay, take, overlay_inside,
}
use unifat.Error.{ok, err, abort, FsResult, and_then}
use unifat.Store.Device.{BlockDevice}
use unifat.Store.Cache.{SectorCache}
use unifat.Store.Cache.Refill.{Stands}
use unifat.Store.Access
use unifat.Store.Access.Written.{WriteTo, write_at-overlay}
use unifat.Exfat.Volume.{
  ExfatVfs, write_volume_flags, clear_volume_dirty, sync, flush, flag_bytes, on_cache, dirty_flag,
}
use unifat.Exfat.Volume.Synced.{
  SameData, Touched, SyncTo, sync-SyncTo, overlay-SameData, part-SameData,
}

module _ (D : BlockDevice) where
  open D use {Io, image}

  -- The flags of an image say that the volume is clean.
  abbrev pub CleanFlags : ExfatVfs D → Image → Type 0
  CleanFlags v g =
      (g 106 ≡ bit_and v.boot.flags (2 ^ 16 - 1 - dirty_flag) % 256)
      × (g 107 ≡ bit_and v.boot.flags (2 ^ 16 - 1 - dirty_flag) / 256)

  -- What taking the mark away leaves in an image: nothing where the volume was dirty before the mount.
  abbrev Cleared : ExfatVfs D → ExfatVfs D → Image → Image → Type 0
  Cleared v v' f g =
      (v.dirty_since_mount ≡ true → (v'.volume_dirty ≡ v.volume_dirty) × (g ≡ f))
      × (v.dirty_since_mount ≡ false → v'.volume_dirty ≡ false)
      × (v.dirty_since_mount ≡ false → v.volume_dirty ≡ true → CleanFlags v g)

  abbrev ClearTo : ExfatVfs D → Image → ExfatVfs D × FsResult Io (Unit {0}) → Type 0
  ClearTo v f (v', ok _) =
      (g : Image) × SameData f g × Stands D v'.cache g × Touched D v v' × Cleared v v' f g
  ClearTo v f (v', err e) = (g : Image) × SameData f g × Stands D v'.cache g × Touched D v v'
  ClearTo v f (v', abort) = ⊥

  clear_volume_dirty-ClearTo :
      (v : ExfatVfs D) {f : Image} → Stands D v.cache f → ClearTo v f (clear_volume_dirty D v)
  unfolding clear_volume_dirty write_volume_flags
  clear_volume_dirty-ClearTo v {f} r =
      elim (Bool-cases (v.dirty_since_mount || not v.volume_dirty)) [
        | inl stays ↦ rw stays (
          f,
          λ o out. refl,
          r,
          refl,
          (λ d. (refl, refl), λ d. ground arith, λ d m. absurd (ground arith)),
        )
        | inr goes ↦ rw goes (
            go (ground arith) (Access.write_at D v.cache 106 (flag_bytes D flags))
              (write_at-overlay D v.cache 106 (flag_bytes D flags) r (omega arith)))
      ]
    where
      flags : ℕ
      flags = bit_and v.boot.flags (2 ^ 16 - 1 - dirty_flag)

      go :
          v.dirty_since_mount ≡ false
          → (q : SectorCache D × FsResult Io (Unit {0})) → WriteTo D f 106 (flag_bytes D flags) q
          → ClearTo v f
              (and_then (on_cache D v q) (λ v' _. (record v' { volume_dirty = false }, ok tt)))
      go clean (c, ok u) s = (
        overlay f 106 (flag_bytes D flags),
        overlay-SameData f 106 (flag_bytes D flags) (omega arith) (omega arith),
        s,
        refl,
        (
          λ d. absurd cc,
          λ d. refl,
          λ d m. (
            overlay_inside f 106 (flag_bytes D flags) 106 0 (omega arith) (omega arith),
            overlay_inside f 106 (flag_bytes D flags) 107 0 (omega arith) (omega arith),
          ),
        ),
      )
      go clean (c, err x) (k, le, s) = (
        overlay f 106 (take k (flag_bytes D flags)),
        part-SameData f 106 k (flag_bytes D flags) (omega arith) (omega arith),
        s,
        refl,
      )
      go clean (c, abort) none_left = none_left

  -- What a flush leaves.
  abbrev pub FlushedTo : ExfatVfs D → Image → ExfatVfs D × FsResult Io (Unit {0}) → Type 0
  FlushedTo v f (v', ok _) =
      (g : Image) × SameData f g
      × Stands D v'.cache g
      × Touched D v v'
      × Cleared v v' f g
      × ((o : ℕ) → image v'.cache.storage o ≡ g o)
  FlushedTo v f (v', err e) = (g : Image) × SameData f g × Stands D v'.cache g × Touched D v v'
  FlushedTo v f (v', abort) = ⊥

  -- A flush of an exFAT volume whose sector cache stands for an image, if it succeeds, leaves on the
  -- device every byte of the image outside the offsets 106 to 112 of the boot record. A volume that
  -- was marked in this session and was not dirty when it was mounted has its flag cleared on the
  -- device and is no longer marked; one that was dirty at the mount keeps every byte. Where the device
  -- fails, the cache stands for the image still up to those offsets. It does not panic.
  pub flush-FlushedTo :
      (v : ExfatVfs D) {f : Image} → Stands D v.cache f → FlushedTo v f (flush D v)
  unfolding flush
  flush-FlushedTo v {f} r = go (sync D v) (sync-SyncTo D v r)
    where
      last :
          (w : ExfatVfs D) (g : Image)
          → SameData f g
          → Touched D v w
          → Cleared v w f g
          → (q : ExfatVfs D × FsResult Io (Unit {0})) → SyncTo D w g q
          → FlushedTo v f q
      last w g same t (kept, off, flags) (w', ok u) (e, (s, all)) =
          let mark = ap (λ (x : ExfatVfs D). x.volume_dirty) e in
          let t' : Touched D v w' =
            e
            ∙ ap (λ (x : ExfatVfs D). record x { cache = w'.cache }) t
            ∙ ap (λ m. record v { cache = w'.cache; volume_dirty = m }) (sym mark) in
          (g, same, s, t', (λ d. (mark ∙ (kept d).0, (kept d).1), λ d. mark ∙ off d, flags), all)
      last w g same t cleared (w', err x) (e, s) =
          let mark = ap (λ (x : ExfatVfs D). x.volume_dirty) e in
          (
            g,
            same,
            s,
            e
                ∙ ap (λ (x : ExfatVfs D). record x { cache = w'.cache }) t
                ∙ ap (λ m. record v { cache = w'.cache; volume_dirty = m }) (sym mark),
          )
      last w g same t cleared (w', abort) (e, none_left) = none_left

      middle :
          (c : SectorCache D)
          → (q : ExfatVfs D × FsResult Io (Unit {0})) → ClearTo (record v { cache = c }) f q
          → FlushedTo v f (and_then q (λ v2 _. sync D v2))
      middle c (w, ok u) (g, same, s, t, cleared) =
          last w g same t cleared (sync D w) (sync-SyncTo D w s)
      middle c (w, err x) (g, same, s, t) = (g, same, s, t)
      middle c (w, abort) none_left = none_left

      go :
          (q : ExfatVfs D × FsResult Io (Unit {0}))
          → SyncTo D v f q
          → FlushedTo v f
              (and_then q (λ v1 _. and_then (clear_volume_dirty D v1) (λ v2 _. sync D v2)))
      go (w, ok u) (e, (s, all)) =
          subst (λ x. FlushedTo v f (and_then (clear_volume_dirty D x) (λ v2 _. sync D v2))) (sym e)
            (middle w.cache (clear_volume_dirty D (record v { cache = w.cache }))
              (clear_volume_dirty-ClearTo (record v { cache = w.cache }) s))
      go (w, err x) (e, s) =
          let mark = ap (λ (x : ExfatVfs D). x.volume_dirty) e in
          (
            f,
            λ o out. refl,
            s,
            e ∙ ap (λ m. record v { cache = w.cache; volume_dirty = m }) (sym mark),
          )
      go (w, abort) (e, none_left) = none_left
