-- ===== src/Exfat/Volume/Synced.antt =====
-- The mutable fields of the boot record in an image, and what a sync of an exFAT volume leaves.
use Prim.Native.Nat.{bit_or}
use unifat.Prelude.{
  ℕ, ◌+◌, ◌/◌, ◌%◌, ◌≤◌, ◌<◌, ◌≡◌, ◌⊎◌, inl, inr, refl, sym, ap, ◌∙◌, ◌≢◌, subst, arith, true,
  false, ◌||◌, List, Image, overlay, length, take, overlay_outside, length-take,
}
use unifat.Error.{Result, ok, err, abort, FsResult, and_then}
use unifat.Store.Device.{BlockDevice}
use unifat.Store.Cache.{SectorCache}
use unifat.Store.Cache.Refill.{Stands}
use unifat.Store.Access
use unifat.Store.Cache.Represents.{Represents}
use unifat.Store.Access.Through.{FlushTo, flush-image}
use unifat.Exfat.Volume.{ExfatVfs, sync, on_cache, on_device, dirty_flag}

-- A byte that is not in the mutable fields of the boot record.
abbrev pub Outside : ℕ → Type 0
Outside o = (o < 106) ⊎ (113 ≤ o)

-- Two images that differ at most in the mutable fields of the boot record.
abbrev pub SameData : Image → Image → Type 0
SameData f g = (o : ℕ) → Outside o → g o ≡ f o

pub SameData-trans : {f g h : Image} → SameData f g → SameData g h → SameData f h
SameData-trans fg gh o out = gh o out ∙ fg o out

pub overlay-SameData :
    (f : Image) (at : ℕ) (bs : List ℕ)
    → 106 ≤ at
    → at + length bs ≤ 113
    → SameData f (overlay f at bs)
overlay-SameData f at bs lo hi o (inl under) = overlay_outside f at bs o (inl (omega arith))
overlay-SameData f at bs lo hi o (inr past) = overlay_outside f at bs o (inr (omega arith))

pub part-SameData :
    (f : Image) (at k : ℕ) (bs : List ℕ)
    → 106 ≤ at
    → at + length bs ≤ 113
    → SameData f (overlay f at (take k bs))
part-SameData f at k bs lo hi =
    overlay-SameData f at (take k bs) lo (omega (arith, length-take k bs))

module _ (D : BlockDevice) where
  open D use {Io, image}

  -- The state after a call that changes the cache and the mark only.
  abbrev pub Touched : ExfatVfs D → ExfatVfs D → Type 0
  Touched v v' = v' ≡ record v { cache = v'.cache; volume_dirty = v'.volume_dirty }

  abbrev pub IsMarked : ExfatVfs D → Type 0
  IsMarked v = (v.dirty_since_mount || v.volume_dirty) ≡ true

  -- The flags of the device say that the volume is dirty.
  abbrev pub DirtyOnDevice : ExfatVfs D → Type 0
  DirtyOnDevice v =
      (image v.cache.storage 106 ≡ bit_or v.boot.flags dirty_flag % 256)
      × (image v.cache.storage 107 ≡ bit_or v.boot.flags dirty_flag / 256)

  -- What marking a volume leaves.
  abbrev pub MarkTo : ExfatVfs D → Image → ExfatVfs D × FsResult Io (Unit {0}) → Type 0
  MarkTo v f (v', ok _) =
      (g : Image) × SameData f g
      × Stands D v'.cache g
      × Touched v v'
      × IsMarked v'
      × ((v.dirty_since_mount || v.volume_dirty) ≡ false → DirtyOnDevice v')
  MarkTo v f (v', err e) =
      (g : Image) × SameData f g
      × Stands D v'.cache g
      × Touched v v'
      × (v'.volume_dirty ≡ v.volume_dirty)
  MarkTo v f (v', abort) = ⊥

  -- Flushing the device itself changes no byte, so the cache stands for the same image.
  device_flushed :
      (c : SectorCache D) {f : Image}
      → Stands D c f
      → ((o : ℕ) → image c.storage o ≡ f o)
      → FlushTo D f (on_device D (Access.flush_device D c))
  unfolding Access.flush_device
  device_flushed c {f} r all =
      go (D.flush c.storage) (D.flush-image c.storage) (D.flush-returns c.storage)
    where
      kept : (d : D.Dev) → image d ≡ image c.storage → Stands D (record c { storage = d }) f
      kept d e = record {
        represents = subst (λ img. Represents c.sector_size img c.slots f) (sym e) r.represents;
        wide = r.wide;
        some_slot = r.some_slot;
      }

      go :
          (q : D.Dev × Result Io (Unit {0}))
          → image q.0 ≡ image c.storage
          → q.1 ≢ abort
          → FlushTo D f (on_device D (record c { storage = q.0 }, q.1))
      go (d, ok u) e returns = (kept d e, λ o. ap (λ (img : Image). img o) e ∙ all o)
      go (d, err x) e returns = kept d e
      go (d, abort) e returns = returns refl

  -- After a sync that succeeds the device has every byte.
  abbrev pub SyncTo : ExfatVfs D → Image → ExfatVfs D × FsResult Io (Unit {0}) → Type 0
  SyncTo v f (v', r) = (v' ≡ record v { cache = v'.cache }) × FlushTo D f (v'.cache, r)

  pub sync-SyncTo : (v : ExfatVfs D) {f : Image} → Stands D v.cache f → SyncTo v f (sync D v)
  unfolding sync
  sync-SyncTo v {f} r = go (Access.flush D v.cache) (flush-image D v.cache r)
    where
      next :
          (q : SectorCache D × FsResult Io (Unit {0})) → FlushTo D f q → SyncTo v f (on_cache D v q)
      next (c, res) done = (refl, done)

      go :
          (q : SectorCache D × FsResult Io (Unit {0}))
          → FlushTo D f q
          → SyncTo v f (
              and_then
                (on_cache D v q)
                (λ v' _. on_cache D v' (on_device D (Access.flush_device D v'.cache))))
      go (c, ok u) (s, all) = next (on_device D (Access.flush_device D c)) (device_flushed c s all)
      go (c, err e) s = (refl, s)
      go (c, abort) s = (refl, s)
