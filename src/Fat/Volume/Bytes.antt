-- ===== src/Fat/Volume/Bytes.antt =====
-- What the bounded byte accesses of a FAT volume do to the image that its sector cache stands for.
use native.Mathlib.Nat.{mul-le-mul_right}
use unifat.Prelude.{
  ℕ, ◌+◌, ◌*◌, ◌^◌, ◌≤◌, ◌<◌, ◌≡◌, ◌⊎◌, inl, inr, refl, arith, false, Bool-cases, ltb, length, take,
  saturating_add, List, [], Image, slice, overlay, overlay-nil,
}
use unifat.Error.{ok, err, abort, FsResult}
use unifat.Store.Device.{BlockDevice}
use unifat.Store.Cache.{SectorCache}
use unifat.Store.Cache.Refill.{Stands}
use unifat.Store.Access.{read_at, write_at, read_through}
use unifat.Store.Access.Through.{ReadThrough, read_through-slice}
use unifat.Store.Access.Cached.{ReadTo, read_at-slice}
use unifat.Store.Access.Written.{WriteTo, write_at-overlay}
use unifat.Fat.Volume.{
  FatVfs, FsProperties, check_bounds, on_cache, read_bytes, write_bytes, read_bytes_through,
}

-- The fields have the widths of the boot record: a u32 and a u16.
abbrev pub Sized : FsProperties → Type 0
Sized p = (p.total_sectors < 2 ^ 32) × (p.sector_size < 2 ^ 16)

abbrev pub volume_end : FsProperties → ℕ
volume_end p = p.total_sectors * p.sector_size

product-fits : (a b : ℕ) → a < 2 ^ 32 → b < 2 ^ 16 → a * b < 2 ^ 48
product-fits a b ha hb =
    let widened : a * b ≤ 2 ^ 32 * b = mul-le-mul_right b (omega arith) in omega arith

module _ (D : BlockDevice) where
  open D use {Io}

  -- The state after a call that touches nothing but the cache.
  abbrev pub Kept : FatVfs D → FatVfs D → Image → Type 0
  Kept v v' f = Stands D v'.cache f × (v' ≡ record v { cache = v'.cache })

  abbrev pub BytesRead : FatVfs D → Image → ℕ → ℕ → FatVfs D × FsResult Io (List ℕ) → Type 0
  BytesRead v f offset len (v', ok bs) =
      Kept v v' f × (bs ≡ slice f offset len) × (offset + len ≤ volume_end v.props)
  BytesRead v f offset len (v', err e) = Kept v v' f
  BytesRead v f offset len (v', abort) = ⊥

  within :
      (p : FsProperties) (offset len : ℕ)
      → Sized p
      → ltb (volume_end p) (saturating_add offset len) ≡ false
      → (offset + len ≤ volume_end p) × (offset + len ≤ 2 ^ 64)
  within p offset len sized h =
      let fits = product-fits p.total_sectors p.sector_size sized.0 sized.1 in ground arith

  -- On a volume whose sector cache stands for an image and whose sector size and count fit a u16 and a
  -- u32, a bounded read that succeeds returns the bytes of a range that lies in the volume. Nothing
  -- changes but the sector cache, which stands for the image still, also where the device fails. It
  -- does not panic.
  pub read_bytes-slice :
      (v : FatVfs D) {f : Image} (offset len : ℕ)
      → Stands D v.cache f
      → Sized v.props
      → BytesRead v f offset len (read_bytes D v offset len)
  unfolding read_bytes check_bounds on_cache
  read_bytes-slice v {f} offset len r sized =
      elim (Bool-cases (ltb (volume_end v.props) (saturating_add offset len))) [
        | inl past ↦ rw past (r, refl)
        | inr near ↦
            let (inside, fits) = within v.props offset len sized near in
            rw near
              (go (read_at D v.cache offset len) inside (read_at-slice D v.cache offset len r fits))
      ]
    where
      go :
          (q : SectorCache D × FsResult Io (List ℕ))
          → offset + len ≤ volume_end v.props
          → ReadTo D f offset len [] q
          → BytesRead v f offset len (on_cache D v q)
      go (c, ok bs) inside (s, e) = ((s, refl), e, inside)
      go (c, err e) inside s = (s, refl)
      go (c, abort) inside s = s

  -- So for a direct read.
  pub read_bytes_through-slice :
      (v : FatVfs D) {f : Image} (offset len : ℕ)
      → Stands D v.cache f
      → Sized v.props
      → BytesRead v f offset len (read_bytes_through D v offset len)
  unfolding read_bytes_through check_bounds on_cache
  read_bytes_through-slice v {f} offset len r sized =
      elim (Bool-cases (ltb (volume_end v.props) (saturating_add offset len))) [
        | inl past ↦ rw past (r, refl)
        | inr near ↦ rw near (
            go (read_through D v.cache offset len) (within v.props offset len sized near).0
              (read_through-slice D v.cache offset len r))
      ]
    where
      go :
          (q : SectorCache D × FsResult Io (List ℕ))
          → offset + len ≤ volume_end v.props
          → ReadThrough D f offset len q
          → BytesRead v f offset len (on_cache D v q)
      go (c, ok bs) inside (s, e) = ((s, refl), e, inside)
      go (c, err e) inside s = (s, refl)
      go (c, abort) inside s = s

  -- What a write leaves: on success the bytes over the range, else a front part of them.
  abbrev pub BytesWritten :
      FatVfs D → Image → ℕ → List ℕ → FatVfs D × FsResult Io (Unit {0}) → Type 0
  BytesWritten v f offset buf (v', ok _) =
      Kept v v' (overlay f offset buf) × (offset + length buf ≤ volume_end v.props)
  BytesWritten v f offset buf (v', err e) =
      (k : ℕ) × (k ≤ length buf)
      × (Kept v v' (overlay f offset (take k buf)))
      × ((k ≡ 0) ⊎ (offset + length buf ≤ volume_end v.props))
  BytesWritten v f offset buf (v', abort) = ⊥

  -- On a volume whose sector cache stands for an image and whose sector size and count fit a u16 and a
  -- u32, a bounded write that succeeds puts its bytes over a range that lies in the volume. Where it
  -- fails, a front part of them is written, and nothing at all where the range does not lie in the
  -- volume. It does not panic.
  pub write_bytes-overlay :
      (v : FatVfs D) {f : Image} (offset : ℕ) (buf : List ℕ)
      → Stands D v.cache f
      → Sized v.props
      → BytesWritten v f offset buf (write_bytes D v offset buf)
  unfolding write_bytes check_bounds on_cache
  write_bytes-overlay v {f} offset buf r sized =
      elim (Bool-cases (ltb (volume_end v.props) (saturating_add offset (length buf)))) [
        | inl past ↦ rw past (0, omega arith, (rw (overlay-nil f offset) r, refl), inl refl)
        | inr near ↦
            let (inside, fits) = within v.props offset (length buf) sized near in
            rw near (
              go (write_at D v.cache offset buf) inside
                (write_at-overlay D v.cache offset buf r fits))
      ]
    where
      go :
          (q : SectorCache D × FsResult Io (Unit {0}))
          → offset + length buf ≤ volume_end v.props
          → WriteTo D f offset buf q
          → BytesWritten v f offset buf (on_cache D v q)
      go (c, ok u) inside s = ((s, refl), inside)
      go (c, err e) inside (k, le, s) = (k, le, (s, refl), inr inside)
      go (c, abort) inside s = s
