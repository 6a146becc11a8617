-- ===== src/Store/Access/Cached.antt =====
-- `read_at` and `write_at` of src/store/cache.rs against the image that the cache stands for.
use mathlib.Core.List.{append-nil, append_assoc}
use native.Mathlib.Nat.{mod-lt, div-add-mod, mul-div-le}
use unifat.Prelude.{
  ℕ, zero, suc, ◌+◌, ◌-◌, ◌*◌, ◌/◌, ◌%◌, ◌^◌, ◌≤◌, ◌<◌, ◌≡◌, ◌≢◌, refl, sym, ap, ◌∙◌, subst, false,
  some, List, [], ◌++◌, arith, get_elem?, take, drop, min, Image, slice, take-drop-slice,
  slice-append,
}
use unifat.Error.{ok, err, abort, FsResult, and_then, or_abort}
use unifat.Store.Device.{BlockDevice}
use unifat.Store.Cache.{Slot, SectorCache, empty_sector, slot_index}
use unifat.Store.Cache.Refill.{Stands, Stands-pos, Looked, slot_index-Looked}
use unifat.Store.Access.{bytes_of, read_loop, read_at}

-- An offset of 64 bits lies in a real sector.
pub sector_real : (pos ss : ℕ) → pos < 2 ^ 64 → 1 < ss → pos / ss ≢ empty_sector
sector_real pos ss h w e = omega (arith, mul-div-le pos ss, ap (λ (k : ℕ). ss * k) e)

pub sector_starts : (pos ss : ℕ) → pos < 2 ^ 64 → pos / ss * ss < 2 ^ 64
sector_starts pos ss h = omega (arith, mul-div-le pos ss)

-- The bytes of one round, out of the sector's.
round_bytes :
    (f : Image) (pos ss n : ℕ)
    → 0 < ss
    → n ≤ ss - pos % ss
    → take n (drop (pos % ss) (slice f (pos / ss * ss) ss)) ≡ slice f pos n
round_bytes f pos ss n h le =
    take-drop-slice f (pos / ss * ss) ss (pos % ss) n (omega (arith, mod-lt pos h))
    ∙ ap (λ k. slice f k n) (grind (arith, div-add-mod pos ss))

module _ (D : BlockDevice) where
  open D use {Io}

  abbrev pub ReadTo : Image → ℕ → ℕ → List ℕ → SectorCache D × FsResult Io (List ℕ) → Type 0
  ReadTo f pos left out (c, ok bs) = Stands D c f × (bs ≡ out ++ slice f pos left)
  ReadTo f pos left out (c, err e) = Stands D c f
  ReadTo f pos left out (c, abort) = ⊥

  ReadTo-step :
      (f : Image) (pos left n : ℕ) (out bytes : List ℕ)
      → n ≤ left
      → bytes ≡ slice f pos n
      → (q : SectorCache D × FsResult Io (List ℕ)) → ReadTo f (pos + n) (left - n) (out ++ bytes) q
      → ReadTo f pos left out q
  ReadTo-step f pos left n out bytes le e (c, ok bs) (r, all) = (
    r,
    all
        ∙ append_assoc out bytes (slice f (pos + n) (left - n))
        ∙ ap (λ k. out ++ (k ++ slice f (pos + n) (left - n))) e
        ∙ ap (λ k. out ++ k) (slice-append f pos n (left - n))
        ∙ ap (λ k. out ++ slice f pos k) (omega arith),
  )
  ReadTo-step f pos left n out bytes le e (c, err x) r = r
  ReadTo-step f pos left n out bytes le e (c, abort) r = r

  bytes_of-some :
      (c : SectorCache D) (i within n : ℕ) {s : Slot}
      → get_elem? c.slots i ≡ some s
      → bytes_of D c i within n ≡ some (take n (drop within s.buf))
  unfolding bytes_of
  bytes_of-some c i within n at = rw (at, bytes_of)

  read_loop-ReadTo :
      (fuel : ℕ) (c : SectorCache D) {f : Image} (pos left : ℕ) (out : List ℕ)
      → Stands D c f
      → left ≤ fuel
      → pos + left ≤ 2 ^ 64
      → ReadTo f pos left out (read_loop D fuel c pos left out)
  unfolding read_loop
  read_loop-ReadTo fuel c {f} pos zero out r h fits = unfold slice in (r, sym (append-nil out))
  read_loop-ReadTo zero c {f} pos (suc left) out r h fits = absurd (omega arith)
  read_loop-ReadTo (suc fuel) c {f} pos (suc left) out r h fits =
      go (slot_index D c (pos / c.sector_size) false)
        (slot_index-Looked D c (pos / c.sector_size) false r
          (sector_real pos c.sector_size (omega arith) r.wide)
          (sector_starts pos c.sector_size (omega arith)))
        (λ c' out' r'.
          read_loop-ReadTo fuel c' (pos + n) (suc left - n) out' r'
            (omega (arith, mod-lt pos (Stands-pos D r))) (omega arith))
    where
      within : ℕ
      within = pos % c.sector_size

      n : ℕ
      n = min (c.sector_size - within) (suc left)

      go :
          (q : SectorCache D × FsResult Io ℕ)
          → Looked D c f (pos / c.sector_size) false q
          → ((c' : SectorCache D) (out' : List ℕ)
              → Stands D c' f
              → ReadTo f
                  (pos + n)
                  (suc left - n)
                  out'
                  (read_loop D fuel c' (pos + n) (suc left - n) out'))
          → ReadTo f pos (suc left) out (
              and_then q (λ c' i.
                or_abort c'
                  (bytes_of D c' i within n)
                  (λ bytes. read_loop D fuel c' (pos + n) (suc left - n) (out ++ bytes))))
      go (c', ok i) (same, (holds, stands)) ih =
          let r' = stands refl in
          let here : pos / c.sector_size ≡ holds.slot.sector = sym holds.sector in
          let held = sector_real pos c.sector_size (omega arith) r.wide in
          let buf = r'.represents.cached i holds.slot holds.at (λ e. held (here ∙ e)) in
          let bytes : take n (drop within holds.slot.buf) ≡ slice f pos n =
            ap (λ b. take n (drop within b)) (rw (same, holds.sector) at buf)
            ∙ round_bytes f pos c.sector_size n (Stands-pos D r) (omega arith) in
          subst
            (λ o. ReadTo f pos (suc left) out (
              or_abort c' o
                (λ bytes'. read_loop D fuel c' (pos + n) (suc left - n) (out ++ bytes'))))
            (sym (bytes_of-some c' i within n holds.at))
            (ReadTo-step f pos (suc left) n out _ (omega arith) bytes
              (read_loop D fuel c' (pos + n) (suc left - n)
                (out ++ take n (drop within holds.slot.buf)))
              (ih c' _ r'))
      go (c', err e) (same, r') ih = r'
      go (c', abort) (same, r') ih = absurd r'

  -- A cached read of a range that ends at 2^64 at most, if it succeeds, returns the bytes of the range
  -- in the image that the cache stands for, across any number of sectors. The cache stands for the
  -- image still, also where the device fails. It always ends and does not panic.
  pub read_at-slice :
      (c : SectorCache D) {f : Image} (offset len : ℕ)
      → Stands D c f
      → offset + len ≤ 2 ^ 64
      → ReadTo f offset len [] (read_at D c offset len)
  unfolding read_at
  read_at-slice c offset len r fits = read_loop-ReadTo len c offset len [] r (omega arith) fits
