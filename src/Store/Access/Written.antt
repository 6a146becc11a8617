-- ===== src/Store/Access/Written.antt =====
-- `write_at` of src/store/cache.rs against the image that the cache stands for.
use native.Mathlib.Nat.{mod-lt, div-add-mod}
use unifat.Prelude.{
  ℕ, zero, suc, ◌+◌, ◌-◌, ◌*◌, ◌/◌, ◌%◌, ◌^◌, ◌≤◌, ◌<◌, ◌≡◌, ◌≢◌, ◌⊎◌, inl, inr, refl, sym, ap, ◌∙◌,
  subst, Bool, true, ◌&&◌, some, List, [], ◌∷◌, arith, length, set, get_or, take, drop, min, Image,
  slice, overlay, overlay-nil, length-take, length-drop, get_elem?-lt, get_or-slice, Bool-cases,
  ◌==◌, length-set,
}
use unifat.Error.{ok, err, abort, FsResult, and_then, or_abort}
use unifat.Store.Device.{BlockDevice}
use unifat.Store.Cache.{Slot, SectorCache, empty_sector, copy_at, slot_index}
use unifat.Store.Cache.Represents.{Holds-store}
use unifat.Store.Cache.Refill.{Stands, Stands-pos, Looked, slot_index-Looked}
use unifat.Store.Access.{store_in, write_loop, write_at}
use unifat.Store.Access.Cached.{sector_real, sector_starts}
use unifat.Store.Access.Copies.{length-copy_at, copy_at-slice, away_from_sector, joined, parted}

module _ (D : BlockDevice) where
  open D use {Io, image}

  abbrev pub WriteTo : Image → ℕ → List ℕ → SectorCache D × FsResult Io (Unit {0}) → Type 0
  WriteTo f pos buf (c, ok _) = Stands D c (overlay f pos buf)
  WriteTo f pos buf (c, err e) =
      (k : ℕ) × (k ≤ length buf) × Stands D c (overlay f pos (take k buf))
  WriteTo f pos buf (c, abort) = ⊥

  -- One round: the slot that holds the sector of `pos` takes the bytes.
  store-Stands :
      (c c' : SectorCache D) {f : Image} (i pos : ℕ) (full : Bool) (bytes : List ℕ)
      → 1 < c.sector_size
      → pos / c.sector_size ≢ empty_sector
      → pos < 2 ^ 64
      → pos % c.sector_size + length bytes ≤ c.sector_size
      → (full ≡ true → (pos % c.sector_size ≡ 0) × (length bytes ≡ c.sector_size))
      → Looked D c f (pos / c.sector_size) full (c', ok i)
      → (c'' : SectorCache D) × (store_in D c' i (pos % c.sector_size) bytes ≡ some c'')
        × (c''.sector_size ≡ c.sector_size)
        × Stands D c'' (overlay f pos bytes)
  unfolding store_in
  store-Stands c c' {f} i pos full bytes wide held near fits whole (same, (h, stands)) = (
    record c' { slots = set c'.slots i slot' },
    rw (h.at, store_in),
    same,
    record {
      represents =
          Holds-store (overlay f pos bytes) slot' h (omega arith) held
            (rw same (sector_starts pos c.sector_size near)) h.sector refl
            (length-copy_at h.slot.buf bytes within (omega (arith, size)) ∙ size) (rw same copied)
            (rw same (away_from_sector f pos ss bytes (omega arith) fits));
      wide = rw same wide;
      some_slot = omega (arith, length-set c'.slots i slot', get_elem?-lt c'.slots i h.at);
    },
  )
    where
      slot' : Slot
      slot' = record h.slot { buf = copy_at h.slot.buf (pos % c.sector_size) bytes; dirty = true }

      ss : ℕ
      ss = c.sector_size

      within : ℕ
      within = pos % ss

      size : length h.slot.buf ≡ c'.sector_size
      size = h.others.sized i h.slot h.at

      -- The bytes of the sector that stay are the image's: with `fill_only` none stay.
      old :
          (k : ℕ)
          → k < ss
          → (k < within) ⊎ (within + length bytes ≤ k)
          → get_or h.slot.buf k 0 ≡ f (pos / ss * ss + k)
      old k lt out = elim (Bool-cases full) [
        | inl e ↦
            absurd (elim out [ inl lo ↦ omega (arith, whole e) | inr hi ↦ omega (arith, whole e) ])
        | inr e ↦
            let r' = stands e in
            let buf = r'.represents.cached i h.slot h.at (λ x. held (sym h.sector ∙ x)) in
            ap (λ b. get_or b k 0) (rw (same, h.sector) at buf)
            ∙ get_or-slice f (pos / ss * ss) ss k 0 lt
      ]

      copied : copy_at h.slot.buf within bytes ≡ slice (overlay f pos bytes) (pos / ss * ss) ss
      copied =
          copy_at-slice h.slot.buf bytes within f (pos / ss * ss) ss (size ∙ same) fits old
          ∙ ap (λ k. slice (overlay f k bytes) (pos / ss * ss) ss)
              (grind (arith, div-add-mod pos ss))

  WriteTo-step :
      (f : Image) (pos n : ℕ) (buf : List ℕ)
      → n ≤ length buf
      → (q : SectorCache D × FsResult Io (Unit {0}))
      → WriteTo (overlay f pos (take n buf)) (pos + n) (drop n buf) q
      → WriteTo f pos buf q
  WriteTo-step f pos n buf le (c, ok u) r = rw (joined f pos n buf le) at r
  WriteTo-step f pos n buf le (c, err e) (k, lt, r) =
      (n + k, omega (arith, length-drop n buf), rw (parted f pos n k buf le) at r)
  WriteTo-step f pos n buf le (c, abort) r = r

  write_loop-WriteTo :
      (fuel : ℕ) (c : SectorCache D) {f : Image} (pos : ℕ) (buf : List ℕ)
      → Stands D c f
      → length buf ≤ fuel
      → pos + length buf ≤ 2 ^ 64
      → WriteTo f pos buf (write_loop D fuel c pos buf)
  unfolding write_loop
  write_loop-WriteTo fuel c {f} pos [] r h fits = rw (overlay-nil f pos) r
  write_loop-WriteTo zero c {f} pos (b ∷ rest) r h fits = absurd (omega arith)
  write_loop-WriteTo (suc fuel) c {f} pos (b ∷ rest) r h fits =
      go (slot_index D c (pos / c.sector_size) full)
        (slot_index-Looked D c (pos / c.sector_size) full r real
          (sector_starts pos c.sector_size (omega arith)))
        (λ c' r'.
          write_loop-WriteTo fuel c' (pos + n) (drop n buf) r'
            (omega (arith, length-drop n buf, mod-lt pos (Stands-pos D r)))
            (omega (arith, length-drop n buf)))
    where
      buf : List ℕ
      buf = b ∷ rest

      within : ℕ
      within = pos % c.sector_size

      n : ℕ
      n = min (c.sector_size - within) (length buf)

      full : Bool
      full = within == 0 && n == c.sector_size

      real : pos / c.sector_size ≢ empty_sector
      real = sector_real pos c.sector_size (omega arith) r.wide

      size : length (take n buf) ≡ n
      size = omega (arith, length-take n buf)

      whole : full ≡ true → (within ≡ 0) × (length (take n buf) ≡ c.sector_size)
      whole e = ground (arith, size)

      go :
          (q : SectorCache D × FsResult Io ℕ)
          → Looked D c f (pos / c.sector_size) full q
          → ((c' : SectorCache D)
              → Stands D c' (overlay f pos (take n buf))
              → WriteTo
                  (overlay f pos (take n buf))
                  (pos + n)
                  (drop n buf)
                  (write_loop D fuel c' (pos + n) (drop n buf)))
          → WriteTo f pos buf (
              and_then q (λ c' i.
                or_abort c'
                  (store_in D c' i within (take n buf))
                  (λ c''. write_loop D fuel c'' (pos + n) (drop n buf))))
      go (c', ok i) looked ih =
          let (c'', stored, same, r'') =
            store-Stands c c' i pos full (take n buf) r.wide real (omega arith)
              (omega (arith, size, mod-lt pos (Stands-pos D r))) whole looked in
          subst
            (λ o.
              WriteTo f pos buf (or_abort c' o (λ c₁. write_loop D fuel c₁ (pos + n) (drop n buf))))
            (sym stored) (WriteTo-step f pos n buf (omega arith) _ (ih c'' r''))
      go (c', err e) (same, r') ih = (0, omega arith, rw (overlay-nil f pos) r')
      go (c', abort) (same, r') ih = absurd r'

  -- A cached write to a range that ends at 2^64 at most, on a cache that stands for an image: if it
  -- succeeds it puts its bytes over the range in the image that the cache stands for. Where the device
  -- fails, the cache stands for the image with a front part of the bytes written. It always ends and
  -- does not panic.
  pub write_at-overlay :
      (c : SectorCache D) {f : Image} (offset : ℕ) (buf : List ℕ)
      → Stands D c f
      → offset + length buf ≤ 2 ^ 64
      → WriteTo f offset buf (write_at D c offset buf)
  unfolding write_at
  write_at-overlay c offset buf r fits =
      write_loop-WriteTo (length buf) c offset buf r (omega arith) fits
