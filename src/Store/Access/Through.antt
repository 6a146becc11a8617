-- ===== src/Store/Access/Through.antt =====
-- `flush`, `read_through` and `write_through` of src/store/cache.rs against the image that the cache
-- stands for.
use unifat.Prelude.{
  ℕ, zero, suc, ◌+◌, ◌-◌, ◌*◌, ◌/◌, ◌≤◌, ◌<◌, ◌≡◌, ◌≢◌, ◌⊎◌, inl, inr, refl, sym, ap, ◌∙◌, subst,
  Bool, true, false, some, List, arith, length, get_elem?, Image, slice, overlay, overlay_outside,
  overlay_inside, get_elem?-lt, Bool-cases, if◌then◌else◌, ◌==◌, ltb, dec_lt,
}
use unifat.Error.{ok, err, abort, FsResult, and_then}
use unifat.Store.Device.{BlockDevice}
use unifat.Store.Cache.{Slot, SectorCache, empty_sector, write_out, read_in}
use unifat.Store.Cache.Represents.{div_block, slice-ext}
use unifat.Store.Cache.WriteBack.{
  write_out-image, write_out-outside, write_out-returns, read_in-bytes, read_in-image,
  read_in-returns,
}
use unifat.Store.Cache.Refill.{Stands, Stands-pos}
use unifat.Store.Access.Direct.{Each, write_back_each-Each}
use unifat.Store.Access.{
  write_back_each, overlaps, writeback_overlap, read_through, write_through, flush,
}

div_mono : (a b ss : ℕ) → 0 < ss → a ≤ b → a / ss ≤ b / ss
div_mono a b ss h le = grind arith

module _ (D : BlockDevice) where
  open D use {Dev, Io, image}

  abbrev pub FlushTo : Image → SectorCache D × FsResult Io (Unit {0}) → Type 0
  FlushTo f (c, ok _) = Stands D c f × ((o : ℕ) → image c.storage o ≡ f o)
  FlushTo f (c, err e) = Stands D c f
  FlushTo f (c, abort) = ⊥

  Each-FlushTo :
      (ss len : ℕ) (f : Image) (q : SectorCache D × FsResult Io (Unit {0}))
      → Each D ss len f (λ _. true) false len q
      → FlushTo f q
  Each-FlushTo ss len f (c, ok u) (r, same, size, done) = (
    r,
    λ o. r.represents.on_device o (λ i s at dirty _.
        let clean = done i s (omega (arith, get_elem?-lt c.slots i at)) at refl in
        let e : s.dirty ≡ false = clean.0 in cc),
  )
  Each-FlushTo ss len f (c, err e) r = r
  Each-FlushTo ss len f (c, abort) r = r

  -- After a flush that succeeds the device has every byte of the image that the cache stands for.
  -- Where the device fails on the way, the cache stands for the same image still.
  pub flush-image : (c : SectorCache D) {f : Image} → Stands D c f → FlushTo f (flush D c)
  unfolding flush
  flush-image c {f} r = Each-FlushTo c.sector_size (length c.slots) f (flush D c) (
      write_back_each-Each D (length c.slots) 0 (λ _. true) false c r (omega arith)
        (λ j t lt. absurd (omega arith)))

  -- No slot may shadow the range: where it is cached it is clean, and with `invalidate` not cached.
  abbrev Apart : SectorCache D → ℕ → ℕ → Bool → Type 0
  Apart c offset len invalidate =
      (i : ℕ) (s : Slot)
      → get_elem? c.slots i ≡ some s
      → s.sector ≢ empty_sector
      → (o : ℕ) → offset ≤ o
      → o < offset + len
      → s.sector ≡ o / c.sector_size
      → (s.dirty ≡ false) × (invalidate ≡ false)

  abbrev Cleared : Image → ℕ → ℕ → Bool → SectorCache D × FsResult Io (Unit {0}) → Type 0
  Cleared f offset len invalidate (c, ok _) = Stands D c f × Apart c offset len invalidate
  Cleared f offset len invalidate (c, err e) = Stands D c f
  Cleared f offset len invalidate (c, abort) = ⊥

  Each-Cleared :
      (ss n : ℕ) (f : Image) (offset len : ℕ) (invalidate : Bool)
      (q : SectorCache D × FsResult Io (Unit {0}))
      → 0 < ss
      → Each D ss n f (overlaps (offset / ss) ((offset + len - 1) / ss)) invalidate n q
      → Cleared f offset len invalidate q
  Each-Cleared ss n f offset len invalidate (c, ok u) pos (r, same, size, done) = (
    r,
    λ i s at held o lo hi e.
        let within : s.sector ≡ o / ss = rw same at e in
        let lower = div_mono offset o ss pos lo in
        let upper = div_mono o (offset + len - 1) ss pos (omega arith) in
        let fits : overlaps (offset / ss) ((offset + len - 1) / ss) s ≡ true = ground arith in
        let (clean, gone) = done i s (omega (arith, get_elem?-lt c.slots i at)) at fits in
        (clean, elim (Bool-cases invalidate) [ inl t ↦ absurd (held (gone t)) | inr t ↦ t ]),
  )
  Each-Cleared ss n f offset len invalidate (c, err e) pos r = r
  Each-Cleared ss n f offset len invalidate (c, abort) pos r = r

  writeback_overlap-Cleared :
      (c : SectorCache D) {f : Image} (offset len : ℕ) (invalidate : Bool)
      → Stands D c f
      → Cleared f offset len invalidate (writeback_overlap D c offset len invalidate)
  unfolding writeback_overlap
  writeback_overlap-Cleared c offset zero invalidate r =
      (r, λ i s at held o lo hi. absurd (omega arith))
  writeback_overlap-Cleared c {f} offset (suc len) invalidate r =
      let chosen = overlaps (offset / c.sector_size) ((offset + suc len - 1) / c.sector_size) in
      let more : (suc len == 0) ≡ false = ground arith in
      subst
        (λ b.
          Cleared f offset (suc len) invalidate
            (if b then (c, ok tt) else write_back_each D (length c.slots) 0 chosen invalidate c))
        (sym more)
        (Each-Cleared c.sector_size (length c.slots) f offset (suc len) invalidate _
          (Stands-pos D r)
          (write_back_each-Each D (length c.slots) 0 chosen invalidate c r (omega arith)
            (λ j t lt. absurd (omega arith))))

  abbrev pub ReadThrough : Image → ℕ → ℕ → SectorCache D × FsResult Io (List ℕ) → Type 0
  ReadThrough f offset len (c, ok bs) = Stands D c f × (bs ≡ slice f offset len)
  ReadThrough f offset len (c, err e) = Stands D c f
  ReadThrough f offset len (c, abort) = ⊥

  -- In a range that no slot shadows the device has the image's bytes.
  direct_bytes :
      (c : SectorCache D) {f : Image} (offset len : ℕ) (invalidate : Bool)
      → Stands D c f
      → Apart c offset len invalidate
      → (o : ℕ) → offset ≤ o
      → o < offset + len
      → image c.storage o ≡ f o
  direct_bytes c offset len invalidate r apart o lo hi = r.represents.on_device o (λ i s at dirty e.
      let clean = (apart i s at (r.represents.filled i s at dirty).0 o lo hi e).0 in
      let z : s.dirty ≡ false = clean in cc)

  moved :
      (c : SectorCache D) {f : Image} (d : Dev)
      → Stands D c f
      → image d ≡ image c.storage
      → Stands D (record c { storage = d }) f
  moved c {f} d r same = record {
    represents = rw same r.represents;
    wide = r.wide;
    some_slot = r.some_slot;
  }

  -- A direct read that succeeds returns the bytes of the range in the image that the cache stands for,
  -- those written through the cache and not yet flushed included. The cache stands for the image
  -- still, also where the device fails.
  pub read_through-slice :
      (c : SectorCache D) {f : Image} (offset len : ℕ)
      → Stands D c f
      → ReadThrough f offset len (read_through D c offset len)
  unfolding read_through
  read_through-slice c {f} offset len r =
      go (writeback_overlap D c offset len false) (writeback_overlap-Cleared c offset len false r)
    where
      last :
          (c' : SectorCache D)
          → Stands D c' f
          → Apart c' offset len false
          → (q : Dev × FsResult Io (List ℕ)) → read_in D offset len c'.storage ≡ q
          → ReadThrough f offset len (record c' { storage = q.0 }, q.1)
      last c' r' apart (d, ok bs) e = (
        moved c' d r' (ap (λ p. image p.0) (sym e) ∙ read_in-image D offset len c'.storage),
        read_in-bytes D offset len c'.storage (ap (λ p. p.1) e)
            ∙ slice-ext (image c'.storage) f offset offset len (λ i hi.
              direct_bytes c' offset len false r' apart (offset + i) (omega arith) (omega arith)),
      )
      last c' r' apart (d, err x) e =
          moved c' d r' (ap (λ p. image p.0) (sym e) ∙ read_in-image D offset len c'.storage)
      last c' r' apart (d, abort) e = read_in-returns D offset len c'.storage (ap (λ p. p.1) e)

      go :
          (q : SectorCache D × FsResult Io (Unit {0}))
          → Cleared f offset len false q
          → ReadThrough f offset len (
              and_then q (λ c' _.
                let (d', r) = read_in D offset len c'.storage in (record c' { storage = d' }, r)))
      go (c', ok u) (r', apart) = last c' r' apart (read_in D offset len c'.storage) refl
      go (c', err x) r' = r'
      go (c', abort) r' = absurd r'

  abbrev pub WriteThrough : Image → ℕ → List ℕ → SectorCache D × FsResult Io (Unit {0}) → Type 0
  WriteThrough f offset buf (c, ok _) = Stands D c (overlay f offset buf)
  WriteThrough f offset buf (c, err e) =
      (g : Image) × ((o : ℕ) → (o < offset) ⊎ (offset + length buf ≤ o) → g o ≡ f o) × Stands D c g
  WriteThrough f offset buf (c, abort) = ⊥

  -- The device is written in a range that no slot caches: the cache stands for `g`, the image with
  -- the device's bytes in that range.
  device_changed :
      (c : SectorCache D) {f : Image} (g : Image) (offset len : ℕ) (d : Dev)
      → Stands D c f
      → Apart c offset len true
      → ((o : ℕ) → (o < offset) ⊎ (offset + len ≤ o) → image d o ≡ image c.storage o)
      → ((o : ℕ) → (o < offset) ⊎ (offset + len ≤ o) → g o ≡ f o)
      → ((o : ℕ) → offset ≤ o → o < offset + len → image d o ≡ g o)
      → Stands D (record c { storage = d }) g
  device_changed c {f} g offset len d r apart out same inside = record {
    represents = record {
      sized = r.represents.sized;
      cached = λ i s at held.
          r.represents.cached i s at held
          ∙ slice-ext f g (s.sector * ss) (s.sector * ss) ss (λ k hk. sym (
              same (s.sector * ss + k) (elim (place (s.sector * ss + k)) [
                | inl o ↦ o
                | inr (lo, hi) ↦
                    let e = apart i s at held _ lo hi (sym (div_block s.sector ss k hk)) in
                    absurd (ground (arith, e))
              ])));
      filled = r.represents.filled;
      distinct = r.represents.distinct;
      on_device = λ o free. elim (place o) [
        | inl away ↦ out o away ∙ r.represents.on_device o free ∙ sym (same o away)
        | inr (lo, hi) ↦ inside o lo hi
      ];
    };
    wide = r.wide;
    some_slot = r.some_slot;
  }
    where
      ss : ℕ
      ss = c.sector_size

      place : (o : ℕ) → ((o < offset) ⊎ (offset + len ≤ o)) ⊎ ((offset ≤ o) × (o < offset + len))
      place o = elim (dec_lt o offset) [
        | yes h ↦ inl (inl h)
        | no h ↦ elim (dec_lt o (offset + len)) [
          | yes k ↦ inr (omega arith, k)
          | no k ↦ inl (inr (omega arith))
        ]
      ]

  -- What a write that failed half-way left: the device's bytes in the range.
  half : Image → Image → ℕ → ℕ → Image
  half f img offset len o =
      if ltb o offset then f o else if ltb o (offset + len) then img o else f o

  -- A direct write that succeeds puts its bytes over the range in the image that the cache stands for,
  -- so that no cached copy of the range shadows them later. Where it fails no byte outside the range
  -- changes.
  pub write_through-overlay :
      (c : SectorCache D) {f : Image} (offset : ℕ) (buf : List ℕ)
      → Stands D c f
      → WriteThrough f offset buf (write_through D c offset buf)
  unfolding write_through half
  write_through-overlay c {f} offset buf r =
      go (writeback_overlap D c offset (length buf) true)
        (writeback_overlap-Cleared c offset (length buf) true r)
    where
      last :
          (c' : SectorCache D)
          → Stands D c' f
          → Apart c' offset (length buf) true
          → (q : Dev × FsResult Io (Unit {0})) → write_out D offset buf c'.storage ≡ q
          → WriteThrough f offset buf (record c' { storage = q.0 }, q.1)
      last c' r' apart (d, ok u) e =
          let wrote = write_out-image D offset buf c'.storage {u = u} (ap (λ p. p.1) e) in
          let now : image d ≡ overlay (image c'.storage) offset buf =
            ap (λ p. image p.0) (sym e) ∙ wrote in
          device_changed c' (overlay f offset buf) offset (length buf) d r' apart
            (λ o away. ap (λ k. k o) now ∙ overlay_outside _ offset buf o away)
            (λ o away. overlay_outside f offset buf o away)
            (λ o lo hi.
              ap (λ k. k o) now
              ∙ overlay_inside _ offset buf o 0 lo hi
              ∙ sym (overlay_inside f offset buf o 0 lo hi))
      last c' r' apart (d, err x) e = (
        half f (image d) offset (length buf),
        λ o away. ground arith,
        device_changed c' (half f (image d) offset (length buf)) offset (length buf) d r' apart
            (λ o away.
              ap (λ p. image p.0 o) (sym e) ∙ write_out-outside D offset buf c'.storage o away)
            (λ o away. ground arith) (λ o lo hi. ground arith),
      )
      last c' r' apart (d, abort) e = write_out-returns D offset buf c'.storage (ap (λ p. p.1) e)

      go :
          (q : SectorCache D × FsResult Io (Unit {0}))
          → Cleared f offset (length buf) true q
          → WriteThrough f offset buf (
              and_then q (λ c' _.
                let (d', r) = write_out D offset buf c'.storage in (record c' { storage = d' }, r)))
      go (c', ok u) (r', apart) = last c' r' apart (write_out D offset buf c'.storage) refl
      go (c', err x) r' = (f, λ o away. refl, r')
      go (c', abort) r' = absurd r'
