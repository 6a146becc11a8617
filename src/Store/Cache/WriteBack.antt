-- ===== src/Store/Cache/WriteBack.antt =====
-- The device accesses of the cache, and the write-back of a slot, against the image represented.
use unifat.Prelude.{
  ℕ, ◌+◌, ◌-◌, ◌*◌, ◌/◌, ◌≤◌, ◌<◌, ◌≡◌, ◌≢◌, ◌⊎◌, inl, inr, refl, sym, ap, ◌∙◌, true, false, some,
  List, arith, length, get_elem?, set, Image, slice, overlay, overlay_inside, get_elem?-set_self,
  get_elem?-set_ne, length-slice, get_or-slice, get_elem?-lt, dec_lt, ℕ_discrete, Bool-cases,
}
use unifat.Error.{ok, abort}
use unifat.Store.Device.{BlockDevice}
use unifat.Store.Cache.{Slot, empty_sector, write_out, read_in, write_back}
use unifat.Store.Cache.Represents.{
  Represents, Represents-Others, Represents-set, div_block, in_block,
}

pub same_slot :
    (slots : List Slot) {i j : ℕ} {s t : Slot}
    → get_elem? slots i ≡ some s
    → get_elem? slots j ≡ some t
    → j ≡ i
    → t ≡ s
same_slot slots {i} {j} {s} {t} at at' e = let q : get_elem? slots i ≡ some t = rw (← e) at' in cc

-- A slot cleaned, emptied or left as it is, over a device that changed in its sector alone.
pub Represents-reslot :
    {ss : ℕ} (img img' : Image) {slots : List Slot} {f : Image} (i : ℕ) (s s' : Slot)
    → Represents ss img slots f
    → get_elem? slots i ≡ some s
    → (s'.sector ≡ empty_sector) ⊎ (s'.sector ≡ s.sector)
    → s'.buf ≡ s.buf
    → (s'.dirty ≡ true → (s.dirty ≡ true) × (s'.sector ≡ s.sector))
    → ((o : ℕ) → o / ss ≢ s.sector → img' o ≡ img o)
    → (s'.dirty ≡ false → (o : ℕ) → o / ss ≡ s.sector → img' o ≡ f o)
    → Represents ss img' (set slots i s') f
Represents-reslot {ss} img img' {slots} {f} i s s' r at place bytes dirty out clean =
    Represents-set img' f s' (Represents-Others i r) (ap length bytes ∙ r.sized i s at)
      (λ held.
        let e = kept held in
        bytes ∙ r.cached i s at (λ x. held (e ∙ x)) ∙ ap (λ k. slice f (k * ss) ss) (sym e))
      (λ d.
        let (held, near) = r.filled i s at (dirty d).0 in
        (λ e. held (sym (dirty d).1 ∙ e), rw (sym (dirty d).1) at near))
      (λ held j t at' ne same.
        let e = kept held in
        ne (sym (r.distinct i j s t at at' (sym (same ∙ e)) (λ x. held (e ∙ x)))))
      (λ j t at' ne _. refl)
      (λ o free. elim (ℕ_discrete (o / ss) s.sector) [
        | yes e ↦ elim (Bool-cases s'.dirty) [
          | inl d ↦ absurd (
              free i s' (get_elem?-set_self slots i s' (get_elem?-lt slots i at)) d
                ((dirty d).1 ∙ sym e))
          | inr c ↦ clean c o e
        ]
        | no ne ↦
            out o ne
            ∙ r.on_device o (λ j t at' d same. elim (ℕ_discrete j i) [
              | yes e ↦ ne (sym same ∙ ap (λ (x : Slot). x.sector) (same_slot slots at at' e))
              | no away ↦ free j t (get_elem?-set_ne slots i j s' (λ e. away (sym e)) ∙ at') d same
            ])
      ])
  where
    kept : s'.sector ≢ empty_sector → s'.sector ≡ s.sector
    kept held = elim place [ inl e ↦ absurd (held e) | inr e ↦ e ]

-- The bytes of a clean slot's sector are on the device.
pub Represents-clean :
    {ss : ℕ} {img : Image} {slots : List Slot} {f : Image} (i : ℕ) (s : Slot)
    → Represents ss img slots f
    → get_elem? slots i ≡ some s
    → s.dirty ≡ false
    → (o : ℕ) → o / ss ≡ s.sector
    → img o ≡ f o
Represents-clean {slots = slots} i s r at c o e = r.on_device o (λ j t at' d same.
    let q : s ≡ t =
      same_slot slots at' at (sym (r.distinct j i t s at' at (same ∙ e) (r.filled j t at' d).0)) in
    cc)

-- Where a sector's bytes are written over the device, they are there.
overlay_block :
    (ss sec : ℕ) (img f : Image) (o : ℕ)
    → 0 < ss
    → o / ss ≡ sec
    → overlay img (sec * ss) (slice f (sec * ss) ss) o ≡ f o
overlay_block ss sec img f o pos e =
    let bytes = slice f (sec * ss) ss in
    let lo : sec * ss ≤ o = rw (← e) ((in_block o ss pos).0) in
    let hi : o < sec * ss + ss = rw (← e) ((in_block o ss pos).1) in
    overlay_inside img (sec * ss) bytes o 0 lo (omega (arith, length-slice f (sec * ss) ss))
    ∙ get_or-slice f (sec * ss) ss (o - sec * ss) 0 (omega arith)
    ∙ ap f (omega arith)

out_of_block : (ss sec : ℕ) (o : ℕ) → 0 < ss → o / ss ≢ sec → (o < sec * ss) ⊎ (sec * ss + ss ≤ o)
out_of_block ss sec o pos ne = elim (dec_lt o (sec * ss)) [
  | yes h ↦ inl h
  | no h ↦ elim (dec_lt o (sec * ss + ss)) [
    | yes k ↦ absurd (
        ne (
          ap (λ x. x / ss) {x = o} {y = sec * ss + (o - sec * ss)} (omega arith)
          ∙ div_block sec ss (o - sec * ss) (omega arith)))
    | no k ↦ inr (omega arith)
  ]
]

module _ (D : BlockDevice) where
  open D use {Dev, Io, image, cursor, seek, read_exact, write_all}

  pub write_out-image :
      (offset : ℕ) (bytes : List ℕ) (d : Dev) {u : Unit {0}}
      → (write_out D offset bytes d).1 ≡ ok u
      → image (write_out D offset bytes d).0 ≡ overlay (image d) offset bytes
  unfolding write_out
  write_out-image offset bytes d h = ground (
    arith,
    D.seek-cursor offset d,
    D.seek-image offset d,
    D.write_all-image bytes (seek offset d).0,
  )

  pub write_out-outside :
      (offset : ℕ) (bytes : List ℕ) (d : Dev) (o : ℕ)
      → (o < offset) ⊎ (offset + length bytes ≤ o)
      → image (write_out D offset bytes d).0 o ≡ image d o
  unfolding write_out
  write_out-outside offset bytes d o h = ground (
    arith,
    D.seek-cursor offset d,
    D.seek-image offset d,
    D.write_all-outside bytes (seek offset d).0 o,
  )

  pub read_in-bytes :
      (offset len : ℕ) (d : Dev) {bs : List ℕ}
      → (read_in D offset len d).1 ≡ ok bs
      → bs ≡ slice (image d) offset len
  unfolding read_in
  read_in-bytes offset len d {bs} h = ground (
    arith,
    D.seek-cursor offset d,
    D.seek-image offset d,
    D.read_exact-bytes len (seek offset d).0 {bs = bs},
  )

  pub read_in-image : (offset len : ℕ) (d : Dev) → image (read_in D offset len d).0 ≡ image d
  unfolding read_in
  read_in-image offset len d =
      ground (arith, D.seek-image offset d, D.read_exact-image len (seek offset d).0)

  pub write_out-returns :
      (offset : ℕ) (bytes : List ℕ) (d : Dev) → (write_out D offset bytes d).1 ≢ abort
  unfolding write_out
  write_out-returns offset bytes d h =
      ground (arith, D.seek-returns offset d, D.write_all-returns bytes (seek offset d).0)

  pub read_in-returns : (offset len : ℕ) (d : Dev) → (read_in D offset len d).1 ≢ abort
  unfolding read_in
  read_in-returns offset len d h =
      ground (arith, D.seek-returns offset d, D.read_exact-returns len (seek offset d).0)

  module _ (ss : ℕ) (d : Dev) (s : Slot) where
    pub write_back-returns : (write_back D ss d s).2 ≢ abort
    unfolding write_back
    write_back-returns h = ground (arith, write_out-returns (s.sector * ss) s.buf d)

    pub write_back-same :
        ((write_back D ss d s).1.sector ≡ s.sector)
        × ((write_back D ss d s).1.buf ≡ s.buf)
        × ((write_back D ss d s).1.dirty ≡ true → s.dirty ≡ true)
    unfolding write_back
    write_back-same = ground arith

    pub write_back-cleans :
        {u : Unit {0}} → (write_back D ss d s).2 ≡ ok u → (write_back D ss d s).1.dirty ≡ false
    unfolding write_back
    write_back-cleans h = ground arith

    write_back-outside :
        (o : ℕ)
        → length s.buf ≡ ss
        → 0 < ss
        → o / ss ≢ s.sector
        → image (write_back D ss d s).0 o ≡ image d o
    unfolding write_back
    write_back-outside o size pos ne =
        let out = out_of_block ss s.sector o pos ne in
        ground (arith, write_out-outside (s.sector * ss) s.buf d o)

    write_back-writes :
        (write_back D ss d s).1.dirty ≡ false
        → (s.dirty ≡ false) × (image (write_back D ss d s).0 ≡ image d)
          ⊎ (s.dirty ≡ true) × (s.sector ≡ empty_sector)
          ⊎ (s.sector ≢ empty_sector)
            × (image (write_back D ss d s).0 ≡ overlay (image d) (s.sector * ss) s.buf)
    unfolding write_back
    write_back-writes h = ground (arith, write_out-image (s.sector * ss) s.buf d {u = tt})

    module _ {slots : List Slot} {f : Image} (i : ℕ) (r : Represents ss (image d) slots f)
        (at : get_elem? slots i ≡ some s) (pos : 0 < ss) where
      write_back-clean :
          (write_back D ss d s).1.dirty ≡ false
          → (o : ℕ) → o / ss ≡ s.sector
          → image (write_back D ss d s).0 o ≡ f o
      write_back-clean c o e = elim (write_back-writes c) [
        | inl (clean, same) ↦ ap (λ k. k o) same ∙ Represents-clean i s r at clean o e
        | inr (inl (dirty, vacant)) ↦ absurd ((r.filled i s at dirty).0 vacant)
        | inr (inr (held, wrote)) ↦
            ap (λ k. k o) wrote
            ∙ ap (λ bs. overlay (image d) (s.sector * ss) bs o) (r.cached i s at held)
            ∙ overlay_block ss s.sector (image d) f o pos e
      ]

      -- Whatever the outcome, the slots stand for the same image.
      pub write_back-Represents :
          Represents ss (image (write_back D ss d s).0) (set slots i (write_back D ss d s).1) f
      write_back-Represents =
          let (sector, buf, dirty) = write_back-same in
          Represents-reslot (image d) (image (write_back D ss d s).0) i s (write_back D ss d s).1 r
            at (inr sector) buf (λ h. (dirty h, sector))
            (λ o ne. write_back-outside o (r.sized i s at) pos ne) write_back-clean

      -- A slot written back may be emptied.
      pub write_back-empty :
          (write_back D ss d s).1.dirty ≡ false
          → Represents ss
              (image (write_back D ss d s).0)
              (set slots i (record (write_back D ss d s).1 { sector = empty_sector }))
              f
      write_back-empty c =
          let (sector, buf, dirty) = write_back-same in
          Represents-reslot (image d) (image (write_back D ss d s).0) i s
            (record (write_back D ss d s).1 { sector = empty_sector }) r at (inl refl) buf (λ h. cc)
            (λ o ne. write_back-outside o (r.sized i s at) pos ne) write_back-clean
