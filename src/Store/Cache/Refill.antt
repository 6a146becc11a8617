-- ===== src/Store/Cache/Refill.antt =====
-- `slot_index` of src/store/cache.rs keeps the image represented: on a hit, on a miss, and where the
-- device fails.
use unifat.Prelude.{
  ℕ, ◌+◌, ◌*◌, ◌/◌, ◌^◌, ◌<◌, ◌≡◌, ◌≢◌, inl, inr, refl, sym, ap, ◌∙◌, subst, Bool, true, false,
  some, List, arith, length, get_elem?, set, Image, slice, get_elem?-set_cases, get_elem?-set_self,
  get_elem?-set_ne, length-set, length-slice, get_elem?-lt, get_elem?_total, ℕ_discrete,
  Option-cases,
}
use unifat.Error.{ok, err, abort, FsResult}
use unifat.Store.Device.{BlockDevice}
use unifat.Store.Cache.{
  Slot, SectorCache, empty_sector, position, read_in, write_back, install, filled, refill, evicted,
  evict, slot_index, next_stamp,
}
use unifat.Store.Cache.Represents.{
  Represents, Holds, Represents-Others, Represents-Holds, Represents-set, div_block, slice-ext,
}
use unifat.Store.Cache.WriteBack.{
  same_slot, read_in-bytes, read_in-image, read_in-returns, write_back-returns, Represents-reslot,
  Represents-clean, write_back-cleans, write_back-Represents, write_back-empty,
}
use unifat.Store.Cache.Lookup.{position-some, position-none, min_stamp-lt, Others-set}

module _ (D : BlockDevice) where
  open D use {Dev, Io, image}

  -- The slots of the cache stand for `f`.
  pub record Stands (c : SectorCache D) (f : Image) : Type 0 where
    pub represents : Represents c.sector_size (image c.storage) c.slots f
    pub wide : 1 < c.sector_size
    pub some_slot : 0 < length c.slots

  pub Stands-pos : {c : SectorCache D} {f : Image} → Stands c f → 0 < c.sector_size
  Stands-pos r = omega (arith, r.wide)

  -- What `slot_index` promises of its result. With `fill_only` the bytes of a hit or of a fresh slot
  -- are not promised.
  abbrev pub Found : SectorCache D → Image → ℕ → Bool → FsResult Io ℕ → Type 0
  Found c f sec fill_only (ok i) =
      Holds c.sector_size (image c.storage) c.slots f i sec × (fill_only ≡ false → Stands c f)
  Found c f sec fill_only (err e) = Stands c f
  Found c f sec fill_only abort = ⊥

  abbrev pub Looked : SectorCache D → Image → ℕ → Bool → SectorCache D × FsResult Io ℕ → Type 0
  Looked c f sec fill_only p = (p.0.sector_size ≡ c.sector_size) × Found p.0 f sec fill_only p.1

  module _ (c : SectorCache D) {f : Image} (i : ℕ) (s : Slot) (sec : ℕ) (r : Stands c f)
      (at : get_elem? c.slots i ≡ some s) (clean : s.dirty ≡ false)
      (absent : (j : ℕ) (t : Slot) → get_elem? c.slots j ≡ some t → t.sector ≢ sec)
      (real : sec ≢ empty_sector) where
    abbrev ss : ℕ
    ss = c.sector_size

    installed : List ℕ → Slot
    installed bytes = record { sector = sec; dirty = false; stamp = next_stamp D c; buf = bytes }

    -- The slot at `i` is clean, so the others decide what the device has.
    device_bytes :
        (img : Image)
        → img ≡ image c.storage
        → (o : ℕ)
        → ((j : ℕ) (t : Slot)
            → get_elem? c.slots j ≡ some t
            → j ≢ i
            → t.dirty ≡ true
            → t.sector ≢ o / ss)
        → img o ≡ f o
    device_bytes img same o free =
        ap (λ k. k o) same
        ∙ r.represents.on_device o (λ j t at' dirty here. elim (ℕ_discrete j i) [
          | yes e ↦ clash (same_slot c.slots at at' e) dirty
          | no ne ↦ free j t at' ne dirty here
        ])
      where
        clash : {t : Slot} → t ≡ s → t.dirty ≡ true → ⊥
        clash e d = cc

    -- A fresh slot over a device with the same bytes.
    refill-Holds :
        (img : Image) (bytes : List ℕ)
        → img ≡ image c.storage
        → length bytes ≡ ss
        → Holds ss img (set c.slots i (installed bytes)) f i sec
    unfolding installed
    refill-Holds img bytes same size = record {
      others = Others-set i _ (Represents-Others i r.represents) size;
      slot = installed bytes;
      at = get_elem?-set_self c.slots i _ (get_elem?-lt c.slots i at);
      sector = refl;
      fresh =
          λ j t at' ne. absent j t (sym (get_elem?-set_ne c.slots i j _ (λ e. ne (sym e))) ∙ at');
      device = λ o away free.
          device_bytes img same o
            (λ j t at' ne. free j t (get_elem?-set_ne c.slots i j _ (λ e. ne (sym e)) ∙ at') ne);
    }

    -- The device's bytes of a sector that no slot holds are the image's.
    read-slice : slice (image c.storage) (sec * ss) ss ≡ slice f (sec * ss) ss
    read-slice = slice-ext (image c.storage) f (sec * ss) (sec * ss) ss (λ k hk.
        r.represents.on_device (sec * ss + k)
          (λ j t at' _ e. absent j t at' (e ∙ div_block sec ss k hk)))

    refill-Represents :
        (img : Image) (bytes : List ℕ)
        → img ≡ image c.storage
        → bytes ≡ slice f (sec * ss) ss
        → Represents ss img (set c.slots i (installed bytes)) f
    unfolding installed
    refill-Represents img bytes same here =
        Represents-set img f (installed bytes) (Represents-Others i r.represents)
          (ap length here ∙ length-slice f (sec * ss) ss) (λ _. here) (λ d. cc)
          (λ _ j t at' _. absent j t at') (λ j t _ _ _. refl)
          (λ o free.
            device_bytes img same o
              (λ j t at' ne. free j t (get_elem?-set_ne c.slots i j _ (λ e. ne (sym e)) ∙ at')))

    some_set : (s' : Slot) → 0 < length (set c.slots i s')
    some_set s' = omega (arith, length-set c.slots i s', r.some_slot)

    pub refill-Looked : (fill_only : Bool) → Looked c f sec fill_only (refill D c i s sec fill_only)
    unfolding refill filled install installed
    refill-Looked true =
        (refl, (refill-Holds (image c.storage) s.buf refl (r.represents.sized i s at), λ e. cc))
    refill-Looked false = go (read_in D (sec * ss) ss c.storage) refl
      where
        same :
            {q : Dev × FsResult Io (List ℕ)}
            → read_in D (sec * ss) ss c.storage ≡ q
            → image q.0 ≡ image c.storage
        same e = ap (λ p. image p.0) (sym e) ∙ read_in-image D (sec * ss) ss c.storage

        go :
            (q : Dev × FsResult Io (List ℕ))
            → read_in D (sec * ss) ss c.storage ≡ q
            → Looked c f sec false (filled D c i s sec q)
        go (d', ok bytes) e =
            let here = read_in-bytes D (sec * ss) ss c.storage (ap (λ p. p.1) e) ∙ read-slice in
            let rep = refill-Represents (image d') bytes (same e) here in
            (
              refl,
              (
                Represents-Holds i (installed bytes) rep
                    (get_elem?-set_self c.slots i _ (get_elem?-lt c.slots i at)) real,
                λ _. record {
                  represents = rep;
                  wide = r.wide;
                  some_slot = some_set (installed bytes);
                },
              ),
            )
        go (d', err x) e = (
          refl,
          record {
            represents = rw (same e) (r.represents);
            wide = r.wide;
            some_slot = r.some_slot;
          },
        )
        go (d', abort) e = absurd (read_in-returns D (sec * ss) ss c.storage (ap (λ p. p.1) e))

  set_some : (slots : List Slot) (i : ℕ) (s : Slot) → 0 < length slots → 0 < length (set slots i s)
  set_some slots i s h = omega (arith, length-set slots i s)

  -- A miss: the victim at `i` is written back and its slot taken for the sector.
  evict-Looked :
      (c : SectorCache D) {f : Image} (i : ℕ) (s : Slot) (sec : ℕ) (fill_only : Bool)
      → Stands c f
      → get_elem? c.slots i ≡ some s
      → ((j : ℕ) (t : Slot) → get_elem? c.slots j ≡ some t → t.sector ≢ sec)
      → sec ≢ empty_sector
      → Looked c f sec fill_only (evict D c i s sec fill_only)
  unfolding evict evicted
  evict-Looked c {f} i s sec fill_only r at absent real =
      go (write_back D c.sector_size c.storage s) refl
    where
      go :
          (q : Dev × Slot × FsResult Io (Unit {0}))
          → write_back D c.sector_size c.storage s ≡ q
          → Looked c f sec fill_only (evicted D c i sec fill_only q)
      go (d', s', ok u) e =
          let settled = write_back-cleans D c.sector_size c.storage s {u = u} (ap (λ p. p.2) e) in
          let rep =
            write_back-empty D c.sector_size c.storage s i r.represents at (Stands-pos r) settled in
          let emptied = record s' { sector = empty_sector } in
          let c' = record c { storage = d'; slots = set c.slots i emptied } in
          (refill-Looked c' i emptied sec
            (record {
              represents = rw e at rep;
              wide = r.wide;
              some_slot = set_some c.slots i emptied r.some_slot;
            })
            (get_elem?-set_self c.slots i _ (get_elem?-lt c.slots i at))
            (ap (λ p. p.1.dirty) (sym e) ∙ settled)
            (λ j t at'. elim (get_elem?-set_cases c.slots i j emptied at') [
              | inl (x, y) ↦ λ same. real (sym same ∙ ap (λ (z : Slot). z.sector) y)
              | inr (x, y) ↦ absent j t y
            ])
            real fill_only)
      go (d', s', err x) e =
          let rep =
            write_back-Represents D c.sector_size c.storage s i r.represents at (Stands-pos r) in
          (
            refl,
            record {
              represents = rw e at rep;
              wide = r.wide;
              some_slot = set_some c.slots i s' r.some_slot;
            },
          )
      go (d', s', abort) e =
          absurd (write_back-returns D c.sector_size c.storage s (ap (λ p. p.2) e))

  -- A hit: only the stamp of the slot changes.
  hit-Looked :
      (c : SectorCache D) {f : Image} (i : ℕ) (s s' : Slot) (tick : ℕ) (fill_only : Bool)
      → Stands c f
      → get_elem? c.slots i ≡ some s
      → s.sector ≢ empty_sector
      → s' ≡ record s { stamp = tick }
      → Looked c f s.sector fill_only (record c { slots = set c.slots i s'; tick = tick }, ok i)
  hit-Looked c {f} i s s' tick fill_only r at held e =
      let same : (s'.sector ≡ s.sector) × (s'.buf ≡ s.buf) × (s'.dirty ≡ s.dirty) = ground arith in
      let rep =
        Represents-reslot (image c.storage) (image c.storage) i s s' r.represents at (inr same.0)
          same.1 (λ d. (sym same.2 ∙ d, same.0)) (λ o _. refl)
          (λ d. Represents-clean i s r.represents at (sym same.2 ∙ d)) in
      let here = get_elem?-set_self c.slots i s' (get_elem?-lt c.slots i at) in
      (
        refl,
        (
          rw (← same.0) (Represents-Holds i s' rep here (λ x. held (sym same.0 ∙ x))),
          λ _. record {
            represents = rep;
            wide = r.wide;
            some_slot = set_some c.slots i s' r.some_slot;
          },
        ),
      )

  -- Looking up a sector that starts at an offset below 2^64, with a number other than the mark of an
  -- empty slot, keeps the image that the cache stands for, whatever it returns: a hit, a miss with a
  -- clean or a dirty victim, an error of the device while the victim is written back or the sector is
  -- read. The slot it returns holds the sector, though its bytes are promised only where the sector is
  -- not to be overwritten whole. It does not panic.
  pub slot_index-Looked :
      (c : SectorCache D) {f : Image} (sec : ℕ) (fill_only : Bool)
      → Stands c f
      → sec ≢ empty_sector
      → sec * c.sector_size < 2 ^ 64
      → Looked c f sec fill_only (slot_index D c sec fill_only)
  unfolding slot_index
  slot_index-Looked c {f} sec fill_only r real near = elim (Option-cases (position sec c.slots)) [
    | inl miss ↦
        let (i, e, lt) = min_stamp-lt c.slots r.some_slot in
        let (s, at) = get_elem?_total c.slots i lt in
        rw (miss, e, at, slot_index)
          (evict-Looked c i s sec fill_only r at (position-none sec c.slots miss) real)
    | inr (i, hit) ↦
        let (s, at, same) = position-some sec c.slots i hit in
        rw (hit, at, slot_index)
          (subst
            (λ k. Looked c f k fill_only (
              record c {
                slots = set c.slots i (record s { stamp = next_stamp D c });
                tick = next_stamp D c;
              },
              ok i,
            ))
            same (hit-Looked c i s _ _ fill_only r at (λ x. real (sym same ∙ x)) refl))
  ]
