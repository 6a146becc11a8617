-- ===== src/Store/Access/Direct.antt =====
-- The write-back loops of src/store/cache.rs, the flush, and the direct accesses, against the image
-- that the cache stands for.
use unifat.Prelude.{
  ℕ, zero, suc, ◌+◌, ◌<◌, ◌≡◌, inl, inr, refl, sym, ap, ◌∙◌, subst, Bool, true, false, some, List,
  arith, length, get_elem?, Image, get_elem?_total, get_elem?-set_cases, length-set, dec_lt,
}
use unifat.Error.{ok, err, abort, FsResult, and_then, or_abort}
use unifat.Store.Device.{BlockDevice}
use unifat.Store.Cache.{Slot, SectorCache, empty_sector, write_back}
use unifat.Store.Cache.WriteBack.{
  write_back-cleans, write_back-returns, write_back-Represents, write_back-empty,
}
use unifat.Store.Cache.Refill.{Stands, Stands-pos}
use unifat.Store.Access.{settled, write_back_each}

module _ (D : BlockDevice) where
  open D use {Dev, Io, image}

  -- What the loop does to a slot that it is for.
  abbrev pub Settled : (Slot → Bool) → Bool → Slot → Type 0
  Settled chosen invalidate t =
      chosen t ≡ true → (t.dirty ≡ false) × (invalidate ≡ true → t.sector ≡ empty_sector)

  abbrev pub AllSettled : (Slot → Bool) → Bool → ℕ → List Slot → Type 0
  AllSettled chosen invalidate k slots =
      (j : ℕ) (t : Slot) → j < k → get_elem? slots j ≡ some t → Settled chosen invalidate t

  abbrev pub Each :
      ℕ → ℕ → Image → (Slot → Bool) → Bool → ℕ → SectorCache D × FsResult Io (Unit {0}) → Type 0
  Each ss len f chosen invalidate k (c', ok _) =
      Stands D c' f
      × (c'.sector_size ≡ ss)
      × (length c'.slots ≡ len)
      × AllSettled chosen invalidate k c'.slots
  Each ss len f chosen invalidate k (c', err e) = Stands D c' f
  Each ss len f chosen invalidate k (c', abort) = ⊥

  -- The slot at `i` is settled, and those before it stay so.
  settled-Each :
      (c : SectorCache D) {f : Image} (chosen : Slot → Bool) (invalidate : Bool) (i : ℕ) (s : Slot)
      → Stands D c f
      → get_elem? c.slots i ≡ some s
      → AllSettled chosen invalidate i c.slots
      → (q : Dev × Slot × FsResult Io (Unit {0})) → write_back D c.sector_size c.storage s ≡ q
      → Each c.sector_size (length c.slots) f chosen invalidate (i + 1) (settled D c i invalidate q)
  unfolding settled
  settled-Each c {f} chosen false i s r at done (d, s', ok u) e = (
    record {
      represents =
          rw e at
            (write_back-Represents D c.sector_size c.storage s i r.represents at (Stands-pos D r));
      wide = r.wide;
      some_slot = omega (arith, length-set c.slots i s', r.some_slot);
    },
    refl,
    length-set c.slots i s',
    λ j t lt at'. elim (get_elem?-set_cases c.slots i j s' at') [
      | inl (x, y) ↦ λ _. (ap (λ (z : Slot). z.dirty) y ∙ clean, λ z. cc)
      | inr (x, y) ↦ done j t (omega arith) y
    ],
  )
    where
      clean : s'.dirty ≡ false
      clean = rw e at (write_back-cleans D c.sector_size c.storage s {u = u} (ap (λ p. p.2) e))
  settled-Each c {f} chosen true i s r at done (d, s', ok u) e = (
    record {
      represents = rw e at (
          write_back-empty D c.sector_size c.storage s i r.represents at (Stands-pos D r)
            (write_back-cleans D c.sector_size c.storage s {u = u} (ap (λ p. p.2) e)));
      wide = r.wide;
      some_slot = omega (arith, length-set c.slots i s'', r.some_slot);
    },
    refl,
    length-set c.slots i s'',
    λ j t lt at'. elim (get_elem?-set_cases c.slots i j s'' at') [
      | inl (x, y) ↦ λ _. (ap (λ (z : Slot). z.dirty) y ∙ clean, λ z. ap (λ (z : Slot). z.sector) y)
      | inr (x, y) ↦ done j t (omega arith) y
    ],
  )
    where
      s'' : Slot
      s'' = record s' { sector = empty_sector }

      clean : s'.dirty ≡ false
      clean = rw e at (write_back-cleans D c.sector_size c.storage s {u = u} (ap (λ p. p.2) e))
  settled-Each c {f} chosen invalidate i s r at done (d, s', err x) e = record {
    represents =
        rw e at
          (write_back-Represents D c.sector_size c.storage s i r.represents at (Stands-pos D r));
    wide = r.wide;
    some_slot = omega (arith, length-set c.slots i s', r.some_slot);
  }
  settled-Each c {f} chosen invalidate i s r at done (d, s', abort) e =
      write_back-returns D c.sector_size c.storage s (ap (λ p. p.2) e)

  -- The loop's rest `k` takes the first `i` slots settled to all of them settled.
  abbrev Rest :
      ℕ
      → ℕ
      → Image
      → (Slot → Bool)
      → Bool
      → ℕ
      → (SectorCache D → SectorCache D × FsResult Io (Unit {0}))
      → Type 0
  Rest ss len f chosen invalidate i k =
      (c' : SectorCache D)
      → Stands D c' f
      → c'.sector_size ≡ ss
      → length c'.slots ≡ len
      → AllSettled chosen invalidate i c'.slots
      → Each ss len f chosen invalidate len (k c')

  Each-and_then :
      {ss len : ℕ} {f : Image} {chosen : Slot → Bool} {invalidate : Bool} (i : ℕ)
      (k : SectorCache D → SectorCache D × FsResult Io (Unit {0}))
      (q : SectorCache D × FsResult Io (Unit {0}))
      → Each ss len f chosen invalidate i q
      → Rest ss len f chosen invalidate i k
      → Each ss len f chosen invalidate len (and_then q (λ c' _. k c'))
  Each-and_then i k (c', ok u) (r', same, len, done') ih = ih c' r' same len done'
  Each-and_then i k (c', err x) r' ih = r'
  Each-and_then i k (c', abort) r' ih = absurd r'

  pub write_back_each-Each :
      (n i : ℕ) (chosen : Slot → Bool) (invalidate : Bool) (c : SectorCache D) {f : Image}
      → Stands D c f
      → i + n ≡ length c.slots
      → AllSettled chosen invalidate i c.slots
      → Each c.sector_size
          (length c.slots)
          f
          chosen
          invalidate
          (length c.slots)
          (write_back_each D n i chosen invalidate c)
  unfolding write_back_each
  write_back_each-Each zero i chosen invalidate c r e done =
      (r, refl, refl, λ j t lt. done j t (omega arith))
  write_back_each-Each (suc n) i chosen invalidate c {f} r e done =
      let (s, at) = get_elem?_total c.slots i (omega arith) in
      let here : get_elem? c.slots i ≡ some s = at in
      subst
        (λ o.
          Each c.sector_size (length c.slots) f chosen invalidate (length c.slots)
            (or_abort c o (λ slot. round (chosen slot) slot)))
        (sym at)
        (go s (chosen s) refl at
          (λ free.
            write_back_each-Each n (i + 1) chosen invalidate c r (omega arith) (more s at free))
          (settled-Each c chosen invalidate i s r at done _ refl)
          (λ c' r' same len done'.
            let ih = write_back_each-Each n (i + 1) chosen invalidate c' r' (omega arith) done' in
            subst
              (λ k.
                Each k (length c.slots) f chosen invalidate (length c.slots)
                  (write_back_each D n (i + 1) chosen invalidate c'))
              same
              (subst
                (λ k.
                  Each c'.sector_size k f chosen invalidate k
                    (write_back_each D n (i + 1) chosen invalidate c'))
                len ih)))
    where
      round : Bool → Slot → SectorCache D × FsResult Io (Unit {0})
      round b slot = elim b [
        | false ↦ write_back_each D n (i + 1) chosen invalidate c
        | true ↦
            and_then (settled D c i invalidate (write_back D c.sector_size c.storage slot))
              (λ c' _. write_back_each D n (i + 1) chosen invalidate c')
      ]

      more :
          (s : Slot)
          → get_elem? c.slots i ≡ some s
          → chosen s ≡ false
          → AllSettled chosen invalidate (i + 1) c.slots
      more s at free j t lt at' = elim (dec_lt j i) [
        | yes h ↦ done j t h at'
        | no h ↦
            let z : j ≡ i = omega arith in
            let q : get_elem? c.slots i ≡ some t = rw z at at' in λ h'. absurd (cc)
      ]

      go :
          (s : Slot) (b : Bool)
          → chosen s ≡ b
          → get_elem? c.slots i ≡ some s
          → (chosen s ≡ false
              → Each c.sector_size
                  (length c.slots)
                  f
                  chosen
                  invalidate
                  (length c.slots)
                  (write_back_each D n (i + 1) chosen invalidate c))
          → Each c.sector_size
              (length c.slots)
              f
              chosen
              invalidate
              (i + 1)
              (settled D c i invalidate (write_back D c.sector_size c.storage s))
          → Rest c.sector_size
              (length c.slots)
              f
              chosen
              invalidate
              (i + 1)
              (write_back_each D n (i + 1) chosen invalidate)
          → Each c.sector_size (length c.slots) f chosen invalidate (length c.slots) (round b s)
      go s false e at skip now ih = skip e
      go s true e at skip now ih = Each-and_then _ _ _ now ih
