-- ===== src/Store/Access.antt =====
-- src/store/cache.rs: the byte-range accesses of the sector cache, cached (`read_at`, `write_at`) and
-- direct (`read_through`, `write_through`), and the flush. The loops of `read_at` and `write_at` run
-- on fuel, one unit a round, and start with the length of the range: a round moves a byte at least.
pub mod Cached
pub mod Copies
pub mod Written
pub mod Direct
pub mod Through
pub mod Runs
use unifat.Prelude.{
  ℕ, zero, suc, ◌+◌, ◌-◌, ◌*◌, ◌/◌, ◌%◌, ◌^◌, min, Bool, true, false, not, ◌&&◌, ◌||◌, Option, none,
  some, List, [], ◌∷◌, ◌++◌, if◌then◌else◌, ltb, leb, ◌==◌, length, get_elem?, set, take, drop,
}
use unifat.Error.{Result, ok, err, abort, FsResult, and_then, or_abort}
use unifat.Store.Device.{BlockDevice}
use unifat.Store.Cache.{
  Slot, SectorCache, empty_sector, copy_at, write_out, read_in, write_back, slot_index,
}

-- `slot.sector != EMPTY && slot.sector >= first && slot.sector <= last`
abbrev pub overlaps : ℕ → ℕ → Slot → Bool
overlaps first last slot =
    not (slot.sector == empty_sector) && (leb first slot.sector && leb slot.sector last)

module _ (D : BlockDevice) where
  open D use {Dev, Io}

  -- The rest of a round of `read_at` once slot `i` holds the sector: the bytes copied.
  unfoldable pub bytes_of : SectorCache D → ℕ → ℕ → ℕ → Option (List ℕ)
  bytes_of c i within n = elim (get_elem? c.slots i) [
    | some slot ↦ some (take n (drop within slot.buf))
    | none ↦ none
  ]

  unfoldable pub read_loop :
      ℕ → SectorCache D → ℕ → ℕ → List ℕ → SectorCache D × FsResult Io (List ℕ)
  read_loop fuel c pos zero out = (c, ok out)
  read_loop zero c pos (suc left) out = (c, abort)
  read_loop (suc fuel) c pos (suc left) out =
      let within = pos % c.sector_size in
      let n = min (c.sector_size - within) (suc left) in
      and_then (slot_index D c (pos / c.sector_size) false) (λ c' i.
        or_abort c' (bytes_of c' i within n)
          (λ bytes. read_loop fuel c' (pos + n) (suc left - n) (out ++ bytes)))

  -- `pos` is `offset + done`, `left` is `buf.len() - done`.
  unfoldable pub read_at : SectorCache D → ℕ → ℕ → SectorCache D × FsResult Io (List ℕ)
  unfolding read_loop bytes_of
  read_at c offset len = read_loop len c offset len []

  -- `slots[i].buf[within..within + n].copy_from_slice(..); slots[i].dirty = true;`
  unfoldable pub store_in : SectorCache D → ℕ → ℕ → List ℕ → Option (SectorCache D)
  store_in c i within bytes = elim (get_elem? c.slots i) [
    | some slot ↦ some (record c {
      slots = set c.slots i (record slot { buf = copy_at slot.buf within bytes; dirty = true });
    })
    | none ↦ none
  ]

  -- `buf` is what is still to be written.
  unfoldable pub write_loop :
      ℕ → SectorCache D → ℕ → List ℕ → SectorCache D × FsResult Io (Unit {0})
  write_loop fuel c pos [] = (c, ok tt)
  write_loop zero c pos (b ∷ rest) = (c, abort)
  write_loop (suc fuel) c pos (b ∷ rest) =
      let within = pos % c.sector_size in
      let n = min (c.sector_size - within) (length (b ∷ rest)) in
      let full = within == 0 && n == c.sector_size in
      and_then (slot_index D c (pos / c.sector_size) full) (λ c' i.
        or_abort c' (store_in c' i within (take n (b ∷ rest)))
          (λ c''. write_loop fuel c'' (pos + n) (drop n (b ∷ rest))))

  unfoldable pub write_at : SectorCache D → ℕ → List ℕ → SectorCache D × FsResult Io (Unit {0})
  unfolding write_loop store_in
  write_at c offset buf = write_loop (length buf) c offset buf

  -- One slot of the loops below: `self.write_back(slot)?; if invalidate { slot.sector = EMPTY; }`.
  unfoldable pub settled :
      SectorCache D
      → ℕ
      → Bool
      → Dev × Slot × FsResult Io (Unit {0})
      → SectorCache D × FsResult Io (Unit {0})
  settled c i invalidate (d, slot, ok _) =
      let kept = if invalidate then record slot { sector = empty_sector } else slot in
      (record c { storage = d; slots = set c.slots i kept }, ok tt)
  settled c i invalidate (d, slot, err e) =
      (record c { storage = d; slots = set c.slots i slot }, err e)
  settled c i invalidate (d, slot, abort) =
      (record c { storage = d; slots = set c.slots i slot }, abort)

  -- `for slot in slots.iter_mut() { if chosen { .. } }`, over the `n` slots from index `i` on.
  unfoldable pub write_back_each :
      ℕ → ℕ → (Slot → Bool) → Bool → SectorCache D → SectorCache D × FsResult Io (Unit {0})
  write_back_each zero i chosen invalidate c = (c, ok tt)
  write_back_each (suc n) i chosen invalidate c = or_abort c (get_elem? c.slots i) (λ slot.
      elim (chosen slot) [
        | false ↦ write_back_each n (i + 1) chosen invalidate c
        | true ↦
            and_then (settled c i invalidate (write_back D c.sector_size c.storage slot))
              (λ c' _. write_back_each n (i + 1) chosen invalidate c')
      ])

  unfoldable pub writeback_overlap :
      SectorCache D → ℕ → ℕ → Bool → SectorCache D × FsResult Io (Unit {0})
  unfolding write_back_each
  writeback_overlap c offset len invalidate =
      if len == 0
      then (c, ok tt)
      else write_back_each (length c.slots) 0
          (overlaps (offset / c.sector_size) ((offset + len - 1) / c.sector_size)) invalidate c

  unfoldable pub read_through : SectorCache D → ℕ → ℕ → SectorCache D × FsResult Io (List ℕ)
  unfolding writeback_overlap
  read_through c offset len =
      and_then (writeback_overlap c offset len false)
        (λ c' _. let (d', r) = read_in D offset len c'.storage in (record c' { storage = d' }, r))

  unfoldable pub write_through : SectorCache D → ℕ → List ℕ → SectorCache D × FsResult Io (Unit {0})
  unfolding writeback_overlap
  write_through c offset buf =
      and_then (writeback_overlap c offset (length buf) true)
        (λ c' _. let (d', r) = write_out D offset buf c'.storage in (record c' { storage = d' }, r))

  unfoldable pub flush : SectorCache D → SectorCache D × FsResult Io (Unit {0})
  unfolding write_back_each
  flush c = write_back_each (length c.slots) 0 (λ _. true) false c

  -- `self.storage.borrow_mut().flush()`
  unfoldable pub flush_device : SectorCache D → SectorCache D × Result Io (Unit {0})
  flush_device c = let (d', r) = D.flush c.storage in (record c { storage = d' }, r)

  unfoldable pub into_inner : SectorCache D → Dev
  into_inner c = c.storage
