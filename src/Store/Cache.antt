-- ===== src/Store/Cache.antt =====
-- src/store/cache.rs: the write-back sector cache. Each method returns the cache after it beside
-- its result, also where it fails.
pub mod Represents
pub mod WriteBack
pub mod Lookup
pub mod Refill
use mathlib.Core.Option
use unifat.Prelude.{
  ℕ, zero, suc, ◌+◌, ◌-◌, ◌*◌, ◌/◌, ◌%◌, ◌^◌, ◌≤◌, ◌<◌, ◌≡◌, min, Bool, true, false, not, ◌&&◌,
  ◌||◌, Option, none, some, List, [], ◌∷◌, ◌++◌, if◌then◌else◌, ltb, leb, ◌==◌, length, get_elem?,
  set, take, drop, replicate, Image, slice, overlay,
}
use unifat.Error.{Result, ok, err, abort, FsResult, FsError, io, from_read_exact}
use unifat.Store.Device.{BlockDevice}

-- `SLOTS`, and the `EMPTY` marker `u64::MAX`.
abbrev pub slots_len : ℕ
slots_len = 8

abbrev pub empty_sector : ℕ
empty_sector = 2 ^ 64 - 1

pub record Slot : Type 0 where
  pub sector : ℕ
  pub dirty : Bool
  pub stamp : ℕ
  pub buf : List ℕ

-- The bytes of `src` from the front of `dst`'s range at `within` on: `dst[within..].copy_from_slice`.
unfoldable pub copy_at : List ℕ → ℕ → List ℕ → List ℕ
copy_at dst within src = take within dst ++ (src ++ drop (within + length src) dst)

-- `slots.iter().position(|s| s.sector == sector)`
unfoldable pub position : ℕ → List Slot → Option ℕ
position sector [] = none
position sector (s ∷ slots) =
    let rest = position sector slots in if s.sector == sector then some 0 else Option.map suc rest

-- `(0..slots.len()).min_by_key(|&i| slots[i].stamp)`: the first slot with the least stamp.
-- `at` is the index reached, `best` the index and the stamp found so far.
unfoldable pub min_stamp_from : ℕ → ℕ → ℕ → List Slot → ℕ
min_stamp_from at best stamp [] = best
min_stamp_from at best stamp (s ∷ slots) =
    min_stamp_from (at + 1) (if ltb s.stamp stamp then at else best)
      (if ltb s.stamp stamp then s.stamp else stamp) slots

unfoldable pub min_stamp : List Slot → Option ℕ
unfolding min_stamp_from
min_stamp [] = none
min_stamp (s ∷ slots) = some (min_stamp_from 1 0 s.stamp slots)

module _ (D : BlockDevice) where
  open D use {Dev, Io, seek, read_exact, write_all}

  pub record SectorCache : Type 0 where
    pub storage : Dev
    pub slots : List Slot
    pub sector_size : ℕ
    pub tick : ℕ

  -- `storage.seek(..)?; storage.write_all(..)?`
  unfoldable pub write_out : ℕ → List ℕ → Dev → Dev × FsResult Io (Unit {0})
  write_out offset bytes d =
      let (d1, r1) = seek offset d in
      let (d2, r2) = write_all bytes d1 in
      elim r1 [
        | ok _ ↦ elim r2 [ ok _ ↦ (d2, ok tt) | err e ↦ (d2, err (io e)) | abort ↦ (d2, abort) ]
        | err e ↦ (d1, err (io e))
        | abort ↦ (d1, abort)
      ]

  -- `storage.seek(..)?; storage.read_exact(..).map_err(..)?`
  unfoldable pub read_in : ℕ → ℕ → Dev → Dev × FsResult Io (List ℕ)
  read_in offset len d =
      let (d1, r1) = seek offset d in
      let (d2, r2) = read_exact len d1 in
      elim r1 [
        | ok _ ↦ elim r2 [
          | ok bytes ↦ (d2, ok bytes)
          | err e ↦ (d2, err (from_read_exact e))
          | abort ↦ (d2, abort)
        ]
        | err e ↦ (d1, err (io e))
        | abort ↦ (d1, abort)
      ]

  unfoldable pub write_back : ℕ → Dev → Slot → Dev × Slot × FsResult Io (Unit {0})
  write_back sector_size d slot =
      if not slot.dirty || slot.sector == empty_sector
      then (d, record slot { dirty = false }, ok tt)
      else (let (d', r) = write_out (slot.sector * sector_size) slot.buf d in
          elim r [
            | ok _ ↦ (d', record slot { dirty = false }, ok tt)
            | err e ↦ (d', slot, err e)
            | abort ↦ (d', slot, abort)
          ])

  abbrev pub next_stamp : SectorCache → ℕ
  next_stamp c = (c.tick + 1) % 2 ^ 64

  -- `slots[i].sector = sector; slots[i].dirty = false; slots[i].stamp = self.next_stamp();`
  unfoldable pub install : SectorCache → ℕ → Slot → ℕ → SectorCache × FsResult Io ℕ
  install c i slot sector =
      let slot' = record slot { sector = sector; dirty = false; stamp = next_stamp c } in
      (record c { slots = set c.slots i slot'; tick = next_stamp c }, ok i)

  -- The end of `slot_index` after the sector is read, or its bytes are not needed.
  unfoldable pub filled :
      SectorCache → ℕ → Slot → ℕ → Dev × FsResult Io (List ℕ) → SectorCache × FsResult Io ℕ
  filled c i slot sector (d, ok bytes) =
      install (record c { storage = d }) i (record slot { buf = bytes }) sector
  filled c i slot sector (d, err e) = (record c { storage = d }, err e)
  filled c i slot sector (d, abort) = (record c { storage = d }, abort)

  -- The rest of `slot_index` once the victim `slot`, at `i`, is written back and emptied.
  unfoldable pub refill : SectorCache → ℕ → Slot → ℕ → Bool → SectorCache × FsResult Io ℕ
  refill c i slot sector true = install c i slot sector
  refill c i slot sector false =
      filled c i slot sector (read_in (sector * c.sector_size) c.sector_size c.storage)

  unfoldable pub evicted :
      SectorCache → ℕ → ℕ → Bool → Dev × Slot × FsResult Io (Unit {0}) → SectorCache × FsResult Io ℕ
  evicted c i sector fill_only (d, slot, ok _) =
      let emptied = record slot { sector = empty_sector } in
      refill (record c { storage = d; slots = set c.slots i emptied }) i emptied sector fill_only
  evicted c i sector fill_only (d, slot, err e) =
      (record c { storage = d; slots = set c.slots i slot }, err e)
  evicted c i sector fill_only (d, slot, abort) =
      (record c { storage = d; slots = set c.slots i slot }, abort)

  unfoldable pub evict : SectorCache → ℕ → Slot → ℕ → Bool → SectorCache × FsResult Io ℕ
  evict c i slot sector fill_only =
      evicted c i sector fill_only (write_back c.sector_size c.storage slot)

  unfoldable pub slot_index : SectorCache → ℕ → Bool → SectorCache × FsResult Io ℕ
  slot_index c sector fill_only = elim (position sector c.slots) [
    | some i ↦ elim (get_elem? c.slots i) [
      | some slot ↦
          let slot' = record slot { stamp = next_stamp c } in
          (record c { slots = set c.slots i slot'; tick = next_stamp c }, ok i)
      | none ↦ (c, abort)
    ]
    | none ↦ elim (min_stamp c.slots) [
      | some i ↦ elim (get_elem? c.slots i) [
        | some slot ↦ evict c i slot sector fill_only
        | none ↦ (c, abort)
      ]
      | none ↦ (c, abort)
    ]
  ]

  -- `SectorCache::new`
  unfoldable pub new : Dev → ℕ → SectorCache
  new storage sector_size =
      let slot : Slot = record {
        sector = empty_sector;
        dirty = false;
        stamp = 0;
        buf = replicate sector_size 0;
      } in
      record {
        storage = storage;
        slots = replicate slots_len slot;
        sector_size = sector_size;
        tick = 0;
      }
