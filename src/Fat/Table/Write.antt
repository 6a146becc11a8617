-- ===== src/Fat/Table/Write.antt =====
-- A write to the allocation table, read back.
use unifat.Prelude.{
  ℕ, ◌+◌, ◌*◌, ◌^◌, ◌<◌, ◌≡◌, inl, inr, refl, sym, ap, ◌∙◌, subst, arith, Bool, Bool-cases, ltb,
  ◌||◌, List, Image, slice, min, u32_max,
}
use unifat.Error.{ok, err, abort, FsResult, and_then}
use unifat.Store.Device.{BlockDevice}
use unifat.Store.Cache.Refill.{Stands}
use unifat.Fat.Cells.{FatType, FatWrite, entry_size, decode_fat_cell, written_cell}
use unifat.Fat.Cells.Decoding.{entry_of, Linkable, decode_fat_cell-written_cell, written_cell-fits}
use unifat.Fat.Volume.{FatVfs, Ebr, read_bytes, sector_byte_offset}
use unifat.Fat.Volume.Bytes.{Sized, Kept, BytesRead, read_bytes-slice}
use unifat.Fat.Table.{
  from_le_bytes, to_le_bytes, active_cell, fat_copy_base, check_fat_index, old_cell, store_cell,
  noted, write_fat, noted_ebr, is_free,
}
use unifat.Fat.Table.Lookup.{used_table, cell_place, entry_at, entry_at-active_cell}
use unifat.Fat.Table.Store.{
  IsBytes, slice-fits, from_le_bytes-to_le_bytes, Separate, CellStored, store_cell-CellStored,
}

module _ (D : BlockDevice) where
  open D use {Io}

  abbrev OldRead : FatVfs D → Image → FatVfs D × FsResult Io ℕ → Type 0
  OldRead v f (v', ok old) = Kept D v v' f × (old < 2 ^ 32)
  OldRead v f (v', err e) = Kept D v v' f
  OldRead v f (v', abort) = ⊥

  old_cell-OldRead :
      (v : FatVfs D) {f : Image} (cluster : ℕ) (ty : FatType)
      → Stands D v.cache f
      → Sized v.props
      → IsBytes f
      → OldRead v f (old_cell D v cluster ty)
  unfolding old_cell
  old_cell-OldRead v {f} cluster FatType.fat16 r sized bytes = ((r, refl), omega arith)
  old_cell-OldRead v {f} cluster FatType.fat32 r sized bytes =
      go (read_bytes D v (active_cell D v cluster) 4)
        (read_bytes-slice D v (active_cell D v cluster) 4 r sized)
    where
      go :
          (q : FatVfs D × FsResult Io (List ℕ))
          → BytesRead D v f (active_cell D v cluster) 4 q
          → OldRead v f (and_then q (λ v' raw. (v', ok (from_le_bytes raw))))
      go (v', ok raw) (kept, e, inside) = (
        kept,
        subst (λ bs. from_le_bytes bs < 2 ^ 32) (sym e)
            (slice-fits f (active_cell D v cluster) bytes),
      )
      go (v', err e) kept = kept
      go (v', abort) none_left = none_left

  -- The entry that the table has for the cluster after a write of `value`.
  abbrev pub EntryWritten : ℕ → FatWrite → FatVfs D × FsResult Io (Unit {0}) → Type 0
  EntryWritten cluster value (v', ok _) =
      (g : Image) × Stands D v'.cache g × (entry_at D g v' cluster ≡ entry_of value)
  EntryWritten cluster value (v', err e) = (g : Image) × Stands D v'.cache g
  EntryWritten cluster value (v', abort) = ⊥

  -- The hints do not move the table.
  noted-copy :
      (cluster : ℕ) (freed : Bool) (e : Ebr) → used_table (noted_ebr cluster freed e) ≡ used_table e
  unfolding noted_ebr used_table
  noted-copy cluster freed Ebr.fat16 = refl
  noted-copy cluster freed (Ebr.fat32 flags info) = refl

  entry_at-noted :
      (g : Image) (v : FatVfs D) (cluster : ℕ) (value : FatWrite)
      → entry_at D g (noted D v cluster value) cluster ≡ entry_at D g v cluster
  unfolding entry_at cell_place noted
  entry_at-noted g v cluster value =
      ap
        (λ k.
          decode_fat_cell
            (from_le_bytes (
              slice g
                (min (v.props.first_fat_sector + min (k * v.props.fat_sector_size) u32_max) u32_max
                    * v.props.sector_size
                  + cluster * entry_size v.fat_type)
                (entry_size v.fat_type)))
            v.props.max_cluster v.fat_type)
        (noted-copy cluster (is_free value) v.ebr)

  -- The stored cell is the entry of the value.
  entry_at-stored :
      (v v' : FatVfs D) (g : Image) (cluster : ℕ) (value : FatWrite) (old : ℕ)
      → old < 2 ^ 32
      → Linkable v.fat_type v.props.max_cluster value
      → Kept D v v' g
      → slice g (active_cell D v cluster) (entry_size v.fat_type)
        ≡ to_le_bytes (entry_size v.fat_type) (written_cell v.fat_type value old)
      → entry_at D g v' cluster ≡ entry_of value
  unfolding entry_of entry_at
  entry_at-stored v v' g cluster value old fits link kept stored =
      ap (λ w. entry_at D g w cluster) kept.1
      ∙ entry_at-active_cell D v g cluster
      ∙ ap (λ bs. decode_fat_cell (from_le_bytes bs) v.props.max_cluster v.fat_type) stored
      ∙ ap (λ x. decode_fat_cell x v.props.max_cluster v.fat_type)
          (from_le_bytes-to_le_bytes v.fat_type (written_cell v.fat_type value old)
            (written_cell-fits v.fat_type value old fits))
      ∙ decode_fat_cell-written_cell v.fat_type v.props.max_cluster value old fits link

  -- The end of `write_fat`, once the old cell is read.
  finish :
      (v v1 : FatVfs D) {f : Image} (cluster old : ℕ) (value : FatWrite)
      → old < 2 ^ 32
      → Linkable v.fat_type v.props.max_cluster value
      → Kept D v v1 f
      → (q : FatVfs D × FsResult Io (Unit {0}))
      → CellStored D v1 cluster (written_cell v1.fat_type value old) q
      → EntryWritten cluster value (and_then q (λ v2 _. (noted D v2 cluster value, ok tt)))
  finish v v1 cluster old value fits link kept (v2, ok u) (g, kept', stored) = (
    g,
    unfold noted in kept'.0,
    entry_at-noted g v2 cluster value
        ∙ entry_at-stored v1 v2 g cluster value old fits
            (subst (λ (x : FatVfs D). Linkable x.fat_type x.props.max_cluster value) (sym kept.1)
              link)
            kept' stored,
  )
  finish v v1 cluster old value fits link kept (v2, err e) (g, kept') = (g, kept'.0)
  finish v v1 cluster old value fits link kept (v2, abort) none_left = none_left

  -- A write to the allocation table that succeeds leaves it, in the image that the sector cache then
  -- stands for, with the entry of the value written for the cluster in the copy that is read, whether
  -- it writes all copies or the active one. A link must be to a cluster of the volume below the
  -- reserved values, the image must hold bytes, the sector size and count must fit a u16 and a u32,
  -- and the copies of the table must lie apart. It does not panic.
  pub write_fat-entry :
      (v : FatVfs D) {f : Image} (cluster : ℕ) (value : FatWrite)
      → Stands D v.cache f
      → Sized v.props
      → IsBytes f
      → Separate D v
      → Linkable v.fat_type v.props.max_cluster value
      → EntryWritten cluster value (write_fat D v cluster value)
  unfolding write_fat check_fat_index
  write_fat-entry v {f} cluster value r sized bytes apart link =
      elim (Bool-cases (ltb cluster 2 || ltb v.props.max_cluster cluster)) [
        | inl outside ↦ rw outside (f, r)
        | inr inside ↦ rw inside (
            go (old_cell D v cluster v.fat_type)
              (old_cell-OldRead v cluster v.fat_type r sized bytes))
      ]
    where
      go :
          (q : FatVfs D × FsResult Io ℕ)
          → OldRead v f q
          → EntryWritten cluster value (
              and_then q (λ v1 old.
                and_then
                  (store_cell D v1 cluster (written_cell v1.fat_type value old))
                  (λ v2 _. (noted D v2 cluster value, ok tt))))
      go (v1, ok old) (kept, fits) =
          finish v v1 cluster old value fits link kept
            (store_cell D v1 cluster (written_cell v1.fat_type value old))
            (store_cell-CellStored D v1 cluster (written_cell v1.fat_type value old) kept.0
              (subst (λ (x : FatVfs D). Sized x.props) (sym kept.1) sized)
              (subst (λ (x : FatVfs D). Separate D x) (sym kept.1)
                (unfold fat_copy_base sector_byte_offset in apart)))
      go (v1, err e) kept = (f, kept.0)
      go (v1, abort) none_left = none_left
