-- ===== src/Fat/Table/Store.antt =====
-- What a write to the allocation table leaves: the entry that is read back afterwards.
use unifat.Prelude.{
  ℕ, zero, suc, ◌+◌, ◌*◌, ◌/◌, ◌^◌, ◌≤◌, ◌<◌, ◌≡◌, ◌⊎◌, inl, inr, refl, sym, ap, ◌∙◌, subst, arith,
  true, Bool-cases, List, ◌∷◌, Image, slice, overlay, length, take, ext, length-slice, get_or-slice,
  get_or, overlay_inside, overlay_outside,
}
use unifat.Error.{ok, err, abort, FsResult, and_then}
use unifat.Store.Device.{BlockDevice}
use unifat.Store.Cache.Refill.{Stands}
use unifat.Fat.Cells.{FatType, entry_size}
use unifat.Fat.Volume.{FatVfs, Ebr, write_bytes, sector_byte_offset}
use unifat.Fat.Volume.Bytes.{Sized, Kept, BytesWritten, write_bytes-overlay}
use unifat.Fat.Table.{
  from_le_bytes, to_le_bytes, active_cell, fat_copy_base, active_fat_copy, fat_mirroring,
  store_cell, write_copies, mirrors, active_copy_of,
}

length-to_le_bytes : (n x : ℕ) → length (to_le_bytes n x) ≡ n
unfolding to_le_bytes
length-to_le_bytes zero x = refl
length-to_le_bytes (suc n) x = ap suc (length-to_le_bytes n (x / 256))

pub from_le_bytes-to_le_bytes :
    (ty : FatType) (x : ℕ)
    → x < 2 ^ (8 * entry_size ty)
    → from_le_bytes (to_le_bytes (entry_size ty) x) ≡ x
unfolding from_le_bytes to_le_bytes entry_size
from_le_bytes-to_le_bytes FatType.fat16 x fits = omega arith
from_le_bytes-to_le_bytes FatType.fat32 x fits = omega arith

-- The bytes of an image are bytes.
abbrev pub IsBytes : Image → Type 0
IsBytes f = (o : ℕ) → f o < 256

pub slice-fits : (f : Image) (off : ℕ) → IsBytes f → from_le_bytes (slice f off 4) < 2 ^ 32
unfolding slice from_le_bytes
slice-fits f off bytes =
    omega (arith, bytes off, bytes (off + 1), bytes (off + 1 + 1), bytes (off + 1 + 1 + 1))

slice-overlay_same :
    (f : Image) (off : ℕ) (bs : List ℕ) → slice (overlay f off bs) off (length bs) ≡ bs
slice-overlay_same f off bs =
    ext (slice (overlay f off bs) off (length bs)) bs 0
      (length-slice (overlay f off bs) off (length bs))
      (λ i lt.
        let inside = length-slice (overlay f off bs) off (length bs) in
        get_or-slice (overlay f off bs) off (length bs) i 0 (omega arith)
        ∙ overlay_inside f off bs (off + i) 0 (omega arith) (omega arith)
        ∙ ap (λ k. get_or bs k 0) (omega arith))

slice-overlay_apart :
    (f : Image) (off n at : ℕ) (bs : List ℕ)
    → (off + n ≤ at) ⊎ (at + length bs ≤ off)
    → slice (overlay f at bs) off n ≡ slice f off n
unfolding slice
slice-overlay_apart f off zero at bs apart = refl
slice-overlay_apart f off (suc n) at bs apart =
    let here = overlay_outside f at bs off (shorter apart) in
    let rest = slice-overlay_apart f (off + 1) n at bs (moved apart) in
    ap (λ b. b ∷ slice (overlay f at bs) (off + 1) n) here ∙ ap (◌∷◌ (f off)) rest
  where
    shorter : (off + suc n ≤ at) ⊎ (at + length bs ≤ off) → (off < at) ⊎ (at + length bs ≤ off)
    shorter (inl h) = inl (omega arith)
    shorter (inr h) = inr h

    moved :
        (off + suc n ≤ at) ⊎ (at + length bs ≤ off)
        → (off + 1 + n ≤ at) ⊎ (at + length bs ≤ off + 1)
    moved (inl h) = inl (omega arith)
    moved (inr h) = inr (omega arith)

-- The bytes written at `base k + off` for `n` copies from `copy` on.
copied : ℕ → ℕ → (ℕ → ℕ) → Image → ℕ → List ℕ → Image
copied zero copy base f off bs = f
copied (suc n) copy base f off bs = copied n (copy + 1) base (overlay f (base copy + off) bs) off bs

-- Copies that lie past a range leave it alone.
slice-copied :
    (n copy : ℕ) (base : ℕ → ℕ) (f : Image) (off at w : ℕ) (bs : List ℕ)
    → ((k : ℕ) → copy ≤ k → k < copy + n → at + w ≤ base k + off)
    → slice (copied n copy base f off bs) at w ≡ slice f at w
unfolding copied
slice-copied zero copy base f off at w bs past = refl
slice-copied (suc n) copy base f off at w bs past =
    slice-copied n (copy + 1) base (overlay f (base copy + off) bs) off at w bs
      (λ k lo hi. past k (omega arith) (omega arith))
    ∙ slice-overlay_apart f at w (base copy + off) bs (inl (past copy (omega arith) (omega arith)))

module _ (D : BlockDevice) where
  open D use {Io}

  -- The copies after the first lie past it.
  abbrev pub Separate : FatVfs D → Type 0
  Separate v =
      (0 < v.props.fat_table_count)
      × ((k : ℕ)
          → 1 ≤ k
          → k < v.props.fat_table_count
          → fat_copy_base D v 0 + entry_size v.fat_type ≤ fat_copy_base D v k)

  pub Kept-trans :
      (v v' v'' : FatVfs D) {f g : Image} → Kept D v v' f → Kept D v' v'' g → Kept D v v'' g
  Kept-trans v v' v'' kept kept' =
      (kept'.0, kept'.1 ∙ ap (λ (w : FatVfs D). record w { cache = v''.cache }) kept.1)

  abbrev Copied : FatVfs D → ℕ → ℕ → Image → ℕ → List ℕ → FatVfs D × FsResult Io (Unit {0}) → Type 0
  Copied v n copy f off bs (v', ok _) = Kept D v v' (copied n copy (fat_copy_base D v) f off bs)
  Copied v n copy f off bs (v', err e) = (g : Image) × Kept D v v' g
  Copied v n copy f off bs (v', abort) = ⊥

  Copied-step :
      (v v' : FatVfs D) (n copy : ℕ) (f : Image) (off : ℕ) (bs : List ℕ)
      → Kept D v v' (overlay f (fat_copy_base D v copy + off) bs)
      → (q : FatVfs D × FsResult Io (Unit {0}))
      → Copied v' n (copy + 1) (overlay f (fat_copy_base D v copy + off) bs) off bs q
      → Copied v (suc n) copy f off bs q
  unfolding copied fat_copy_base sector_byte_offset
  Copied-step v v' n copy f off bs kept (w, ok u) rest = Kept-trans v v' w kept (
      subst
        (λ (x : FatVfs D). Kept D v' w (
          copied n (copy + 1) (fat_copy_base D x) (overlay f (fat_copy_base D v copy + off) bs) off
            bs))
        kept.1 rest)
  Copied-step v v' n copy f off bs kept (w, err e) (g, rest) = (g, Kept-trans v v' w kept rest)
  Copied-step v v' n copy f off bs kept (w, abort) rest = rest

  write_copies-Copied :
      (n copy : ℕ) (v : FatVfs D) {f : Image} (off : ℕ) (bs : List ℕ)
      → Stands D v.cache f
      → Sized v.props
      → Copied v n copy f off bs (write_copies D n copy v off bs)
  unfolding write_copies copied
  write_copies-Copied zero copy v off bs r sized = (r, refl)
  write_copies-Copied (suc n) copy v {f} off bs r sized =
      go (write_bytes D v (fat_copy_base D v copy + off) bs)
        (write_bytes-overlay D v (fat_copy_base D v copy + off) bs r sized)
        (λ v' kept.
          write_copies-Copied n (copy + 1) v' off bs kept.0
            (subst (λ (x : FatVfs D). Sized x.props) (sym kept.1) sized))
    where
      go :
          (q : FatVfs D × FsResult Io (Unit {0}))
          → BytesWritten D v f (fat_copy_base D v copy + off) bs q
          → ((v' : FatVfs D)
              → Kept D v v' (overlay f (fat_copy_base D v copy + off) bs)
              → Copied v' n
                  (copy + 1)
                  (overlay f (fat_copy_base D v copy + off) bs)
                  off
                  bs
                  (write_copies D n (copy + 1) v' off bs))
          → Copied v
              (suc n)
              copy
              f
              off
              bs
              (and_then q (λ v' _. write_copies D n (copy + 1) v' off bs))
      go (v', ok u) (kept, inside) rest =
          Copied-step v v' n copy f off bs kept (write_copies D n (copy + 1) v' off bs)
            (rest v' kept)
      go (v', err e) (k, le, kept, why) rest =
          (overlay f (fat_copy_base D v copy + off) (take k bs), kept)
      go (v', abort) none_left rest = none_left

  -- The cell in the active copy once it is written.
  abbrev pub CellStored : FatVfs D → ℕ → ℕ → FatVfs D × FsResult Io (Unit {0}) → Type 0
  CellStored v cluster cell (v', ok _) =
      (g : Image) × Kept D v v' g
      × (slice g (active_cell D v cluster) (entry_size v.fat_type)
          ≡ to_le_bytes (entry_size v.fat_type) cell)
  CellStored v cluster cell (v', err e) = (g : Image) × Kept D v v' g
  CellStored v cluster cell (v', abort) = ⊥

  first_active : (e : Ebr) → mirrors e ≡ true → active_copy_of e ≡ 0
  first_active Ebr.fat16 h = refl
  first_active (Ebr.fat32 flags info) h = ground arith

  overlaid :
      (f : Image) (off n cell : ℕ)
      → slice (overlay f off (to_le_bytes n cell)) off n ≡ to_le_bytes n cell
  overlaid f off n cell =
      ap (λ w. slice (overlay f off (to_le_bytes n cell)) off w) (sym (length-to_le_bytes n cell))
      ∙ slice-overlay_same f off (to_le_bytes n cell)

  copied_cell :
      (count : ℕ) (base : ℕ → ℕ) (f : Image) (off n cell : ℕ)
      → 0 < count
      → ((k : ℕ) → 1 ≤ k → k < count → base 0 + n ≤ base k)
      → slice (copied count 0 base f off (to_le_bytes n cell)) (base 0 + off) n ≡ to_le_bytes n cell
  unfolding copied
  copied_cell zero base f off n cell some_copy apart = absurd (omega arith)
  copied_cell (suc count) base f off n cell some_copy apart =
      slice-copied count 1 base (overlay f (base 0 + off) (to_le_bytes n cell)) off (base 0 + off) n
        (to_le_bytes n cell) (λ k lo hi. omega (arith, apart k lo (omega arith)))
      ∙ overlaid f (base 0 + off) n cell

  pub store_cell-CellStored :
      (v : FatVfs D) {f : Image} (cluster cell : ℕ)
      → Stands D v.cache f
      → Sized v.props
      → Separate v
      → CellStored v cluster cell (store_cell D v cluster cell)
  unfolding store_cell fat_mirroring active_cell active_fat_copy
  store_cell-CellStored v {f} cluster cell r sized (some_copy, apart) =
      elim (Bool-cases (mirrors v.ebr)) [
        | inl all ↦ rw all (
            to_all all (write_copies D v.props.fat_table_count 0 v off bytes)
              (write_copies-Copied v.props.fat_table_count 0 v off bytes r sized))
        | inr one ↦ rw one (
            to_one (write_bytes D v (active_cell D v cluster) bytes)
              (write_bytes-overlay D v (active_cell D v cluster) bytes r sized))
      ]
    where
      off : ℕ
      off = cluster * entry_size v.fat_type

      bytes : List ℕ
      bytes = to_le_bytes (entry_size v.fat_type) cell

      to_all :
          mirrors v.ebr ≡ true
          → (q : FatVfs D × FsResult Io (Unit {0}))
          → Copied v v.props.fat_table_count 0 f off bytes q
          → CellStored v cluster cell q
      to_all all (w, ok u) kept = (
        copied v.props.fat_table_count 0 (fat_copy_base D v) f off bytes,
        kept,
        ap
              (λ k.
                slice (copied v.props.fat_table_count 0 (fat_copy_base D v) f off bytes)
                  (fat_copy_base D v k + off) (entry_size v.fat_type))
              (first_active v.ebr all)
            ∙ copied_cell v.props.fat_table_count (fat_copy_base D v) f off (entry_size v.fat_type)
                cell some_copy apart,
      )
      to_all all (w, err e) kept = kept
      to_all all (w, abort) none_left = none_left

      to_one :
          (q : FatVfs D × FsResult Io (Unit {0}))
          → BytesWritten D v f (active_cell D v cluster) bytes q
          → CellStored v cluster cell q
      to_one (w, ok u) (kept, inside) = (
        overlay f (active_cell D v cluster) bytes,
        kept,
        overlaid f (active_cell D v cluster) (entry_size v.fat_type) cell,
      )
      to_one (w, err e) (k, le, kept, why) =
          (overlay f (active_cell D v cluster) (take k bytes), kept)
      to_one (w, abort) none_left = none_left
