-- ===== src/Fat/Cells/Decoding.antt =====
-- What the cells of a file allocation table decode to.
use Prim.Native.Nat.{bit_and, bit_or}
use unifat.Prelude.{
  ℕ, ◌+◌, ◌*◌, ◌/◌, ◌%◌, ◌^◌, ◌≤◌, ◌<◌, ◌≡◌, ◌↔◌, refl, sym, ap, ◌∙◌, arith, ◌&&◌, if◌then◌else◌,
  leb, ◌==◌,
}
use unifat.Prelude.Bits.{bit_and_low, bit_or_low, bit_and_shifted}
use unifat.Fat.Cells.{
  FatType, FatEntry, FatWrite, value_mask, bad_marker, end_floor, end_value, decode_fat_cell,
  value_cell, written_cell, entry_size,
}

-- The number of bits that a cell's value has.
abbrev pub value_bits : FatType → ℕ
value_bits FatType.fat16 = 16
value_bits FatType.fat32 = 28

mask_low : (ty : FatType) (x : ℕ) → bit_and x (value_mask ty) ≡ x % 2 ^ value_bits ty
unfolding value_mask
mask_low FatType.fat16 x = bit_and_low 16 x
mask_low FatType.fat32 x = bit_and_low 28 x

-- The value that a write stands for, read back.
unfoldable pub entry_of : FatWrite → FatEntry
entry_of FatWrite.free = FatEntry.free
entry_of FatWrite.end = FatEntry.end
entry_of (FatWrite.next n) = FatEntry.next n

-- A link is to a cluster of the volume, and below the reserved values.
unfoldable pub Linkable : FatType → ℕ → FatWrite → Type 0
unfolding bad_marker value_mask
Linkable ty max_cluster FatWrite.free = Unit {0}
Linkable ty max_cluster FatWrite.end = Unit {0}
Linkable ty max_cluster (FatWrite.next n) = (2 ≤ n) × (n ≤ max_cluster) × (n < bad_marker ty)

-- The kept nibble of a FAT32 cell.
nibble : (old : ℕ) → old < 2 ^ 32 → bit_and old 0xF0000000 ≡ old / 2 ^ 28 * 2 ^ 28
nibble old fits =
    bit_and_shifted 28 old 15
    ∙ ap (λ (t : ℕ). t * 2 ^ 28) (bit_and_low 4 (old / 2 ^ 28) ∙ omega arith)

value_cell-fits : (ty : FatType) (value : FatWrite) → value_cell ty value < 2 ^ value_bits ty
unfolding value_cell end_value value_mask
value_cell-fits FatType.fat16 FatWrite.free = omega arith
value_cell-fits FatType.fat16 FatWrite.end = omega arith
value_cell-fits FatType.fat16 (FatWrite.next n) = omega (arith, bit_and_low 16 n)
value_cell-fits FatType.fat32 FatWrite.free = omega arith
value_cell-fits FatType.fat32 FatWrite.end = omega arith
value_cell-fits FatType.fat32 (FatWrite.next n) = omega (arith, bit_and_low 28 n)

-- A written cell as a sum.
written_cell-sum :
    (value : FatWrite) (old : ℕ)
    → old < 2 ^ 32
    → written_cell FatType.fat32 value old ≡ old / 2 ^ 28 * 2 ^ 28 + value_cell FatType.fat32 value
unfolding written_cell end_value value_mask
written_cell-sum value old fits =
    ap (bit_or (value_cell FatType.fat32 value)) (nibble old fits)
    ∙ bit_or_low 28 (old / 2 ^ 28) (value_cell FatType.fat32 value)
        (value_cell-fits FatType.fat32 value)

-- A write to a 32-bit FAT32 cell keeps its reserved top nibble.
pub written_cell-nibble :
    (value : FatWrite) (old : ℕ)
    → old < 2 ^ 32
    → written_cell FatType.fat32 value old / 2 ^ 28 ≡ old / 2 ^ 28
written_cell-nibble value old fits =
    omega (arith, written_cell-sum value old fits, value_cell-fits FatType.fat32 value)

pub written_cell-fits :
    (ty : FatType) (value : FatWrite) (old : ℕ)
    → old < 2 ^ 32
    → written_cell ty value old < 2 ^ (8 * entry_size ty)
unfolding written_cell entry_size
written_cell-fits FatType.fat16 value old fits = omega (arith, value_cell-fits FatType.fat16 value)
written_cell-fits FatType.fat32 value old fits =
    omega (arith, written_cell-sum value old fits, value_cell-fits FatType.fat32 value)

written_cell-value :
    (ty : FatType) (value : FatWrite) (old : ℕ)
    → old < 2 ^ 32
    → bit_and (written_cell ty value old) (value_mask ty) ≡ value_cell ty value
unfolding written_cell
written_cell-value FatType.fat16 value old fits =
    mask_low FatType.fat16 (value_cell FatType.fat16 value)
    ∙ omega (arith, value_cell-fits FatType.fat16 value)
written_cell-value FatType.fat32 value old fits =
    mask_low FatType.fat32 (written_cell FatType.fat32 value old)
    ∙ omega (arith, written_cell-sum value old fits, value_cell-fits FatType.fat32 value)

link-decodes :
    (cell max_cluster marker floor : ℕ)
    → 2 ≤ cell
    → cell ≤ max_cluster
    → cell < marker
    → marker < floor
    → (if cell == 0
        then FatEntry.free
        else if cell == marker
        then FatEntry.bad
        else if leb floor cell
        then FatEntry.end
        else if leb 2 cell && leb cell max_cluster
        then FatEntry.next cell
        else FatEntry.reserved)
      ≡ FatEntry.next cell
link-decodes cell max_cluster marker floor two in_volume below ordered = ground arith

-- Only the value bits of a cell count.
same-mask :
    (ty : FatType) (max_cluster a b : ℕ)
    → bit_and a (value_mask ty) ≡ bit_and b (value_mask ty)
    → decode_fat_cell a max_cluster ty ≡ decode_fat_cell b max_cluster ty
unfolding decode_fat_cell
same-mask ty max_cluster a b e = rw e refl

value_cell-mask :
    (ty : FatType) (value : FatWrite)
    → bit_and (value_cell ty value) (value_mask ty) ≡ value_cell ty value
value_cell-mask ty value = mask_low ty (value_cell ty value) ∙ small ty (value_cell-fits ty value)
  where
    small : (ty : FatType) {x : ℕ} → x < 2 ^ value_bits ty → x % 2 ^ value_bits ty ≡ x
    small FatType.fat16 h = omega arith
    small FatType.fat32 h = omega arith

link_cell :
    (ty : FatType) (max_cluster n : ℕ)
    → Linkable ty max_cluster (FatWrite.next n)
    → value_cell ty (FatWrite.next n) ≡ n
unfolding Linkable value_cell end_value value_mask bad_marker
link_cell FatType.fat16 max_cluster n (two, in_volume, below) = bit_and_low 16 n ∙ omega arith
link_cell FatType.fat32 max_cluster n (two, in_volume, below) = bit_and_low 28 n ∙ omega arith

decode-value_cell :
    (ty : FatType) (max_cluster : ℕ) (value : FatWrite)
    → Linkable ty max_cluster value
    → decode_fat_cell (value_cell ty value) max_cluster ty ≡ entry_of value
unfolding decode_fat_cell entry_of Linkable value_cell value_mask bad_marker end_floor end_value
decode-value_cell FatType.fat16 max_cluster FatWrite.free link = refl
decode-value_cell FatType.fat32 max_cluster FatWrite.free link = refl
decode-value_cell FatType.fat16 max_cluster FatWrite.end link = refl
decode-value_cell FatType.fat32 max_cluster FatWrite.end link = refl
decode-value_cell ty max_cluster (FatWrite.next n) link =
    let cell : bit_and (value_cell ty (FatWrite.next n)) (value_mask ty) ≡ n =
      value_cell-mask ty (FatWrite.next n) ∙ link_cell ty max_cluster n link in
    rw (decode_fat_cell, cell)
      (link-decodes n max_cluster (bad_marker ty) (end_floor ty) link.0 link.1 link.2 (ordered ty))
  where
    ordered : (ty : FatType) → bad_marker ty < end_floor ty
    ordered FatType.fat16 = omega arith
    ordered FatType.fat32 = omega arith

-- The cell that a table write stores over any 32-bit cell decodes to the value written: free, the end
-- of a chain, or a link to a cluster of the volume below the reserved values.
pub decode_fat_cell-written_cell :
    (ty : FatType) (max_cluster : ℕ) (value : FatWrite) (old : ℕ)
    → old < 2 ^ 32
    → Linkable ty max_cluster value
    → decode_fat_cell (written_cell ty value old) max_cluster ty ≡ entry_of value
decode_fat_cell-written_cell ty max_cluster value old fits link =
    same-mask ty max_cluster (written_cell ty value old) (value_cell ty value)
      (written_cell-value ty value old fits ∙ sym (value_cell-mask ty value))
    ∙ decode-value_cell ty max_cluster value link

next_marker : (ty : FatType) → end_floor ty ≡ bad_marker ty + 1
unfolding end_floor bad_marker value_mask
next_marker FatType.fat16 = refl
next_marker FatType.fat32 = refl

link-value :
    (cell max_cluster marker floor n : ℕ)
    → floor ≡ marker + 1
    → (if cell == 0
        then FatEntry.free
        else if cell == marker
        then FatEntry.bad
        else if leb floor cell
        then FatEntry.end
        else if leb 2 cell && leb cell max_cluster
        then FatEntry.next cell
        else FatEntry.reserved)
      ≡ FatEntry.next n
    → (cell ≡ n) × (2 ≤ n) × (n ≤ max_cluster) × (n < marker)
link-value cell max_cluster marker floor n e decoded = ground arith

-- A cell decodes to a link to a cluster just where its value bits are the number of the cluster, which
-- is from 2 to the last of the volume and below the markers.
pub decode_fat_cell-next_iff :
    (ty : FatType) (raw max_cluster n : ℕ)
    → (decode_fat_cell raw max_cluster ty ≡ FatEntry.next n)
      ↔ ((raw % 2 ^ value_bits ty ≡ n) × (2 ≤ n) × (n ≤ max_cluster) × (n < bad_marker ty))
unfolding decode_fat_cell
decode_fat_cell-next_iff ty raw max_cluster n = (
  λ decoded.
      let (same, two, in_volume, below) =
        link-value (bit_and raw (value_mask ty)) max_cluster (bad_marker ty) (end_floor ty) n
          (next_marker ty) decoded in
      (sym (mask_low ty raw) ∙ same, two, in_volume, below),
  λ (same, two, in_volume, below).
      rw (decode_fat_cell, mask_low ty raw ∙ same)
        (link-decodes n max_cluster (bad_marker ty) (end_floor ty) two in_volume below
          (omega (arith, next_marker ty))),
)
