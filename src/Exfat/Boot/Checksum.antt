-- ===== src/Exfat/Boot/Checksum.antt =====
-- src/codec/exfat/boot.rs: the rolling checksums of the boot region and of the up-case table.
use unifat.Prelude.{
  ℕ, suc, ◌+◌, ◌*◌, ◌/◌, ◌%◌, ◌^◌, ◌≡◌, ◌≢◌, inl, inr, refl, ap, ◌∙◌, arith, Bool, false, ◌||◌,
  Bool-cases, if◌then◌else◌, ◌==◌, List, [], ◌∷◌, length, get_or,
}

-- One step: rotate right by one, then add the byte.
unfoldable pub roll : ℕ → ℕ → ℕ
roll checksum byte = (checksum % 2 * 2 ^ 31 + checksum / 2 + byte) % 2 ^ 32

-- `CHECKSUM_EXCLUDED.contains(&i)`
abbrev pub excluded : ℕ → Bool
excluded i = (i == 106) || ((i == 107) || (i == 112))

-- The fold over the bytes from the index `i` on.
unfoldable pub fold_region : ℕ → ℕ → List ℕ → ℕ
unfolding roll
fold_region i checksum [] = checksum
fold_region i checksum (b ∷ bs) =
    fold_region (i + 1) (if excluded i then checksum else roll checksum b) bs

unfoldable pub boot_region_checksum : List ℕ → ℕ
unfolding fold_region
boot_region_checksum region = fold_region 0 0 region

unfoldable pub fold_table : ℕ → List ℕ → ℕ
unfolding roll
fold_table checksum [] = checksum
fold_table checksum (b ∷ bs) = fold_table (roll checksum b) bs

unfoldable pub upcase_table_checksum : List ℕ → ℕ
unfolding fold_table
upcase_table_checksum table = fold_table 0 table

fold_region-same :
    (i checksum : ℕ) (xs ys : List ℕ)
    → length xs ≡ length ys
    → ((j : ℕ) → excluded (i + j) ≡ false → get_or xs j 0 ≡ get_or ys j 0)
    → fold_region i checksum xs ≡ fold_region i checksum ys
unfolding fold_region
fold_region-same i checksum [] [] len same = refl
fold_region-same i checksum [] (y ∷ ys) len same = absurd (omega arith)
fold_region-same i checksum (x ∷ xs) [] len same = absurd (omega arith)
fold_region-same i checksum (x ∷ xs) (y ∷ ys) len same =
    ap (λ c. fold_region (i + 1) c xs) head
    ∙ fold_region-same (i + 1) (if excluded i then checksum else roll checksum y) xs ys
        (omega arith)
        (λ j out. same (suc j) (ap excluded {x = i + suc j} {y = i + 1 + j} (omega arith) ∙ out))
  where
    head :
        (if excluded i then checksum else roll checksum x)
        ≡ (if excluded i then checksum else roll checksum y)
    head = elim (Bool-cases (excluded i)) [
      | inl skipped ↦ rw skipped refl
      | inr counted ↦
          rw counted
            (ap (roll checksum) (same 0 (ap excluded {x = i + 0} {y = i} (omega arith) ∙ counted)))
    ]

-- The checksum of a boot region does not depend on the flags of the volume and on its share in use:
-- two regions of one length that agree in all other bytes have the same checksum.
pub boot_region_checksum-in_place :
    (xs ys : List ℕ)
    → length xs ≡ length ys
    → ((i : ℕ) → i ≢ 106 → i ≢ 107 → i ≢ 112 → get_or xs i 0 ≡ get_or ys i 0)
    → boot_region_checksum xs ≡ boot_region_checksum ys
unfolding boot_region_checksum
boot_region_checksum-in_place xs ys len same = fold_region-same 0 0 xs ys len (λ j out.
    same j (λ e. absurd (ground arith)) (λ e. absurd (ground arith)) (λ e. absurd (ground arith)))
