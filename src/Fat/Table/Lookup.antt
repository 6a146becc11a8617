-- ===== src/Fat/Table/Lookup.antt =====
-- What reading the allocation table returns: the entry of a cluster, its link, and the first free cluster.
use unifat.Prelude.{
  ℕ, zero, suc, ◌+◌, ◌-◌, ◌≤◌, ◌<◌, ◌≡◌, inl, inr, refl, sym, ap, ◌∙◌, subst, arith, Bool, true,
  false, Bool-cases, ltb, leb, u32_max, ◌||◌, min, ◌*◌, List, Option, none, some, Image, slice,
}
use unifat.Error.{ok, err, abort, FsResult, and_then}
use unifat.Store.Device.{BlockDevice}
use unifat.Store.Cache.Refill.{Stands}
use unifat.Fat.Cells.{FatEntry, entry_size, decode_fat_cell}
use unifat.Fat.Volume.{Ebr, FatVfs, sector_byte_offset, read_bytes}
use unifat.Fat.Volume.Bytes.{Sized, Kept, BytesRead, read_bytes-slice}
use unifat.Fat.Table.{
  from_le_bytes, active_copy_of, active_fat_copy, fat_copy_base, active_cell, check_fat_index,
  read_fat, entry_is_free, free_loop, found_free, search_start, next_free_cluster,
}

-- The table in use: a FAT32 volume whose boot record turns mirroring off names one, else the first is used.
unfoldable pub used_table : Ebr → ℕ
used_table Ebr.fat16 = 0
used_table (Ebr.fat32 flags info) = elim flags.mirroring_disabled [
  | true ↦ flags.active_fat
  | false ↦ 0
]

module _ (D : BlockDevice) where
  open D use {Io}

  -- Where the cell of a cluster lies by the format: in the first table, or in the table that the boot
  -- record of a FAT32 volume without mirroring names. Sector numbers are held to 32 bits.
  unfoldable pub cell_place : FatVfs D → ℕ → ℕ
  unfolding used_table
  cell_place v cluster =
      min (v.props.first_fat_sector + min (used_table v.ebr * v.props.fat_sector_size) u32_max)
          u32_max
        * v.props.sector_size
      + cluster * entry_size v.fat_type

  -- The entry of a cluster in the copy of the table that is in use, in an image of the volume.
  unfoldable pub entry_at : Image → FatVfs D → ℕ → FatEntry
  unfolding cell_place
  entry_at f v cluster =
      decode_fat_cell (from_le_bytes (slice f (cell_place v cluster) (entry_size v.fat_type)))
        v.props.max_cluster v.fat_type

  active_copy-used_table : (ebr : Ebr) → active_copy_of ebr ≡ used_table ebr
  unfolding used_table
  active_copy-used_table Ebr.fat16 = refl
  active_copy-used_table (Ebr.fat32 flags info) = elim (Bool-cases flags.mirroring_disabled) [
    | inl e ↦ rw (e, used_table) refl
    | inr e ↦ rw (e, used_table) refl
  ]

  active_cell-cell_place :
      (v : FatVfs D) (cluster : ℕ) → active_cell D v cluster ≡ cell_place v cluster
  unfolding active_cell fat_copy_base active_fat_copy sector_byte_offset cell_place
  active_cell-cell_place v cluster = rw (active_copy-used_table v.ebr) refl

  -- The code finds the cell at that place.
  pub entry_at-active_cell :
      (v : FatVfs D) (f : Image) (cluster : ℕ)
      → entry_at f v cluster
        ≡ decode_fat_cell
            (from_le_bytes (slice f (active_cell D v cluster) (entry_size v.fat_type)))
            v.props.max_cluster
            v.fat_type
  unfolding entry_at
  entry_at-active_cell v f cluster =
      ap
        (λ o.
          decode_fat_cell (from_le_bytes (slice f o (entry_size v.fat_type))) v.props.max_cluster
            v.fat_type)
        (sym (active_cell-cell_place v cluster))

  abbrev pub EntryRead : FatVfs D → Image → ℕ → FatVfs D × FsResult Io FatEntry → Type 0
  EntryRead v f cluster (v', ok entry) =
      Kept D v v' f
      × (entry ≡ entry_at f v cluster)
      × (2 ≤ cluster)
      × (cluster ≤ v.props.max_cluster)
  EntryRead v f cluster (v', err e) = Kept D v v' f
  EntryRead v f cluster (v', abort) = ⊥

  -- On a volume whose sector cache stands for an image and whose sector size and count fit a u16 and a
  -- u32, reading the cell of a cluster, if it succeeds, returns the entry that the copy of the table
  -- in use has in the image, and the cluster is one of the volume. The copy in use is the first, or
  -- the one that the boot record of a FAT32 volume without mirroring names. Nothing changes but the
  -- sector cache, which stands for the image still, also where the device fails. It does not panic.
  pub read_fat-entry :
      (v : FatVfs D) {f : Image} (cluster : ℕ)
      → Stands D v.cache f
      → Sized v.props
      → EntryRead v f cluster (read_fat D v cluster)
  unfolding read_fat check_fat_index entry_at
  read_fat-entry v {f} cluster r sized =
      elim (Bool-cases (ltb cluster 2 || ltb v.props.max_cluster cluster)) [
        | inl outside ↦ rw outside (r, refl)
        | inr inside ↦ rw inside (
            go (read_bytes D v (active_cell D v cluster) (entry_size v.fat_type)) (ground arith)
              (read_bytes-slice D v (active_cell D v cluster) (entry_size v.fat_type) r sized))
      ]
    where
      go :
          (q : FatVfs D × FsResult Io (List ℕ))
          → (2 ≤ cluster) × (cluster ≤ v.props.max_cluster)
          → BytesRead D v f (active_cell D v cluster) (entry_size v.fat_type) q
          → EntryRead v f cluster (
              and_then q (λ v' raw.
                (v', ok (decode_fat_cell (from_le_bytes raw) v'.props.max_cluster v'.fat_type))))
      go (v', ok raw) (lo, hi) (kept, e, inside) = (
        kept,
        ap (λ (w : FatVfs D). decode_fat_cell (from_le_bytes raw) w.props.max_cluster w.fat_type)
              kept.1
            ∙ ap (λ bs. decode_fat_cell (from_le_bytes bs) v.props.max_cluster v.fat_type) e
            ∙ sym (entry_at-active_cell v f cluster),
        lo,
        hi,
      )
      go (v', err e) range kept = kept
      go (v', abort) range kept = kept

  -- A state that differs in its cache has the same table.
  entry_at-Kept :
      (v v' : FatVfs D) {f : Image} (cluster : ℕ)
      → Kept D v v' f
      → entry_at f v' cluster ≡ entry_at f v cluster
  unfolding entry_at
  entry_at-Kept v v' {f} cluster kept = ap (λ w. entry_at f w cluster) kept.1

  -- What a search from `cluster` on finds: the first free cluster, or none where no cluster is free.
  abbrev pub FreeFound : FatVfs D → Image → ℕ → FatVfs D × FsResult Io (Option ℕ) → Type 0
  FreeFound v f cluster (v', ok (some n)) =
      Stands D v'.cache f
      × (v'.first_free_cluster ≡ n)
      × (cluster ≤ n)
      × (n ≤ v.props.max_cluster)
      × (entry_is_free (entry_at f v n) ≡ true)
      × ((m : ℕ) → cluster ≤ m → m < n → entry_is_free (entry_at f v m) ≡ false)
  FreeFound v f cluster (v', ok none) =
      Stands D v'.cache f
      × ((m : ℕ) → cluster ≤ m → m ≤ v.props.max_cluster → entry_is_free (entry_at f v m) ≡ false)
  FreeFound v f cluster (v', err e) = Stands D v'.cache f
  FreeFound v f cluster (v', abort) = ⊥

  used_from :
      (v : FatVfs D) (f : Image) (cluster : ℕ)
      → entry_is_free (entry_at f v cluster) ≡ false
      → (m : ℕ) → cluster ≤ m
      → (cluster + 1 ≤ m → entry_is_free (entry_at f v m) ≡ false)
      → entry_is_free (entry_at f v m) ≡ false
  used_from v f cluster used m from later = elim (Bool-cases (ltb cluster m)) [
    | inl past ↦ later (ground arith)
    | inr near ↦
        subst (λ k. entry_is_free (entry_at f v k) ≡ false) {x = cluster} {y = m} (ground arith)
          used
  ]

  entry_used :
      (v v' : FatVfs D) {f : Image} (m : ℕ)
      → Kept D v v' f
      → entry_is_free (entry_at f v' m) ≡ false
      → entry_is_free (entry_at f v m) ≡ false
  entry_used v v' m kept used = ap entry_is_free (sym (entry_at-Kept v v' m kept)) ∙ used

  -- A round that finds the cluster in use.
  FreeFound-step :
      (v v' : FatVfs D) {f : Image} (cluster : ℕ)
      → Kept D v v' f
      → entry_is_free (entry_at f v cluster) ≡ false
      → (q : FatVfs D × FsResult Io (Option ℕ)) → FreeFound v' f (cluster + 1) q
      → FreeFound v f cluster q
  FreeFound-step v v' {f} cluster kept used (w, ok (some n)) (s, hint, lo, hi, free, before) = (
    s,
    hint,
    omega arith,
    subst (λ (x : FatVfs D). n ≤ x.props.max_cluster) kept.1 hi,
    ap entry_is_free (sym (entry_at-Kept v v' n kept)) ∙ free,
    λ m from below.
        used_from v f cluster used m from (λ later. entry_used v v' m kept (before m later below)),
  )
  FreeFound-step v v' {f} cluster kept used (w, ok none) (s, all) = (
    s,
    λ m from to. used_from v f cluster used m from (λ later.
        entry_used v v' m kept
          (all m later (subst (λ (x : FatVfs D). m ≤ x.props.max_cluster) (sym kept.1) to))),
  )
  FreeFound-step v v' cluster kept used (w, err e) s = s
  FreeFound-step v v' cluster kept used (w, abort) s = s

  in_use :
      (v : FatVfs D) (f : Image) (cluster : ℕ) {entry : FatEntry}
      → entry ≡ entry_at f v cluster
      → entry_is_free entry ≡ false
      → entry_is_free (entry_at f v cluster) ≡ false
  in_use v f cluster e used = ap entry_is_free (sym e) ∙ used

  free_loop-FreeFound :
      (n : ℕ) (v : FatVfs D) {f : Image} (cluster : ℕ)
      → Stands D v.cache f
      → Sized v.props
      → v.props.max_cluster < u32_max
      → v.props.max_cluster < cluster + n
      → FreeFound v f cluster (free_loop D n v cluster)
  unfolding free_loop
  free_loop-FreeFound zero v {f} cluster r sized counted enough =
      (r, λ m from to. absurd (omega arith))
  free_loop-FreeFound (suc n) v {f} cluster r sized counted enough =
      go (read_fat D v cluster) (read_fat-entry v cluster r sized) (λ v' kept.
        free_loop-FreeFound n v' (cluster + 1) kept.0
          (subst (λ (x : FatVfs D). Sized x.props) (sym kept.1) sized)
          (subst (λ (x : FatVfs D). x.props.max_cluster < u32_max) (sym kept.1) counted)
          (subst (λ (x : FatVfs D). x.props.max_cluster < cluster + 1 + n) (sym kept.1)
            (omega arith)))
    where
      split :
          (v' : FatVfs D) (entry : FatEntry) (b : Bool)
          → entry_is_free entry ≡ b
          → EntryRead v f cluster (v', ok entry)
          → (Kept D v v' f → FreeFound v' f (cluster + 1) (free_loop D n v' (cluster + 1)))
          → FreeFound v f cluster (elim b [
            | true ↦ (found_free D v' cluster, ok (some cluster))
            | false ↦ elim (leb u32_max cluster) [
              | true ↦ (v', abort)
              | false ↦ free_loop D n v' (cluster + 1)
            ]
          ])
      split v' entry true free (kept, e, lo, hi) rest =
          unfold found_free in
          (
            kept.0,
            refl,
            omega arith,
            hi,
            ap entry_is_free (sym e) ∙ free,
            λ m from below. absurd (omega arith),
          )
      split v' entry false used (kept, e, lo, hi) rest =
          let counts : leb u32_max cluster ≡ false = ground arith in
          rw counts (
            FreeFound-step v v' cluster kept (in_use v f cluster e used)
              (free_loop D n v' (cluster + 1)) (rest kept))

      go :
          (q : FatVfs D × FsResult Io FatEntry)
          → EntryRead v f cluster q
          → ((v' : FatVfs D)
              → Kept D v v' f
              → FreeFound v' f (cluster + 1) (free_loop D n v' (cluster + 1)))
          → FreeFound v f cluster (
              and_then q (λ v' entry. elim (entry_is_free entry) [
                | true ↦ (found_free D v' cluster, ok (some cluster))
                | false ↦ elim (leb u32_max cluster) [
                  | true ↦ (v', abort)
                  | false ↦ free_loop D n v' (cluster + 1)
                ]
              ]))
      go (v', ok entry) read rest = split v' entry (entry_is_free entry) refl read (rest v')
      go (v', err e) kept rest = kept.0
      go (v', abort) kept rest = kept

  -- On a volume whose sector cache stands for an image, whose sector size and count fit a u16 and a
  -- u32, and whose last cluster has a number below 2^32 - 1, the search for a free cluster finds the
  -- first cluster from its start on that is free in the copy of the table in use, and sets the hint to
  -- it; it finds none just where there is none. It ends within the clusters of the volume, does not
  -- panic, and the cache stands for the image still, also where the device fails.
  pub next_free_cluster-FreeFound :
      (v : FatVfs D) {f : Image}
      → Stands D v.cache f
      → Sized v.props
      → v.props.max_cluster < u32_max
      → FreeFound v f (search_start D v) (next_free_cluster D v)
  unfolding next_free_cluster
  next_free_cluster-FreeFound v r sized counted =
      free_loop-FreeFound (v.props.max_cluster + 1 - search_start D v) v (search_start D v) r sized
        counted (omega arith)
