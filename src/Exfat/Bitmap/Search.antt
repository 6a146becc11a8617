-- ===== src/Exfat/Bitmap/Search.antt =====
-- What the search for a free cluster in the bitmap finds.
use native.Mathlib.Nat.{mul-le-mul_right, mul-le-mul_left, pow-le-pow_right}
use unifat.Prelude.{
  ℕ, zero, suc, ◌+◌, ◌-◌, ◌*◌, ◌^◌, ◌≤◌, ◌<◌, ◌≡◌, inl, inr, refl, sym, ap, ◌∙◌, subst, arith, min,
  true, false, Bool-cases, ltb, u32_max, List, [], Option, none, some, Image,
}
use unifat.Error.{ok, err, abort, FsResult, and_then}
use unifat.Store.Device.{BlockDevice}
use unifat.Store.Cache.{SectorCache}
use unifat.Store.Cache.Refill.{Stands}
use unifat.Store.Access
use unifat.Store.Access.Cached.{ReadTo, read_at-slice}
use unifat.Exfat.Boot.{
  ExfatBootRecord, shifts_valid, bytes_per_sector, bytes_per_cluster, div_ceil, one_shl,
}
use unifat.Exfat.Volume.{ExfatVfs, ClusterRange, bitmap_ok, cluster_to_byte_offset, on_cache}
use unifat.Exfat.Bitmap.{
  bitmap_base, bitmap_scan_bytes, clear_in, cluster_found, find_loop, find_free_cluster,
}
use unifat.Exfat.Bitmap.Bits.{bit_at, FirstClear, FirstClear-after, clear_in-FirstClear}

power_le : (a b : ℕ) → a ≤ b → 2 ^ a ≤ 2 ^ b
power_le a b le = pow-le-pow_right (omega arith) le

div_ceil-covers : (a b : ℕ) → 0 < b → a ≤ div_ceil a b * b
div_ceil-covers a b h = grind arith

shift_le : (n m : ℕ) → n ≤ m → m < 32 → (0 < one_shl n) × (one_shl n ≤ 2 ^ m)
shift_le n m le lt =
    let small : ltb n 32 ≡ true = ground arith in
    rw small (omega (arith, power_le 0 n (omega arith)), power_le n m le)

product_le : (a b x y : ℕ) → a ≤ x → b ≤ y → a * b ≤ x * y
product_le a b x y ha hb =
    let left : a * b ≤ x * b = mul-le-mul_right b ha in
    let right : x * b ≤ x * y = mul-le-mul_left x hb in omega arith

-- What the mount has checked of the geometry, and the widths of its fields. The count of clusters plus one fits 32 bits.
pub record Mounted (b : ExfatBootRecord) (r : ClusterRange) : Type 0 where
  pub shifts : shifts_valid b ≡ true
  pub lies : bitmap_ok b r ≡ true
  pub heap : b.cluster_heap_offset < 2 ^ 32
  pub count : b.cluster_count + 1 < 2 ^ 32

module _ (D : BlockDevice) where
  open D use {Io}

  abbrev pub IsMounted : ExfatVfs D → Type 0
  IsMounted v = Mounted v.boot v.bitmap

  -- The bitmap ends below 2^64.
  pub bitmap-fits :
      (v : ExfatVfs D)
      → IsMounted v
      → (bitmap_base D v + v.bitmap.byte_length < 2 ^ 64)
        × (div_ceil v.boot.cluster_count 8 ≤ v.bitmap.byte_length)
  unfolding bitmap_base cluster_to_byte_offset bytes_per_sector bytes_per_cluster shifts_valid
      bitmap_ok
  bitmap-fits v m =
      let b = v.boot in
      let shifts : (b.sector_shift ≤ 12) × (b.sector_shift + b.cluster_shift ≤ 25) =
        (let s = m.shifts in ground arith) in
      let cs = one_shl (b.sector_shift + b.cluster_shift) in
      let (some_bytes, small) =
        shift_le (b.sector_shift + b.cluster_shift) 25 shifts.1 (omega arith) in
      let (some_sector, sector) = shift_le b.sector_shift 12 shifts.0 (omega arith) in
      let lies : (v.bitmap.first_cluster ≤ b.cluster_count + 1)
          × (2 ≤ v.bitmap.first_cluster)
          × (div_ceil b.cluster_count 8 ≤ v.bitmap.byte_length)
          × (v.bitmap.first_cluster + min (div_ceil v.bitmap.byte_length cs) u32_max - 1
              ≤ b.cluster_count + 1) =
        (let l = m.lies in ground arith) in
      let c = m.count in
      let h = m.heap in
      let clusters : div_ceil v.bitmap.byte_length cs ≤ 2 ^ 32 = omega arith in
      let covered = div_ceil-covers v.bitmap.byte_length cs some_bytes in
      let run = product_le (div_ceil v.bitmap.byte_length cs) cs (2 ^ 32) (2 ^ 25) clusters small in
      let heap =
        product_le b.cluster_heap_offset (one_shl b.sector_shift) (2 ^ 32) (2 ^ 12) (omega arith)
          sector in
      let first =
        product_le (v.bitmap.first_cluster - 2) cs (2 ^ 32) (2 ^ 25) (omega arith) small in
      (omega arith, lies.2)

  -- Nothing changes but the sector cache, and it stands for the same image.
  abbrev pub Kept : ExfatVfs D → ExfatVfs D → Image → Type 0
  Kept v v' f = Stands D v'.cache f × (v' ≡ record v { cache = v'.cache })

  -- The bit of a cluster: one where it is allocated, zero where it is free.
  unfoldable pub cluster_bit : ExfatVfs D → Image → ℕ → ℕ
  cluster_bit v f cluster = bit_at f (bitmap_base D v) (cluster - 2)

  abbrev pub FreeCluster : ExfatVfs D → Image → ExfatVfs D × FsResult Io (Option ℕ) → Type 0
  FreeCluster v f (v', ok (some c)) =
      Kept v v' f
      × (2 ≤ c)
      × (c ≤ v.boot.cluster_count + 1)
      × (cluster_bit v f c ≡ 0)
      × ((m : ℕ) → 2 ≤ m → m < c → cluster_bit v f m ≡ 1)
  FreeCluster v f (v', ok none) =
      Kept v v' f × ((m : ℕ) → 2 ≤ m → m ≤ v.boot.cluster_count + 1 → cluster_bit v f m ≡ 1)
  FreeCluster v f (v', err e) = Kept v v' f
  FreeCluster v f (v', abort) = ⊥

  pub scan-covers :
      (v : ExfatVfs D) → IsMounted v → v.boot.cluster_count ≤ bitmap_scan_bytes D v * 8
  unfolding bitmap_scan_bytes
  scan-covers v m =
      let (fits, whole) = bitmap-fits v m in
      let cover = div_ceil-covers v.boot.cluster_count 8 (omega arith) in omega arith

  -- A window of the bitmap that is read.
  pub window-fits :
      (v : ExfatVfs D) (i n : ℕ)
      → IsMounted v
      → i + n ≤ bitmap_scan_bytes D v
      → bitmap_base D v + i + n ≤ 2 ^ 64
  unfolding bitmap_scan_bytes
  window-fits v i n m le = let (fits, whole) = bitmap-fits v m in omega arith

  all_set :
      (v : ExfatVfs D) (c : SectorCache D) (f : Image) (byte_idx : ℕ)
      → IsMounted v
      → Stands D c f
      → FirstClear (bit_at f (bitmap_base D v)) 0 (byte_idx * 8) none
      → bitmap_scan_bytes D v ≤ byte_idx
      → FreeCluster v f (record v { cache = c }, ok none)
  unfolding cluster_bit
  all_set v c f byte_idx m r set past =
      let cover = scan-covers v m in ((r, refl), λ k lo hi. set (k - 2) (omega arith) (omega arith))

  found_in :
      (v : ExfatVfs D) (c : SectorCache D) (f : Image) (to idx : ℕ)
      → IsMounted v
      → Stands D c f
      → FirstClear (bit_at f (bitmap_base D v)) 0 to (some idx)
      → FreeCluster v f
          (record v { cache = c }, cluster_found D (v.boot.cluster_count + 1) (2 + idx))
  unfolding cluster_bit
  found_in v c f to idx m r (lo, hi, clear, before) =
      elim (Bool-cases (ltb (v.boot.cluster_count + 1) (2 + idx))) [
        | inl past ↦ rw past ((r, refl), λ k lo' hi'. before (k - 2) (omega arith) (ground arith))
        | inr inside ↦
            let fits : ltb u32_max (2 + idx) ≡ false = (let c' = m.count in ground arith) in
            rw (inside, fits)
              (
                (r, refl),
                omega arith,
                ground arith,
                ap (bit_at f (bitmap_base D v)) {x = 2 + idx - 2} {y = idx} (omega arith) ∙ clear,
                λ k lo' hi'. before (k - 2) (omega arith) (omega arith),
              )
      ]

  find_loop-FreeCluster :
      (fuel : ℕ) (v : ExfatVfs D) (c : SectorCache D) (f : Image) (byte_idx : ℕ)
      → IsMounted v
      → Stands D c f
      → FirstClear (bit_at f (bitmap_base D v)) 0 (byte_idx * 8) none
      → bitmap_scan_bytes D v - byte_idx ≤ fuel
      → FreeCluster v f (find_loop D fuel (record v { cache = c }) byte_idx (bitmap_scan_bytes D v))
  unfolding find_loop
  find_loop-FreeCluster zero v c f byte_idx m r set enough =
      let over : ltb byte_idx (bitmap_scan_bytes D v) ≡ false = ground arith in
      rw over (all_set v c f byte_idx m r set (omega arith))
  find_loop-FreeCluster (suc fuel) v c f byte_idx m r set enough =
      elim (Bool-cases (ltb byte_idx scan)) [
        | inr over ↦ rw (find_loop, over) (all_set v c f byte_idx m r set (ground arith))
        | inl more ↦
            rw (find_loop, more)
              (go
                (λ c' s done.
                  find_loop-FreeCluster fuel v c' f (byte_idx + chunk) m s done (ground arith))
                (Access.read_at D c (bitmap_base D v + byte_idx) chunk) (ground arith)
                (read_at-slice D c (bitmap_base D v + byte_idx) chunk r
                  (window-fits v byte_idx chunk m (ground arith))))
      ]
    where
      scan : ℕ
      scan = bitmap_scan_bytes D v

      chunk : ℕ
      chunk = min (scan - byte_idx) 512

      bit : ℕ → ℕ
      bit = bit_at f (bitmap_base D v)

      window :
          (o : Option ℕ)
          → FirstClear bit (byte_idx * 8) ((byte_idx + chunk) * 8) o
          → FirstClear bit 0 ((byte_idx + chunk) * 8) o
      window o first =
          FirstClear-after bit 0 (byte_idx * 8) ((byte_idx + chunk) * 8) (omega arith) set o first

      Rest : Type 0
      Rest =
          (c' : SectorCache D)
          → Stands D c' f
          → FirstClear bit 0 ((byte_idx + chunk) * 8) none
          → FreeCluster v f (find_loop D fuel (record v { cache = c' }) (byte_idx + chunk) scan)

      split :
          Rest
          → (c' : SectorCache D) → byte_idx < scan
          → Stands D c' f
          → (o : Option ℕ) → FirstClear bit (byte_idx * 8) ((byte_idx + chunk) * 8) o
          → FreeCluster v f (elim o [
            | some idx ↦
                (record v { cache = c' }, cluster_found D (v.boot.cluster_count + 1) (2 + idx))
            | none ↦ find_loop D fuel (record v { cache = c' }) (byte_idx + chunk) scan
          ])
      split rest c' lt s (some idx) first =
          found_in v c' f ((byte_idx + chunk) * 8) idx m s (window (some idx) first)
      split rest c' lt s none first = rest c' s (window none first)

      go :
          Rest
          → (q : SectorCache D × FsResult Io (List ℕ)) → byte_idx < scan
          → ReadTo D f (bitmap_base D v + byte_idx) chunk [] q
          → FreeCluster v f (
              and_then (on_cache D (record v { cache = c }) q) (λ v' bytes.
                elim (clear_in bytes byte_idx) [
                  | some idx ↦ (v', cluster_found D (v'.boot.cluster_count + 1) (2 + idx))
                  | none ↦ find_loop D fuel v' (byte_idx + chunk) scan
                ]))
      go rest (c', ok bytes) lt (s, e) = split rest c' lt s (clear_in bytes byte_idx) (
          subst
            (λ bs. FirstClear bit (byte_idx * 8) ((byte_idx + chunk) * 8) (clear_in bs byte_idx))
            (sym e) (clear_in-FirstClear f (bitmap_base D v) chunk byte_idx))
      go rest (c', err x) lt s = (s, refl)
      go rest (c', abort) lt none_left = none_left

  -- On a mounted exFAT volume whose sector cache stands for an image, the search for a free cluster
  -- finds the first cluster whose bit in the bitmap is clear, and none just where every cluster of the
  -- volume is allocated. It ends within the bytes of the bitmap, does not panic, and nothing changes
  -- but the sector cache, which stands for the image still, also where the device fails.
  pub find_free_cluster-FreeCluster :
      (v : ExfatVfs D) {f : Image}
      → IsMounted v
      → Stands D v.cache f
      → FreeCluster v f (find_free_cluster D v)
  unfolding find_free_cluster
  find_free_cluster-FreeCluster v {f} m r =
      find_loop-FreeCluster (bitmap_scan_bytes D v) v v.cache f 0 m r
        (λ j lo hi. absurd (omega arith)) (omega arith)
