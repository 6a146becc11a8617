-- ===== src/Exfat/Bitmap/Runs.antt =====
-- What the search for a run of free clusters in the bitmap finds.
use unifat.Prelude.{
  ℕ, zero, suc, ◌+◌, ◌-◌, ◌*◌, ◌≤◌, ◌<◌, ◌≡◌, inl, inr, refl, sym, subst, arith, min, false,
  Bool-cases, ltb, ◌==◌, List, [], Option, none, Image,
}
use unifat.Error.{ok, err, abort, FsResult, and_then}
use unifat.Store.Device.{BlockDevice}
use unifat.Store.Cache.{SectorCache}
use unifat.Store.Cache.Refill.{Stands}
use unifat.Store.Access
use unifat.Store.Access.Cached.{ReadTo, read_at-slice}
use unifat.Exfat.Volume.{ExfatVfs, on_cache}
use unifat.Exfat.Bitmap.{
  Scan, scan_window, bitmap_base, bitmap_scan_bytes, run_loop, find_free_contiguous_run,
}
use unifat.Exfat.Bitmap.Search.{IsMounted, Kept, cluster_bit, scan-covers, window-fits}
use unifat.Exfat.Bitmap.Scanning.{RunTo, RunFound, ScanTo, NoRun-RunTo, scan_window-ScanTo}

module _ (D : BlockDevice) where
  open D use {Io}

  abbrev pub FreeRun : ExfatVfs D → Image → ℕ → ExfatVfs D × FsResult Io (Option ℕ) → Type 0
  FreeRun v f count (v', ok a) =
      Kept D v v' f × RunFound (cluster_bit D v f) (v.boot.cluster_count + 1) count a
  FreeRun v f count (v', err e) = Kept D v v' f
  FreeRun v f count (v', abort) = ⊥

  scanned :
      (v : ExfatVfs D) (c : SectorCache D) (f : Image) (count byte_idx : ℕ) (start : Option ℕ)
      (len : ℕ)
      → IsMounted D v
      → Stands D c f
      → RunTo (cluster_bit D v f) (v.boot.cluster_count + 1) count (2 + byte_idx * 8) start len
      → bitmap_scan_bytes D v ≤ byte_idx
      → FreeRun v f count (record v { cache = c }, ok none)
  scanned v c f count byte_idx start len m r to past =
      let cover = scan-covers D v m in
      (
        (r, refl),
        λ s lo hi.
            NoRun-RunTo (cluster_bit D v f) (v.boot.cluster_count + 1) count (2 + byte_idx * 8)
              start len to s lo (omega arith),
      )

  run_loop-FreeRun :
      (fuel : ℕ) (v : ExfatVfs D) (c : SectorCache D) (f : Image) (count byte_idx : ℕ)
      (start : Option ℕ) (len : ℕ)
      → IsMounted D v
      → 0 < count
      → Stands D c f
      → RunTo (cluster_bit D v f) (v.boot.cluster_count + 1) count (2 + byte_idx * 8) start len
      → bitmap_scan_bytes D v - byte_idx ≤ fuel
      → FreeRun v f count (
          run_loop D fuel (record v { cache = c }) count byte_idx (bitmap_scan_bytes D v) start len)
  unfolding run_loop
  run_loop-FreeRun zero v c f count byte_idx start len m some_wanted r to enough =
      let over : ltb byte_idx (bitmap_scan_bytes D v) ≡ false = ground arith in
      rw over (scanned v c f count byte_idx start len m r to (omega arith))
  run_loop-FreeRun (suc fuel) v c f count byte_idx start len m some_wanted r to enough =
      elim (Bool-cases (ltb byte_idx scan)) [
        | inr over ↦
            rw (run_loop, over) (scanned v c f count byte_idx start len m r to (ground arith))
        | inl more ↦
            rw (run_loop, more)
              (go
                (λ c' s start' len' to'.
                  run_loop-FreeRun fuel v c' f count (byte_idx + chunk) start' len' m some_wanted s
                    to' (ground arith))
                (Access.read_at D c (bitmap_base D v + byte_idx) chunk)
                (read_at-slice D c (bitmap_base D v + byte_idx) chunk r
                  (window-fits D v byte_idx chunk m (ground arith))))
      ]
    where
      scan : ℕ
      scan = bitmap_scan_bytes D v

      chunk : ℕ
      chunk = min (scan - byte_idx) 512

      last : ℕ
      last = v.boot.cluster_count + 1

      bit : ℕ → ℕ
      bit = cluster_bit D v f

      Rest : Type 0
      Rest =
          (c' : SectorCache D)
          → Stands D c' f
          → (start' : Option ℕ) (len' : ℕ)
          → RunTo bit last count (2 + (byte_idx + chunk) * 8) start' len'
          → FreeRun v f count
              (run_loop D fuel (record v { cache = c' }) count (byte_idx + chunk) scan start' len')

      split :
          Rest
          → (c' : SectorCache D) → Stands D c' f
          → (found : Scan) → ScanTo bit last count (2 + (byte_idx + chunk) * 8) found
          → FreeRun v f count (elim found [
            | Scan.answer a ↦ (record v { cache = c' }, ok a)
            | Scan.overflow ↦ (record v { cache = c' }, abort)
            | Scan.run start' len' ↦
                run_loop D fuel (record v { cache = c' }) count (byte_idx + chunk) scan start' len'
          ])
      split rest c' s (Scan.answer a) found = ((s, refl), found)
      split rest c' s Scan.overflow none_left = none_left
      split rest c' s (Scan.run start' len') to' = rest c' s start' len' to'

      go :
          Rest
          → (q : SectorCache D × FsResult Io (List ℕ))
          → ReadTo D f (bitmap_base D v + byte_idx) chunk [] q
          → FreeRun v f count (
              and_then (on_cache D (record v { cache = c }) q) (λ v' window.
                elim (scan_window (v'.boot.cluster_count + 1) count window byte_idx start len) [
                  | Scan.answer a ↦ (v', ok a)
                  | Scan.overflow ↦ (v', abort)
                  | Scan.run start' len' ↦
                      run_loop D fuel v' count (byte_idx + chunk) scan start' len'
                ]))
      go rest (c', ok window) (s, e) =
          split rest c' s (scan_window last count window byte_idx start len) (
            subst
              (λ bs.
                ScanTo bit last count (2 + (byte_idx + chunk) * 8)
                  (scan_window last count bs byte_idx start len))
              (sym e)
              (scan_window-ScanTo bit last count f (bitmap_base D v) chunk byte_idx start len
                some_wanted (let c = m.count in omega arith) (λ k lo. unfold cluster_bit in refl)
                to))
      go rest (c', err x) s = (s, refl)
      go rest (c', abort) none_left = none_left

  -- On a mounted exFAT volume whose sector cache stands for an image, the search for a run of one
  -- cluster or more finds the first such run of clusters that are free in the bitmap, and none just
  -- where each run of that length in the volume has an allocated cluster. It ends within the bytes of
  -- the bitmap, does not panic, and nothing changes but the sector cache, which stands for the image
  -- still, also where the device fails.
  pub find_free_contiguous_run-FreeRun :
      (v : ExfatVfs D) {f : Image} (count : ℕ)
      → IsMounted D v
      → 0 < count
      → Stands D v.cache f
      → FreeRun v f count (find_free_contiguous_run D v count)
  unfolding find_free_contiguous_run
  find_free_contiguous_run-FreeRun v {f} count m some_wanted r =
      let wanted : (count == 0) ≡ false = ground arith in
      rw wanted (
        run_loop-FreeRun (bitmap_scan_bytes D v) v v.cache f count 0 none 0 m some_wanted r
          (refl, λ s lo hi. absurd (omega arith), inl refl) (omega arith))
