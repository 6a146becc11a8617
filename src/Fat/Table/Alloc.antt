-- ===== src/Fat/Table/Alloc.antt =====
-- src/fat/entry_io.rs: `allocate_clusters`, and src/fat/fs.rs: `metadata_barrier`.
use unifat.Prelude.{ℕ, zero, suc, Option, some, none, List, [], ◌∷◌, ◌++◌}
use unifat.Error.{Result, ok, err, abort, FsError, FsResult, and_then}
use unifat.Store.Device.{BlockDevice}
use unifat.Store.Cache.{SectorCache}
use unifat.Store.Access.{flush, flush_device}
use unifat.Fat.Cells.{FatWrite}
use unifat.Fat.Volume.{FatVfs, on_cache}
use unifat.Fat.Table.{next_free_cluster, write_fat}

module _ (D : BlockDevice) where
  open D use {Io}

  -- The volume and the clusters claimed so far.
  abbrev pub Claims : Type 0
  Claims = FatVfs D × List ℕ

  abbrev with_claimed : {A : Type 0} → List ℕ → FatVfs D × FsResult Io A → Claims × FsResult Io A
  with_claimed claimed (v, r) = ((v, claimed), r)

  -- `if let Some(prev) = prev { self.write_fat(prev, FatWrite::Next(cluster))?; }`
  unfoldable pub link_prev : FatVfs D → Option ℕ → ℕ → FatVfs D × FsResult Io (Unit {0})
  link_prev v none cluster = (v, ok tt)
  link_prev v (some prev) cluster = write_fat D v prev (FatWrite.next cluster)

  -- The closure of `allocate_clusters`: `n` clusters are left to claim.
  unfoldable pub claim_loop : ℕ → FatVfs D → Option ℕ → List ℕ → Claims × FsResult Io (Unit {0})
  unfolding link_prev
  claim_loop zero v prev claimed = ((v, claimed), ok tt)
  claim_loop (suc n) v prev claimed =
      and_then (with_claimed claimed (next_free_cluster D v)) (λ s o. elim o [
        | none ↦ (s, err FsError.storage_full)
        | some cluster ↦
            and_then (with_claimed claimed (write_fat D s.0 cluster FatWrite.end)) (λ s1 _.
              and_then (with_claimed claimed (link_prev s1.0 prev cluster))
                (λ s2 _. claim_loop n s2.0 (some cluster) (claimed ++ cluster ∷ [])))
      ])

  -- `let _ = ..`: an error is dropped.
  abbrev dropped : FatVfs D × FsResult Io (Unit {0}) → FatVfs D × FsResult Io (Unit {0})
  dropped (v, ok _) = (v, ok tt)
  dropped (v, err e) = (v, ok tt)
  dropped (v, abort) = (v, abort)

  unfoldable pub free_each : FatVfs D → List ℕ → FatVfs D × FsResult Io (Unit {0})
  free_each v [] = (v, ok tt)
  free_each v (cluster ∷ clusters) =
      and_then (dropped (write_fat D v cluster FatWrite.free)) (λ v' _. free_each v' clusters)

  unfoldable pub unhook : FatVfs D → Option ℕ → List ℕ → FatVfs D × FsResult Io (Unit {0})
  unhook v none claimed = (v, ok tt)
  unhook v (some from) [] = (v, ok tt)
  unhook v (some from) (c ∷ claimed) = dropped (write_fat D v from FatWrite.end)

  -- The clusters claimed, or the unwinding of a run that failed.
  unfoldable pub settle_claims :
      Option ℕ → Claims × FsResult Io (Unit {0}) → FatVfs D × FsResult Io (List ℕ)
  unfolding free_each unhook
  settle_claims link_from ((v, claimed), ok _) = (v, ok claimed)
  settle_claims link_from ((v, claimed), err e) =
      and_then (free_each v claimed)
        (λ v1 _. and_then (unhook v1 link_from claimed) (λ v2 _. (v2, err e)))
  settle_claims link_from ((v, claimed), abort) = (v, abort)

  unfoldable pub allocate_clusters : FatVfs D → ℕ → Option ℕ → FatVfs D × FsResult Io (List ℕ)
  unfolding claim_loop settle_claims
  allocate_clusters v n link_from = settle_claims link_from (claim_loop n v link_from [])

  -- `self.sector_cache().flush_device()?`, whose error is an error of the device.
  abbrev device_flushed :
      SectorCache D × Result Io (Unit {0}) → SectorCache D × FsResult Io (Unit {0})
  device_flushed (c, ok _) = (c, ok tt)
  device_flushed (c, err e) = (c, err (FsError.io e))
  device_flushed (c, abort) = (c, abort)

  unfoldable pub metadata_barrier : FatVfs D → FatVfs D × FsResult Io (Unit {0})
  metadata_barrier v =
      and_then (on_cache D v (flush D v.cache))
        (λ v1 _. on_cache D v1 (device_flushed (flush_device D v1.cache)))
