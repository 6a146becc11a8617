-- ===== src/Stream/Traits.antt =====
-- What an open file uses of its volume: the traits `ClusterMap` (src/vfs/cluster_map.rs), `DataStore`
-- (src/vfs/data_store.rs) and `DirSlotWriter` (src/vfs/dir_slot.rs) over one state, the volume. The laws
-- that an implementation keeps are records of their own.
use unifat.Prelude.{ℕ, Bool, Option, List}
use unifat.Error.{FileResult}
use unifat.Codec.Time.{Calendar}
use unifat.Stream.Entry.{EntryPatch}

pub record ExtendResult : Type 0 where
  pub first_cluster : ℕ
  pub tail : ℕ

pub record Backing (K : Calendar) : Type 1 where
  pub World : Type 0
  pub Io : Type 0
  -- `ClusterMap`
  pub next : ℕ → World → World × FileResult Io (Option ℕ)
  pub extend : Option ℕ → Option ℕ → ℕ → World → World × FileResult Io ExtendResult
  -- The first cluster that is left.
  pub free_tail : ℕ → ℕ → World → World × FileResult Io ℕ
  pub cluster_size : ℕ
  pub cluster_to_offset : ℕ → ℕ
  pub no_fat_chain : World → Bool
  pub allocated_len : World → ℕ
  -- `DataStore`
  pub read_at : ℕ → ℕ → World → World × FileResult Io (List ℕ)
  pub write_at : ℕ → List ℕ → World → World × FileResult Io (Unit {0})
  pub flush : World → World × FileResult Io (Unit {0})
  -- `DirSlotWriter`
  pub write_patch : EntryPatch K → World → World × FileResult Io (Unit {0})
