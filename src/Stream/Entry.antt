-- ===== src/Stream/Entry.antt =====
-- The metadata of a directory entry that an open file carries: src/attrs.rs, src/entry_times.rs,
-- src/vfs/directory.rs (`EntryPatch`) and src/dir.rs (`Metadata`).
use unifat.Prelude.{ℕ, Bool, Option}
use unifat.Codec.Time.{Calendar}

pub record Attributes : Type 0 where
  pub read_only : Bool
  pub hidden : Bool
  pub system : Bool
  pub archive : Bool

module _ (K : Calendar) where
  open K use {Date, Time}

  pub record EntryTimes : Type 0 where
    pub created : Option (Date × Time)
    pub modified : Option (Date × Time)
    pub accessed : Option Date

  pub record EntryPatch : Type 0 where
    pub size : Option ℕ
    pub valid_size : Option ℕ
    pub first_cluster : Option ℕ
    pub no_fat_chain : Option Bool
    pub times : Option EntryTimes
    pub attrs : Option Attributes

  pub record Metadata : Type 0 where
    pub len : ℕ
    pub is_dir : Bool
    pub attributes : Attributes
    pub created : Option (Date × Time)
    pub modified : Option (Date × Time)
    pub accessed : Option Date
