-- ===== src/Handles.antt =====
-- src/handles.rs: the table of open files and directories. The map of the standard library is a list of
-- keys and modes in the order of the keys; characters in the order of their codes are in that of their bytes.
pub mod Keys
pub mod Under
pub mod Tables
pub mod Locks
mod Tests
use unifat.Prelude.{
  ℕ, zero, suc, ◌+◌, ◌-◌, Bool, true, false, not, ◌&&◌, ◌||◌, if◌then◌else◌, ltb, leb, ◌==◌, List,
  [], ◌∷◌, Option, none, some, length, u32_max,
}
use unifat.Error.{Result, ok, err, abort, FsError, FsResult}
use unifat.Path.{str_eq, has_prefix, is_strictly_under, normalize}

pub data OpenMode : Type 0 where
  read_only : ℕ → OpenMode
  read_write : OpenMode

abbrev pub HandleTable : Type 0
HandleTable = List (List ℕ × OpenMode)

-- The order of strings.
unfoldable pub str_lt : List ℕ → List ℕ → Bool
str_lt [] [] = false
str_lt [] (d ∷ t) = true
str_lt (c ∷ s) [] = false
str_lt (c ∷ s) (d ∷ t) = ltb c d || ((c == d) && str_lt s t)

-- `BTreeMap::get`
unfoldable pub get : List ℕ → HandleTable → Option OpenMode
unfolding str_eq
get key [] = none
get key ((k, m) ∷ rest) = if str_eq key k then some m else get key rest

-- `BTreeMap::insert`, which replaces the mode of a key.
unfoldable pub insert : List ℕ → OpenMode → HandleTable → HandleTable
unfolding str_eq str_lt
insert key mode [] = (key, mode) ∷ []
insert key mode ((k, m) ∷ rest) =
    let later = insert key mode rest in
    if str_eq key k
    then (key, mode) ∷ rest
    else if str_lt key k
    then (key, mode) ∷ (k, m) ∷ rest
    else (k, m) ∷ later

-- `BTreeMap::remove`
unfoldable pub remove : List ℕ → HandleTable → HandleTable
unfolding str_eq
remove key [] = []
remove key ((k, m) ∷ rest) =
    let later = remove key rest in if str_eq key k then rest else (k, m) ∷ later

-- `map.range(key..)`
unfoldable pub range_from : List ℕ → HandleTable → HandleTable
unfolding str_lt
range_from key [] = []
range_from key ((k, m) ∷ rest) =
    let later = range_from key rest in if str_lt k key then later else (k, m) ∷ rest

-- `HandleTable::key`
unfoldable pub key_of : List ℕ → List ℕ
unfolding normalize
key_of path = normalize path

module _ (Io : Type 0) where
  -- What `lock_ro` does with the mode that it finds. The count is a u32.
  abbrev pub shared : HandleTable → List ℕ → Option OpenMode → HandleTable × FsResult Io (Unit {0})
  shared t key none = (insert key (read_only 1) t, ok tt)
  shared t key (some (read_only count)) =
      if leb u32_max count then (t, abort) else (insert key (read_only (count + 1)) t, ok tt)
  shared t key (some read_write) = (t, err FsError.file_locked)

  unfoldable pub lock_ro : HandleTable → List ℕ → HandleTable × FsResult Io (Unit {0})
  unfolding get insert key_of
  lock_ro t path = shared t (key_of path) (get (key_of path) t)

  abbrev pub exclusive :
      HandleTable → List ℕ → Option OpenMode → HandleTable × FsResult Io (Unit {0})
  exclusive t key (some mode) = (t, err FsError.file_locked)
  exclusive t key none = (insert key read_write t, ok tt)

  unfoldable pub lock_rw : HandleTable → List ℕ → HandleTable × FsResult Io (Unit {0})
  unfolding get insert key_of
  lock_rw t path = exclusive t (key_of path) (get (key_of path) t)

-- Whether a key is the prefix or lies below it.
abbrev pub at_or_under : List ℕ → List ℕ → Bool
at_or_under key k = (length k == length key) || is_strictly_under k key

-- The loop of `any_open_under`.
unfoldable pub open_in : List ℕ → HandleTable → Bool
unfolding has_prefix is_strictly_under
open_in key [] = false
open_in key ((k, m) ∷ rest) =
    let later = open_in key rest in
    if not (has_prefix k key) then false else if at_or_under key k then true else later

unfoldable pub any_open_under : HandleTable → List ℕ → Bool
unfolding open_in range_from key_of
any_open_under t prefix = open_in (key_of prefix) (range_from (key_of prefix) t)

-- What `release_ro` does with the mode that it finds. A count of zero would go below zero, which panics.
abbrev pub released : HandleTable → List ℕ → Option OpenMode → Option HandleTable
released t key none = some t
released t key (some read_write) = some t
released t key (some (read_only zero)) = none
released t key (some (read_only (suc count))) =
    if count == 0 then some (remove key t) else some (insert key (read_only count) t)

unfoldable pub release_ro : HandleTable → List ℕ → Option HandleTable
unfolding get insert remove key_of
release_ro t path = released t (key_of path) (get (key_of path) t)

unfoldable pub release_rw : HandleTable → List ℕ → HandleTable
unfolding remove key_of
release_rw t path = remove (key_of path) t
