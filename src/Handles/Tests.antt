-- ===== src/Handles/Tests.antt =====
-- A small table of open files, runs of its operations, and the theorems on them at it.
use unifat.Prelude.{◌≡◌, refl, arith, true, false, some, [], ◌∷◌}
use unifat.Error.{err, FsError}
use unifat.Path.{
  new, next, collect, components, normalize, is_strictly_under, split_head, trim_start, break_sep,
  classify, str_eq, has_prefix, ends_with_separator, resolve, rendered, popped, joined_with,
}
use unifat.Handles.{
  read_only, read_write, HandleTable, str_lt, key_of, get, insert, remove, range_from, open_in,
  lock_ro, lock_rw, any_open_under, release_ro, release_rw,
}
use unifat.Handles.Under.{open_under, any_open_under-open_under}
use unifat.Handles.Tables.{IsTable}
use unifat.Handles.Locks.{SharedTo, ExclusiveTo, lock_ro-SharedTo, lock_rw-ExclusiveTo}

-- `\A\B` is read twice, `\C` is written.
abbrev table : HandleTable
table = (92 ∷ 65 ∷ 92 ∷ 66 ∷ [], read_only 2) ∷ (92 ∷ 67 ∷ [], read_write) ∷ []

table-IsTable : IsTable table
unfolding str_lt
table-IsTable = (((refl, tt), (tt, tt)), (omega arith, (tt, tt)))

program : Unit {0}
unfolding new next collect components normalize is_strictly_under split_head trim_start break_sep
    classify str_eq has_prefix ends_with_separator resolve rendered popped joined_with str_lt key_of
    get insert remove range_from open_in lock_ro lock_rw any_open_under release_ro release_rw
program = tt

-- Something is open below `\A`, and nothing at `\B`.
busy : any_open_under table (92 ∷ 65 ∷ []) ≡ true
unfolding program
busy = refl

idle : any_open_under table (92 ∷ 66 ∷ []) ≡ false
unfolding program
idle = refl

refused : (lock_rw (Unit {0}) table (92 ∷ 65 ∷ 92 ∷ 66 ∷ [])).1 ≡ err FsError.file_locked
unfolding program
refused = refl

third_reader :
    get (92 ∷ 65 ∷ 92 ∷ 66 ∷ []) (lock_ro (Unit {0}) table (47 ∷ 65 ∷ 47 ∷ 66 ∷ [])).0
    ≡ some (read_only 3)
unfolding program
third_reader = refl

any_open_under-open_under_example :
    any_open_under table (92 ∷ 65 ∷ []) ≡ open_under (key_of (92 ∷ 65 ∷ [])) table
any_open_under-open_under_example = any_open_under-open_under table (92 ∷ 65 ∷ []) (table-IsTable).0

lock_ro-SharedTo_example :
    SharedTo
      (Unit {0})
      table
      (92 ∷ 65 ∷ 92 ∷ 66 ∷ [])
      (lock_ro (Unit {0}) table (92 ∷ 65 ∷ 92 ∷ 66 ∷ []))
lock_ro-SharedTo_example = lock_ro-SharedTo (Unit {0}) table (92 ∷ 65 ∷ 92 ∷ 66 ∷ []) table-IsTable

lock_rw-ExclusiveTo_example :
    ExclusiveTo (Unit {0}) table (92 ∷ 66 ∷ []) (lock_rw (Unit {0}) table (92 ∷ 66 ∷ []))
lock_rw-ExclusiveTo_example = lock_rw-ExclusiveTo (Unit {0}) table (92 ∷ 66 ∷ []) table-IsTable
