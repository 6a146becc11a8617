-- ===== src/Handles/Locks.antt =====
-- What opening and closing do to the table of open files: opens for reading share an entry, an open for
-- writing is alone, and closing undoes opening.
use mathlib.Core.Option
use unifat.Prelude.{
  ℕ, zero, suc, ◌+◌, ◌≤◌, ◌≡◌, refl, sym, ap, ◌∙◌, subst, inl, inr, arith, false, Bool-cases, leb,
  ◌==◌, List, [], ◌∷◌, Option, none, some, u32_max,
}
use unifat.Error.{ok, err, abort, FsError, FsResult}
use unifat.Path.{str_eq}
use unifat.Handles.{
  OpenMode, read_only, read_write, HandleTable, key_of, get, insert, shared, exclusive, lock_ro,
  lock_rw, released, release_ro, release_rw,
}
use unifat.Handles.Under.{IsOrdered}
use unifat.Handles.Tables.{
  IsOpen, AllOpen, IsTable, insert-IsTable, get-insert, remove-insert, insert-insert,
  get-insert_other,
}

-- The readers of a key that has no writer.
abbrev pub readers : ℕ → Option OpenMode
readers zero = none
readers (suc n) = some (read_only (suc n))

module _ (Io : Type 0) where
  -- The modes of the other keys are as they were.
  abbrev pub OthersKept : HandleTable → HandleTable → List ℕ → Type 0
  OthersKept t t' key = (other : List ℕ) → str_eq other key ≡ false → get other t' ≡ get other t

  abbrev pub SharedTo : HandleTable → List ℕ → HandleTable × FsResult Io (Unit {0}) → Type 0
  SharedTo t path (t', ok _) =
      (n : ℕ) × (get (key_of path) t ≡ readers n)
      × (get (key_of path) t' ≡ readers (suc n))
      × IsTable t'
      × OthersKept t t' (key_of path)
      × (release_ro t' path ≡ some t)
  SharedTo t path (t', err e) =
      (e ≡ FsError.file_locked) × (get (key_of path) t ≡ some read_write) × (t' ≡ t)
  SharedTo t path (t', abort) =
      (n : ℕ) × (get (key_of path) t ≡ readers n) × (u32_max ≤ n) × (t' ≡ t)

  released-some :
      (t : HandleTable) (key : List ℕ) (n : ℕ)
      → IsOrdered t
      → get key t ≡ readers n
      → released (insert key (read_only (suc n)) t) key (some (read_only (suc n))) ≡ some t
  released-some t key zero ordered e = ap some (remove-insert key (read_only 1) t e)
  released-some t key (suc n) ordered e =
      let counted : (suc n == 0) ≡ false = ground arith in
      rw counted
        (ap some (insert-insert key (read_only (suc (suc n))) (read_only (suc n)) t ordered e))

  shared-SharedTo :
      (t : HandleTable) (path : List ℕ) (n : ℕ)
      → IsTable t
      → get (key_of path) t ≡ readers n
      → SharedTo t path (insert (key_of path) (read_only (suc n)) t, ok tt)
  unfolding release_ro
  shared-SharedTo t path n (ordered, all) e = (
    n,
    e,
    get-insert (key_of path) (read_only (suc n)) t,
    insert-IsTable (key_of path) (read_only (suc n)) t (omega arith) (ordered, all),
    λ other ne. get-insert_other (key_of path) other (read_only (suc n)) t ne,
    ap (released (insert (key_of path) (read_only (suc n)) t) (key_of path))
          (get-insert (key_of path) (read_only (suc n)) t)
        ∙ released-some t (key_of path) n ordered e,
  )

  get-IsOpen :
      (key : List ℕ) (t : HandleTable) {m : OpenMode} → AllOpen t → get key t ≡ some m → IsOpen m
  unfolding get
  get-IsOpen key [] {m} all e = absurd (Option.none-ne-some m e)
  get-IsOpen key ((k, m') ∷ rest) {m} (here, all) e = elim (Bool-cases (str_eq key k)) [
    | inl same ↦ subst IsOpen (Option.some-injective m' m (sym (rw same refl) ∙ e)) here
    | inr other ↦ get-IsOpen key rest all (sym (rw other refl) ∙ e)
  ]

  -- Opening for reading, on a table whose keys are in order and whose counts are not zero: where the
  -- path has no writer it counts one reader more, keeps the modes of all other paths and the form of
  -- the table, and closing it gives the table back. Where there is a writer it is refused and nothing
  -- changes. It panics only where the new count of readers does not fit 32 bits.
  pub lock_ro-SharedTo :
      (t : HandleTable) (path : List ℕ) → IsTable t → SharedTo t path (lock_ro Io t path)
  unfolding lock_ro
  lock_ro-SharedTo t path table = go (get (key_of path) t) refl
    where
      go :
          (q : Option OpenMode)
          → get (key_of path) t ≡ q
          → SharedTo t path (shared Io t (key_of path) q)
      go none e = shared-SharedTo t path 0 table e
      go (some (read_only zero)) e =
          absurd (let op = get-IsOpen (key_of path) t table.1 e in omega arith)
      go (some (read_only (suc n))) e = elim (Bool-cases (leb u32_max (suc n))) [
        | inl full ↦ rw full (suc n, e, ground arith, refl)
        | inr room ↦ rw room (
            subst (λ k. SharedTo t path (insert (key_of path) (read_only k) t, ok tt))
              {x = suc (suc n)} {y = suc n + 1} (omega arith)
              (shared-SharedTo t path (suc n) table e))
      ]
      go (some read_write) e = (refl, e, refl)

  abbrev pub ExclusiveTo : HandleTable → List ℕ → HandleTable × FsResult Io (Unit {0}) → Type 0
  ExclusiveTo t path (t', ok _) =
      (get (key_of path) t ≡ none)
      × (get (key_of path) t' ≡ some read_write)
      × IsTable t'
      × OthersKept t t' (key_of path)
      × (release_rw t' path ≡ t)
  ExclusiveTo t path (t', err e) =
      (m : OpenMode) × (e ≡ FsError.file_locked) × (get (key_of path) t ≡ some m) × (t' ≡ t)
  ExclusiveTo t path (t', abort) = ⊥

  -- Opening for writing, on a table whose keys are in order and whose counts are not zero: where the
  -- path is not open, it becomes the only open of it, the modes of all other paths and the form of the
  -- table are kept, and closing it gives the table back. Where the path is open in any mode it is
  -- refused and nothing changes. It does not panic.
  pub lock_rw-ExclusiveTo :
      (t : HandleTable) (path : List ℕ) → IsTable t → ExclusiveTo t path (lock_rw Io t path)
  unfolding lock_rw
  lock_rw-ExclusiveTo t path table = go (get (key_of path) t) refl
    where
      go :
          (q : Option OpenMode)
          → get (key_of path) t ≡ q
          → ExclusiveTo t path (exclusive Io t (key_of path) q)
      go none e = (
        e,
        get-insert (key_of path) read_write t,
        insert-IsTable (key_of path) read_write t tt table,
        λ other ne. get-insert_other (key_of path) other read_write t ne,
        unfold release_rw in remove-insert (key_of path) read_write t e,
      )
      go (some m) e = (m, refl, e, refl)
