-- ===== src/Store/Device.antt =====
-- The block device of src/store/mod.rs: `embedded_io::{Read, Write, Seek}` is not code of the
-- repository, so it is a record of operations with the documented behaviour as laws. A device has
-- an image (the byte at each offset) and a cursor; an operation returns the device after it.
use unifat.Prelude.{ℕ, ◌+◌, ◌≤◌, ◌<◌, ◌≡◌, ◌≢◌, ◌⊎◌, List, length, Image, slice, overlay}
use unifat.Error.{Result, ok, abort, ReadExactError}

pub record BlockDevice : Type 1 where
  pub Dev : Type 0
  pub Io : Type 0
  pub image : Dev → Image
  pub cursor : Dev → ℕ
  -- `seek(SeekFrom::Start(n))`
  pub seek : ℕ → Dev → Dev × Result Io (Unit {0})
  -- `read_exact` into a buffer of the given length
  pub read_exact : ℕ → Dev → Dev × Result (ReadExactError Io) (List ℕ)
  pub write_all : List ℕ → Dev → Dev × Result Io (Unit {0})
  pub flush : Dev → Dev × Result Io (Unit {0})
  -- Seeking moves the cursor, if it succeeds, and leaves the bytes alone.
  pub seek-cursor : (n : ℕ) (d : Dev) {u : Unit {0}} → (seek n d).1 ≡ ok u → cursor (seek n d).0 ≡ n
  pub seek-image : (n : ℕ) (d : Dev) → image (seek n d).0 ≡ image d
  -- A read returns the bytes at the cursor, and leaves the bytes alone.
  pub read_exact-bytes :
      (n : ℕ) (d : Dev) {bs : List ℕ}
      → (read_exact n d).1 ≡ ok bs
      → bs ≡ slice (image d) (cursor d) n
  pub read_exact-image : (n : ℕ) (d : Dev) → image (read_exact n d).0 ≡ image d
  -- A write puts the bytes at the cursor; a failed one may have put some of them there.
  pub write_all-image :
      (bs : List ℕ) (d : Dev) {u : Unit {0}}
      → (write_all bs d).1 ≡ ok u
      → image (write_all bs d).0 ≡ overlay (image d) (cursor d) bs
  pub write_all-outside :
      (bs : List ℕ) (d : Dev) (o : ℕ)
      → (o < cursor d) ⊎ (cursor d + length bs ≤ o)
      → image (write_all bs d).0 o ≡ image d o
  pub flush-image : (d : Dev) → image (flush d).0 ≡ image d
  -- An operation returns.
  pub seek-returns : (n : ℕ) (d : Dev) → (seek n d).1 ≢ abort
  pub read_exact-returns : (n : ℕ) (d : Dev) → (read_exact n d).1 ≢ abort
  pub write_all-returns : (bs : List ℕ) (d : Dev) → (write_all bs d).1 ≢ abort
  pub flush-returns : (d : Dev) → (flush d).1 ≢ abort
