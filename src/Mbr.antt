-- ===== src/Mbr.antt =====
-- src/mbr.rs: the kinds of partition, and the adapter that slices a device down to one partition. The device below
-- it is code of `embedded_io`: a record of operations with their documented laws.
pub mod Window
mod Tests
use unifat.Prelude.{
  ℕ, suc, ◌+◌, ◌-◌, ◌*◌, ◌≤◌, ◌<◌, ◌≡◌, ◌≢◌, ◌⊎◌, min, Bool, true, false, ◌||◌, if◌then◌else◌, ◌==◌,
  List, [], length, take, Image, slice, overlay, ℤ, pos, negsuc, SeekFrom, start, current, end,
  saturating_add,
}
use unifat.Error.{Result, ok, err, abort, and_then}

pub record Storage : Type 1 where
  pub Dev : Type 0
  pub Io : Type 0
  pub image : Dev → Image
  pub cursor : Dev → ℕ
  -- `seek(SeekFrom::Start(n))`
  pub seek : ℕ → Dev → Dev × Result Io (Unit {0})
  -- `read` into a buffer of the given length: the bytes read.
  pub read : ℕ → Dev → Dev × Result Io (List ℕ)
  -- The number of bytes written.
  pub write : List ℕ → Dev → Dev × Result Io ℕ
  pub flush : Dev → Dev × Result Io (Unit {0})
  pub seek-cursor : (n : ℕ) (d : Dev) {u : Unit {0}} → (seek n d).1 ≡ ok u → cursor (seek n d).0 ≡ n
  pub seek-image : (n : ℕ) (d : Dev) → image (seek n d).0 ≡ image d
  -- A read may be short; it returns the bytes at the cursor.
  pub read-bytes :
      (n : ℕ) (d : Dev) {bs : List ℕ}
      → (read n d).1 ≡ ok bs
      → (length bs ≤ n) × (bs ≡ slice (image d) (cursor d) (length bs))
  pub read-image : (n : ℕ) (d : Dev) → image (read n d).0 ≡ image d
  -- So may a write, which puts a front part of its bytes at the cursor.
  pub write-image :
      (buf : List ℕ) (d : Dev) {n : ℕ}
      → (write buf d).1 ≡ ok n
      → (n ≤ length buf) × (image (write buf d).0 ≡ overlay (image d) (cursor d) (take n buf))
  pub write-outside :
      (buf : List ℕ) (d : Dev) (o : ℕ)
      → (o < cursor d) ⊎ (cursor d + length buf ≤ o)
      → image (write buf d).0 o ≡ image d o
  -- An operation returns.
  pub seek-returns : (n : ℕ) (d : Dev) → (seek n d).1 ≢ abort
  pub read-returns : (n : ℕ) (d : Dev) → (read n d).1 ≢ abort
  pub write-returns : (buf : List ℕ) (d : Dev) → (write buf d).1 ≢ abort

abbrev pub lba_size : ℕ
lba_size = 512

pub data PartitionKind : Type 0 where
  empty fat16 fat32 exfat extended : PartitionKind
  other : ℕ → PartitionKind

unfoldable pub from_byte : ℕ → PartitionKind
from_byte byte =
    if byte == 0x00
    then empty
    else if (byte == 0x04) || (byte == 0x06) || (byte == 0x0E)
    then fat16
    else if (byte == 0x0B) || (byte == 0x0C)
    then fat32
    else if byte == 0x07
    then exfat
    else if (byte == 0x05) || (byte == 0x0F)
    then extended
    else other byte

unfoldable pub is_filesystem : PartitionKind → Bool
is_filesystem empty = false
is_filesystem fat16 = true
is_filesystem fat32 = true
is_filesystem exfat = true
is_filesystem extended = false
is_filesystem (other byte) = false

pub data PartitionError (E : Type 0) : Type 0 where
  io : E → PartitionError E
  out_of_bounds : PartitionError E

module _ (S : Storage) where
  open S use {Dev, Io}

  pub record Partition : Type 0 where
    pub inner : Dev
    pub base : ℕ
    pub len : ℕ
    pub pos : ℕ

  -- `Partition::new`
  unfoldable pub sliced : Dev → ℕ → ℕ → Partition
  sliced inner start_lba sector_count = record {
    inner = inner;
    base = start_lba * lba_size;
    len = sector_count * lba_size;
    pos = 0;
  }

  -- A call on the inner device, its error wrapped: `.map_err(PartitionError::Io)`.
  unfoldable pub on_inner :
      {A : Type 0} → Partition → Dev × Result Io A → Partition × Result (PartitionError Io) A
  on_inner p (d, ok a) = (record p { inner = d }, ok a)
  on_inner p (d, err e) = (record p { inner = d }, err (io e))
  on_inner p (d, abort) = (record p { inner = d }, abort)

  -- `buf.len()` is `n`.
  unfoldable pub part_read : Partition → ℕ → Partition × Result (PartitionError Io) (List ℕ)
  unfolding on_inner
  part_read p n =
      let remaining = p.len - p.pos in
      if remaining == 0 || n == 0
      then (p, ok [])
      else and_then (on_inner p (S.seek (p.base + p.pos) p.inner)) (λ p1 _.
        and_then (on_inner p1 (S.read (min n remaining) p1.inner))
          (λ p2 bytes. (record p2 { pos = p2.pos + length bytes }, ok bytes)))

  unfoldable pub part_write : Partition → List ℕ → Partition × Result (PartitionError Io) ℕ
  unfolding on_inner
  part_write p buf =
      let remaining = p.len - p.pos in
      if length buf == 0
      then (p, ok 0)
      else if remaining == 0
      then (p, err out_of_bounds)
      else and_then (on_inner p (S.seek (p.base + p.pos) p.inner)) (λ p1 _.
        and_then (on_inner p1 (S.write (take (min (length buf) remaining) buf) p1.inner))
          (λ p2 n. (record p2 { pos = p2.pos + n }, ok n)))

  -- From `from`, by a signed offset.
  moved_from : ℕ → ℤ → ℕ
  moved_from from (pos d) = saturating_add from d
  moved_from from (negsuc d) = from - suc d

  unfoldable pub part_seek : Partition → SeekFrom → Partition × Result (PartitionError Io) ℕ
  unfolding moved_from
  part_seek p (start n) = (record p { pos = n }, ok n)
  part_seek p (current d) = let to = moved_from p.pos d in (record p { pos = to }, ok to)
  part_seek p (end d) = let to = moved_from p.len d in (record p { pos = to }, ok to)

  unfoldable pub part_flush : Partition → Partition × Result (PartitionError Io) (Unit {0})
  unfolding on_inner
  part_flush p = on_inner p (S.flush p.inner)
