-- ===== src/Store/Mem.antt =====
-- src/store/mem.rs: the in-memory block device, on a target whose `usize` has 64 bits. A method returns
-- the device after it beside its result.
pub mod Blocks
use unifat.Prelude.{
  ℕ, zero, suc, ◌+◌, ◌-◌, min, Bool, true, false, Option, none, some, List, [], ◌++◌, if◌then◌else◌,
  ltb, leb, length, take, drop, replicate, SeekFrom, start, current, end, checked_add_signed,
  u64_max,
}
use unifat.Error.{Result, ok, err}
use unifat.Store.Cache.{copy_at}

pub data MemError : Type 0 where
  mem_error : MemError

pub record MemBlockDevice : Type 0 where
  pub bytes : List ℕ
  pub pos : ℕ
  pub fixed : Bool

unfoldable pub new : List ℕ → MemBlockDevice
new bytes = record { bytes = bytes; pos = 0; fixed = false }

unfoldable pub fixed : List ℕ → MemBlockDevice
fixed bytes = record { bytes = bytes; pos = 0; fixed = true }

-- `read` into a buffer of length `n`: the bytes read.
unfoldable pub read : ℕ → MemBlockDevice → MemBlockDevice × List ℕ
read n d =
    if leb (length d.bytes) d.pos
    then (d, [])
    else (let k = min n (length d.bytes - d.pos) in
        (record d { pos = d.pos + k }, take k (drop d.pos d.bytes)))

-- `self.data.resize(len, 0)`, where `len` is past the end.
unfoldable pub resize : List ℕ → ℕ → List ℕ
resize bytes len = bytes ++ replicate (len - length bytes) 0

unfoldable pub write : List ℕ → MemBlockDevice → MemBlockDevice × Result MemError ℕ
unfolding resize copy_at
write buf d =
    let end' = d.pos + length buf in
    if ltb u64_max end'
    then (d, err mem_error)
    else if ltb (length d.bytes) end'
    then (if d.fixed then (d, err mem_error) else (
      record d { bytes = copy_at (resize d.bytes end') d.pos buf; pos = end' },
      ok (length buf),
    ))
    else (record d { bytes = copy_at d.bytes d.pos buf; pos = end' }, ok (length buf))

seek_to : MemBlockDevice → Option ℕ → MemBlockDevice × Result MemError ℕ
seek_to d (some next) = (record d { pos = next }, ok next)
seek_to d none = (d, err mem_error)

unfoldable pub seek : SeekFrom → MemBlockDevice → MemBlockDevice × Result MemError ℕ
unfolding seek_to
seek (start n) d = seek_to d (some n)
seek (current o) d = seek_to d (checked_add_signed d.pos o)
seek (end o) d = seek_to d (checked_add_signed (length d.bytes) o)
