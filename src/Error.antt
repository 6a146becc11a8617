-- ===== src/Error.antt =====
-- src/error.rs: the error values of volume operations and of open files, over the storage's own
-- error type `Io`, and results.
use unifat.Prelude.{Option, none, some}

pub data CorruptKind : Type 0 where
  boot_sector fs_info fat_tables cluster_chain dir_entry codec other : CorruptKind

pub data FsError (Io : Type 0) : Type 0 where
  io : Io → FsError Io
  not_found already_exists not_a_directory is_a_directory directory_not_empty : FsError Io
  file_locked storage_full root_directory_full invalid_input file_too_large : FsError Io
  read_only_file permission_denied : FsError Io
  corrupt : CorruptKind → FsError Io
  unsupported : FsError Io

-- `Result<A, E>`. `abort` is no Rust value: it stands for a panic of the code (a failed `expect`, an
-- index out of range), and for a loop of the model that ran out of its fuel.
pub data Result (E A : Type 0) : Type 0 where
  ok : A → Result E A
  err : E → Result E A
  abort : Result E A

abbrev pub FsResult : Type 0 → Type 0 → Type 0
FsResult Io A = Result (FsError Io) A

-- `embedded_io::ReadExactError`.
pub data ReadExactError (Io : Type 0) : Type 0 where
  unexpected_eof : ReadExactError Io
  device : Io → ReadExactError Io

-- The conversion of a failed exact read into a volume error.
abbrev pub from_read_exact : {Io : Type 0} → ReadExactError Io → FsError Io
from_read_exact unexpected_eof = corrupt other
from_read_exact (device e) = io e

-- `let a = e?; ...` in a method: an error or a panic ends it, with the state reached.
abbrev pub and_then :
    {S E A B : Type 0} → S × Result E A → (S → A → S × Result E B) → S × Result E B
and_then (s, ok a) k = k s a
and_then (s, err e) k = (s, err e)
and_then (s, abort) k = (s, abort)

-- An `expect`, or an index, that panics where there is nothing.
abbrev pub or_abort : {S E A B : Type 0} → S → Option A → (A → S × Result E B) → S × Result E B
or_abort s none k = (s, abort)
or_abort s (some a) k = k a

-- The errors of an open file.
pub data FileError (Io : Type 0) : Type 0 where
  io : Io → FileError Io
  storage_full file_too_large read_only invalid_seek corrupt : FileError Io

abbrev pub FileResult : Type 0 → Type 0 → Type 0
FileResult Io A = Result (FileError Io) A

-- `FileError::from(value)`
unfoldable pub file_error : {Io : Type 0} → FsError Io → FileError Io
file_error (FsError.io e) = FileError.io e
file_error FsError.not_found = FileError.corrupt
file_error FsError.already_exists = FileError.corrupt
file_error FsError.not_a_directory = FileError.corrupt
file_error FsError.is_a_directory = FileError.corrupt
file_error FsError.directory_not_empty = FileError.corrupt
file_error FsError.file_locked = FileError.corrupt
file_error FsError.storage_full = FileError.storage_full
file_error FsError.root_directory_full = FileError.storage_full
file_error FsError.invalid_input = FileError.corrupt
file_error FsError.file_too_large = FileError.file_too_large
file_error FsError.read_only_file = FileError.read_only
file_error FsError.permission_denied = FileError.corrupt
file_error (FsError.corrupt k) = FileError.corrupt
file_error FsError.unsupported = FileError.corrupt

-- `FsError::from(value)`
unfoldable pub fs_error : {Io : Type 0} → FileError Io → FsError Io
fs_error (FileError.io e) = FsError.io e
fs_error FileError.storage_full = FsError.storage_full
fs_error FileError.file_too_large = FsError.file_too_large
fs_error FileError.read_only = FsError.read_only_file
fs_error FileError.invalid_seek = FsError.invalid_input
fs_error FileError.corrupt = FsError.corrupt other
