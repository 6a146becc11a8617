-- ===== src/Codec/EntryTime.antt =====
-- src/codec/fat/entry_time.rs: the time stamps of a FAT directory entry, in the words that stand on the disk.
pub mod RoundTrip
use Prim.Native.Nat.{bit_and, bit_or}
use mathlib.Core.Option
use unifat.Prelude.{
  ℕ, suc, ◌+◌, ◌-◌, ◌*◌, ◌/◌, ◌%◌, ◌^◌, ◌≤◌, ◌<◌, ◌≡◌, Option, none, some, if◌then◌else◌, ◌==◌,
}
use unifat.Codec.Time.{
  Calendar, shl, shr, decode_date_word, encode_date_word, decode_datetime, encode_datetime,
}

unfoldable pub pack : ℕ → ℕ → ℕ
pack date time = bit_or (shl 32 date 16) time

-- The time word and the date word.
unfoldable pub split : ℕ → ℕ × ℕ
split ts = (bit_and ts 0xFFFF % 2 ^ 16, shr ts 16 % 2 ^ 16)

pub record EntryCreationTime : Type 0 where
  pub incr_10ms : ℕ
  pub time : ℕ
  pub date : ℕ

pub record EntryModificationTime : Type 0 where
  pub time : ℕ
  pub date : ℕ

pub record EntryLastAccessedTime : Type 0 where
  pub date : ℕ

module _ (K : Calendar) where
  open K use {Date, Time}

  -- `Option<PrimitiveDateTime>::from(value)`
  unfoldable pub creation_datetime : EntryCreationTime → Option (Date × Time)
  unfolding pack
  creation_datetime value =
      if value.date == 0
      then none
      else decode_datetime K (pack value.date value.time) value.incr_10ms

  -- `value.map_or((0, 0), dos::encode_datetime)`
  unfoldable pub encode_or_zero : Option (Date × Time) → ℕ × ℕ
  encode_or_zero none = (0, 0)
  encode_or_zero (some dt) = encode_datetime K dt

  -- `EntryCreationTime::from(value)`
  unfoldable pub creation_entry : Option (Date × Time) → EntryCreationTime
  unfolding split encode_or_zero
  creation_entry value =
      let (ts, incr) = encode_or_zero value in
      let (time_word, date_word) = split ts in
      record { incr_10ms = incr; time = time_word; date = date_word }

  -- `PrimitiveDateTime::try_from(value)`
  unfoldable pub modification_datetime : EntryModificationTime → Option (Date × Time)
  unfolding pack
  modification_datetime value = decode_datetime K (pack value.date value.time) 0

  -- `EntryModificationTime::from(value)`
  unfoldable pub modification_entry : Date × Time → EntryModificationTime
  unfolding split
  modification_entry value =
      let (time_word, date_word) = split ((encode_datetime K value).0) in
      record { time = time_word; date = date_word }

  -- `Option<Date>::from(value)`
  unfoldable pub accessed_date : EntryLastAccessedTime → Option Date
  accessed_date value = if value.date == 0 then none else decode_date_word K value.date

  -- `EntryLastAccessedTime::from(value)`
  unfoldable pub accessed_entry : Option Date → EntryLastAccessedTime
  accessed_entry none = record { date = 0 }
  accessed_entry (some x) = record { date = encode_date_word K x }
