-- ===== src/Codec/Time.antt =====
-- src/codec/time.rs and src/codec/fat/entry_time.rs: DOS-packed dates and times. The crate `time` is not code of
-- the repository: its dates and clock times are a record of operations with the documented laws.
pub mod Packing
pub mod RoundTrip
pub mod Words
pub mod Days
use Prim.Native.Nat.{bit_and, bit_or}
use mathlib.Core.Option
use unifat.Prelude.{
  ℕ, suc, ◌+◌, ◌-◌, ◌*◌, ◌/◌, ◌%◌, ◌^◌, ◌≤◌, ◌<◌, ◌≡◌, min, Option, none, some, if◌then◌else◌, ltb,
  ◌==◌, ℤ, pos, negsuc,
}

-- A month is its number, as `u8::from(month)` gives it; a `PrimitiveDateTime` is a date and a time.
pub record Calendar : Type 1 where
  pub Date : Type 0
  pub Time : Type 0
  pub year : Date → ℤ
  pub month : Date → ℕ
  pub day : Date → ℕ
  pub hour : Time → ℕ
  pub minute : Time → ℕ
  pub second : Time → ℕ
  pub millisecond : Time → ℕ
  -- `Date::from_calendar_date(year, Month::try_from(month).ok()?, day).ok()`
  pub from_calendar_date : ℤ → ℕ → ℕ → Option Date
  pub from_hms_milli : ℕ → ℕ → ℕ → ℕ → Option Time
  pub midnight : Time
  -- A date that is built has the parts given, and a date is built from its parts.
  pub date_parts :
      (y : ℤ) (m d : ℕ) {x : Date}
      → from_calendar_date y m d ≡ some x
      → (year x ≡ y) × (month x ≡ m) × (day x ≡ d)
  pub date_built : (x : Date) → from_calendar_date (year x) (month x) (day x) ≡ some x
  pub month_range : (x : Date) → (1 ≤ month x) × (month x ≤ 12)
  pub day_range : (x : Date) → (1 ≤ day x) × (day x ≤ 31)
  -- So for a time, which is known here to the millisecond.
  pub time_parts :
      (h m s ms : ℕ) {t : Time}
      → from_hms_milli h m s ms ≡ some t
      → (hour t ≡ h) × (minute t ≡ m) × (second t ≡ s) × (millisecond t ≡ ms)
  -- A time is built from any parts in range.
  pub time_built :
      (h m s ms : ℕ)
      → h < 24
      → m < 60
      → s < 60
      → ms < 1000
      → (t : Time) × (from_hms_milli h m s ms ≡ some t)
  pub hour_range : (t : Time) → hour t < 24
  pub minute_range : (t : Time) → minute t < 60
  pub second_range : (t : Time) → second t < 60
  pub millisecond_range : (t : Time) → millisecond t < 1000
  pub midnight_built : from_hms_milli 0 0 0 0 ≡ some midnight

abbrev pub epoch_year : ℕ
epoch_year = 1980

-- `x as u8`
abbrev pub as_u8 : ℕ → ℕ
as_u8 x = x % 2 ^ 8

-- `x << k` and `x >> k` on an unsigned word of `w` bits.
abbrev pub shl : ℕ → ℕ → ℕ → ℕ
shl w x k = x * 2 ^ k % 2 ^ w

abbrev pub shr : ℕ → ℕ → ℕ
shr x k = x / 2 ^ k

-- `(year - EPOCH_YEAR).clamp(0, 127)`
unfoldable pub year_field : ℤ → ℕ
year_field (pos y) = min (y - epoch_year) 127
year_field (negsuc _) = 0

module _ (K : Calendar) where
  open K use {Date, Time, year, month, day, hour, minute, second, millisecond, from_calendar_date}
  open K use {from_hms_milli, midnight}

  unfoldable pub decode_time : ℕ → Option Time
  decode_time bits =
      let two_seconds = as_u8 (bit_and bits 0x1F) in
      let minutes = as_u8 (bit_and (shr bits 5) 0x3F) in
      let hours = as_u8 (bit_and (shr bits 11) 0x1F) in
      from_hms_milli hours minutes (min (two_seconds * 2) 255) 0

  unfoldable pub decode_date_word : ℕ → Option Date
  decode_date_word bits =
      let d = as_u8 (bit_and bits 0x1F) in
      let m = as_u8 (bit_and (shr bits 5) 0x0F) in
      from_calendar_date (pos (epoch_year + bit_and (shr bits 9) 0x7F)) m d

  unfoldable pub encode_time : Time → ℕ
  encode_time t = bit_or (bit_or (shl 16 (hour t) 11) (shl 16 (minute t) 5)) (second t / 2)

  unfoldable pub encode_date_word : Date → ℕ
  unfolding year_field
  encode_date_word x = bit_or (bit_or (shl 16 (year_field (year x)) 9) (shl 16 (month x) 5)) (day x)

  unfoldable pub decode_datetime : ℕ → ℕ → Option (Date × Time)
  decode_datetime ts incr_10ms =
      let two_seconds = as_u8 (bit_and ts 0x1F) in
      let minutes = as_u8 (bit_and (shr ts 5) 0x3F) in
      let hours = as_u8 (bit_and (shr ts 11) 0x1F) in
      let d = as_u8 (bit_and (shr ts 16) 0x1F) in
      let m = as_u8 (bit_and (shr ts 21) 0x0F) in
      let y = epoch_year + as_u8 (bit_and (shr ts 25) 0x7F) in
      let seconds = two_seconds * 2 + incr_10ms / 100 in
      let milli = incr_10ms % 100 * 10 in
      if ts == 0
      then none
      else Option.bind (from_calendar_date (pos y) m d)
          (λ date. Option.map (λ clock. (date, clock)) (from_hms_milli hours minutes seconds milli))

  unfoldable pub decode_date : ℕ → Option Date
  unfolding decode_datetime
  decode_date ts = Option.map (λ dt. dt.0) (decode_datetime ts 0)

  unfoldable pub encode_datetime : Date × Time → ℕ × ℕ
  unfolding year_field
  encode_datetime (x, t) =
      let high =
        bit_or (bit_or (shl 32 (year_field (year x)) 25) (shl 32 (month x) 21))
          (shl 32 (day x) 16) in
      let ts =
        bit_or (bit_or (bit_or high (shl 32 (hour t) 11)) (shl 32 (minute t) 5)) (second t / 2) in
      let incr = second t % 2 * 100 + millisecond t / 10 in (ts, if ltb 255 incr then 0 else incr)

  unfoldable pub encode_date : Date → ℕ
  unfolding encode_datetime
  encode_date x = (encode_datetime (x, midnight)).0
