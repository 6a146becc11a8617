-- ===== src/Codec/Time/Words.antt =====
-- The separate date and time words of src/codec/time.rs, encoded and decoded.
use Prim.Native.Nat.{bit_and}
use mathlib.Core.Option
use unifat.Prelude.{ℕ, ◌+◌, ◌*◌, ◌/◌, ◌^◌, ◌≤◌, ◌≡◌, refl, sym, ap, ◌∙◌, arith, some, min, pos}
use unifat.Codec.Time.{
  Calendar, epoch_year, year_field, shr, as_u8, decode_time, decode_date_word, encode_time,
  encode_date_word, decode_datetime, encode_datetime, decode_date, encode_date,
}
use unifat.Prelude.Bits.{bit_and_low}
use unifat.Codec.Time.Packing.{date_word, time_word, mask4, mask5, mask6}
use unifat.Codec.Time.RoundTrip.{year_field-le, year_field_in, decode-encode, encode_datetime-incr}

module _ (K : Calendar) where
  open K use {Date, Time, year, month, day, hour, minute, second, millisecond, from_calendar_date}
  open K use {from_hms_milli, midnight}

  pub encode_date_word-sum :
      (x : Date) → encode_date_word K x ≡ year_field (year x) * 512 + month x * 32 + day x
  unfolding encode_date_word
  encode_date_word-sum x =
      date_word (year_field (year x)) (month x) (day x) (year_field-le (year x))
        (omega (arith, K.month_range x)) (omega (arith, K.day_range x))

  -- A date of a year in 1980..2107 comes back from its 16-bit date word.
  pub decode_date_word-encode_date_word :
      (x : Date) (n : ℕ)
      → year x ≡ pos n
      → 1980 ≤ n
      → n ≤ 2107
      → decode_date_word K (encode_date_word K x) ≡ some x
  unfolding decode_date_word
  decode_date_word-encode_date_word x n e lo hi =
      let y = year_field (year x) in
      let yf = year_field-le (year x) in
      let mr = K.month_range x in
      let dr = K.day_range x in
      let w = y * 512 + month x * 32 + day x in
      let e1 : as_u8 (bit_and w 0x1F) ≡ day x = mask5 w ∙ omega arith in
      let e2 : as_u8 (bit_and (shr w 5) 0x0F) ≡ month x = mask4 (shr w 5) ∙ omega arith in
      let e3 : bit_and (shr w 9) 0x7F ≡ y = bit_and_low 7 (shr w 9) ∙ omega arith in
      let y_eq : pos (epoch_year + y) ≡ year x =
        ap (λ z. pos (epoch_year + year_field z)) e ∙ ap pos (year_field_in n lo hi) ∙ sym e in
      ap (decode_date_word K) (encode_date_word-sum x)
      ∙ rw (decode_date_word, e1, e2, e3, y_eq) (K.date_built x)

  -- A time comes back from its 16-bit time word with its second cut to an even one and no fraction.
  pub decode_time-encode_time :
      (t : Time)
      → decode_time K (encode_time K t) ≡ from_hms_milli (hour t) (minute t) (second t / 2 * 2) 0
  unfolding decode_time encode_time
  decode_time-encode_time t =
      let hr = K.hour_range t in
      let mir = K.minute_range t in
      let sr = K.second_range t in
      let w = hour t * 2 ^ 11 + minute t * 32 + second t / 2 in
      let e0 =
        time_word (hour t) (minute t) (second t / 2) (omega arith) (omega arith) (omega arith) in
      let e1 : min (as_u8 (bit_and w 0x1F) * 2) 255 ≡ second t / 2 * 2 =
        rw (mask5 w) (omega arith) in
      let e2 : as_u8 (bit_and (shr w 5) 0x3F) ≡ minute t = mask6 (shr w 5) ∙ omega arith in
      let e3 : as_u8 (bit_and (shr w 11) 0x1F) ≡ hour t = mask5 (shr w 11) ∙ omega arith in
      rw (e0, decode_time, e1, e2, e3) refl

  midnight_parts :
      (hour midnight ≡ 0)
      × (minute midnight ≡ 0)
      × (second midnight ≡ 0)
      × (millisecond midnight ≡ 0)
  midnight_parts = K.time_parts 0 0 0 0 K.midnight_built

  -- A date of a year in 1980..2107 comes back from the 32-bit stamp at midnight that `encode_date`
  -- makes of it.
  pub decode_date-encode_date :
      (x : Date) (n : ℕ)
      → year x ≡ pos n
      → 1980 ≤ n
      → n ≤ 2107
      → decode_date K (encode_date K x) ≡ some x
  unfolding decode_date encode_date
  decode_date-encode_date x n e lo hi =
      let parts = midnight_parts in
      let incr : (encode_datetime K (x, midnight)).1 ≡ 0 =
        encode_datetime-incr K x midnight ∙ omega arith in
      let (clock, read, made) = decode-encode K x midnight n e lo hi in
      ap (λ i. Option.map (λ dt. dt.0) (decode_datetime K (encode_datetime K (x, midnight)).0 i))
        (sym incr)
      ∙ ap (Option.map (λ dt. dt.0)) read
