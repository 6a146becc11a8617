-- ===== src/Codec/EntryTime/RoundTrip.antt =====
-- The stamps of src/codec/fat/entry_time.rs, written to an entry and read back.

use unifat.Prelude.{
  ℕ, ◌+◌, ◌*◌, ◌/◌, ◌%◌, ◌^◌, ◌≤◌, ◌<◌, ◌≡◌, refl, ap, ◌∙◌, arith, Option, none, some, pos, ◌==◌,
  false,
}
use unifat.Prelude.Bits.{bit_and_low, bit_or_disjoint}
use unifat.Codec.Time.{Calendar, shl, shr, encode_date_word, encode_datetime}
use unifat.Codec.Time.RoundTrip.{
  ReadBack, year_field-le, decode-encode, encode_datetime-stamp, decode-encode_incr,
}
use unifat.Codec.Time.Words.{encode_date_word-sum, decode_date_word-encode_date_word}
use unifat.Codec.EntryTime.{
  pack, split, creation_datetime, creation_entry, encode_or_zero, modification_datetime,
  modification_entry, accessed_date, accessed_entry,
}

pub pack-sum :
    (date time : ℕ) → date < 2 ^ 16 → time < 2 ^ 16 → pack date time ≡ date * 2 ^ 16 + time
unfolding pack
pack-sum date time date_fits time_fits =
    bit_or_disjoint 16 (shl 32 date 16) time (omega arith) (omega arith) ∙ omega arith

split-time : (ts : ℕ) → (split ts).0 ≡ ts % 2 ^ 16
unfolding split
split-time ts = ap (λ w. w % 2 ^ 16) (bit_and_low 16 ts) ∙ omega arith

-- A timestamp is its two words packed again.
pub pack-split : (ts : ℕ) → ts < 2 ^ 32 → pack (split ts).1 (split ts).0 ≡ ts
unfolding split
pack-split ts fits =
    ap (pack (split ts).1) (split-time ts)
    ∙ pack-sum (split ts).1 (ts % 2 ^ 16) (omega arith) (omega arith)
    ∙ omega arith

-- Two 16-bit words packed into a stamp are split into the same words.
pub split-pack :
    (date time : ℕ) → date < 2 ^ 16 → time < 2 ^ 16 → split (pack date time) ≡ (time, date)
unfolding split
split-pack date time date_fits time_fits =
    let whole = pack-sum date time date_fits time_fits in
    let low : (split (pack date time)).0 ≡ time =
      split-time (pack date time) ∙ ap (λ w. w % 2 ^ 16) whole ∙ omega arith in
    let high : (split (pack date time)).1 ≡ date =
      ap (λ w. shr w 16 % 2 ^ 16) whole ∙ omega arith in
    ap (λ w. (w, (split (pack date time)).1)) low ∙ ap (λ w. (time, w)) high

module _ (K : Calendar) where
  open K use {Date, Time, year, month, day, hour, minute, second, millisecond, from_calendar_date}
  open K use {from_hms_milli, midnight}

  stamp-fits : (x : Date) (t : Time) → (encode_datetime K (x, t)).0 < 2 ^ 32
  stamp-fits x t =
      let se = encode_datetime-stamp K x t in
      let yf = year_field-le (year x) in
      let mr = K.month_range x in
      let dr = K.day_range x in
      let hr = K.hour_range t in
      let mir = K.minute_range t in let sr = K.second_range t in omega arith

  -- A date has a month and a day, so its word is never the zero that stands for no date.
  stamp-date : (x : Date) (t : Time) → ((split (encode_datetime K (x, t)).0).1 == 0) ≡ false
  unfolding split
  stamp-date x t =
      let se = encode_datetime-stamp K x t in
      let yf = year_field-le (year x) in
      let mr = K.month_range x in
      let dr = K.day_range x in
      let hr = K.hour_range t in
      let mir = K.minute_range t in let sr = K.second_range t in ground arith

  -- On a calendar with the laws of the crate time, a creation date and time of a year in 1980..2107
  -- that is written to a directory entry reads back as the same date and the time cut to 10 ms,
  -- midnight included.
  pub creation_datetime-creation_entry :
      (x : Date) (t : Time) (n : ℕ)
      → year x ≡ pos n
      → 1980 ≤ n
      → n ≤ 2107
      → ReadBack K
          (hour t)
          (minute t)
          (second t)
          (millisecond t / 10 * 10)
          x
          (creation_datetime K (creation_entry K (some (x, t))))
  unfolding creation_datetime creation_entry encode_or_zero
  creation_datetime-creation_entry x t n e lo hi =
      let ts = (encode_datetime K (x, t)).0 in
      rw (stamp-date x t, pack-split ts (stamp-fits x t)) (decode-encode K x t n e lo hi)

  -- On a calendar with the laws of the crate time, a modification date and time of a year in
  -- 1980..2107 that is written to a directory entry reads back as the same date and the time cut to
  -- the even second.
  pub modification_datetime-modification_entry :
      (x : Date) (t : Time) (n : ℕ)
      → year x ≡ pos n
      → 1980 ≤ n
      → n ≤ 2107
      → ReadBack K
          (hour t)
          (minute t)
          (second t / 2 * 2)
          0
          x
          (modification_datetime K (modification_entry K (x, t)))
  unfolding modification_datetime modification_entry
  modification_datetime-modification_entry x t n e lo hi =
      let ts = (encode_datetime K (x, t)).0 in
      let even : second t / 2 * 2 + 0 / 100 ≡ second t / 2 * 2 = omega arith in
      let (clock, made) =
        K.time_built (hour t) (minute t) (second t / 2 * 2) 0 (K.hour_range t) (K.minute_range t)
          (omega (arith, K.second_range t)) (omega arith) in
      (
        clock,
        rw (pack-split ts (stamp-fits x t))
            (decode-encode_incr K x t n 0 e lo hi ∙ rw (even, made) refl),
        made,
      )

  -- An optional access date, of a year in 1980..2107 where there is one, comes back from the directory
  -- entry, and no date comes back as no date.
  pub accessed_date-accessed_entry :
      (o : Option Date) (n : ℕ)
      → ((x : Date) → o ≡ some x → year x ≡ pos n)
      → 1980 ≤ n
      → n ≤ 2107
      → accessed_date K (accessed_entry K o) ≡ o
  unfolding accessed_date accessed_entry
  accessed_date-accessed_entry none n e lo hi = refl
  accessed_date-accessed_entry (some x) n e lo hi =
      let sum = encode_date_word-sum K x in
      let mr = K.month_range x in
      let there : (encode_date_word K x == 0) ≡ false = ground arith in
      rw there (decode_date_word-encode_date_word K x n (e x refl) lo hi)
