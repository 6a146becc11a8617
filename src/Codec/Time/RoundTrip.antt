-- ===== src/Codec/Time/RoundTrip.antt =====
-- Encoding and decoding of src/codec/time.rs are inverse to one another, up to the resolution of the format.
use Prim.Native.Nat.{bit_and, bit_or}
use mathlib.Core.Option
use unifat.Prelude.{
  ℕ, ◌+◌, ◌*◌, ◌/◌, ◌%◌, ◌^◌, ◌≤◌, ◌<◌, ◌≡◌, refl, sym, ap, ◌∙◌, arith, false, Bool-cases, inl, inr,
  Option, none, some, ℤ, pos, negsuc, ◌==◌,
}
use unifat.Codec.Time.{
  Calendar, epoch_year, year_field, shl, shr, as_u8, decode_datetime, encode_datetime,
}
use unifat.Codec.Time.Packing.{date_half, time_half, mask4, mask5, mask6, mask7}

-- The packed fields of a 32-bit stamp, as the decoder reads them.
abbrev pub stamp : ℕ → ℕ → ℕ → ℕ → ℕ → ℕ → ℕ
stamp y m d h mi s = (y * 512 + m * 32 + d) * 2 ^ 16 + (h * 2 ^ 11 + mi * 32 + s)

pub year_field-le : (y : ℤ) → year_field y ≤ 127
unfolding year_field
year_field-le (pos n) = omega arith
year_field-le (negsuc n) = omega arith

year_field-past : (n : ℕ) → 2107 < n → year_field (pos n) ≡ 127
unfolding year_field
year_field-past n past = omega arith

year_field-add : (y : ℕ) → y ≤ 127 → year_field (pos (epoch_year + y)) ≡ y
unfolding year_field
year_field-add y y_fits = omega arith

pub year_field_in : (n : ℕ) → 1980 ≤ n → n ≤ 2107 → epoch_year + year_field (pos n) ≡ n
unfolding year_field
year_field_in n lo hi = omega arith

module _ (K : Calendar) where
  open K use {Date, Time, year, month, day, hour, minute, second, millisecond, from_calendar_date}
  open K use {from_hms_milli, midnight}

  -- The date and a time of these parts were read.
  abbrev pub ReadBack : ℕ → ℕ → ℕ → ℕ → Date → Option (Date × Time) → Type 0
  ReadBack h m s ms x o =
      (clock : Time) × (o ≡ some (x, clock)) × (from_hms_milli h m s ms ≡ some clock)

  pub encode_datetime-stamp :
      (x : Date) (t : Time)
      → (encode_datetime K (x, t)).0
        ≡ stamp (year_field (year x)) (month x) (day x) (hour t) (minute t) (second t / 2)
  unfolding encode_datetime
  encode_datetime-stamp x t =
      let y = year_field (year x) in
      let high = y * 512 + month x * 32 + day x in
      let yf = year_field-le (year x) in
      ap (λ w. bit_or (bit_or (bit_or w (shl 32 (hour t) 11)) (shl 32 (minute t) 5)) (second t / 2))
        {x = bit_or (bit_or (shl 32 y 25) (shl 32 (month x) 21)) (shl 32 (day x) 16)}
        {y = high * 2 ^ 16}
        (date_half y (month x) (day x) yf (omega (arith, K.month_range x))
            (omega (arith, K.day_range x))
          ∙ omega arith)
      ∙ time_half high (hour t) (minute t) (second t / 2) (omega (arith, K.hour_range t))
          (omega (arith, K.minute_range t)) (omega (arith, K.second_range t))

  pub encode_datetime-incr :
      (x : Date) (t : Time) → (encode_datetime K (x, t)).1 ≡ second t % 2 * 100 + millisecond t / 10
  unfolding encode_datetime
  encode_datetime-incr x t = ground (arith, K.millisecond_range t)

  -- The decoder on a stamp of fields in range.
  decode_stamp :
      (y m d h mi s incr : ℕ)
      → y ≤ 127
      → 1 ≤ stamp y m d h mi s
      → m ≤ 15
      → d ≤ 31
      → h ≤ 31
      → mi ≤ 63
      → s ≤ 31
      → decode_datetime K (stamp y m d h mi s) incr
        ≡ Option.bind (from_calendar_date (pos (epoch_year + y)) m d) (λ date.
          Option.map
            (λ clock. (date, clock))
            (from_hms_milli h mi (s * 2 + incr / 100) (incr % 100 * 10)))
  unfolding decode_datetime
  decode_stamp y m d h mi s incr yf m1 mf df hf mif sf =
      let ts = stamp y m d h mi s in
      let e1 : as_u8 (bit_and ts 0x1F) ≡ s = mask5 ts ∙ omega arith in
      let e2 : as_u8 (bit_and (shr ts 5) 0x3F) ≡ mi = mask6 (shr ts 5) ∙ omega arith in
      let e3 : as_u8 (bit_and (shr ts 11) 0x1F) ≡ h = mask5 (shr ts 11) ∙ omega arith in
      let e4 : as_u8 (bit_and (shr ts 16) 0x1F) ≡ d = mask5 (shr ts 16) ∙ omega arith in
      let e5 : as_u8 (bit_and (shr ts 21) 0x0F) ≡ m = mask4 (shr ts 21) ∙ omega arith in
      let e6 : as_u8 (bit_and (shr ts 25) 0x7F) ≡ y = mask7 (shr ts 25) ∙ omega arith in
      let more : (ts == 0) ≡ false = ground arith in rw (more, e1, e2, e3, e4, e5, e6) refl

  -- Decoding what was encoded gives the date with its year held to 1980..2107, and the time to 10 ms.
  pub decode-encode_clamped :
      (x : Date) (t : Time)
      → decode_datetime K (encode_datetime K (x, t)).0 (encode_datetime K (x, t)).1
        ≡ Option.bind
            (from_calendar_date (pos (epoch_year + year_field (year x))) (month x) (day x))
            (λ date.
              Option.map
                (λ clock. (date, clock))
                (from_hms_milli (hour t) (minute t) (second t) (millisecond t / 10 * 10)))
  decode-encode_clamped x t =
      let mr = K.month_range x in
      let dr = K.day_range x in
      let hr = K.hour_range t in
      let mir = K.minute_range t in
      let sr = K.second_range t in
      let msr = K.millisecond_range t in
      let i = (encode_datetime K (x, t)).1 in
      let ie = encode_datetime-incr x t in
      let s_eq : second t / 2 * 2 + i / 100 ≡ second t = omega arith in
      let ms_eq : i % 100 * 10 ≡ millisecond t / 10 * 10 = omega arith in
      ap (λ w. decode_datetime K w i) (encode_datetime-stamp x t)
      ∙ decode_stamp (year_field (year x)) (month x) (day x) (hour t) (minute t) (second t / 2) i
          (year_field-le (year x)) (omega arith) (omega arith) (omega arith) (omega arith)
          (omega arith) (omega arith)
      ∙ rw (s_eq, ms_eq) refl

  -- Where 29 February 2107 is no date, a 29 February of a year past 2107 is encoded to a stamp that
  -- does not decode.
  pub decode-encode_lost :
      (x : Date) (t : Time) (n : ℕ)
      → from_calendar_date (pos 2107) 2 29 ≡ none
      → year x ≡ pos n
      → 2107 < n
      → month x ≡ 2
      → day x ≡ 29
      → decode_datetime K (encode_datetime K (x, t)).0 (encode_datetime K (x, t)).1 ≡ none
  unfolding Option.bind
  decode-encode_lost x t n not_leap e past m2 d29 =
      decode-encode_clamped x t ∙ rw (e, m2, d29, year_field-past n past, not_leap) refl

  -- The stamp with any increment, for a year that the format holds.
  pub decode-encode_incr :
      (x : Date) (t : Time) (n i : ℕ)
      → year x ≡ pos n
      → 1980 ≤ n
      → n ≤ 2107
      → decode_datetime K (encode_datetime K (x, t)).0 i
        ≡ Option.map
            (λ clock. (x, clock))
            (from_hms_milli (hour t) (minute t) (second t / 2 * 2 + i / 100) (i % 100 * 10))
  unfolding Option.bind
  decode-encode_incr x t n i e lo hi =
      let mr = K.month_range x in
      let dr = K.day_range x in
      let hr = K.hour_range t in
      let mir = K.minute_range t in
      let sr = K.second_range t in
      let y_eq : pos (epoch_year + year_field (year x)) ≡ year x =
        ap (λ y. pos (epoch_year + year_field y)) e ∙ ap pos (year_field_in n lo hi) ∙ sym e in
      let built = ap (λ y. from_calendar_date y (month x) (day x)) y_eq ∙ K.date_built x in
      ap (λ w. decode_datetime K w i) (encode_datetime-stamp x t)
      ∙ decode_stamp (year_field (year x)) (month x) (day x) (hour t) (minute t) (second t / 2) i
          (year_field-le (year x)) (omega arith) (omega arith) (omega arith) (omega arith)
          (omega arith) (omega arith)
      ∙ rw built refl

  -- On a calendar with the laws of the crate time, a date of a year in 1980..2107 and a time, encoded
  -- to a stamp and its 10 ms increment, decode to the same date and to a time with the hour, minute
  -- and second given and the milliseconds cut to 10 ms.
  pub decode-encode :
      (x : Date) (t : Time) (n : ℕ)
      → year x ≡ pos n
      → 1980 ≤ n
      → n ≤ 2107
      → ReadBack
          (hour t)
          (minute t)
          (second t)
          (millisecond t / 10 * 10)
          x
          (decode_datetime K (encode_datetime K (x, t)).0 (encode_datetime K (x, t)).1)
  unfolding Option.bind
  decode-encode x t n e lo hi =
      let y_eq : pos (epoch_year + year_field (year x)) ≡ year x =
        ap (λ y. pos (epoch_year + year_field y)) e ∙ ap pos (year_field_in n lo hi) ∙ sym e in
      let built = ap (λ y. from_calendar_date y (month x) (day x)) y_eq ∙ K.date_built x in
      let (clock, made) =
        K.time_built (hour t) (minute t) (second t) (millisecond t / 10 * 10) (K.hour_range t)
          (K.minute_range t) (K.second_range t) (omega (arith, K.millisecond_range t)) in
      (clock, decode-encode_clamped x t ∙ rw (built, made) refl, made)

  both-some :
      (a : Option Date) (b : Option Time) (x : Date) (t : Time)
      → Option.bind {B = Date × Time} a (λ date. Option.map (λ clock. (date, clock)) b)
        ≡ some (x, t)
      → (a ≡ some x) × (b ≡ some t)
  unfolding Option.bind
  both-some none b x t e = ground arith
  both-some (some a) none x t e = ground arith
  both-some (some a) (some b) x t e =
      let pair = Option.some-injective (a, b) (x, t) e in
      (ap (λ p. some p.0) pair, ap (λ p. some p.1) pair)

  -- A 32-bit stamp and an increment below 200 that decode to a date and time are what this date and
  -- time encode to.
  pub encode-decode :
      (ts incr : ℕ) (x : Date) (t : Time)
      → ts < 2 ^ 32
      → incr < 200
      → decode_datetime K ts incr ≡ some (x, t)
      → encode_datetime K (x, t) ≡ (ts, incr)
  unfolding decode_datetime
  encode-decode ts incr x t w32 i200 e = elim (Bool-cases (ts == 0)) [
    | inl z ↦ absurd (Option.none-ne-some (x, t) (sym (rw z refl) ∙ e))
    | inr nz ↦
        let y' = ts / 2 ^ 25 in
        let m' = ts / 2 ^ 21 % 16 in
        let d' = ts / 2 ^ 16 % 32 in
        let h' = ts / 2 ^ 11 % 32 in
        let mi' = ts / 32 % 64 in
        let s' = ts % 32 in
        let split : stamp y' m' d' h' mi' s' ≡ ts = omega arith in
        let decoded =
          sym (
            decode_stamp y' m' d' h' mi' s' incr (omega arith) (ground arith) (omega arith)
              (omega arith) (omega arith) (omega arith) (omega arith))
          ∙ ap (λ w. decode_datetime K w incr) split
          ∙ e in
        let both =
          both-some (from_calendar_date (pos (epoch_year + y')) m' d')
            (from_hms_milli h' mi' (s' * 2 + incr / 100) (incr % 100 * 10)) x t decoded in
        let (ye, me, de) = K.date_parts (pos (epoch_year + y')) m' d' both.0 in
        let (he, mie, se, mse) =
          K.time_parts h' mi' (s' * 2 + incr / 100) (incr % 100 * 10) both.1 in
        let ts_eq : (encode_datetime K (x, t)).0 ≡ ts =
          encode_datetime-stamp x t
          ∙ rw (ye, year_field-add y' (omega arith), me, de, he, mie, se) (omega arith) in
        let incr_eq : (encode_datetime K (x, t)).1 ≡ incr =
          encode_datetime-incr x t ∙ omega arith in
        ap (λ w. (w, (encode_datetime K (x, t)).1)) ts_eq ∙ ap (λ i. (ts, i)) incr_eq
  ]
