-- ===== src/Codec/Tests.antt =====
-- The time codecs run on the calendar of Codec/Time/Days.antt, and their theorems at concrete stamps.
use mathlib.Core.Option
use unifat.Prelude.{◌*◌, ◌/◌, ◌≡◌, refl, subst, arith, none, some, pos}
use unifat.Codec.Time.{decode_datetime, encode_datetime, encode_time, encode_date_word, year_field}
use unifat.Codec.Time.Days.{calendar, keep, is_date, is_time}
use unifat.Codec.Time.RoundTrip.{ReadBack, decode-encode, decode-encode_lost, encode-decode}
use unifat.Codec.EntryTime.{
  pack, split, creation_datetime, creation_entry, modification_datetime, modification_entry,
  accessed_date, accessed_entry,
}
use unifat.Codec.EntryTime.RoundTrip.{
  pack-split, creation_datetime-creation_entry, modification_datetime-modification_entry,
  accessed_date-accessed_entry,
}

codec : Unit {0}
unfolding calendar encode_datetime decode_datetime year_field is_date is_time keep encode_date_word
    encode_time Option.bind
codec = tt

-- 29 February 2024, 23:59:59.123.
leap_day : calendar.Date
unfolding codec
leap_day = ((pos 2024, (2, 29)), refl)

late : calendar.Time
unfolding codec
late = ((23, (59, (59, 123))), refl)

far_day : calendar.Date
unfolding codec
far_day = ((pos 2108, (2, 29)), refl)

leap_day_words : encode_datetime calendar (leap_day, late) ≡ (1482538877, 112)
unfolding codec leap_day late
leap_day_words = refl

leap_year : calendar.year leap_day ≡ pos 2024
unfolding codec leap_day
leap_year = refl

decode-encode_example :
    ReadBack calendar
      (calendar.hour late)
      (calendar.minute late)
      (calendar.second late)
      (calendar.millisecond late / 10 * 10)
      leap_day
      (decode_datetime calendar
        (encode_datetime calendar (leap_day, late)).0
        (encode_datetime calendar (leap_day, late)).1)
decode-encode_example =
    decode-encode calendar leap_day late 2024 leap_year (omega arith) (omega arith)

late_120 : calendar.Time
unfolding codec
late_120 = ((23, (59, (59, 120))), refl)

leap_decodes : decode_datetime calendar 1482538877 112 ≡ some (leap_day, late_120)
unfolding codec leap_day late_120
leap_decodes = refl

encode-decode_example : encode_datetime calendar (leap_day, late_120) ≡ (1482538877, 112)
encode-decode_example =
    encode-decode calendar 1482538877 112 leap_day late_120 (omega arith) (omega arith) leap_decodes

far_day_parts :
    (calendar.year far_day ≡ pos 2108)
    × (calendar.month far_day ≡ 2)
    × (calendar.day far_day ≡ 29)
    × (calendar.from_calendar_date (pos 2107) 2 29 ≡ none)
unfolding codec far_day
far_day_parts = (refl, refl, refl, refl)

decode-encode_lost_example :
    decode_datetime calendar
      (encode_datetime calendar (far_day, late)).0
      (encode_datetime calendar (far_day, late)).1
    ≡ none
decode-encode_lost_example =
    decode-encode_lost calendar far_day late 2108 far_day_parts.3 far_day_parts.0 (omega arith)
      far_day_parts.1 far_day_parts.2

pack-split_example : pack (split 1482538877).1 (split 1482538877).0 ≡ 1482538877
pack-split_example = pack-split 1482538877 (omega arith)

creation_datetime-creation_entry_example :
    ReadBack calendar
      (calendar.hour calendar.midnight)
      (calendar.minute calendar.midnight)
      (calendar.second calendar.midnight)
      (calendar.millisecond calendar.midnight / 10 * 10)
      leap_day
      (creation_datetime calendar (creation_entry calendar (some (leap_day, calendar.midnight))))
creation_datetime-creation_entry_example =
    creation_datetime-creation_entry calendar leap_day calendar.midnight 2024 leap_year
      (omega arith) (omega arith)

modification_datetime-modification_entry_example :
    ReadBack calendar
      (calendar.hour late)
      (calendar.minute late)
      (calendar.second late / 2 * 2)
      0
      leap_day
      (modification_datetime calendar (modification_entry calendar (leap_day, late)))
modification_datetime-modification_entry_example =
    modification_datetime-modification_entry calendar leap_day late 2024 leap_year (omega arith)
      (omega arith)

leap_year_of : (x : calendar.Date) → some leap_day ≡ some x → calendar.year x ≡ pos 2024
leap_year_of x e =
    subst (λ d. calendar.year d ≡ pos 2024) (Option.some-injective leap_day x e) leap_year

accessed_date-accessed_entry_example :
    accessed_date calendar (accessed_entry calendar (some leap_day)) ≡ some leap_day
accessed_date-accessed_entry_example =
    accessed_date-accessed_entry calendar (some leap_day) 2024 leap_year_of (omega arith)
      (omega arith)
