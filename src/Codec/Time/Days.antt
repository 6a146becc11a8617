-- ===== src/Codec/Time/Days.antt =====
-- A calendar of the years from 0 on, with the months' lengths and the leap years: what the crate `time` does, built by a test on the parts.
use mathlib.Core.Option
use mathlib.Core.Bool.{Bool-set, true≢false}
use unifat.Prelude.{
  ℕ, ◌%◌, ◌≤◌, ◌<◌, ◌≡◌, refl, sym, ap, ◌∙◌, arith, Option, none, some, ℤ, pos, negsuc, leb, ltb,
  leb→le, ltb→lt, Bool, true, false, ◌&&◌, ◌||◌, not, ◌==◌, if◌then◌else◌,
}
use unifat.Codec.Time.{Calendar}

-- The values that pass a test.
abbrev Checked : {A : Type 0} → (A → Bool) → Type 0
Checked {A} ok = (a : A) × (ok a ≡ true)

unfoldable pub keep :
    {A : Type 0} (ok : A → Bool) (a : A) (b : Bool) → ok a ≡ b → Option (Checked ok)
keep ok a true e = some (a, e)
keep ok a false e = none

pub keep-same :
    {A : Type 0} (ok : A → Bool) (a : A) (b : Bool) (e : ok a ≡ b) {x : Checked ok}
    → keep ok a b e ≡ some x
    → x.0 ≡ a
unfolding keep
keep-same ok a true e {x} h = sym (ap (λ p. p.0) (Option.some-injective (a, e) x h))
keep-same ok a false e {x} h = absurd (Option.none-ne-some x h)

pub keep-built :
    {A : Type 0} (ok : A → Bool) (x : Checked ok) (b : Bool) (e : ok x.0 ≡ b)
    → keep ok x.0 b e ≡ some x
unfolding keep
keep-built ok x true e = ap (λ q. some (x.0, q)) (Bool-set (ok x.0) true e x.1)
keep-built ok x false e = absurd (true≢false (sym x.1 ∙ e))

pub keep-passed :
    {A : Type 0} (ok : A → Bool) (a : A) (b : Bool) (e : ok a ≡ b) (passed : ok a ≡ true)
    → keep ok a b e ≡ some (a, passed)
unfolding keep
keep-passed ok a true e passed = ap (λ q. some (a, q)) (Bool-set (ok a) true e passed)
keep-passed ok a false e passed = absurd (true≢false (sym passed ∙ e))

abbrev is_leap : ℕ → Bool
is_leap y = (y % 4 == 0) && not ((y % 100 == 0) && not (y % 400 == 0))

abbrev last_day : ℕ → ℕ → ℕ
last_day y m =
    if m == 2
    then (if is_leap y then 29 else 28)
    else if (m == 4) || (m == 6) || (m == 9) || (m == 11)
    then 30
    else 31

last_day-le : (y m : ℕ) → last_day y m ≤ 31
last_day-le y m = ground arith

and-both : (a b : Bool) → a && b ≡ true → (a ≡ true) × (b ≡ true)
and-both true true e = (refl, refl)
and-both true false e = absurd (true≢false (sym e))
and-both false b e = absurd (true≢false (sym e))

-- The years before year 0 have no date here.
unfoldable pub is_date : ℤ × (ℕ × ℕ) → Bool
is_date (pos y, (m, d)) = (leb 1 m && leb m 12) && (leb 1 d && leb d (last_day y m))
is_date (negsuc y, (m, d)) = false

unfoldable pub is_time : ℕ × (ℕ × (ℕ × ℕ)) → Bool
is_time (h, (m, (s, ms))) = (ltb h 24 && ltb m 60) && (ltb s 60 && ltb ms 1000)

pub date_in :
    (x : ℤ × (ℕ × ℕ)) → is_date x ≡ true → (1 ≤ x.1.0) × (x.1.0 ≤ 12) × (1 ≤ x.1.1) × (x.1.1 ≤ 31)
unfolding is_date
date_in (pos y, (m, d)) e =
    let last = last_day-le y m in
    let halves = and-both (leb 1 m && leb m 12) (leb 1 d && leb d (last_day y m)) e in
    let months = and-both (leb 1 m) (leb m 12) halves.0 in
    let days = and-both (leb 1 d) (leb d (last_day y m)) halves.1 in
    let day_le = leb→le d (last_day y m) days.1 in
    (leb→le 1 m months.0, leb→le m 12 months.1, leb→le 1 d days.0, omega arith)
date_in (negsuc y, (m, d)) e = absurd (true≢false (sym e))

pub time_in :
    (t : ℕ × (ℕ × (ℕ × ℕ)))
    → is_time t ≡ true
    → (t.0 < 24) × (t.1.0 < 60) × (t.1.1.0 < 60) × (t.1.1.1 < 1000)
unfolding is_time
time_in (h, (m, (s, ms))) e =
    let halves = and-both (ltb h 24 && ltb m 60) (ltb s 60 && ltb ms 1000) e in
    let first = and-both (ltb h 24) (ltb m 60) halves.0 in
    let second = and-both (ltb s 60) (ltb ms 1000) halves.1 in
    (ltb→lt h 24 first.0, ltb→lt m 60 first.1, ltb→lt s 60 second.0, ltb→lt ms 1000 second.1)

pub in_time :
    (h m s ms : ℕ) → h < 24 → m < 60 → s < 60 → ms < 1000 → is_time (h, (m, (s, ms))) ≡ true
unfolding is_time
in_time h m s ms hh hm hs hms = ground arith

unfoldable pub calendar : Calendar
unfolding is_date is_time keep
calendar = record {
  Date = Checked is_date;
  Time = Checked is_time;
  year = λ x. x.0.0;
  month = λ x. x.0.1.0;
  day = λ x. x.0.1.1;
  hour = λ t. t.0.0;
  minute = λ t. t.0.1.0;
  second = λ t. t.0.1.1.0;
  millisecond = λ t. t.0.1.1.1;
  from_calendar_date = λ y m d. keep is_date (y, (m, d)) (is_date (y, (m, d))) refl;
  from_hms_milli = λ h m s ms. keep is_time (h, (m, (s, ms))) (is_time (h, (m, (s, ms)))) refl;
  midnight = ((0, (0, (0, 0))), refl);
  date_parts = λ y m d h.
      let e = keep-same is_date (y, (m, d)) (is_date (y, (m, d))) refl h in
      (ap (λ p. p.0) e, ap (λ p. p.1.0) e, ap (λ p. p.1.1) e);
  date_built = λ x. keep-built is_date x (is_date x.0) refl;
  month_range = λ x. ((date_in x.0 x.1).0, (date_in x.0 x.1).1);
  day_range = λ x. ((date_in x.0 x.1).2, (date_in x.0 x.1).3);
  time_parts = λ h m s ms h'.
      let e = keep-same is_time (h, (m, (s, ms))) (is_time (h, (m, (s, ms)))) refl h' in
      (ap (λ p. p.0) e, ap (λ p. p.1.0) e, ap (λ p. p.1.1.0) e, ap (λ p. p.1.1.1) e);
  time_built = λ h m s ms hh hm hs hms.
      let passed = in_time h m s ms hh hm hs hms in
      (
        ((h, (m, (s, ms))), passed),
        keep-passed is_time (h, (m, (s, ms))) (is_time (h, (m, (s, ms)))) refl passed,
      );
  hour_range = λ t. (time_in t.0 t.1).0;
  minute_range = λ t. (time_in t.0 t.1).1;
  second_range = λ t. (time_in t.0 t.1).2;
  millisecond_range = λ t. (time_in t.0 t.1).3;
  midnight_built = refl;
}
