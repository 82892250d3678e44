-- ===== src/Utils/Durations.antt =====
-- What differTime counts and shows, and that zeroPad ends.
use next_dbm.Base.{
  ℕ, zero, suc, ◌+◌, ◌-◌, ◌*◌, ◌/◌, ◌%◌, ◌<◌, ◌≤◌, ◌≡◌, refl, ap, sym, ◌∙◌, true, false, ◌∷◌, ◌++◌,
  Text, length, number_text, ltb, leb, if◌then◌else◌, some, Bool-cases, inl, inr, holds_below,
  of_holds_below, arith, ltb→lt, leb→le,
}
use next_dbm.Utils.Clock.{
  is_leap_year, leap_years_from, leap_years, day_part, difference, pad, zero_pad, format_time,
}

-- The leap years before a year, counted from the year 0 on.
abbrev pub leap_years_before : ℕ → ℕ
leap_years_before year = (year + 3) / 4 + (year + 399) / 400 - (year + 99) / 100

step_lem :
    (year : ℕ)
    → (if is_leap_year year then 1 else 0) + leap_years_before year ≡ leap_years_before (suc year)
unfolding is_leap_year
step_lem year = ground arith

leap_years_from-eq :
    (year left : ℕ)
    → leap_years_from year left + leap_years_before year ≡ leap_years_before (left + year)
unfolding leap_years_from
leap_years_from-eq year zero = omega arith
leap_years_from-eq year (suc left) =
    omega (arith, step_lem year, leap_years_from-eq (suc year) left)

-- From one year to a later one, the loop finds as many leap years as the Gregorian rule has in between:
-- every fourth year, without the full centuries, but with every fourth of these.
pub leap_years-eq :
    (start_year current_year : ℕ)
    → start_year ≤ current_year
    → leap_years start_year current_year + leap_years_before start_year
      ≡ leap_years_before current_year
unfolding leap_years
leap_years-eq start_year current_year h =
    leap_years_from-eq start_year (current_year - start_year) ∙ ap leap_years_before (omega arith)

day_part_lem : (all_day leap_year : ℕ) → all_day ≤ 366 → day_part all_day leap_year ≡ all_day
day_part_lem all_day leap_year h =
    let short : ltb 366 all_day ≡ false = ground arith in rw (short, if◌then◌else◌) refl

-- For less than 365 days, wherever the years turn, the days, hours, minutes and seconds are exactly the time between,
-- each below its bound, and no year is shown.
pub difference_bounds :
    (seconds start_year current_year : ℕ)
    → seconds < 31536000
    → let d = difference seconds start_year current_year in
      (d.year ≡ 0)
      × (d.day * 86400 + d.hour * 3600 + d.minute * 60 + d.second ≡ seconds)
      × (d.hour < 24)
      × (d.minute < 60)
      × (d.second < 60)
unfolding difference
difference_bounds seconds start_year current_year h = (
  omega arith,
  omega (arith, day_part_lem (seconds / 86400) (leap_years start_year current_year)),
  omega arith,
  omega arith,
  omega arith,
)

-- A difference of 365 or 366 days with no leap year among the years from the start's on is shown as one year and, once more,
-- all its days.
pub difference_twice :
    (seconds start_year current_year : ℕ)
    → leap_years start_year current_year ≡ 0
    → 31536000 ≤ seconds
    → seconds < 31708800
    → let d = difference seconds start_year current_year in (d.year ≡ 1) × (d.day ≡ seconds / 86400)
unfolding difference
difference_twice seconds start_year current_year none_leap lo hi =
    rw none_leap (omega arith, day_part_lem (seconds / 86400) 0 (omega arith))

-- Of the text only zeros are added in front, as many as it is too short.
abbrev pub zeros : ℕ → Text → Text
zeros zero str = str
zeros (suc n) str = zeros n (48 ∷ str)

pad_lem :
    (fuel min_length : ℕ) (str : Text)
    → min_length - length str < fuel
    → pad fuel min_length str ≡ some (zeros (min_length - length str) str)
unfolding pad
pad_lem zero min_length str h = absurd (omega arith)
pad_lem (suc fuel) min_length str h = elim (Bool-cases (ltb (length str) min_length)) [
  | inl more ↦
      let short : length str < min_length = ltb→lt (length str) min_length more in
      let left : min_length - length str ≡ suc (min_length - suc (length str)) = omega arith in
      rw more
        (pad_lem fuel min_length (48 ∷ str) (omega arith) ∙ sym (ap (λ n. some (zeros n str)) left))
  | inr done ↦
      let full : min_length - length str ≡ 0 = ground arith in
      rw done (sym (ap (λ n. some (zeros n str)) full))
]

length-zeros : (n : ℕ) (str : Text) → length (zeros n str) ≡ n + length str
length-zeros zero str = omega arith
length-zeros (suc n) str = omega (arith, length-zeros n (48 ∷ str))

-- The loop of zeroPad ends, and leaves the number's text with as many zeros in front as it was too
-- short, so that its length is at least the one that is asked for.
pub zero_pad-zeros :
    (num min_length : ℕ)
    → let padded = zeros (min_length - length (number_text num)) (number_text num) in
      (zero_pad num min_length ≡ some padded) × (min_length ≤ length padded)
unfolding zero_pad
zero_pad-zeros num min_length =
    let t = number_text num in
    (
      pad_lem (suc min_length) min_length t (omega arith),
      omega (arith, length-zeros (min_length - length t) t),
    )

length-zeros_fit :
    (min_length : ℕ) (t : Text)
    → length t ≤ min_length
    → length (zeros (min_length - length t) t) ≡ min_length
length-zeros_fit min_length t h = omega (arith, length-zeros (min_length - length t) t)

two_digits : (n : ℕ) → n < 100 → length (number_text n) ≤ 2
unfolding holds_below number_text
two_digits n h =
    leb→le (length (number_text n)) 2
      (of_holds_below (λ k. leb (length (number_text k)) 2) 100 {k = n} h table)
  where
    table : holds_below (λ k. leb (length (number_text k)) 2) 100 ≡ true
    table = refl

-- For less than a hundred minutes the text of formatTime has five characters: two, a colon, and two.
pub format_time-length :
    (millis : ℕ)
    → millis < 6000000
    → (minutes seconds : Text) × (format_time millis ≡ some (minutes ++ (58 ∷ seconds)))
      × (length minutes ≡ 2)
      × (length seconds ≡ 2)
unfolding format_time
format_time-length millis h =
    let a = (zero_pad-zeros (millis / 1000 / 60) 2).0 in
    let b = (zero_pad-zeros (millis / 1000 % 60) 2).0 in
    (
      _,
      _,
      rw (a, b) refl,
      length-zeros_fit 2 _ (two_digits (millis / 1000 / 60) (omega arith)),
      length-zeros_fit 2 _ (two_digits (millis / 1000 % 60) (omega arith)),
    )
