-- ===== src/Utils/Clock.antt =====
-- Times and durations: isLeapYear and differTime of web/src/utils/utils.js, zeroPad of utils/strings.js,
-- formatTime of utils/times.js.
use next_dbm.Base.{
  ℕ, zero, suc, ◌+◌, ◌-◌, ◌*◌, ◌/◌, ◌%◌, Bool, not, ◌&&◌, ◌||◌, [], ◌∷◌, ◌++◌, Text, codes, concat,
  length, number_text, ltb, leb, ◌==◌, if◌then◌else◌, Option, none, some,
}

unfoldable pub is_leap_year : ℕ → Bool
is_leap_year year = (year % 4 == 0 && not (year % 100 == 0)) || (year % 100 == 0 && year % 400 == 0)

-- `for (let i = startYear; i < currentYear; i++)`, with the years that are left.
unfoldable pub leap_years_from : (year left : ℕ) → ℕ
leap_years_from year zero = 0
leap_years_from year (suc left) =
    (if is_leap_year year then 1 else 0) + leap_years_from (suc year) left

unfoldable pub leap_years : (start_year current_year : ℕ) → ℕ
leap_years start_year current_year = leap_years_from start_year (current_year - start_year)

-- The parts of `differTime`, for an end that is not before the start. A number of years or days below
-- zero is 0 here: neither is shown.
pub record Difference : Type 0 where
  pub year : ℕ
  pub day : ℕ
  pub hour : ℕ
  pub minute : ℕ
  pub second : ℕ

abbrev pub day_part : (all_day leap_year : ℕ) → ℕ
day_part all_day leap_year =
    if ltb 366 all_day
    then (if leb (leap_year * 366) all_day then (all_day - leap_year * 366) % 365 else 0)
    else all_day

-- `Math.floor((allDay - leapYear * 366) / 365 + leapYear)` is the quotient of `allDay - leapYear` by 365.
unfoldable pub difference : (seconds start_year current_year : ℕ) → Difference
difference seconds start_year current_year =
    let all_day = seconds / 86400 in
    let leap_year = leap_years start_year current_year in
    let remainder = seconds % 86400 in
    record {
      year = (all_day - leap_year) / 365;
      day = day_part all_day leap_year;
      hour = remainder / 3600;
      minute = remainder % 3600 / 60;
      second = remainder - remainder / 3600 * 3600 - remainder % 3600 / 60 * 60;
    }

abbrev pub positive_part : ℕ → Text → Text
positive_part n unit = if ltb 0 n then number_text n ++ unit else []

unfoldable pub show_difference : Difference → Text
show_difference d = concat (
    positive_part d.year (codes "年")
    ∷ positive_part d.day (codes "天")
    ∷ positive_part d.hour (codes "小时")
    ∷ positive_part d.minute (codes "分钟")
    ∷ (number_text d.second ++ codes "秒")
    ∷ [])

unfoldable pub differ_time : (seconds start_year current_year : ℕ) → Text
differ_time seconds start_year current_year =
    show_difference (difference seconds start_year current_year)

-- The loop of `zeroPad`, on fuel; `none` if it runs out.
unfoldable pub pad : ℕ → (min_length : ℕ) → Text → Option Text
pad zero min_length str = none
pad (suc fuel) min_length str =
    let rest = pad fuel min_length (48 ∷ str) in
    if ltb (length str) min_length then rest else some str

unfoldable pub zero_pad : (num min_length : ℕ) → Option Text
zero_pad num min_length = pad (suc min_length) min_length (number_text num)

abbrev pub with_colon : Option Text → Option Text → Option Text
with_colon none seconds = none
with_colon (some minutes) none = none
with_colon (some minutes) (some seconds) = some (minutes ++ (58 ∷ seconds))

unfoldable pub format_time : (millis : ℕ) → Option Text
format_time millis =
    let total_seconds = millis / 1000 in
    with_colon (zero_pad (total_seconds / 60) 2) (zero_pad (total_seconds % 60) 2)
