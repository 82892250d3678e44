-- ===== src/WeekTime/Date.antt =====
-- `formatDate` of web/src/dd/drag-weektime/DragWeekTime.js, which web/src/utils/utils.js repeats,
-- and the part of the language's `Date` that it reads.
use next_dbm.Base.{
  ℕ, suc, ◌+◌, ◌-◌, ◌*◌, ◌/◌, ◌%◌, [], ◌∷◌, ◌++◌, Text, number_text, length, drop, leb, ◌==◌,
  if◌then◌else◌,
}

-- The getters of a `Date`. `month` counts from 0.
pub record DateFields : Type 0 where
  pub full_year : ℕ
  pub month : ℕ
  pub date : ℕ
  pub hours : ℕ
  pub minutes : ℕ
  pub seconds : ℕ
  pub milliseconds : ℕ

-- The language's calendar (from the civil date of a day number), in the zone `zone` minutes east of
-- UTC, at `stamp` milliseconds after 1970.
module _ (zone stamp : ℕ) where
  local_minutes : ℕ
  local_minutes = stamp / 60000 + zone

  day_of_era : ℕ
  day_of_era = (local_minutes / 1440 + 719468) % 146097

  year_of_era : ℕ
  year_of_era = (day_of_era + day_of_era / 36524 - day_of_era / 1460 - day_of_era / 146096) / 365

  day_of_year : ℕ
  day_of_year = day_of_era + year_of_era / 100 - (365 * year_of_era + year_of_era / 4)

  month_from_march : ℕ
  month_from_march = (5 * day_of_year + 2) / 153

  unfoldable pub local_date : DateFields
  unfolding local_minutes day_of_era year_of_era day_of_year month_from_march
  local_date =
      let late = leb 10 month_from_march in
      let year = year_of_era + 400 * ((local_minutes / 1440 + 719468) / 146097) in
      record {
        full_year = if late then year + 1 else year;
        month = if late then month_from_march - 10 else month_from_march + 2;
        date = day_of_year + 1 - (153 * month_from_march + 2) / 5;
        hours = (local_minutes / 60) % 24;
        minutes = local_minutes % 60;
        seconds = (stamp / 1000) % 60;
        milliseconds = stamp % 1000;
      }

-- The first run of the unit `c`, as the expressions `(y+)`, `(M+)`, … find it: its length, and what
-- follows it.
run_length : ℕ → Text → ℕ
run_length c [] = 0
run_length c (x ∷ xs) = if x == c then suc (run_length c xs) else 0

after_run : ℕ → Text → Text
after_run c [] = []
after_run c (x ∷ xs) = if x == c then after_run c xs else x ∷ xs

-- `fmt.replace(RegExp.$1, f(RegExp.$1.length))`; with no run, nothing changes.
pub replace_run : ℕ → (ℕ → Text) → Text → Text
replace_run c f [] = []
replace_run c f (x ∷ xs) =
    let hit = f (suc (run_length c xs)) ++ after_run c xs in
    let miss = x ∷ replace_run c f xs in if x == c then hit else miss

-- `(year + "").substr(4 - n)`: a negative start counts from the end.
year_text : ℕ → ℕ → Text
year_text year n =
    let s = number_text year in if leb n 4 then drop (4 - n) s else drop (length s - (n - 4)) s

-- `n === 1 ? value : ("00" + value).substr(("" + value).length)`
pub field_text : ℕ → ℕ → Text
field_text value n =
    let s = number_text value in if n == 1 then s else drop (length s) (b'0' ∷ b'0' ∷ s)

-- `(S)` is one unit, not a run.
replace_unit : ℕ → Text → Text → Text
replace_unit c t [] = []
replace_unit c t (x ∷ xs) = if x == c then t ++ xs else x ∷ replace_unit c t xs

unfoldable pub format_date : DateFields → Text → Text
unfolding replace_run run_length after_run year_text field_text replace_unit number_text
format_date d fmt0 =
    let fmt1 = replace_run b'y' (year_text d.full_year) fmt0 in
    let fmt2 = replace_run b'M' (field_text (d.month + 1)) fmt1 in
    let fmt3 = replace_run b'd' (field_text d.date) fmt2 in
    let fmt4 = replace_run b'h' (field_text d.hours) fmt3 in
    let fmt5 = replace_run b'm' (field_text d.minutes) fmt4 in
    let fmt6 = replace_run b's' (field_text d.seconds) fmt5 in
    let fmt7 = replace_run b'q' (field_text ((d.month + 3) / 3)) fmt6 in
    replace_unit b'S' (field_text d.milliseconds 1) fmt7
