-- ===== src/WeekTime/Label.antt =====
-- The labels of the slots: `formatWeekTime` and its inverse `countIndex`.
use next_dbm.Base.{
  ℕ, ◌+◌, ◌*◌, Bool, true, false, ◌&&◌, [], ◌∷◌, ◌++◌, Text, codes, split, text_number, get_elem?,
  take, ◌==◌, if◌then◌else◌, Option, none, some,
}
use next_dbm.WeekTime.Date.{local_date, format_date}

-- `formatWeekTime`, in a zone `zone` minutes east of UTC.
unfoldable pub format_week_time : ℕ → ℕ → Text
unfolding local_date format_date
format_week_time zone col =
    let timestamp : ℕ = 1542384000000 in
    let beginstamp = timestamp + col * 1800000 in
    let endstamp = beginstamp + 1800000 in
    let begin = format_date (local_date zone beginstamp) (codes "hh:mm") in
    let end = format_date (local_date zone endstamp) (codes "hh:mm") in begin ++ (b'~' ∷ end)

-- `wt.split('~')[i]`; the two calls of the code find it, so the default is not met.
abbrev split_at : ℕ → Text → Text
split_at i wt = elim (get_elem? (split b'~' wt) i) [ none ↦ [] | some t ↦ t ]

unfoldable pub slot_begin : ℕ → ℕ → Text
unfolding format_week_time split
slot_begin zone col = split_at 0 (format_week_time zone col)

unfoldable pub slot_end : ℕ → ℕ → Text
unfolding format_week_time split
slot_end zone col = split_at 1 (format_week_time zone col)

-- `val.match(/30/)`
pub has_30 : Text → Bool
has_30 [] = false
has_30 (x ∷ []) = false
has_30 (x ∷ y ∷ xs) = let rest = has_30 (y ∷ xs) in if x == b'3' && y == b'0' then true else rest

-- `one.startsWith('0') ? one.substr(1, 2) : one`
pub strip_zero : Text → Text
strip_zero [] = []
strip_zero (x ∷ xs) = if x == b'0' then take 2 xs else x ∷ xs

-- `countIndex`; `none` is NaN.
unfoldable pub count_index : Text → Option ℕ
unfolding has_30 strip_zero text_number
count_index val =
    let one = take 2 val in
    let a2 : ℕ = if has_30 val then 1 else 0 in
    elim (text_number (strip_zero one)) [ none ↦ none | some a1 ↦ some (a1 * 2 + a2) ]
