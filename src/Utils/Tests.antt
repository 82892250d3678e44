-- ===== src/Utils/Tests.antt =====
-- Some paths, names and handlers.
use next_dbm.Base.{
  ◌+◌, ◌-◌, ◌*◌, ◌<◌, ◌≤◌, ◌≡◌, refl, [], ◌∷◌, codes, length, number_text, some, arith,
}
use next_dbm.Utils.Clock.{
  is_leap_year, leap_years_from, leap_years, difference, differ_time, show_difference, pad,
  zero_pad, format_time,
}
use next_dbm.Utils.Durations.{difference_bounds, zeros, zero_pad-zeros}
use next_dbm.Utils.Defs.{cut_string_at_dash, last_dash, last_index_of, EventBus}

last_dash_test : cut_string_at_dash (codes "db-t1-x") last_dash ≡ codes "db-t1"
unfolding cut_string_at_dash last_index_of
last_dash_test = refl

abbrev bus : EventBus
bus = record { events = (codes "CHANGE", 1 ∷ []) ∷ []; calls = [] }

-- Nine minutes and five seconds.
nine_minutes : format_time 545000 ≡ some (codes "09:05")
unfolding format_time zero_pad pad number_text
nine_minutes = refl

-- Exactly one year.
one_year : differ_time 31536000 2021 2022 ≡ codes "1年365天0秒"
unfolding differ_time difference leap_years leap_years_from is_leap_year show_difference number_text
one_year = refl

difference_bounds_example :
    ((difference 90061 2023 2023).year ≡ 0)
    × ((difference 90061 2023 2023).day * 86400
          + (difference 90061 2023 2023).hour * 3600
          + (difference 90061 2023 2023).minute * 60
          + (difference 90061 2023 2023).second
        ≡ 90061)
    × ((difference 90061 2023 2023).hour < 24)
    × ((difference 90061 2023 2023).minute < 60)
    × ((difference 90061 2023 2023).second < 60)
difference_bounds_example = difference_bounds 90061 2023 2023 (omega arith)

zero_pad-zeros_example :
    (zero_pad 7 3 ≡ some (zeros (3 - length (number_text 7)) (number_text 7)))
    × (3 ≤ length (zeros (3 - length (number_text 7)) (number_text 7)))
zero_pad-zeros_example = zero_pad-zeros 7 3
