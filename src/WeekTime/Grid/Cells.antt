-- ===== src/WeekTime/Grid/Cells.antt =====
-- The cells, days and state of `DragWeekTime`, the array `data`, and `splicing`.
use next_dbm.Base.{
  ℕ, zero, suc, Bool, false, List, [], ◌∷◌, map, reverse, Text, codes, concat, if◌then◌else◌,
}
use mathlib.Core.List.{tail}
use next_dbm.WeekTime.Label.{format_week_time, slot_begin, slot_end}

pub record Cell : Type 0 where
  pub week : Text
  pub value : Text
  pub begin : Text
  pub end : Text
  pub row : ℕ
  pub col : ℕ
  pub checked : Bool

pub record Day : Type 0 where
  pub value : Text
  pub row : ℕ
  pub child : List Cell

pub record Period : Type 0 where
  pub key : ℕ
  pub value : Text

-- `scheduleStyle`, and the element that an event is about.
pub record Box : Type 0 where
  pub width : ℕ
  pub height : ℕ
  pub left : ℕ
  pub top : ℕ

pub record Picker : Type 0 where
  pub week_time_data : List Day
  pub selected : Bool
  pub mouse_down : Bool
  pub start_row : ℕ
  pub start_col : ℕ
  pub checked : Bool
  pub schedule_style : Box
  pub time_period : List Period

-- `children`: `n` slots from column `col` on.
unfoldable pub new_cell : ℕ → Text → ℕ → ℕ → Cell
new_cell zone week row col = record {
  week = week;
  value = format_week_time zone col;
  begin = slot_begin zone col;
  end = slot_end zone col;
  row = row;
  col = col;
  checked = false;
}

unfoldable pub children : ℕ → Text → ℕ → ℕ → ℕ → List Cell
children zone week row col zero = []
children zone week row col (suc n) = new_cell zone week row col ∷ children zone week row (suc col) n

unfoldable pub days_from : ℕ → ℕ → List Text → List Day
days_from zone index [] = []
days_from zone index (ret ∷ rest) =
    record { value = ret; row = index; child = children zone ret index 0 48 }
    ∷ days_from zone (suc index) rest

unfoldable pub week_names : List Text
week_names = map codes ("星期一" ∷ "星期二" ∷ "星期三" ∷ "星期四" ∷ "星期五" ∷ "星期六" ∷ "星期日" ∷ [])

-- The array `data`.
unfoldable pub week_data : ℕ → List Day
week_data zone = days_from zone 0 week_names

abbrev pub no_box : Box
no_box = record { width = 0; height = 0; left = 0; top = 0 }

abbrev pub initial : ℕ → Picker
initial zone = record {
  week_time_data = week_data zone;
  selected = false;
  mouse_down = false;
  start_row = 0;
  start_col = 0;
  checked = false;
  schedule_style = no_box;
  time_period = [];
}

-- `splicing`: the tokens stand in reverse, so that the last one pushed comes first.
abbrev pub replace_last : Text → List Text → List Text
replace_last t [] = []
replace_last t (_ ∷ rest) = t ∷ rest

unfoldable pub splice_step : List Text → Bool → Cell → List Text
splice_step result same item =
    if item.checked
    then (if same
        then replace_last item.end result
        else item.end ∷ codes "~" ∷ item.begin ∷ codes "、" ∷ result)
    else result

unfoldable pub splice_loop : List Text → Bool → List Cell → List Text
splice_loop result same [] = result
splice_loop result same (item ∷ arr) = splice_loop (splice_step result same item) item.checked arr

unfoldable pub splicing : List Cell → Text
splicing arr = concat (tail (reverse (splice_loop [] false arr)))
