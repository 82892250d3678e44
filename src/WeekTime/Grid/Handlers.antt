-- ===== src/WeekTime/Grid/Handlers.antt =====
-- The handlers of the mouse and of the two links, from `selectWeek` to `handleMouseUp`.
use next_dbm.Base.{
  ℕ, ◌+◌, ◌-◌, ◌*◌, Bool, true, false, not, ◌&&◌, List, [], ◌∷◌, map, leb, ltb, ◌==◌, if◌then◌else◌,
}
use next_dbm.WeekTime.Grid.Cells.{Cell, Day, Period, Box, Picker, no_box, splicing}

-- `selectWeek`
abbrev pub in_range : ℕ × ℕ → ℕ × ℕ → Cell → Bool
in_range rows cols item =
    leb rows.0 item.row && (leb item.row rows.1 && (leb cols.0 item.col && leb item.col cols.1))

unfoldable pub select_cell : ℕ × ℕ → ℕ × ℕ → Bool → Cell → Cell
select_cell rows cols checked item =
    if in_range rows cols item then record item { checked = checked } else item

abbrev pub map_day : (Cell → Cell) → Day → Day
map_day f day = record day { child = map f day.child }

abbrev pub map_cells : (Cell → Cell) → List Day → List Day
map_cells f = map (map_day f)

unfoldable pub select_week : ℕ × ℕ → ℕ × ℕ → Bool → Picker → Picker
select_week rows cols checked p = record p {
  week_time_data = map_cells (select_cell rows cols checked) p.week_time_data;
}

-- `handleChangeTimePeriod`; `onChange` receives the new `time_period`.
unfoldable pub handle_change_time_period : List Period → Picker → Picker
handle_change_time_period periods p = record p {
  selected = elim periods [ [] ↦ false | _ ∷ _ ↦ true ];
  time_period = periods;
}

unfoldable pub day_period : Day → Period
day_period item = record {
  key = if item.row == 6 then 0 else item.row + 1;
  value = splicing item.child;
}

unfoldable pub deal_time_period : Picker → Picker
deal_time_period p = handle_change_time_period (map day_period p.week_time_data) p

abbrev pub set_checked : Bool → Cell → Cell
set_checked b item = record item { checked = b }

unfoldable pub handle_clear_week_time : Picker → Picker
handle_clear_week_time p =
    handle_change_time_period []
      (record p { week_time_data = map_cells (set_checked false) p.week_time_data })

unfoldable pub handle_select_all_week_time : Picker → Picker
handle_select_all_week_time p =
    deal_time_period (record p { week_time_data = map_cells (set_checked true) p.week_time_data })

-- `handleMouseEnter`; the box of `e.target` is its offsets.
unfoldable pub handle_mouse_enter : Box → Cell → Picker → Picker
handle_mouse_enter target item p =
    let style = p.schedule_style in
    let new_style =
      if not p.mouse_down
      then record style { left = target.left; top = target.top }
      else if leb item.col p.start_col && leb item.row p.start_row
      then record {
        width = (p.start_col - item.col + 1) * target.width;
        height = (p.start_row - item.row + 1) * target.height;
        left = target.left;
        top = target.top;
      }
      else if leb p.start_col item.col && leb p.start_row item.row
      then record {
        width = (item.col - p.start_col + 1) * target.width;
        height = (item.row - p.start_row + 1) * target.height;
        left =
            if item.col == p.start_col && ltb p.start_row item.row then target.left else style.left;
        top = if ltb p.start_col item.col && item.row == p.start_row then target.top else style.top;
      }
      else if ltb p.start_col item.col && ltb item.row p.start_row
      then record {
        width = (item.col - p.start_col + 1) * target.width;
        height = (p.start_row - item.row + 1) * target.height;
        left = style.left;
        top = target.top;
      }
      else if ltb item.col p.start_col && ltb p.start_row item.row
      then record {
        width = (p.start_col - item.col + 1) * target.width;
        height = (item.row - p.start_row + 1) * target.height;
        left = target.left;
        top = style.top;
      }
      else style in
    record p { schedule_style = new_style }

unfoldable pub handle_mouse_down : Cell → Picker → Picker
handle_mouse_down item p = record p {
  checked = item.checked;
  mouse_down = true;
  start_row = item.row;
  start_col = item.col;
}

-- The four corners that a drag can end at.
unfoldable pub select_drag : Cell → Picker → Picker
select_drag item p =
    if leb item.col p.start_col && leb item.row p.start_row
    then select_week (item.row, p.start_row) (item.col, p.start_col) (not p.checked) p
    else if leb p.start_col item.col && leb p.start_row item.row
    then select_week (p.start_row, item.row) (p.start_col, item.col) (not p.checked) p
    else if ltb p.start_col item.col && ltb item.row p.start_row
    then select_week (item.row, p.start_row) (p.start_col, item.col) (not p.checked) p
    else if ltb item.col p.start_col && ltb p.start_row item.row
    then select_week (p.start_row, item.row) (item.col, p.start_col) (not p.checked) p
    else p

unfoldable pub handle_mouse_up : Cell → Picker → Picker
handle_mouse_up item p =
    deal_time_period (record (select_drag item p) { schedule_style = no_box; mouse_down = false })
