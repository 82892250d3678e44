-- ===== src/WeekTime/Tests.antt =====
-- The picker on concrete slots: Monday 08:00 to 10:30, and Tuesday.
use next_dbm.Base.{◌≡◌, refl, codes, [], ◌∷◌, some, map}
use next_dbm.WeekTime.Label.{slot_begin, slot_end}
use next_dbm.WeekTime.Zone.{china}
use next_dbm.WeekTime.Grid.{
  Cell, Box, Picker, new_cell, initial, map_cells, handle_mouse_down, handle_mouse_up,
  deal_time_period, handle_change_time_period, day_period, splicing, splice_loop, splice_step,
  week_data, days_from, children, week_names, select_drag, select_week, select_cell,
  render_week_time,
}
use next_dbm.WeekTime.WeekRoundTrip.{IsStandard, render_week_time-deal}
use next_dbm.WeekTime.Standard.{
  press, release, handle, handle_all, handle_all-IsStandard, initial-IsStandard,
}
use next_dbm.WeekTime.Select.{box_cell, handle_mouse_up-down}

abbrev monday_8 : Cell
monday_8 = new_cell china (codes "星期一") 0 16

abbrev tuesday_10 : Cell
tuesday_10 = new_cell china (codes "星期二") 1 20

abbrev dragged : Picker
dragged = handle_mouse_up monday_8 (handle_mouse_down tuesday_10 (initial china))

dragged-IsStandard : IsStandard dragged.week_time_data
unfolding handle_all handle
dragged-IsStandard = handle_all-IsStandard (press tuesday_10 ∷ release monday_8 ∷ []) dragged refl

render_week_time-deal_example :
    (r : Picker) × (render_week_time (deal_time_period dragged).time_period (initial china)
      ≡ some r)
    × (r.week_time_data ≡ dragged.week_time_data)
    × (r.time_period ≡ (deal_time_period dragged).time_period)
render_week_time-deal_example =
    render_week_time-deal dragged (initial china) dragged-IsStandard initial-IsStandard

handle_mouse_up-down_example :
    dragged.week_time_data ≡ map_cells (box_cell tuesday_10 monday_8) (initial china).week_time_data
handle_mouse_up-down_example = handle_mouse_up-down tuesday_10 monday_8 (initial china)

abbrev cell_box : Box
cell_box = record { width = 20; height = 30; left = 100; top = 200 }

dragged_value :
    map (λ t. t.value) dragged.time_period
    ≡ codes "08:00~10:30" ∷ codes "08:00~10:30" ∷ [] ∷ [] ∷ [] ∷ [] ∷ [] ∷ []
unfolding handle_mouse_up handle_mouse_down deal_time_period handle_change_time_period day_period
    splicing splice_loop splice_step week_data days_from children week_names select_drag select_week
    select_cell new_cell slot_begin slot_end
dragged_value = refl
