-- ===== src/WeekTime/Select.antt =====
-- What a drag of the mouse selects, and what every handler keeps.
use next_dbm.Base.{ℕ, ◌+◌, ◌-◌, ◌*◌, min, ◌≡◌, Bool, not, ◌&&◌, List, leb, if◌then◌else◌, arith}
use Prim.Native.Nat.{max}
use next_dbm.WeekTime.Grid.{
  Cell, Day, Picker, Box, set_checked, map_cells, select_cell, select_week, select_drag,
  handle_mouse_enter, handle_mouse_down, handle_mouse_up, deal_time_period,
  handle_change_time_period,
}

-- The rectangle with two slots at opposite corners.
abbrev pub in_box : Cell → Cell → Cell → Bool
in_box a b item =
    leb (min a.row b.row) item.row
    && (leb item.row (max a.row b.row)
        && (leb (min a.col b.col) item.col && leb item.col (max a.col b.col)))

abbrev pub box_cell : Cell → Cell → Cell → Cell
box_cell a b item = if in_box a b item then set_checked (not a.checked) item else item

map_cells-box_cell :
    (a b : Cell) (r0 r1 c0 c1 : ℕ) (days : List Day)
    → r0 ≡ min a.row b.row
    → r1 ≡ max a.row b.row
    → c0 ≡ min a.col b.col
    → c1 ≡ max a.col b.col
    → map_cells (select_cell (r0, r1) (c0, c1) (not a.checked)) days ≡ map_cells (box_cell a b) days
unfolding select_cell
map_cells-box_cell a b r0 r1 c0 c1 days e0 e1 e2 e3 = rw (e0, e1, e2, e3)

select_drag-box_cell :
    (a b : Cell) (p : Picker)
    → (select_drag b (handle_mouse_down a p)).week_time_data
      ≡ map_cells (box_cell a b) p.week_time_data
unfolding select_drag handle_mouse_down select_week
select_drag-box_cell a b p = ground (
  arith,
  map_cells-box_cell a b b.row a.row b.col a.col p.week_time_data,
  map_cells-box_cell a b a.row b.row a.col b.col p.week_time_data,
  map_cells-box_cell a b b.row a.row a.col b.col p.week_time_data,
  map_cells-box_cell a b a.row b.row b.col a.col p.week_time_data,
)

-- Pressing on one slot and releasing on another, in any direction, gives the whole rectangle between
-- them the opposite of the first slot's mark, and leaves every other slot as it was.
pub handle_mouse_up-down :
    (a b : Cell) (p : Picker)
    → (handle_mouse_up b (handle_mouse_down a p)).week_time_data
      ≡ map_cells (box_cell a b) p.week_time_data
unfolding handle_mouse_up deal_time_period handle_change_time_period
handle_mouse_up-down a b p = select_drag-box_cell a b p

-- While the button is down, the highlighted box is as many slots wide and high as the drag spans.
pub handle_mouse_enter-down :
    (target : Box) (a b : Cell) (p : Picker)
    → let style = (handle_mouse_enter target b (handle_mouse_down a p)).schedule_style in
      (style.width ≡ (max a.col b.col - min a.col b.col + 1) * target.width)
      × (style.height ≡ (max a.row b.row - min a.row b.row + 1) * target.height)
unfolding handle_mouse_enter handle_mouse_down
handle_mouse_enter-down target a b p = ground arith
