-- ===== src/WeekTime/Standard/Sessions.antt =====
-- Runs of the events of `DragWeekTime`.
use next_dbm.Base.{
  ℕ, zero, suc, ◌≡◌, refl, ◌∙◌, Bool, true, false, not, List, [], ◌∷◌, map, Text, Option, some,
  Option-cases, inl, inr, arith,
}
use next_dbm.WeekTime.Zone.{china}
use next_dbm.WeekTime.Grid.{
  Cell, Day, Period, Picker, Box, set_checked, map_cells, select_cell, select_week, select_drag,
  handle_mouse_enter, handle_mouse_down, handle_mouse_up, handle_clear_week_time,
  handle_select_all_week_time, deal_time_period, handle_change_time_period, render_week_time,
  render_periods, and_then, initial, week_data, week_names, children, days_from, new_cell,
}
use next_dbm.WeekTime.WeekRoundTrip.{IsStandard}
use next_dbm.WeekTime.Standard.Shape.{shape, map_cells-shape, select_cell-unmarked}
use next_dbm.WeekTime.Standard.Rendering.{and_then-view, render_periods-shape}

-- What the user and the parent component do.
pub data Event : Type 0 where
  enter : Box → Cell → Event
  press : Cell → Event
  release : Cell → Event
  clear : Event
  all : Event
  render : List Period → Event

-- A `render` that throws ends the run.
unfoldable pub handle : Event → Picker → Option Picker
handle (enter target item) p = some (handle_mouse_enter target item p)
handle (press item) p = some (handle_mouse_down item p)
handle (release item) p = some (handle_mouse_up item p)
handle clear p = some (handle_clear_week_time p)
handle all p = some (handle_select_all_week_time p)
handle (render periods) p = render_week_time periods p

unfoldable pub handle_all : List Event → Picker → Option Picker
handle_all [] p = some p
handle_all (e ∷ es) p = let rest = λ (q : Picker). handle_all es q in and_then (handle e p) rest

select_week-shape :
    (rows cols : ℕ × ℕ) (b : Bool) (p : Picker)
    → shape (select_week rows cols b p).week_time_data ≡ shape p.week_time_data
unfolding select_week
select_week-shape rows cols b p =
    map_cells-shape (select_cell rows cols b) (select_cell-unmarked rows cols b) p.week_time_data

select_drag-shape :
    (b : Cell) (p : Picker) → shape (select_drag b p).week_time_data ≡ shape p.week_time_data
unfolding select_drag
select_drag-shape b p = ground (
  arith,
  select_week-shape (b.row, p.start_row) (b.col, p.start_col) (not p.checked) p,
  select_week-shape (p.start_row, b.row) (p.start_col, b.col) (not p.checked) p,
  select_week-shape (b.row, p.start_row) (p.start_col, b.col) (not p.checked) p,
  select_week-shape (p.start_row, b.row) (b.col, p.start_col) (not p.checked) p,
)

render_week_time-shape :
    (periods : List Period) (p q : Picker)
    → render_week_time periods p ≡ some q
    → shape q.week_time_data ≡ shape p.week_time_data
unfolding render_week_time handle_clear_week_time deal_time_period handle_change_time_period
render_week_time-shape periods p q h = elim (Option-cases (render_periods periods cleared)) [
  | inl e ↦ ground arith
  | inr (days, e) ↦ ground (
    arith,
    render_periods-shape periods cleared days e,
    map_cells-shape (set_checked false) (λ c. refl) p.week_time_data,
  )
]
  where
    cleared : List Day
    cleared = map_cells (set_checked false) p.week_time_data

handle-shape :
    (e : Event) (p q : Picker)
    → handle e p ≡ some q
    → shape q.week_time_data ≡ shape p.week_time_data
unfolding handle handle_mouse_enter handle_mouse_down handle_mouse_up handle_clear_week_time
    handle_select_all_week_time deal_time_period handle_change_time_period
handle-shape (enter target item) p q h = ground arith
handle-shape (press item) p q h = ground arith
handle-shape (release item) p q h = ground (arith, select_drag-shape item p)
handle-shape clear p q h =
    ground (arith, map_cells-shape (set_checked false) (λ c. refl) p.week_time_data)
handle-shape all p q h =
    ground (arith, map_cells-shape (set_checked true) (λ c. refl) p.week_time_data)
handle-shape (render periods) p q h = render_week_time-shape periods p q h

handle_all-shape :
    (es : List Event) (p q : Picker)
    → handle_all es p ≡ some q
    → shape q.week_time_data ≡ shape p.week_time_data
unfolding handle_all
handle_all-shape [] p q h = ground arith
handle_all-shape (e ∷ es) p q h =
    and_then-view (λ (r : Picker). shape r.week_time_data) (handle e p) (handle_all es) p
      (λ y k. handle-shape e p y k) (λ y z k. handle_all-shape es y z k) q h

children-unmarked :
    (week : Text) (row i n : ℕ)
    → map (set_checked false) (children china week row i n) ≡ children china week row i n
unfolding children new_cell
children-unmarked week row i zero = refl
children-unmarked week row i (suc n) = rw (children-unmarked week row (suc i) n)

days_from-unmarked :
    (i : ℕ) (names : List Text) → shape (days_from china i names) ≡ days_from china i names
unfolding days_from
days_from-unmarked i [] = refl
days_from-unmarked i (w ∷ ws) = λ j.
    record { value = w; row = i; child = children-unmarked w i 0 48 j }
    ∷ days_from-unmarked (suc i) ws j

pub initial-IsStandard : IsStandard (initial china).week_time_data
unfolding week_data
initial-IsStandard = days_from-unmarked 0 week_names

-- After any run of events that throws nothing, the data are the seven days of 48 slots with their
-- labels: only the marks have changed.
pub handle_all-IsStandard :
    (es : List Event) (q : Picker)
    → handle_all es (initial china) ≡ some q
    → IsStandard q.week_time_data
handle_all-IsStandard es q h = handle_all-shape es (initial china) q h ∙ initial-IsStandard
