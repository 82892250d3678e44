-- ===== src/Grid/Steps.antt =====
-- Runs of the table: what the user does, and the answers of the server, in any order.
use next_dbm.Base.{ℕ, ◌≡◌, Bool, List, some}
use next_dbm.Grid.Defs.{
  Row, Props, Grid, handle_page_change, refresh, on_select_row, on_cell_double_clicked, show_rows,
  update_rows, click_add, click_delete, click_copy, click_paste, click_save, click_dont_save,
}

-- What the user does at the table, and the answers to its queries. A step that throws is none.
pub data Step (props : Props) (g : Grid) : Grid → Type 0 where
  adds :
      (id : ℕ) (selected : List Row) {g' : Grid}
      → click_add props id selected g ≡ some g'
      → Step props g g'
  deletes :
      (is_ok : Bool) (selected : List Row) {g' : Grid}
      → click_delete props is_ok selected g ≡ some g'
      → Step props g g'
  copying : Step props g (click_copy g)
  pasting :
      (id : ℕ) (selected : List Row) {g' : Grid}
      → click_paste props id selected g ≡ some g'
      → Step props g g'
  saves : {g' : Grid} → click_save props g ≡ some g' → Step props g g'
  edits :
      (row_index : ℕ) (row : Row) {g' : Grid}
      → update_rows props row_index row g ≡ some g'
      → Step props g g'
  selects : Step props g (on_select_row g)
  double_clicks : (row : Row) → Step props g (on_cell_double_clicked row g)
  pages :
      (current_page page_size : ℕ)
      → Step props g (handle_page_change props current_page page_size g)
  shows : (rows : List Row) → Step props g (show_rows rows g)

-- Runs, in which the user may also refresh the table or give up the row that waits.
pub data Run (props : Props) (g : Grid) : Grid → Type 0 where
  start : Run props g g
  step : {h h' : Grid} → Run props g h → Step props h h' → Run props g h'
  refreshes : {h : Grid} → Run props g h → Run props g (refresh props h)
  gives_up : {h : Grid} → Run props g h → Run props g (click_dont_save props h)

pub data Steps (props : Props) (g : Grid) : Grid → Type 0 where
  here : Steps props g g
  next : {h h' : Grid} → Steps props g h → Step props h h' → Steps props g h'
