-- ===== src/Grid/Defs/State.antt =====
-- The state of Table.js and Editable.js: the rows, the row that waits to be saved, the buttons that are
-- on, and what has been sent.
use next_dbm.Base.{ℕ, suc, Bool, true, false, List, [], ◌∷◌, ◌++◌, Text, codes, number_text}
use next_dbm.Mysql.Defs.{RowParams, Value}

-- A row of the grid: an object with an identity, and its cells under the keys 0, 1, … and `rowIndex`.
pub record Row : Type 0 where
  pub id : ℕ
  pub cells : List Value
  pub row_index : Value

-- `Object.entries(row)`: the numbers first, in order.
abbrev pub number_entries : ℕ → List Value → List (Text × Value)
number_entries i [] = []
number_entries i (cell ∷ cells) = (number_text i, cell) ∷ number_entries (suc i) cells

abbrev pub entries : Row → List (Text × Value)
entries row = number_entries 0 row.cells ++ ((codes "rowIndex", row.row_index) ∷ [])

-- What goes through `webSocketSendData`: a statement under the key of its answer, or a page of the
-- query.
pub data Message : Type 0 where
  command : (key sql : Text) → Message
  page : (sql_command : Text) (current_page page_size : ℕ) → Message

-- The props that the table has from its tab and its result.
pub record Props : Type 0 where
  pub tab_key : Text
  pub params : RowParams
  pub sql_command : Text
  pub result_page : ℕ
  pub page_size : ℕ

-- `waiting` is `waitSaveRowData`, the flags are the buttons that are not disabled.
pub record Grid : Type 0 where
  pub rows : List Row
  pub old_row : List Value
  pub waiting : List Row
  pub is_add : Bool
  pub is_delete : Bool
  pub is_copy : Bool
  pub is_paste : Bool
  pub is_save : Bool
  pub current_page : ℕ
  pub sent : List Message

abbrev pub send : Message → Grid → Grid
send message g = record g { sent = g.sent ++ (message ∷ []) }

-- `setWaitSaveRowData`, with the effect on it.
unfoldable pub set_wait_save_row_data : List Row → Grid → Grid
set_wait_save_row_data [] g = record g { waiting = []; is_save = false }
set_wait_save_row_data (row ∷ rows) g = record g {
  waiting = row ∷ rows;
  is_save = true;
  is_add = false;
  is_delete = false;
  is_copy = false;
  is_paste = false;
}

-- `handlePageChange`: what waits goes on waiting.
unfoldable pub handle_page_change : Props → (current_page page_size : ℕ) → Grid → Grid
handle_page_change props current_page page_size g =
    send (page props.sql_command current_page page_size) (record g {
      current_page = current_page;
      is_delete = false;
      is_copy = false;
      is_paste = false;
      is_save = false;
    })

unfoldable pub refresh : Props → Grid → Grid
refresh props g =
    handle_page_change props props.result_page props.page_size (record g { is_add = true })

-- `onSelectRow`
abbrev pub select_unless : List Row → Grid → Grid
select_unless [] g = record g { is_delete = true; is_copy = true }
select_unless (_ ∷ _) g = g

unfoldable pub on_select_row : Grid → Grid
on_select_row g = select_unless g.waiting g

-- `onCellDoubleClickedHandler`: the cells before the edit.
unfoldable pub on_cell_double_clicked : Row → Grid → Grid
on_cell_double_clicked row g = record g { old_row = row.cells }

-- The effect on `props.rows`: the rows of an answer.
unfoldable pub show_rows : List Row → Grid → Grid
show_rows rows g = record g { rows = rows }
