-- ===== src/Grid/Defs/Saving.antt =====
-- `save`, `dontSave` and `pushWaitSaveRowData` of Table.js. `none` stands where the converter throws.
use next_dbm.Base.{true, false, List, [], ◌∷◌, ◌++◌, map, Text, codes, if◌then◌else◌, Option, some}
use mathlib.Core.Option
use next_dbm.Mysql.Defs.{Value, delete_row, insert_row, update_row}
use next_dbm.Grid.Defs.State.{
  Row, entries, command, Props, Grid, send, set_wait_save_row_data, refresh,
}

abbrev pub answer_key : Props → Text → Text
answer_key props action = props.tab_key ++ action

-- `values[index]` for each of the columns.
abbrev pub values : Row → List Value
values row = row.cells

abbrev pub insert_waiting : Props → List Row → Grid → Option Grid
insert_waiting props [] g = some g
insert_waiting props (row ∷ rows) g =
    Option.map (λ sql. send (command (answer_key props (codes "-insertRow")) sql) g)
      (insert_row props.params (map entries (row ∷ rows)))

-- `save`: whatever it sends, nothing waits any more.
unfoldable pub save : Props → Grid → Option Grid
save props g =
    Option.map (set_wait_save_row_data [])
      (if g.is_save then insert_waiting props g.waiting g else some g)

unfoldable pub dont_save : Props → Grid → Grid
dont_save props g = refresh props (set_wait_save_row_data [] g)

-- The arguments of `pushWaitSaveRowData`. A second row that stands in the place of the type is no type.
pub data Push : Type 0 where
  delete : List Row → Push
  update : (row : Row) (old_row : List Value) → Push
  insert : Row → Push
  paste : Row → Push
  untyped : (row second : Row) → Push

unfoldable pub push_wait_save_row_data : Props → Push → Grid → Option Grid
push_wait_save_row_data props (delete rows) g = some (
    send
      (command (answer_key props (codes "-deleteRow")) (delete_row props.params (map values rows)))
      g)
push_wait_save_row_data props (update row old_row) g =
    let waits = some (set_wait_save_row_data (row ∷ []) g) in
    let sends =
      Option.map (λ sql. send (command (answer_key props (codes "-updateRow")) sql) g)
        (update_row props.params row.cells old_row) in
    if g.is_save then waits else sends
push_wait_save_row_data props (insert row) g = some (
    set_wait_save_row_data (row ∷ [])
      (record g { is_save = true; is_delete = false; is_copy = false; is_paste = false }))
push_wait_save_row_data props (paste row) g =
    some (set_wait_save_row_data (row ∷ []) (record g { is_save = true }))
push_wait_save_row_data props (untyped row second) g = some g
