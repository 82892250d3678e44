-- ===== src/Grid/Defs/Rows.antt =====
-- The operations of Editable.js on the rows, and the buttons of the tool bar that call them.
use next_dbm.Base.{
  ℕ, zero, suc, Bool, true, false, ◌&&◌, ◌||◌, List, [], ◌∷◌, ◌++◌, map, text_eq, set, take, drop,
  ◌==◌, if◌then◌else◌, Option, some,
}
use mathlib.Core.Option
use next_dbm.Mysql.Defs.{Value}
use next_dbm.Grid.Defs.State.{Row, Props, Grid}
use next_dbm.Grid.Defs.Saving.{
  Push, delete, update, insert, paste, untyped, push_wait_save_row_data, save, dont_save,
}

abbrev pub value_eq : Value → Value → Bool
value_eq Value.null Value.null = true
value_eq Value.null (Value.text t) = false
value_eq (Value.text s) Value.null = false
value_eq (Value.text s) (Value.text t) = text_eq s t

abbrev pub cells_eq : List Value → List Value → Bool
cells_eq [] [] = true
cells_eq [] (_ ∷ _) = false
cells_eq (_ ∷ _) [] = false
cells_eq (x ∷ xs) (y ∷ ys) = value_eq x y && cells_eq xs ys

-- `JSON.stringify(row) === JSON.stringify(other)`
abbrev pub same_json : Row → Row → Bool
same_json row other = cells_eq row.cells other.cells && value_eq row.row_index other.row_index

abbrev pub step_on : ℕ → ℕ
step_on zero = 0
step_on (suc n) = suc (suc n)

-- `rowData.findIndex(…)`, and 1 more: the place behind the row that is found, 0 if none is.
unfoldable pub place_behind : Row → List Row → ℕ
place_behind selected [] = 0
place_behind selected (row ∷ rows) =
    let rest = place_behind selected rows in if same_json row selected then 1 else step_on rest

-- `[...rowData.slice(0, place), ...added, ...rowData.slice(place)]`
abbrev pub insert_at : ℕ → List Row → List Row → List Row
insert_at place added rows = take place rows ++ (added ++ drop place rows)

-- `blankRow`, a new object.
abbrev pub blank_row : Props → ℕ → Row
blank_row props id = record {
  id = id;
  cells = map (λ _. Value.text []) props.params.columns;
  row_index = Value.text [];
}

abbrev pub rows_with : List Row → Row → List Row → List Row
rows_with [] blank rows = rows ++ (blank ∷ [])
rows_with (selected ∷ _) blank rows = insert_at (place_behind selected rows) (blank ∷ []) rows

-- `addRowData`, with the selected rows of the grid and the identity of the new object.
unfoldable pub add_row_data : Props → ℕ → List Row → Grid → Option Grid
add_row_data props id selected g =
    let blank = blank_row props id in
    push_wait_save_row_data props (insert blank)
      (record g { rows = rows_with selected blank g.rows })

-- `selectedRows.includes(row)`: the same object.
abbrev pub includes_row : Row → List Row → Bool
includes_row row [] = false
includes_row row (s ∷ selected) = s.id == row.id || includes_row row selected

abbrev pub not_selected : List Row → List Row → List Row
not_selected selected [] = []
not_selected selected (row ∷ rows) =
    let rest = not_selected selected rows in if includes_row row selected then rest else row ∷ rest

-- `deleteSelectedRows`, with the answer to its question.
unfoldable pub delete_selected_rows : Props → Bool → List Row → Grid → Option Grid
delete_selected_rows props is_ok [] g = some g
delete_selected_rows props false (row ∷ selected) g = some g
delete_selected_rows props true (row ∷ selected) g =
    push_wait_save_row_data props (delete (row ∷ selected))
      (record g { rows = not_selected (row ∷ selected) g.rows })

-- `updateRows`: the edited row takes the place that the grid shows it at, which is one of the list's; past
-- the end, where no row is shown, JavaScript would make the list longer.
unfoldable pub update_rows : Props → ℕ → Row → Grid → Option Grid
update_rows props row_index row g =
    push_wait_save_row_data props (update row g.old_row)
      (record g { rows = set g.rows row_index row })

-- `selectedRows.map(row => ({ ...row }))`, with the identities of the new objects.
abbrev pub copies : ℕ → List Row → List Row
copies id [] = []
copies id (row ∷ rows) = record row { id = id } ∷ copies (suc id) rows

-- `pushWaitSaveRowData(...rows, "paste")`
abbrev pub spread_push : Row → List Row → Push
spread_push row [] = paste row
spread_push row (second ∷ _) = untyped row second

-- `pasteFromClipboard`, which copies the selected rows once more.
unfoldable pub paste_from_clipboard : Props → ℕ → List Row → Grid → Option Grid
paste_from_clipboard props id [] g = some g
paste_from_clipboard props id (row ∷ selected) g =
    push_wait_save_row_data props (spread_push (record row { id = id }) (copies (suc id) selected))
      (record g { rows = insert_at (place_behind row g.rows) (copies id (row ∷ selected)) g.rows })

-- The buttons.
unfoldable pub click_add : Props → ℕ → List Row → Grid → Option Grid
click_add props id selected g = if g.is_add then add_row_data props id selected g else some g

unfoldable pub click_delete : Props → Bool → List Row → Grid → Option Grid
click_delete props is_ok selected g =
    let done =
      Option.map (λ (h : Grid). record h { is_delete = false })
        (delete_selected_rows props is_ok selected g) in
    if g.is_delete then done else some g

-- `copySelectedRow` changes only the clipboard.
unfoldable pub click_copy : Grid → Grid
click_copy g = if g.is_copy then record g { is_paste = true } else g

unfoldable pub click_paste : Props → ℕ → List Row → Grid → Option Grid
click_paste props id selected g =
    let done =
      Option.map (λ (h : Grid). record h { is_save = true })
        (paste_from_clipboard props id selected g) in
    if g.is_paste then done else some g

-- The buttons to apply and to give up.
unfoldable pub click_save : Props → Grid → Option Grid
click_save props g = if g.is_save then save props g else some g

unfoldable pub click_dont_save : Props → Grid → Grid
click_dont_save props g = if g.is_save then dont_save props g else g
