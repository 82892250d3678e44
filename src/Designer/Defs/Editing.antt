-- ===== src/Designer/Defs/Editing.antt =====
-- What FieldPanel.js does to its table of rows; the other panels do the same unless Panels.antt says
-- otherwise.
use next_dbm.Base.{
  ℕ, Bool, true, false, ◌&&◌, List, [], ◌∷◌, ◌++◌, Text, Option, none, some, if◌then◌else◌,
}
use next_dbm.Designer.Defs.Rows.{
  Value, Entries, spread, Key, undefined, string, Row, key_eq, is_true, find_index, splice_merged,
  other_rows,
}

-- `rows` is `dataSource`; `saved` is the state of the parent that `props.updateData` sets and from
-- which the SQL is made. `selected_key` is `undefined` also where the code has `null`.
pub record Panel : Type 0 where
  pub rows : List Row
  pub saved : List Row
  pub editing_key : Key
  pub selected_key : Key
  pub selected_row : Option Row
  pub form : Entries

-- `''`, the editing key while no row is edited.
abbrev pub no_key : Key
no_key = string []

abbrev pub is_editing : Row → Panel → Bool
is_editing item p = key_eq item.key p.editing_key

-- `form.setFieldsValue`
abbrev pub set_fields_value : Entries → Panel → Panel
set_fields_value values p = record p { form = spread p.form values }

-- `handleChange` of a cell: the user's input goes to the form.
unfoldable pub handle_change : Text → Value → Panel → Panel
handle_change data_index value = set_fields_value ((data_index, value) ∷ [])

-- The effect on the parent's rows: they are shown.
unfoldable pub show_saved : List Row → Panel → Panel
show_saved rows p = record p { rows = rows; saved = rows }

-- `props.updateData(newData)`, whose change of the parent's state runs the effect.
abbrev pub update_data : List Row → Panel → Panel
update_data new_data = show_saved new_data

-- `edit`; `clears` where the panel calls `form.resetFields()`.
unfoldable pub edit : (clears : Bool) (defaults : Entries) → Row → Panel → Panel
edit clears defaults item p =
    record (set_fields_value (spread defaults item.entries)
      (record p { form = if clears then [] else p.form })) { editing_key = item.key }

unfoldable pub cancel : Panel → Panel
cancel p = record p { editing_key = no_key }

-- The rows after `save`, when the form's values are valid.
abbrev pub saved_rows : Option ℕ → Entries → List Row → List Row
saved_rows none row rows = rows ++ (record { key = undefined; entries = row } ∷ [])
saved_rows (some i) row rows = splice_merged i row rows

abbrev pub save_valid : Key → Option Entries → Panel → Panel
save_valid key none p = p
save_valid key (some row) p =
    update_data (saved_rows (find_index key p.rows) row p.rows) (record p { editing_key = no_key })

-- `save(key)`; `validate_fields` is the form's `validateFields`, `none` where it rejects.
unfoldable pub save : (validate_fields : Entries → Option Entries) → Key → Panel → Panel
save validate_fields key p = save_valid key (validate_fields p.form) p

-- `del(record)`
unfoldable pub del : Row → Panel → Panel
del item p = update_data (other_rows item.key p.rows) p

-- `onDragEnd`, with the keys of the dragged row and of the row below the pointer, if there is one;
-- `array_move` is the library's `arrayMove`.
unfoldable pub on_drag_end :
    (array_move : List Row → Option ℕ → Option ℕ → List Row) → (active over : Key) → Panel → Panel
on_drag_end array_move active over p =
    if key_eq active over
    then p
    else record p { rows = array_move p.rows (find_index active p.rows) (find_index over p.rows) }

abbrev pub has_rows : List Row → Bool
has_rows [] = false
has_rows (_ ∷ _) = true

-- The guard of `add`: the row under edit has to be saved first.
abbrev pub must_finish : Panel → Bool
must_finish p = is_true p.editing_key && has_rows p.rows

-- `add(record)` but for the selection.
unfoldable pub add : (defaults : Entries) → Row → Panel → Panel
add defaults item p =
    if must_finish p
    then p
    else record (set_fields_value (spread defaults item.entries)
        (record p { rows = p.rows ++ (item ∷ []) })) { editing_key = item.key }
