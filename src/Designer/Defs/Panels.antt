-- ===== src/Designer/Defs/Panels.antt =====
-- What the panels for fields, indexes, foreign keys and triggers do of their own.
use next_dbm.Base.{
  ℕ, Bool, true, false, not, List, [], ◌∷◌, Text, codes, Option, none, some, if◌then◌else◌,
}
use next_dbm.Designer.Defs.Rows.{
  Value, str, num, bool, strs, Entries, Key, undefined, Row, key_eq, is_true, merge, find_index,
  find, splice_merged,
}
use next_dbm.Designer.Defs.Editing.{Panel, must_finish, add, edit, update_data}

-- `onSelectChange` of FieldPanel.js and of TriggerPanel.js.
unfoldable pub on_select_change : Row → Bool → Panel → Panel
on_select_change item selected p =
    if selected
    then record p { selected_key = item.key; selected_row = some item }
    else record p { selected_key = undefined; selected_row = none }

-- `onSelectChange` of IndexPanel.js: another row's selection stays.
unfoldable pub on_index_select_change : Row → Bool → Panel → Panel
on_index_select_change item selected p =
    if selected
    then record p { selected_key = item.key; selected_row = some item }
    else if key_eq p.selected_key item.key
    then record p { selected_key = undefined; selected_row = none }
    else p

-- The click of `onRow`: nothing while a row is edited.
unfoldable pub on_row_click : Row → Panel → Panel
on_row_click item p =
    if is_true p.editing_key
    then p
    else on_select_change item (not (key_eq p.selected_key item.key)) p

unfoldable pub on_index_row_click : Row → Panel → Panel
on_index_row_click item p =
    if is_true p.editing_key
    then p
    else on_index_select_change item (not (key_eq p.selected_key item.key)) p

abbrev pub field_defaults : Entries
field_defaults =
    (codes "name", str (codes "2"))
    ∷ (codes "type", str [])
    ∷ (codes "len", num 0)
    ∷ (codes "port", num 0)
    ∷ (codes "isNull", bool false)
    ∷ (codes "isPrimaryKey", bool false)
    ∷ (codes "comment", str [])
    ∷ []

abbrev pub new_field_defaults : Entries
new_field_defaults = (codes "name", str (codes "eee")) ∷ field_defaults

abbrev pub index_defaults : Entries
index_defaults =
    (codes "name", str [])
    ∷ (codes "fileds", strs [])
    ∷ (codes "indexType", str [])
    ∷ (codes "indexFunction", str [])
    ∷ (codes "remark", str [])
    ∷ []

abbrev pub foreign_key_defaults : Entries
foreign_key_defaults =
    (codes "name", str [])
    ∷ (codes "filed", str [])
    ∷ (codes "table", str [])
    ∷ (codes "columns", strs [])
    ∷ (codes "deleteActions", str [])
    ∷ (codes "updateActions", str [])
    ∷ []

abbrev pub trigger_defaults : Entries
trigger_defaults =
    (codes "name", str [])
    ∷ (codes "triggerTimeType", str [])
    ∷ (codes "triggerActionType", str [])
    ∷ (codes "sql", str [])
    ∷ []

-- `add` of FieldPanel.js and of TriggerPanel.js, with the selection of the new row.
unfoldable pub add_selected : Entries → Row → Panel → Panel
add_selected defaults item p =
    if must_finish p
    then p
    else on_select_change item (not (key_eq p.selected_key item.key)) (add defaults item p)

unfoldable pub add_field : Row → Panel → Panel
add_field = add_selected new_field_defaults

unfoldable pub add_trigger : Row → Panel → Panel
add_trigger = add_selected trigger_defaults

unfoldable pub add_index : Row → Panel → Panel
add_index item p =
    if must_finish p
    then p
    else on_index_select_change item (not (key_eq p.selected_key item.key))
        (add index_defaults item p)

unfoldable pub add_foreign_key : Row → Panel → Panel
add_foreign_key = add foreign_key_defaults

unfoldable pub edit_field : Row → Panel → Panel
edit_field = edit true field_defaults

unfoldable pub edit_index : Row → Panel → Panel
edit_index = edit false index_defaults

unfoldable pub edit_foreign_key : Row → Panel → Panel
edit_foreign_key = edit false foreign_key_defaults

unfoldable pub edit_trigger : Row → Panel → Panel
edit_trigger = edit false trigger_defaults

abbrev pub extended_rows : Option ℕ → Entries → List Row → Panel → Panel
extended_rows none change rows p = p
extended_rows (some i) change rows p = update_data (splice_merged i change rows) p

-- With no selected row its key is read at each row: an error is thrown unless there are no rows.
abbrev pub unless_rows : List Row → Panel → Option Panel
unless_rows [] p = some p
unless_rows (_ ∷ _) p = none

-- `handleInputChange` of an extension's input; `none` is a thrown error.
abbrev pub change_selected : Option Row → Entries → Panel → Option Panel
change_selected none change p =
    unless_rows p.rows
      (record p { selected_row = some (record { key = undefined; entries = change }) })
change_selected (some selected) change p = some (
    extended_rows (find_index selected.key p.rows) change p.rows
      (record p { selected_row = some (merge selected change) }))

unfoldable pub handle_input_change : Text → Value → Panel → Option Panel
handle_input_change dist_type value p = change_selected p.selected_row ((dist_type, value) ∷ []) p

-- `handleBlur` of TriggerPanel.js, with the text of the editor.
abbrev pub blur_selected : Option Row → Entries → Panel → Option Panel
blur_selected none change p = unless_rows p.rows p
blur_selected (some selected) change p =
    some (extended_rows (find_index selected.key p.rows) change p.rows p)

unfoldable pub handle_blur : Text → Panel → Option Panel
handle_blur sql p = blur_selected p.selected_row ((codes "sql", str sql) ∷ []) p

-- `onChange` of the editor of TriggerPanel.js: `handleBlur` still has the `targgerSql` from before.
abbrev pub with_sql : Text → Option Panel → Option (Text × Panel)
with_sql new_value none = none
with_sql new_value (some p) = some (new_value, p)

unfoldable pub on_sql_change : Text → Text × Panel → Option (Text × Panel)
on_sql_change new_value (targger_sql, p) = with_sql new_value (handle_blur targger_sql p)

-- `rowSelection.onChange` of FieldPanel.js, and its effect: the row itself is forgotten when no row
-- is ticked, and not read when one is.
unfoldable pub on_box_change : Key → Panel → Panel
on_box_change key p = record p {
  selected_key = key;
  selected_row = if is_true key then p.selected_row else none;
}

-- `rowSelection.onChange` of IndexPanel.js.
unfoldable pub on_index_box_change : Key → Panel → Panel
on_index_box_change key p = record p { selected_key = key }

-- The effect of TriggerPanel.js on its rows: the selected row is read again.
unfoldable pub refresh_selected : Panel → Panel
refresh_selected p = record p { selected_row = find p.selected_key p.rows }
