-- ===== src/Designer/Defs/Adding.antt =====
-- The designer around its panels: DesignerPanel/index.js.
use next_dbm.Base.{ℕ, false, [], ◌∷◌, ◌++◌, Text, codes, text_eq, if◌then◌else◌}
use next_dbm.Utils.Defs.{cut_string_at_dash, last_dash}
use next_dbm.Answers.Defs.{remove_first}
use next_dbm.Designer.Defs.Rows.{str, num, bool, strs, stamp, Row}
use next_dbm.Designer.Defs.Editing.{Panel}
use next_dbm.Designer.Defs.Panels.{add_field, add_index, add_foreign_key, add_trigger}

-- The panels, whose `saved` are `fieldData`, `indexData`, `keysData` and `triggerData`, and the key of the
-- panel that is shown.
pub record Board : Type 0 where
  pub field_panel : Panel
  pub index_panel : Panel
  pub foreign_key_panel : Panel
  pub trigger_panel : Panel
  pub tabss_index : Text

unfoldable pub on_change : Text → Board → Board
on_change key b = record b { tabss_index = key }

-- The new rows of `handleAdd`; `time` is `new Date().getTime()`.
abbrev pub new_field : ℕ → Row
new_field time = record {
  key = stamp time;
  entries =
      (codes "name", str [])
      ∷ (codes "type", str [])
      ∷ (codes "len", num 0)
      ∷ (codes "port", num 0)
      ∷ (codes "isNull", bool false)
      ∷ (codes "isPrimaryKey", bool false)
      ∷ (codes "comment", str [])
      ∷ [];
}

abbrev pub new_index : ℕ → Row
new_index time = record {
  key = stamp time;
  entries =
      (codes "name", str [])
      ∷ (codes "fileds", strs [])
      ∷ (codes "indexType", str [])
      ∷ (codes "indexFunction", str [])
      ∷ (codes "remark", str [])
      ∷ [];
}

abbrev pub new_foreign_key : ℕ → Row
new_foreign_key time = record {
  key = stamp time;
  entries =
      (codes "name", str [])
      ∷ (codes "filed", str [])
      ∷ (codes "table", str [])
      ∷ (codes "columns", strs [])
      ∷ (codes "deleteActions", str [])
      ∷ (codes "updateActions", str [])
      ∷ [];
}

abbrev pub new_trigger : ℕ → Row
new_trigger time = record {
  key = stamp time;
  entries =
      (codes "name", str [])
      ∷ (codes "triggerTimeType", str [])
      ∷ (codes "triggerActionType", str [])
      ∷ (codes "sql", str [])
      ∷ [];
}

-- `handleAdd`: the panel that is shown adds a row; those of options, remarks and SQL do not.
unfoldable pub handle_add : ℕ → Board → Board
handle_add time b =
    if text_eq b.tabss_index (codes "1")
    then record b { field_panel = add_field (new_field time) b.field_panel }
    else if text_eq b.tabss_index (codes "2")
    then record b { index_panel = add_index (new_index time) b.index_panel }
    else if text_eq b.tabss_index (codes "3")
    then record b { foreign_key_panel = add_foreign_key (new_foreign_key time) b.foreign_key_panel }
    else if text_eq b.tabss_index (codes "4")
    then record b { trigger_panel = add_trigger (new_trigger time) b.trigger_panel }
    else b

-- `actionType`, out of the key of the tab.
unfoldable pub action_type : Text → Text
action_type tab_index = remove_first (cut_string_at_dash tab_index last_dash ++ codes "-") tab_index
