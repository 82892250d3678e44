-- ===== src/Results/Defs.antt =====
-- `getTableRsesultFormat` and the case `tableRsesult` of the answers. Of a result the fields that the tab
-- keeps are modelled; the time that a query took, and the history, are not.
use next_dbm.Base.{
  ℕ, Bool, true, false, List, [], ◌∷◌, ◌++◌, Text, codes, number_text, ◌==◌, if◌then◌else◌, Option,
  none, some, and_then,
}
use next_dbm.Tabs.Defs.{
  Mode, QueryResult, Tab, Provider, Change, get_tab_by_id, set_tab, set_active_tab,
}

pub record TableAnswer : Type 0 where
  pub success : Bool
  pub tab_id : Text
  pub new_tab_index : ℕ
  pub rows : Option (List (List Text))
  pub sql_command : Text

-- `getTableRsesultFormat`: the values of the first row are the headers.
unfoldable pub get_table_rsesult_format : Option (List (List Text)) → List Text × List (List Text)
get_table_rsesult_format none = ([], [])
get_table_rsesult_format (some []) = ([], [])
get_table_rsesult_format (some (row ∷ rows)) = (row, rows)

unfoldable pub success_result : TableAnswer → QueryResult
success_result a = record {
  key = a.new_tab_index;
  label = codes "查询结果" ++ number_text a.new_tab_index;
  success = true;
  headers = (get_table_rsesult_format a.rows).0;
  rows = (get_table_rsesult_format a.rows).1;
}

unfoldable pub fail_result : TableAnswer → QueryResult
fail_result a = record {
  key = a.new_tab_index;
  label = codes "查询结果" ++ number_text a.new_tab_index;
  success = false;
  headers = [];
  rows = [];
}

-- `findIndex(item => item.key === newTabIndex)`: the first entry of the key is replaced, else one is
-- pushed.
unfoldable pub put_result : QueryResult → List QueryResult → List QueryResult
put_result r [] = r ∷ []
put_result r (item ∷ results) =
    let rest = put_result r results in if item.key == r.key then r ∷ results else item ∷ rest

unfoldable pub editor_results : TableAnswer → List QueryResult → List QueryResult
editor_results a results =
    if a.success then put_result (success_result a) results else results ++ (fail_result a ∷ [])

-- The editor's case: the array of the tab of the answer changes in place, then `setTabResults` and
-- `setTabQuery` write into the active tab.
unfoldable pub show_in_editor : TableAnswer → List QueryResult → Provider → Option Provider
show_in_editor a results p = and_then (set_tab a.tab_id (Change.results results) p) (λ changed.
    and_then (set_active_tab (Change.results results) changed)
      (set_active_tab (Change.query a.sql_command)))

abbrev pub show_result : Mode → TableAnswer → Tab → Provider → Option Provider
show_result Mode.editor a tab p = show_in_editor a (editor_results a tab.results) p
show_result Mode.filter a tab p = set_active_tab (Change.results (success_result a ∷ [])) p
show_result _ a tab p = some p

-- `none` where the tab of the answer is closed: `tabItem.type` throws.
unfoldable pub table_rsesult : TableAnswer → Provider → Option Provider
table_rsesult a p = and_then (get_tab_by_id a.tab_id p.tabs) (λ tab. show_result tab.type a tab p)
