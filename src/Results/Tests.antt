-- ===== src/Results/Tests.antt =====
-- Two editors, and the answer to a query of the first.
use next_dbm.Base.{◌≡◌, refl, Bool, true, [], ◌∷◌, Text, text_eq, codes, ◌==◌, if◌then◌else◌, some}
use next_dbm.Tabs.Defs.{Mode, QueryResult, Tab, Params, Provider, new_tab, get_tab_by_id}
use next_dbm.Results.Defs.{TableAnswer, success_result, editor_results, table_rsesult}
use next_dbm.Results.Lists.{find_result, Distinct, editor_results-find_result}
use next_dbm.Results.Shown.{table_rsesult-active}

abbrev editor_params : Params
editor_params = record {
  key = [];
  title = [];
  type = Mode.editor;
  sql = [];
  asset_id = [];
  db_name = [];
  table_name = [];
  er_url = [];
}

abbrev first_tab : Tab
first_tab = new_tab (codes "a") (codes "A") editor_params

abbrev second_tab : Tab
second_tab = new_tab (codes "b") (codes "B") editor_params

abbrev showing : Text → Provider
showing id = record {
  tabs = first_tab ∷ second_tab ∷ [];
  tab_index = id;
  operation_label = [];
  requests = [];
}

abbrev answer : Bool → TableAnswer
answer ok = record {
  success = ok;
  tab_id = codes "a";
  new_tab_index = 1;
  rows = some ((codes "id" ∷ []) ∷ (codes "7" ∷ []) ∷ []);
  sql_command = codes "SELECT id FROM t";
}

abbrev old_result : QueryResult
old_result = record { key = 1; label = codes "查询结果1"; success = true; headers = []; rows = [] }

editor_results-find_result_example :
    (find_result 1 (editor_results (answer true) (old_result ∷ []))
      ≡ (if 1 == 1 then some (success_result (answer true)) else find_result 1 (old_result ∷ [])))
    × Distinct (editor_results (answer true) (old_result ∷ []))
unfolding find_result
editor_results-find_result_example =
    editor_results-find_result (answer true) 1 (old_result ∷ []) refl (refl, tt)

table_rsesult-active_example :
    (q : Provider) × (table_rsesult (answer true) (showing (codes "a")) ≡ some q)
    × (get_tab_by_id (codes "b") q.tabs ≡ (
        if text_eq (codes "b") (codes "a")
        then some (record first_tab {
          results = editor_results (answer true) first_tab.results;
          query = codes "SELECT id FROM t";
        })
        else get_tab_by_id (codes "b") (showing (codes "a")).tabs))
unfolding new_tab get_tab_by_id
table_rsesult-active_example =
    table_rsesult-active (answer true) (showing (codes "a")) first_tab (codes "b") refl refl refl
