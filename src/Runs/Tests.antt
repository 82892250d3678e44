-- ===== src/Runs/Tests.antt =====
-- A new view on a small tree, and an editor with two statements.
use next_dbm.Base.{inr, List, ◌++◌, ◌≡◌, refl, [], ◌∷◌, map, Text, codes, split, false, none, some}
use next_dbm.Mysql.Defs.{trim}
use next_dbm.Tree.Defs.{Info, Forest, nil, leaf, branch, find_node_by_key}
use next_dbm.Tabs.Defs.{Tab, Mode, Provider, new_tab, add_tab}
use next_dbm.Dispatch.Defs.{statement}
use next_dbm.Answers.Defs.{Answer, App, Mark, key_value_json_result}
use next_dbm.Answers.Objects.{Unmarked}
use next_dbm.Answers.Menus.{Asked}
use next_dbm.Utils.Defs.{cut_string_at_dash, dash_index}
use next_dbm.Explorer.Defs.{Message, Call, Panel, call, attr_of, tab_of, database_node}
use next_dbm.Explorer.Dropping.{a_view}
use next_dbm.Runs.Defs.{sent, sql_format, split_sql, send_each}
use next_dbm.Runs.Editor.{Piece, requests, send_each-split_sql}
use next_dbm.Runs.Created.{
  new_params, add_of, run_of, Sends, add_of-run_of-Asked, add_of-run_of-empty,
}

abbrev info : (key title menu_type : Text) → Info
info key title menu_type = record {
  key = key;
  title = title;
  menu_type = menu_type;
  icon = none;
  asset_id = some (codes "7");
}

abbrev shop : Info
shop = info (codes "1-0") (codes "shop") (codes "databaseMenu")

abbrev views : Info
views = info (codes "1-0-1") (codes "views") (codes "viewsMenu")

abbrev tree : Forest
tree = branch shop (leaf views nil) nil

abbrev panel : Panel
panel = record {
  filter = [];
  filtered_data = tree;
  expanded_keys = [];
  show_menu = false;
  calls = [];
}

abbrev app : App
app = record {
  tree_data = tree;
  db_names = [];
  tabs = [];
  tab_index = codes "d";
  ddl_value = [];
  db_variables = [];
  db_info = [];
  os_info = [];
  requests = [];
  toasts = [];
}

abbrev provider : Provider
provider = record { tabs = []; tab_index = []; operation_label = []; requests = [] }

abbrev no_sql : Text → Text → Text
no_sql name database = []

abbrev reply : Answer
reply = record {
  key = codes "1-0-1-createView";
  ret_type = [];
  code = 0;
  msg = [];
  attr = attr_of (codes "7") (codes "shop") [];
}

views-Unmarked : Unmarked views.key
views-Unmarked Mark.get_variables_mark = refl
views-Unmarked mark = refl

add_of-run_of-Asked_example :
    (add_of a_view (codes "sold") views panel
      ≡ some (call (Call.add_tab (new_params a_view shop views (codes "sold") (codes "7"))) panel))
    × Sends
        (run_of a_view
          (codes "CREATE VIEW")
          (add_tab [] (new_params a_view shop views (codes "sold") (codes "7")) provider))
        (codes "1-0-1-createView")
    × Asked no_sql views.key reply app
        (key_value_json_result no_sql reply (some []) app)
        (codes "viewsMenu")
unfolding database_node find_node_by_key cut_string_at_dash dash_index
add_of-run_of-Asked_example =
    add_of-run_of-Asked a_view shop views (codes "sold") (codes "7") [] (codes "CREATE VIEW") panel
      provider no_sql reply [] app refl refl refl views-Unmarked refl

add_of-run_of-empty_example :
    (m : Message) × (run_of a_view
        (codes "CREATE VIEW")
        (add_tab [] (new_params a_view shop views (codes "sold") (codes "7")) provider)
      ≡ some (sent m))
    × (m.data' ≡ statement [])
add_of-run_of-empty_example =
    add_of-run_of-empty a_view shop views (codes "sold") (codes "7") [] (codes "CREATE VIEW")
      provider refl refl

abbrev query : Tab
query = record (new_tab (codes "q") [] (tab_of Mode.editor (codes "q") [] (codes "7"))) {
  sql = codes "select" ++ (10 ∷ 10 ∷ codes "1 ;; ; select 2");
}

abbrev query_pieces : List Piece
query_pieces =
    Piece.lines [] (codes "select") ((1, codes "1") ∷ []) (codes " ")
    ∷ Piece.nothing
    ∷ Piece.blank (codes " ")
    ∷ Piece.lines (codes " ") (codes "select 2") [] []
    ∷ []

send_each-split_sql_example : send_each query 0 (split_sql query) ≡ requests query 0 query_pieces
unfolding new_tab
send_each-split_sql_example =
    send_each-split_sql query query_pieces
      (
        (refl, refl, refl, refl, refl, refl),
        (tt, ((refl, refl), ((refl, refl, refl, refl, refl, refl), tt))),
      )
      refl (inr (refl, refl))

sent_test :
    map (λ t. t.message.data') (send_each query 0 (split_sql query))
    ≡ statement (codes "select 1") ∷ statement (codes "select 2") ∷ []
unfolding send_each split_sql sql_format trim new_tab split
sent_test = refl
