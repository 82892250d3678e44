-- ===== src/Compare/Tests.antt =====
-- Two tables, compared.
use next_dbm.Base.{◌≡◌, refl, [], ◌∷◌, ◌++◌, map, Text, codes, Option, none, some}
use next_dbm.Tree.Defs.{Info, Forest, nil, branch, parent, find_node_by_key}
use next_dbm.Utils.Defs.{cut_string_at_dash, last_index_of}
use next_dbm.Dispatch.Defs.{Protocol, get_sql_converter}
use next_dbm.Answers.Defs.{App, DiffTab, Mark}
use next_dbm.Answers.Objects.{Unmarked}
use next_dbm.Explorer.Defs.{of_database}
use next_dbm.Compare.Defs.{
  convert_data_to_cascader_options, selected_options, load_data, run_compare,
}
use next_dbm.Compare.Sides.{
  forget, Chosen, path, choice, side_message, src, dist, at, listing, answer_side,
  run_compare-answered,
}
use next_dbm.Compare.Loading.{protocol_name, load_data-nothing}

abbrev info : (key title menu_type : Text) → Info
info key title menu_type = record {
  key = key;
  title = title;
  menu_type = menu_type;
  icon = none;
  asset_id = some (codes "7");
}

abbrev shop : Info
shop = info (codes "1-0") (codes "shop") (codes "databaseMenu")

abbrev tables : Info
tables = info (codes "1-0-0") (codes "tables") (codes "tablesMenu")

abbrev item : Info
item = info (codes "1-0-0-0") (codes "item") (codes "tableMenu")

abbrev lists : Forest
lists = branch tables (branch item nil nil) nil

abbrev tree : Forest
tree = branch shop lists nil

selected_test :
    selected_options
      (codes "shop")
      (codes "tables")
      (codes "item")
      (convert_data_to_cascader_options tree)
    ≡ some (shop ∷ tables ∷ item ∷ [])
unfolding selected_options convert_data_to_cascader_options
selected_test = refl

abbrev no_parser : Text → Option Text
no_parser sql = none

abbrev no_sql : Text → Text → Text
no_sql name database = []

load_data-nothing_example :
    load_data
      (get_sql_converter no_parser [] Protocol.mysql)
      (protocol_name Protocol.mysql)
      (of_database [])
      tree
      tables
    ≡ some []
unfolding find_node_by_key cut_string_at_dash last_index_of
load_data-nothing_example =
    load_data-nothing no_parser [] Protocol.mysql (of_database []) tree tables (parent shop lists)
      refl

abbrev old_item : Chosen
old_item = record { database = codes "shop"; table = codes "item"; ddl = codes "A" }

abbrev new_item : Chosen
new_item = record { database = codes "test"; table = codes "item"; ddl = codes "B" }

abbrev app : App
app = record {
  tree_data = tree;
  db_names = [];
  tabs = record { id = codes "d"; src_obj = []; dist_obj = []; results = []; ddl = [] } ∷ [];
  tab_index = codes "d";
  ddl_value = [];
  db_variables = [];
  db_info = [];
  os_info = [];
  requests = [];
  toasts = [];
}

old-Unmarked : Unmarked (path old_item)
old-Unmarked Mark.get_variables_mark = refl
old-Unmarked mark = refl

new-Unmarked : Unmarked (path new_item)
new-Unmarked Mark.get_variables_mark = refl
new-Unmarked mark = refl

run_compare-answered_example :
    (run_compare
        (get_sql_converter no_parser [] Protocol.mysql)
        (codes "d")
        (some (map choice (old_item ∷ [])))
        (some (map choice (new_item ∷ [])))
      ≡ some (
          map (side_message (codes "d") src) (old_item ∷ [])
          ++ map (side_message (codes "d") dist) (new_item ∷ [])))
    × (map forget
          (answer_side no_sql
            (codes "d")
            dist
            (new_item ∷ [])
            (answer_side no_sql (codes "d") src (old_item ∷ []) app)).tabs
        ≡ map
            (at (codes "d") (λ (tab : DiffTab). record tab {
              src_obj = tab.src_obj ++ listing (old_item ∷ []);
              dist_obj = tab.dist_obj ++ listing (new_item ∷ []);
            }))
            (map forget app.tabs))
run_compare-answered_example =
    run_compare-answered no_parser [] Protocol.mysql no_sql (codes "d") (old_item ∷ [])
      (new_item ∷ []) app refl ((refl, refl, old-Unmarked), tt) ((refl, refl, new-Unmarked), tt)
