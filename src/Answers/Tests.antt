-- ===== src/Answers/Tests.antt =====
-- Answers to requests on a small tree, and the theorems at them.
use next_dbm.Base.{◌≡◌, refl, [], ◌∷◌, ◌++◌, Text, codes, none, some}
use mathlib.Core.Option
use next_dbm.Tree.Defs.{
  Info, Forest, nil, leaf, branch, find_node_by_key, update_tree_icons, delete_tree_node_by_key,
}
use next_dbm.Tree.Find.{with_children}
use next_dbm.Answers.Defs.{
  Attr, Answer, App, Mark, drop_table_mark, create_view_mark, key_value_json_result, get_variables,
  get_diff_table_ddl, add_to_tabs, processed, add_sides, key_value_chain, key_value_tests, dropped,
  remove_first, tables_menu, database_menu,
}
use next_dbm.Answers.Objects.{Unmarked, handled, key_value_json_result-handled}
use next_dbm.Answers.Menus.{Asked, key_value_json_result-tables_menu}

abbrev info : Text → Text → Info
info key menu_type = record {
  key = key;
  title = key;
  menu_type = menu_type;
  icon = none;
  asset_id = some (codes "a");
}

-- One database with the node of its views, and one view.
abbrev tree : Forest
tree =
    branch (info (codes "a-b") (codes "databaseMenu"))
      (branch (info (codes "a-b-v") (codes "viewsMenu"))
        (leaf (info (codes "a-b-v-x") (codes "viewMenu")) nil) nil)
      nil

abbrev app : App
app = record {
  tree_data = tree;
  db_names = [];
  tabs = record { id = codes "d"; src_obj = []; dist_obj = []; results = []; ddl = [] } ∷ [];
  tab_index = codes "d";
  ddl_value = [];
  db_variables = [];
  db_info = [];
  os_info = [];
  requests = [];
  toasts = [];
}

abbrev attr : Attr
attr = record {
  asset_id = none;
  database = codes "b";
  table_name = none;
  view_name = some (codes "y");
  function_name = none;
  procedure_name = none;
  new_name = [];
  data_type = codes "srcObj";
  tab_id = codes "d";
}

abbrev answer : Text → Answer
answer key = record {
  key = key;
  ret_type = codes "KeyValueJsonResult";
  code = 0;
  msg = [];
  attr = attr;
}

abbrev get_sql : Text → Text → Text
get_sql name database = name ++ (codes " " ++ database)

-- A table is dropped whose key ends with the mark.
drop_view :
    find_node_by_key
      (codes "a-b-v-x")
      (key_value_json_result get_sql (answer (codes "a-b-v-x-dropView")) (some []) app).tree_data
    ≡ none
unfolding key_value_json_result key_value_chain key_value_tests dropped remove_first
    find_node_by_key delete_tree_node_by_key
drop_view = refl

empty_answer :
    (key_value_json_result get_sql (answer (codes "a-b-v-x-dropView")) none app).tree_data ≡ tree
unfolding key_value_json_result
empty_answer = refl

variables :
    (get_variables
      ((codes "version_comment", codes "MySQL") ∷ (codes "version", codes "8") ∷ [])
      app).db_info
    ≡ codes "MySQL 8"
unfolding get_variables
variables = refl

compared :
    (get_diff_table_ddl
      (answer (codes "x-getDiffTableDDL"))
      ((codes "t", codes "ddl") ∷ [])
      app).tabs
    ≡ record {
      id = codes "d";
      src_obj = 13 ∷ 10 ∷ 13 ∷ 10 ∷ codes "ddl";
      dist_obj = [];
      results = processed (answer (codes "x-getDiffTableDDL")) ∷ [];
      ddl = [];
    }
      ∷ []
unfolding get_diff_table_ddl add_to_tabs add_sides
compared = refl

databases : (database_menu (answer []) tree app).db_names ≡ (codes "a-b", codes "a-b") ∷ []
unfolding database_menu update_tree_icons
databases = refl

unmarked : Unmarked (codes "a-b-v")
unmarked Mark.get_variables_mark = refl
unmarked mark = refl

key_value_json_result-handled_example :
    key_value_json_result get_sql (answer (codes "a-b-v-dropTable")) (some []) app
    ≡ handled get_sql drop_table_mark (codes "a-b-v") (answer (codes "a-b-v-dropTable")) [] app
key_value_json_result-handled_example =
    key_value_json_result-handled get_sql drop_table_mark (codes "a-b-v")
      (answer (codes "a-b-v-dropTable")) [] app unmarked refl

abbrev created_view : App
created_view = key_value_json_result get_sql (answer (codes "a-b-v-createView")) (some []) app

abbrev new_views : Forest
new_views = leaf (info (codes "a-b-v-y") (codes "viewMenu")) nil

key_value_json_result-tables_menu_example :
    Asked get_sql
      (codes "a-b-v")
      (answer (codes "a-b-v-createView"))
      app
      created_view
      (codes "viewsMenu")
    × (find_node_by_key
          (codes "a-b-v")
          (tables_menu (answer (codes "a-b-v")) new_views created_view).tree_data
        ≡ Option.map
            (with_children (update_tree_icons new_views))
            (find_node_by_key (codes "a-b-v") tree))
key_value_json_result-tables_menu_example =
    key_value_json_result-tables_menu get_sql create_view_mark (codes "viewsMenu") (codes "a-b-v")
      (answer (codes "a-b-v-createView")) [] app (answer (codes "a-b-v")) new_views refl unmarked
      refl refl
