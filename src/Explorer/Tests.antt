-- ===== src/Explorer/Tests.antt =====
-- A tree with one database, its tables and a view, and the theorems at it.
use next_dbm.Base.{◌≡◌, refl, true, false, List, [], ◌∷◌, Text, codes, none, some, Option}
use next_dbm.Tree.Defs.{Info, Forest, nil, leaf, branch, parent, find_node_by_key}
use next_dbm.Tree.Find.{is_found}
use next_dbm.Dispatch.Defs.{Protocol, get_sql_converter, statement, nothing}
use next_dbm.Answers.Defs.{Answer, App, Mark, key_value_json_result}
use next_dbm.Answers.Objects.{Unmarked}
use next_dbm.Explorer.Defs.{
  Call, Panel, call, attr_of, filter_nodes, get_all_keys, Saved, open_sql, delete_sql, on_expand,
  table_delete, database_node,
}
use next_dbm.Utils.Defs.{cut_string_at_dash, dash_index}
use next_dbm.Explorer.Search.{matches, matches-filter_nodes, is_key, find_node_by_key-get_all_keys}
use next_dbm.Explorer.Saved.{sql_tab, open_sql-delete_sql}
use next_dbm.Dispatch.Outcomes.{per_protocol}
use next_dbm.Mysql.Defs.{drop_table}
use next_dbm.Explorer.Dropping.{
  a_view, delete_of, drop_message, drop_statement, sends, sends_and_deletes, delete_of-dropped,
  drop_table_message, table_delete-unanswered,
}
use next_dbm.Explorer.Listing.{tables, listed, on_expand-listed}

abbrev info : (key title menu_type : Text) → Info
info key title menu_type = record {
  key = key;
  title = title;
  menu_type = menu_type;
  icon = none;
  asset_id = some (codes "7");
}

abbrev shop : Info
shop = info (codes "1-0") (codes "shop") (codes "databaseMenu")

abbrev item : Info
item = info (codes "1-0-0-0") (codes "item") (codes "tableMenu")

abbrev sold : Info
sold = info (codes "1-0-1-0") (codes "sold") (codes "viewMenu")

abbrev all_tables : Info
all_tables = info (codes "1-0-0") (codes "tables") (codes "tablesMenu")

abbrev lists : Forest
lists =
    branch all_tables (leaf item nil)
      (branch (info (codes "1-0-1") (codes "views") (codes "viewsMenu")) (leaf sold nil) nil)

abbrev tree : Forest
tree = branch shop lists nil

abbrev panel : Panel
panel = record {
  filter = [];
  filtered_data = tree;
  expanded_keys = [];
  show_menu = false;
  calls = [];
}

abbrev app : App
app = record {
  tree_data = tree;
  db_names = [];
  tabs = [];
  tab_index = codes "d";
  ddl_value = [];
  db_variables = [];
  db_info = [];
  os_info = [];
  requests = [];
  toasts = [];
}

abbrev same : Text → Text
same t = t

abbrev no_parser : Text → Option Text
no_parser sql = none

abbrev no_sql : Text → Text → Text
no_sql name database = []

abbrev reply : Text → Answer
reply key = record {
  key = key;
  ret_type = [];
  code = 0;
  msg = [];
  attr = attr_of (codes "7") (codes "shop") [];
}

abbrev ok_data : List (Text × Text)
ok_data = (codes "0", codes "OK") ∷ []

matches-filter_nodes_example :
    matches same (codes "so") (filter_nodes same (codes "so") tree) ≡ matches same (codes "so") tree
matches-filter_nodes_example = matches-filter_nodes same (codes "so") tree

filtered_test :
    filter_nodes same (codes "so") tree
    ≡ branch shop
        (branch (info (codes "1-0-1") (codes "views") (codes "viewsMenu")) (leaf sold nil) nil)
        nil
unfolding filter_nodes
filtered_test = refl

find_node_by_key-get_all_keys_example :
    is_found (find_node_by_key (codes "1-0-1-0") tree)
    ≡ is_key (codes "1-0-1-0") (get_all_keys tree)
find_node_by_key-get_all_keys_example = find_node_by_key-get_all_keys (codes "1-0-1-0") tree

abbrev query : Info
query = info (codes "1-0-4-ab-c") (codes "report") (codes "sqlMenu")

abbrev saved : Saved
saved = record { id = codes "ab-c"; db_name = codes "shop"; content = codes "select 1" }

open_sql-delete_sql_example :
    (open_sql query saved panel
      ≡ some (record (call (Call.add_tab (sql_tab (codes "ab-c") (codes "7") query saved)) panel) {
        show_menu = false;
      }))
    × (delete_sql query panel
        ≡ some (call (Call.sqls_delete (codes "ab-c") (codes "1-0") (codes "shop")) panel))
unfolding database_node find_node_by_key cut_string_at_dash dash_index
open_sql-delete_sql_example =
    open_sql-delete_sql (codes "1") (codes "0") (codes "4") (codes "ab-c") (codes "7") query shop
      saved panel refl refl refl refl refl refl

sold-Unmarked : Unmarked sold.key
sold-Unmarked Mark.get_variables_mark = refl
sold-Unmarked mark = refl

item-Unmarked : Unmarked item.key
item-Unmarked Mark.get_variables_mark = refl
item-Unmarked mark = refl

abbrev after_drop : App
after_drop = key_value_json_result no_sql (reply (codes "1-0-1-0-dropView")) (some ok_data) app

delete_of-dropped_example :
    (delete_of a_view (get_sql_converter no_parser [] Protocol.mysql) sold panel
      ≡ per_protocol Protocol.mysql
          (sends
            (drop_message a_view shop sold
              (codes "7")
              (statement (drop_statement a_view (codes "shop") (codes "sold"))))
            panel)
          none
          (sends (drop_message a_view shop sold (codes "7") nothing) panel))
    × (find_node_by_key sold.key after_drop.tree_data ≡ none)
unfolding database_node find_node_by_key cut_string_at_dash dash_index
delete_of-dropped_example =
    delete_of-dropped no_parser [] Protocol.mysql no_sql a_view sold shop (codes "7") panel
      (reply (codes "1-0-1-0-dropView")) ok_data app refl refl sold-Unmarked refl

table_delete-unanswered_example :
    (table_delete (get_sql_converter no_parser [] Protocol.mysql) item panel
      ≡ per_protocol Protocol.mysql
          (sends_and_deletes
            (drop_table_message shop item
              (codes "7")
              (statement (drop_table (codes "shop") (codes "item"))))
            item.key
            panel)
          none
          (sends_and_deletes (drop_table_message shop item (codes "7") nothing) item.key panel))
    × (key_value_json_result no_sql (reply (codes "1-0-0-0")) (some ok_data) app ≡ app)
unfolding database_node find_node_by_key cut_string_at_dash dash_index
table_delete-unanswered_example =
    table_delete-unanswered no_parser [] Protocol.mysql no_sql item shop (codes "7") panel
      (reply (codes "1-0-0-0")) ok_data app refl refl item-Unmarked refl

on_expand-listed_example :
    on_expand
      (get_sql_converter no_parser [] Protocol.maria_db)
      (codes "1-0-0" ∷ [])
      true
      all_tables
      panel
    ≡ listed Protocol.maria_db tables shop all_tables.key
        (codes "7")
        (record panel { expanded_keys = codes "1-0-0" ∷ [] })
unfolding find_node_by_key
on_expand-listed_example =
    on_expand-listed no_parser [] Protocol.maria_db tables all_tables (parent shop lists)
      (codes "7") (codes "1-0-0" ∷ []) true (codes "1-0") (codes "0") panel refl refl refl refl refl
