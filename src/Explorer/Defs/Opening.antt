-- ===== src/Explorer/Defs/Opening.antt =====
-- Selecting and expanding nodes, and the search field.
use next_dbm.Base.{
  Bool, true, false, ◌||◌, List, [], ◌++◌, length, ltb, Text, codes, text_eq, if◌then◌else◌, Option,
  none, some, and_then,
}
use mathlib.Core.Option
use next_dbm.Tree.Defs.{Info, Forest}
use next_dbm.Utils.Defs.{cut_string_at_dash, dash, last_dash}
use next_dbm.Mysql.Defs.{TableParams}
use next_dbm.Dispatch.Defs.{Answer, SqlParams, nothing, statement}
use next_dbm.Answers.Defs.{Attr}
use next_dbm.Explorer.Defs.Search.{filter_nodes, get_all_keys}
use next_dbm.Explorer.Defs.State.{
  Call, Panel, call, Converter, node_at, database_node, send_statement,
}

abbrev pub no_table : TableParams
no_table = record {
  table_name = [];
  field_data = [];
  index_data = [];
  foreign_key_data = [];
  trigger_data = [];
  option_data = none;
  remark = [];
}

-- `{database}`; the parameters that are not given are empty here, and no converter called with them
-- reads them.
abbrev pub of_database : Text → SqlParams
of_database database = record {
  database = database;
  table_name = [];
  old_name = [];
  new_name = [];
  view_name = [];
  function_name = [];
  procedure_name = [];
  charset = [];
  collation = [];
  sql = [];
  view_options = none;
  table = no_table;
  original_ddl = [];
  modified_ddl = [];
  table_struct = [];
  columns = [];
  rows = [];
  new_rows = [];
  values = [];
  old_row = [];
}

-- `{database, tableName}`
abbrev pub of_table : (database table_name : Text) → SqlParams
of_table database table_name = record (of_database database) { table_name = table_name }

-- `attr` of a request about an object of a database.
abbrev pub attr_of : (asset_id database new_name : Text) → Attr
attr_of asset_id database new_name = record {
  asset_id = some asset_id;
  database = database;
  table_name = none;
  view_name = none;
  function_name = none;
  procedure_name = none;
  new_name = new_name;
  data_type = [];
  tab_id = [];
}

-- `handleExpandAll`; `tree_data` is that of the context.
unfoldable pub handle_expand_all : Forest → Panel → Panel
handle_expand_all tree_data x =
    let all_keys = get_all_keys tree_data in
    if ltb (length x.expanded_keys) (length all_keys)
    then record x { expanded_keys = all_keys }
    else x

unfoldable pub handle_collapse_all : Panel → Panel
handle_collapse_all x = record x { expanded_keys = [] }

-- `handleSearchChange`, and the effect on `filter`.
unfoldable pub handle_search_change : (lower : Text → Text) → Text → Forest → Panel → Panel
handle_search_change lower value tree_data x = record x {
  filter = value;
  filtered_data = filter_nodes lower value tree_data;
}

-- The effect on `treeData`: the new tree is shown whole, whatever is searched for.
unfoldable pub on_tree_data : Forest → Panel → Panel
on_tree_data tree_data x = record x { filtered_data = tree_data }

-- `getTableDDL` of a table, under the key of its node and the mark.
unfoldable pub ask_table_ddl : Converter → Info → Panel → Option Panel
ask_table_ddl get_sql node x = and_then (database_node node.key x) (λ (db : Info).
    and_then db.asset_id (λ (asset_id : Text).
      send_statement (get_sql (codes "getTableDDL") (of_table db.title node.title))
        (node.key ++ codes "-getTableDDL") (codes "KeyValueJsonResult") (attr_of asset_id [] []) x))

-- `onSelect`
unfoldable pub on_select : Converter → Info → Panel → Option Panel
on_select get_sql node x =
    let asked = ask_table_ddl get_sql node x in
    if text_eq node.menu_type (codes "tableMenu") then asked else some x

-- `info.node.menuType == 'tablesMenu' || ...`: the lists below a database, and those below a table.
abbrev pub in_database : Text → Bool
in_database menu_type =
    text_eq menu_type (codes "tablesMenu")
    || text_eq menu_type (codes "viewsMenu")
    || text_eq menu_type (codes "functionsMenu")
    || text_eq menu_type (codes "proceduresMenu")

abbrev pub in_table : Text → Bool
in_table menu_type =
    text_eq menu_type (codes "columnsMenu")
    || text_eq menu_type (codes "keysMenu")
    || text_eq menu_type (codes "indexsMenu")

-- `if (sqlStr)`
abbrev pub send_if_given : Answer Text → (key ret_type : Text) → Attr → Panel → Option Panel
send_if_given nothing key ret_type attr x = some x
send_if_given (statement []) key ret_type attr x = some x
send_if_given data' key ret_type attr x = send_statement data' key ret_type attr x

abbrev pub title_of : Option Info → Text
title_of none = []
title_of (some node) = node.title

-- `if (nodeInfo)`: the statement that lists what is below `node`; `table` is `tableName`.
unfoldable pub ask_children :
    Converter → Info → (node_info table : Option Info) → Panel → Option Panel
ask_children get_sql node none table x = some x
ask_children get_sql node (some db) table x = and_then db.asset_id (λ (asset_id : Text).
    send_if_given (get_sql (codes "getAll" ++ node.menu_type) (of_table db.title (title_of table)))
      node.key node.menu_type
      (record (attr_of asset_id db.title []) {
        table_name = Option.map (λ (t : Info). t.title) table;
      })
      x)

abbrev pub all_sqls : Info → Panel → Option Panel
all_sqls node x =
    Option.map (λ (db : Info). call (Call.sqls_all node.key db.title) x)
      (node_at node.key last_dash x)

abbrev pub expand_node : Converter → Info → Panel → Option Panel
expand_node get_sql node x =
    let sqls = all_sqls node x in
    let of_db = ask_children get_sql node (node_at node.key last_dash x) none x in
    let of_tb =
      ask_children get_sql node (node_at node.key (dash 2) x) (node_at node.key last_dash x) x in
    if text_eq node.menu_type (codes "sqlsMenu")
    then sqls
    else if in_database node.menu_type
    then of_db
    else if in_table node.menu_type
    then of_tb
    else some x

-- An asset is connected and disconnected.
abbrev pub expand_asset : Bool → Info → Panel → Panel
expand_asset true node x = call (Call.init (cut_string_at_dash node.key (dash 5))) x
expand_asset false node x = call (Call.close_connection (cut_string_at_dash node.key (dash 5))) x

-- `onExpand`, with the new keys and `info.expanded`.
unfoldable pub on_expand : Converter → List Text → Bool → Info → Panel → Option Panel
on_expand get_sql expanded_keys expanded node x0 =
    let x = record x0 { expanded_keys = expanded_keys } in
    let opened = expand_node get_sql node x in
    if text_eq node.menu_type (codes "asset") then some (expand_asset expanded node x) else opened
