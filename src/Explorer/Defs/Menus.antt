-- ===== src/Explorer/Defs/Menus.antt =====
-- The menus of the nodes. Each function is the entry of a menu, or what it does once its dialog is
-- confirmed or its name is given; the entries that only open a dialog or show a note are left out.
use next_dbm.Base.{
  false, List, [], ◌∷◌, ◌++◌, Text, codes, text_eq, if◌then◌else◌, Option, none, some, and_then,
}
use mathlib.Core.Option
use next_dbm.Tree.Defs.{Info}
use next_dbm.Tabs.Defs.{Params, Mode, editor, filter, diff, designer, view, function, procedure}
use next_dbm.Explorer.Defs.State.{Call, Panel, call, Converter, database_node, send_statement}
use next_dbm.Explorer.Defs.Opening.{of_database, of_table, attr_of, ask_table_ddl}

abbrev pub hide_menu : Panel → Panel
hide_menu x = record x { show_menu = false }

-- `expandedKeys.filter(key => key !== currentNode.key)`
abbrev pub without_key : Text → List Text → List Text
without_key key [] = []
without_key key (k ∷ keys) =
    let rest = without_key key keys in if text_eq k key then rest else k ∷ rest

unfoldable pub close_db : Info → Panel → Panel
close_db node x = hide_menu (record x { expanded_keys = without_key node.key x.expanded_keys })

unfoldable pub open_db : Info → Panel → Panel
open_db node x = hide_menu (record x { expanded_keys = x.expanded_keys ++ (node.key ∷ []) })

-- What an entry does with the node of the database and its asset; without them it throws.
abbrev pub with_database :
    Info → ((db : Info) (asset_id : Text) → Option Panel) → Panel → Option Panel
with_database node f x =
    and_then (database_node node.key x) (λ (db : Info). and_then db.asset_id (f db))

abbrev pub open_tab : Params → Panel → Panel
open_tab params x = hide_menu (call (Call.add_tab params) x)

abbrev pub tab_of : Mode → (key title asset_id : Text) → Params
tab_of type key title asset_id = record {
  key = key;
  title = title;
  type = type;
  sql = [];
  asset_id = asset_id;
  db_name = [];
  table_name = [];
  er_url = [];
}

-- `queryDB`, `openTable` and `add` of the saved queries.
unfoldable pub query_db : Info → Panel → Option Panel
query_db node x =
    with_database node (λ db asset_id. some (open_tab (tab_of editor [] [] asset_id) x)) x

-- `dropDatabase`, confirmed.
unfoldable pub delete_db : Converter → Info → Panel → Option Panel
delete_db get_sql node x =
    send_statement (get_sql (codes "dropDatabase") (of_database node.title)) node.key
      (codes "executeResult") (record (attr_of [] [] []) { asset_id = none }) x

-- `database.name`
abbrev pub full_name : (database name : Text) → Text
full_name database name = database ++ (46 ∷ name)

-- The four `add`, once the name is given: a tab whose key has the mark of what is created.
abbrev pub add_object : Mode → (mark : Text) → (new_name : Text) → Info → Panel → Option Panel
add_object type mark new_name node x =
    with_database node
      (λ (db : Info) asset_id. some (
        call (Call.add_tab (tab_of type (node.key ++ mark) (full_name db.title new_name) asset_id))
          x))
      x

unfoldable pub add_table : Text → Info → Panel → Option Panel
add_table = add_object designer (codes "-createTable")

unfoldable pub add_view : Text → Info → Panel → Option Panel
add_view = add_object view (codes "-createView")

unfoldable pub add_function : Text → Info → Panel → Option Panel
add_function = add_object function (codes "-createFunction")

unfoldable pub add_procedure : Text → Info → Panel → Option Panel
add_procedure = add_object procedure (codes "-createProcedure")

-- `dbm` and `tableDiff`
abbrev pub open_table_tab : Mode → (mark : Text) → Info → Panel → Option Panel
open_table_tab type mark node x =
    with_database node
      (λ (db : Info) asset_id.
        some (open_tab (tab_of type (node.key ++ mark) (full_name db.title node.title) asset_id) x))
      x

unfoldable pub table_dbm : Info → Panel → Option Panel
table_dbm = open_table_tab designer (codes "-alterTable")

unfoldable pub table_diff : Info → Panel → Option Panel
table_diff = open_table_tab diff (codes "-diffTable")

-- `tableFilter`: a tab with the rows of the table, and the request for them.
unfoldable pub table_filter : Converter → Info → Panel → Option Panel
table_filter get_sql node x =
    with_database node
      (λ (db : Info) asset_id.
        let name = full_name db.title node.title in
        let params = record (tab_of filter name name asset_id) {
          db_name = db.title;
          table_name = node.title;
        } in
        Option.map hide_menu (
          send_statement (get_sql (codes "selectTableData") (of_table db.title node.title)) name
            (codes "tableRsesult") (record (attr_of asset_id db.title []) { tab_id = name })
            (call (Call.add_tab params) x)))
      x

-- `tableRename`, with the new name.
unfoldable pub table_rename : Converter → (new_name : Text) → Info → Panel → Option Panel
table_rename get_sql new_name node x =
    with_database node
      (λ (db : Info) asset_id.
        send_statement
          (get_sql (codes "renameTable")
            (record (of_database db.title) { old_name = node.title; new_name = new_name }))
          (node.key ++ codes "-renameTable") (codes "KeyValueJsonResult")
          (attr_of asset_id [] new_name) x)
      x

unfoldable pub table_ddl : Converter → Info → Panel → Option Panel
table_ddl get_sql node x = Option.map hide_menu (ask_table_ddl get_sql node x)

-- `tableDelete`, confirmed: the node is taken out at once.
unfoldable pub table_delete : Converter → Info → Panel → Option Panel
table_delete get_sql node x =
    with_database node
      (λ (db : Info) asset_id. Option.map (call (Call.delete_tree_node node.key)) (
        send_statement (get_sql (codes "dropTable") (of_table db.title node.title)) node.key
          (codes "KeyValueJsonResult")
          (record (attr_of asset_id db.title []) { view_name = some node.title }) x))
      x

-- `tableEmpty`, confirmed.
unfoldable pub table_empty : Converter → Info → Panel → Option Panel
table_empty get_sql node x =
    with_database node
      (λ (db : Info) asset_id.
        send_statement (get_sql (codes "truncateTable") (of_table db.title node.title)) node.key
          (codes "executeResult") (attr_of asset_id [] []) x)
      x

unfoldable pub table_copy : Converter → Info → Panel → Option Panel
table_copy get_sql node x =
    with_database node
      (λ (db : Info) asset_id. Option.map hide_menu (
        send_statement (get_sql (codes "copyTable") (of_table db.title node.title)) node.key
          (codes "executeResult") (attr_of asset_id [] []) x))
      x
