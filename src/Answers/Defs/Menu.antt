-- ===== src/Answers/Defs/Menu.antt =====
-- The menus of the tree.
use next_dbm.Base.{List, [], ◌∷◌, ◌++◌, Text, codes, Option, none, some}
use next_dbm.Tree.Defs.{Forest, nil, leaf, branch, update_tree_icons, update_node_by_key}
use next_dbm.Answers.Defs.State.{Answer, App, request}

-- `updatedTreeData.map(item => ({value: item.title, label: item.title, key: item.key}))`
abbrev pub names_of : Forest → List (Text × Text)
names_of nil = []
names_of (leaf info rest) = (info.title, info.key) ∷ names_of rest
names_of (branch info children rest) = (info.title, info.key) ∷ names_of rest

abbrev pub under_asset : Option Text → Forest → Forest → Forest
under_asset none updated tree_data = updated
under_asset (some []) updated tree_data = updated
under_asset (some (x ∷ id)) updated tree_data = update_node_by_key (x ∷ id) updated tree_data

-- The databases of one asset: below its node, if the answer names it, else instead of the tree.
unfoldable pub database_menu : Answer → Forest → App → App
database_menu r data' a =
    let updated = update_tree_icons data' in
    record a {
      tree_data = under_asset r.attr.asset_id updated a.tree_data;
      db_names = names_of updated;
    }

-- `setTreeData(updateNodeByKey(treeData, key, updateTreeIcons(data)))`, with the `treeData` that the
-- effect holds.
abbrev pub sub_menu : Forest → Answer → Forest → App → App
sub_menu tree_data r data' a = record a {
  tree_data = update_node_by_key r.key (update_tree_icons data') tree_data;
}

-- The cases of `tablesMenu` and its like run on into the case `tableMenu`.
unfoldable pub tables_menu : Answer → Forest → App → App
tables_menu r data' a = sub_menu a.tree_data r data' (sub_menu a.tree_data r data' a)

unfoldable pub table_menu : Answer → Forest → App → App
table_menu r data' a = sub_menu a.tree_data r data' a

-- The answer to a statement: the databases are asked for again; `time` is the clock.
unfoldable pub execute_result : (get_sql : Text → Text) → (time : Text) → App → App
execute_result get_sql time a =
    request
      (record {
        key = codes "0001" ++ time;
        ret_type = codes "databaseMenu";
        sql = get_sql (codes "getAllDatabases");
      })
      a
