-- ===== src/Tree/Tests.antt =====
-- A database with a list of tables.
use next_dbm.Base.{◌≡◌, refl, true, Text, text_eq, codes, none, some}
use mathlib.Core.Option
use next_dbm.Tree.Defs.{
  Info, Forest, nil, leaf, branch, Node, single, parent, info_of, find_node_by_key,
  update_tree_node_by_key, delete_tree_node_by_key,
}
use next_dbm.Tree.Find.{is_found}
use next_dbm.Tree.Update.{update_tree_node_by_key-Updated}

abbrev info : Text → Text → Info
info key menu_type = record {
  key = key;
  title = key;
  menu_type = menu_type;
  icon = none;
  asset_id = some (codes "a");
}

abbrev tree : Forest
tree =
    branch (info (codes "db") (codes "databaseMenu"))
      (branch (info (codes "tables") (codes "tablesMenu"))
        (leaf (info (codes "t1") (codes "tableMenu")) nil) nil)
      nil

abbrev renamed : Node → Node
renamed (single i) = single (record i { title = codes "new" })
renamed (parent i children) = parent (record i { title = codes "new" }) children

update_tree_node_by_key-Updated_example :
    ((update_tree_node_by_key (codes "t1") renamed tree).0
      ≡ is_found (find_node_by_key (codes "t1") tree))
    × (find_node_by_key (codes "t1") (update_tree_node_by_key (codes "t1") renamed tree).1
        ≡ Option.map renamed (find_node_by_key (codes "t1") tree))
update_tree_node_by_key-Updated_example =
    update_tree_node_by_key-Updated (codes "t1") renamed tree keeps
  where
    keeps :
        (n : Node)
        → text_eq (info_of n).key (codes "t1") ≡ true
        → text_eq (info_of (renamed n)).key (codes "t1") ≡ true
    keeps (single i) h = h
    keeps (parent i children) h = h

deleted_test :
    delete_tree_node_by_key (codes "tables") tree
    ≡ branch (info (codes "db") (codes "databaseMenu")) nil nil
unfolding delete_tree_node_by_key
deleted_test = refl
