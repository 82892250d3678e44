-- ===== src/Tree/Defs.antt =====
-- The nodes of the object tree, and the functions on them of visibilityProvider.js and Utils/index.js.
use next_dbm.Base.{Bool, true, false, Text, codes, text_eq, if◌then◌else◌, Option, none, some}

-- The icons that `getIcon` makes.
pub data Icon : Type 0 where
  database_outlined appstore_outlined table_outlined folder_view_outlined : Icon
  function_outlined container_outlined console_sql_outlined : Icon

-- The fields of a node but its children; `asset_id` is `attr.assetId`, where the node has `attr`.
pub record Info : Type 0 where
  pub key : Text
  pub title : Text
  pub menu_type : Text
  pub icon : Option Icon
  pub asset_id : Option Text

-- An array of nodes: its first node, without or with an array of children, and the rest of it.
pub data Forest : Type 0 where
  nil : Forest
  leaf : Info → Forest → Forest
  branch : Info → Forest → Forest → Forest

-- A node by itself.
pub data Node : Type 0 where
  single : Info → Node
  parent : Info → Forest → Node

abbrev pub info_of : Node → Info
info_of (single info) = info
info_of (parent info children) = info

abbrev pub push_node : Node → Forest → Forest
push_node (single info) rest = leaf info rest
push_node (parent info children) rest = branch info children rest

unfoldable pub get_icon : Text → Option Icon
get_icon menu_type =
    if text_eq menu_type (codes "databaseMenu")
    then some database_outlined
    else if text_eq menu_type (codes "tablesMenu")
    then some appstore_outlined
    else if text_eq menu_type (codes "tableMenu")
    then some table_outlined
    else if text_eq menu_type (codes "viewsMenu")
    then some folder_view_outlined
    else if text_eq menu_type (codes "viewMenu")
    then some folder_view_outlined
    else if text_eq menu_type (codes "functionsMenu")
    then some function_outlined
    else if text_eq menu_type (codes "functionMenu")
    then some function_outlined
    else if text_eq menu_type (codes "proceduresMenu")
    then some container_outlined
    else if text_eq menu_type (codes "procedureMenu")
    then some container_outlined
    else if text_eq menu_type (codes "sqlsMenu")
    then some console_sql_outlined
    else if text_eq menu_type (codes "sqlMenu")
    then some console_sql_outlined
    else none

abbrev pub with_icon : Info → Info
with_icon info = record info { icon = get_icon info.menu_type }

-- `updateTreeIcons`
unfoldable pub update_tree_icons : Forest → Forest
update_tree_icons nil = nil
update_tree_icons (leaf info rest) = leaf (with_icon info) (update_tree_icons rest)
update_tree_icons (branch info children rest) =
    branch (with_icon info) (update_tree_icons children) (update_tree_icons rest)

-- `addIconsToData`: a node without children gets an empty array of them.
unfoldable pub add_icons_to_data : Forest → Forest
add_icons_to_data nil = nil
add_icons_to_data (leaf info rest) = branch (with_icon info) nil (add_icons_to_data rest)
add_icons_to_data (branch info children rest) =
    branch (with_icon info) (add_icons_to_data children) (add_icons_to_data rest)

-- `updateNodeByKey`: every node of the key whose ancestors do not have it.
unfoldable pub update_node_by_key : Text → Forest → Forest → Forest
update_node_by_key key new_data nil = nil
update_node_by_key key new_data (leaf info rest) =
    let rest' = update_node_by_key key new_data rest in
    if text_eq info.key key then branch info new_data rest' else leaf info rest'
update_node_by_key key new_data (branch info children rest) =
    let rest' = update_node_by_key key new_data rest in
    let children' = update_node_by_key key new_data children in
    branch info (if text_eq info.key key then new_data else children') rest'

abbrev pub or_else : Option Node → Option Node → Option Node
or_else none later = later
or_else (some node) later = some node

-- `findNodeByKey`
unfoldable pub find_node_by_key : Text → Forest → Option Node
find_node_by_key key nil = none
find_node_by_key key (leaf info rest) =
    let later = find_node_by_key key rest in
    if text_eq info.key key then some (single info) else later
find_node_by_key key (branch info children rest) =
    let later = or_else (find_node_by_key key children) (find_node_by_key key rest) in
    if text_eq info.key key then some (parent info children) else later

-- `updateTreeNodeByKey`: the first node of the key; `updater` is the node with the new fields over the
-- old ones. Then whether it was found.
abbrev pub in_children : Info → Bool × Forest → Bool × Forest → Forest → Bool × Forest
in_children info (true, children) later rest = (true, branch info children rest)
in_children info (false, children) (found, rest') rest = (found, branch info children rest')

unfoldable pub update_tree_node_by_key : Text → (Node → Node) → Forest → Bool × Forest
update_tree_node_by_key key updater nil = (false, nil)
update_tree_node_by_key key updater (leaf info rest) =
    let (found, rest') = update_tree_node_by_key key updater rest in
    if text_eq info.key key
    then (true, push_node (updater (single info)) rest)
    else (found, leaf info rest')
update_tree_node_by_key key updater (branch info children rest) =
    let later =
      in_children info (update_tree_node_by_key key updater children)
        (update_tree_node_by_key key updater rest) rest in
    if text_eq info.key key then (true, push_node (updater (parent info children)) rest) else later

-- `updateTreeNode`: the tree afterwards, whether or not the key was found.
unfoldable pub update_tree_node : Text → (Node → Node) → Forest → Forest
update_tree_node key updater tree_data = (update_tree_node_by_key key updater tree_data).1

-- `deleteTreeNodeByKey`: every node of the key, at any depth.
unfoldable pub delete_tree_node_by_key : Text → Forest → Forest
delete_tree_node_by_key key nil = nil
delete_tree_node_by_key key (leaf info data') =
    let rest = delete_tree_node_by_key key data' in
    if text_eq info.key key then rest else leaf info rest
delete_tree_node_by_key key (branch info children data') =
    let rest = delete_tree_node_by_key key data' in
    let kept = delete_tree_node_by_key key children in
    if text_eq info.key key then rest else branch info kept rest
