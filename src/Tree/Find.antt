-- ===== src/Tree/Find.antt =====
-- What is found in the tree after it is changed.
use next_dbm.Base.{
  ◌≡◌, refl, sym, Bool, true, false, Text, text_eq, Option, none, some, Bool-cases, inl, inr, arith,
}
use mathlib.Core.Option
use next_dbm.Tree.Defs.{
  Forest, nil, leaf, branch, Node, single, parent, info_of, with_icon, update_tree_icons,
  add_icons_to_data, update_node_by_key, or_else, find_node_by_key, delete_tree_node_by_key,
}

abbrev pub is_found : Option Node → Bool
is_found none = false
is_found (some _) = true

-- What `addIconsToData` makes of a node.
abbrev pub with_icons : Node → Node
with_icons (single info) = parent (with_icon info) nil
with_icons (parent info children) = parent (with_icon info) (add_icons_to_data children)

or_else-map :
    (f : Node → Node) (a b : Option Node)
    → Option.map f (or_else a b) ≡ or_else (Option.map f a) (Option.map f b)
or_else-map f none b = refl
or_else-map f (some n) b = refl

-- After icons are added to the whole tree, exactly the same keys are found, each with the node that it
-- named before: its own icon, an array of children, and icons below.
pub find_node_by_key-add_icons_to_data :
    (key : Text) (tree_data : Forest)
    → find_node_by_key key (add_icons_to_data tree_data)
      ≡ Option.map with_icons (find_node_by_key key tree_data)
unfolding find_node_by_key add_icons_to_data
find_node_by_key-add_icons_to_data key nil = refl
find_node_by_key-add_icons_to_data key (leaf info rest) =
    ground (arith, find_node_by_key-add_icons_to_data key rest)
find_node_by_key-add_icons_to_data key (branch info children rest) =
    let a = find_node_by_key-add_icons_to_data key children in
    let b = find_node_by_key-add_icons_to_data key rest in
    let both = or_else-map with_icons (find_node_by_key key children) (find_node_by_key key rest) in
    rw (a, b, sym both) (ground arith)

-- What `updateTreeIcons` makes of a node.
abbrev pub with_new_icons : Node → Node
with_new_icons (single info) = single (with_icon info)
with_new_icons (parent info children) = parent (with_icon info) (update_tree_icons children)

-- After the icons of the whole tree are updated, exactly the same keys are found, each with the node that
-- it named before, with the icon of its own type, and icons below.
pub find_node_by_key-update_tree_icons :
    (key : Text) (tree_data : Forest)
    → find_node_by_key key (update_tree_icons tree_data)
      ≡ Option.map with_new_icons (find_node_by_key key tree_data)
unfolding find_node_by_key update_tree_icons
find_node_by_key-update_tree_icons key nil = refl
find_node_by_key-update_tree_icons key (leaf info rest) =
    ground (arith, find_node_by_key-update_tree_icons key rest)
find_node_by_key-update_tree_icons key (branch info children rest) =
    let a = find_node_by_key-update_tree_icons key children in
    let b = find_node_by_key-update_tree_icons key rest in
    let both =
      or_else-map with_new_icons (find_node_by_key key children) (find_node_by_key key rest) in
    rw (a, b, sym both) (ground arith)

-- A deleted key is found no more, at any depth.
pub find_node_by_key-delete :
    (key : Text) (tree_data : Forest)
    → find_node_by_key key (delete_tree_node_by_key key tree_data) ≡ none
unfolding find_node_by_key delete_tree_node_by_key
find_node_by_key-delete key nil = refl
find_node_by_key-delete key (leaf info rest) = ground (arith, find_node_by_key-delete key rest)
find_node_by_key-delete key (branch info children rest) =
    ground (arith, find_node_by_key-delete key rest, find_node_by_key-delete key children)

-- A node as `updateNodeByKey` leaves it.
abbrev pub with_children : Forest → Node → Node
with_children new_data node = parent (info_of node) new_data

-- After `updateNodeByKey`, the node found for the key is the one that was found before, with the new
-- children; where there was none, there is none.
pub find_node_by_key-update_node_by_key :
    (key : Text) (new_data tree_data : Forest)
    → find_node_by_key key (update_node_by_key key new_data tree_data)
      ≡ Option.map (with_children new_data) (find_node_by_key key tree_data)
unfolding find_node_by_key update_node_by_key
find_node_by_key-update_node_by_key key new_data nil = refl
find_node_by_key-update_node_by_key key new_data (leaf info rest) =
    ground (arith, find_node_by_key-update_node_by_key key new_data rest)
find_node_by_key-update_node_by_key key new_data (branch info children rest) =
    let a = find_node_by_key-update_node_by_key key new_data children in
    let b = find_node_by_key-update_node_by_key key new_data rest in
    let both =
      or_else-map (with_children new_data) (find_node_by_key key children)
        (find_node_by_key key rest) in
    elim (Bool-cases (text_eq info.key key)) [
      | inl e ↦ rw e refl
      | inr e ↦ rw (e, a, b, sym both) refl
    ]
