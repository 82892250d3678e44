-- ===== src/Explorer/Search.antt =====
-- What the search shows, and what is a key of the tree.
use next_dbm.Base.{
  ◌≡◌, refl, Bool, true, false, ◌||◌, List, [], ◌∷◌, ◌++◌, Text, text_eq, Option, none, some, arith,
  if◌then◌else◌,
}
use next_dbm.Mysql.Defs.{includes}
use next_dbm.Tree.Defs.{Info, Forest, nil, leaf, branch, or_else, find_node_by_key, Node}
use next_dbm.Tree.Find.{is_found}
use next_dbm.Explorer.Defs.{has_nodes, name_matches, filter_nodes, get_all_keys}

-- The nodes whose name matches, at any depth, in their order.
abbrev pub matches : (lower : Text → Text) → Text → Forest → List Info
matches lower filter nil = []
matches lower filter (leaf info rest) =
    let later = matches lower filter rest in
    if name_matches lower filter info then info ∷ later else later
matches lower filter (branch info children rest) =
    let later = matches lower filter children ++ matches lower filter rest in
    if name_matches lower filter info then info ∷ later else later

-- What the filter leaves empty has no match.
matches-empty :
    (lower : Text → Text) (filter : Text) (t : Forest)
    → has_nodes (filter_nodes lower filter t) ≡ false
    → matches lower filter t ≡ []
unfolding filter_nodes
matches-empty lower filter nil h = refl
matches-empty lower filter (leaf info rest) h = ground (arith, h, matches-empty lower filter rest)
matches-empty lower filter (branch info children rest) h =
    ground (arith, h, matches-empty lower filter children, matches-empty lower filter rest)

-- The search loses no node whose name matches, and makes up none: in what it shows, the nodes that match,
-- at any depth, are those of the whole tree, in the same order.
pub matches-filter_nodes :
    (lower : Text → Text) (filter : Text) (t : Forest)
    → matches lower filter (filter_nodes lower filter t) ≡ matches lower filter t
unfolding filter_nodes
matches-filter_nodes lower filter nil = refl
matches-filter_nodes lower filter (leaf info rest) =
    ground (arith, matches-filter_nodes lower filter rest)
matches-filter_nodes lower filter (branch info children rest) = ground (
  arith,
  matches-filter_nodes lower filter rest,
  matches-filter_nodes lower filter children,
  matches-empty lower filter children,
)

-- Searching again for the same text changes nothing.
pub filter_nodes-twice :
    (lower : Text → Text) (filter : Text) (t : Forest)
    → filter_nodes lower filter (filter_nodes lower filter t) ≡ filter_nodes lower filter t
unfolding filter_nodes
filter_nodes-twice lower filter nil = refl
filter_nodes-twice lower filter (leaf info rest) =
    ground (arith, filter_nodes-twice lower filter rest)
filter_nodes-twice lower filter (branch info children rest) =
    ground (arith, filter_nodes-twice lower filter rest, filter_nodes-twice lower filter children)

found_or_else : (a b : Option Node) → is_found (or_else a b) ≡ (is_found a || is_found b)
found_or_else none b = refl
found_or_else (some n) b = refl

abbrev pub is_key : Text → List Text → Bool
is_key key [] = false
is_key key (k ∷ keys) = text_eq k key || is_key key keys

is_key-append :
    (key : Text) (a b : List Text) → is_key key (a ++ b) ≡ (is_key key a || is_key key b)
is_key-append key [] b = refl
is_key-append key (k ∷ a) b = ground (arith, is_key-append key a b)

-- A node is found under a key exactly if the key is one of those that expanding all of the tree opens.
pub find_node_by_key-get_all_keys :
    (key : Text) (t : Forest) → is_found (find_node_by_key key t) ≡ is_key key (get_all_keys t)
unfolding find_node_by_key get_all_keys
find_node_by_key-get_all_keys key nil = refl
find_node_by_key-get_all_keys key (leaf info rest) =
    ground (arith, find_node_by_key-get_all_keys key rest)
find_node_by_key-get_all_keys key (branch info children rest) = ground (
  arith,
  find_node_by_key-get_all_keys key rest,
  find_node_by_key-get_all_keys key children,
  found_or_else (find_node_by_key key children) (find_node_by_key key rest),
  is_key-append key (get_all_keys children) (get_all_keys rest),
)

includes-nothing : (s : Text) → includes [] s ≡ true
includes-nothing [] = refl
includes-nothing (x ∷ s) = refl

-- With an empty search the whole tree is shown, as it is, when `toLowerCase` of the empty text is empty.
pub filter_nodes-nothing :
    (lower : Text → Text) (t : Forest) → lower [] ≡ [] → filter_nodes lower [] t ≡ t
unfolding filter_nodes
filter_nodes-nothing lower nil h = refl
filter_nodes-nothing lower (leaf info rest) h =
    let here = includes-nothing (lower info.title) in
    rw (h, here, filter_nodes-nothing lower rest h) refl
filter_nodes-nothing lower (branch info children rest) h =
    let here = includes-nothing (lower info.title) in
    rw (h, here, filter_nodes-nothing lower rest h, filter_nodes-nothing lower children h)
      (kept children)
  where
    kept : (c : Forest) → branch info (if has_nodes c then c else c) rest ≡ branch info c rest
    kept nil = refl
    kept (leaf i r) = refl
    kept (branch i c r) = refl
