-- ===== src/Explorer/Defs/Search.antt =====
-- `filterNodes` and `getAllKeys`.
use next_dbm.Base.{Bool, ◌||◌, false, true, List, [], ◌∷◌, ◌++◌, Text, if◌then◌else◌}
use next_dbm.Mysql.Defs.{includes}
use next_dbm.Tree.Defs.{Info, Forest, nil, leaf, branch}

-- `filteredChildren.length > 0`
abbrev pub has_nodes : Forest → Bool
has_nodes nil = false
has_nodes (leaf info rest) = true
has_nodes (branch info children rest) = true

-- `nameMatches`; no node has a `name`. `lower` is `toLowerCase`.
abbrev pub name_matches : (lower : Text → Text) → Text → Info → Bool
name_matches lower filter info = includes (lower filter) (lower info.title)

unfoldable pub filter_nodes : (lower : Text → Text) → Text → Forest → Forest
filter_nodes lower filter nil = nil
filter_nodes lower filter (leaf info rest) =
    let rest' = filter_nodes lower filter rest in
    if name_matches lower filter info then leaf info rest' else rest'
filter_nodes lower filter (branch info children rest) =
    let rest' = filter_nodes lower filter rest in
    let filtered_children = filter_nodes lower filter children in
    if name_matches lower filter info || has_nodes filtered_children
    then branch info (if has_nodes filtered_children then filtered_children else children) rest'
    else rest'

unfoldable pub get_all_keys : Forest → List Text
get_all_keys nil = []
get_all_keys (leaf info rest) = info.key ∷ get_all_keys rest
get_all_keys (branch info children rest) = info.key ∷ (get_all_keys children ++ get_all_keys rest)
