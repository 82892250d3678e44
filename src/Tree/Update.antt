-- ===== src/Tree/Update.antt =====
-- `updateTreeNodeByKey` against `findNodeByKey`.
use next_dbm.Base.{
  ◌≡◌, refl, Bool, true, false, Text, text_eq, Option, none, some, Bool-cases, inl, inr,
}
use mathlib.Core.Option
use next_dbm.Tree.Defs.{
  Info, Forest, nil, leaf, branch, Node, single, parent, info_of, push_node, or_else,
  find_node_by_key, in_children, update_tree_node_by_key,
}
use next_dbm.Tree.Find.{is_found}

-- The updater leaves the key that is looked for as it is.
abbrev pub KeepsKey : Text → (Node → Node) → Type 0
KeepsKey key updater =
    (n : Node) → text_eq (info_of n).key key ≡ true → text_eq (info_of (updater n)).key key ≡ true

find_node_by_key-push_node :
    (key : Text) (n : Node) (rest : Forest)
    → text_eq (info_of n).key key ≡ true
    → find_node_by_key key (push_node n rest) ≡ some n
unfolding find_node_by_key
find_node_by_key-push_node key (single info) rest h = rw h refl
find_node_by_key-push_node key (parent info children) rest h = rw h refl

-- A result of the search: whether the node was found, and the array with it updated.
abbrev Updated : Text → (Node → Node) → Option Node → Bool × Forest → Type 0
Updated key updater node result =
    (result.0 ≡ is_found node) × (find_node_by_key key result.1 ≡ Option.map updater node)

in_children-Updated :
    (key : Text) (updater : Node → Node) (info : Info) (below later : Bool × Forest) (rest : Forest)
    (node : Option Node)
    → text_eq info.key key ≡ false
    → Updated key updater node below
    → Updated key updater (find_node_by_key key rest) later
    → Updated key updater
        (or_else node (find_node_by_key key rest))
        (in_children info below later rest)
unfolding find_node_by_key
in_children-Updated key updater info (true, children) later rest none e h k = cc h.0
in_children-Updated key updater info (true, children) later rest (some n) e h k =
    (refl, rw (e, h.1) refl)
in_children-Updated key updater info (false, children) (found, rest') rest none e h k =
    (k.0, rw (e, h.1) k.1)
in_children-Updated key updater info (false, children) later rest (some n) e h k = cc h.0

-- The search reports a node exactly where `findNodeByKey` finds one, and afterwards `findNodeByKey`
-- finds that very node, updated; where there is none, nothing is found afterwards either.
pub update_tree_node_by_key-Updated :
    (key : Text) (updater : Node → Node) (tree_data : Forest)
    → KeepsKey key updater
    → ((update_tree_node_by_key key updater tree_data).0
        ≡ is_found (find_node_by_key key tree_data))
      × (find_node_by_key key (update_tree_node_by_key key updater tree_data).1
          ≡ Option.map updater (find_node_by_key key tree_data))
unfolding update_tree_node_by_key find_node_by_key
update_tree_node_by_key-Updated key updater nil keeps = (refl, refl)
update_tree_node_by_key-Updated key updater (leaf info rest) keeps =
    let later = update_tree_node_by_key-Updated key updater rest keeps in
    elim (Bool-cases (text_eq info.key key)) [
      | inl e ↦ (
        rw e refl,
        rw e (find_node_by_key-push_node key (updater (single info)) rest (keeps (single info) e)),
      )
      | inr e ↦ (rw e later.0, rw (e, e) later.1)
    ]
update_tree_node_by_key-Updated key updater (branch info children rest) keeps =
    let below = update_tree_node_by_key-Updated key updater children keeps in
    let later = update_tree_node_by_key-Updated key updater rest keeps in
    elim (Bool-cases (text_eq info.key key)) [
      | inl e ↦ (
        rw e refl,
        rw e (
            find_node_by_key-push_node key (updater (parent info children)) rest
              (keeps (parent info children) e)),
      )
      | inr e ↦
          let (a, b) =
            in_children-Updated key updater info (update_tree_node_by_key key updater children)
              (update_tree_node_by_key key updater rest) rest (find_node_by_key key children) e
              below later in
          (rw e a, rw e b)
    ]
