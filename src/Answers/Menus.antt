-- ===== src/Answers/Menus.antt =====
-- What a new object does to the tree: the request for the menu, and its answer.
use next_dbm.Base.{
  ◌≡◌, refl, ap, subst, of_some, ◌∙◌, sym, List, [], ◌∷◌, ◌++◌, Text, codes, Option, none, some,
}
use mathlib.Core.Option
use next_dbm.Tree.Defs.{Forest, find_node_by_key, update_tree_icons}
use next_dbm.Tree.Find.{with_children, find_node_by_key-update_node_by_key}
use next_dbm.Answers.Defs.{
  Answer, App, Mark, mark_text, create_table_mark, create_view_mark, create_function_mark,
  create_procedure_mark, key_value_json_result, tables_menu, table_menu,
}
use next_dbm.Answers.Objects.{Unmarked, handled, key_value_json_result-handled}

-- The menu of the objects that a mark creates.
abbrev pub created_menu : Mark → Option Text
created_menu create_table_mark = some (codes "tablesMenu")
created_menu create_view_mark = some (codes "viewsMenu")
created_menu create_function_mark = some (codes "functionsMenu")
created_menu create_procedure_mark = some (codes "proceduresMenu")
created_menu mark = none

-- The run into the next case sets the same tree again.
tables_menu-table_menu :
    (r : Answer) (data' : Forest) (a : App) → tables_menu r data' a ≡ table_menu r data' a
unfolding tables_menu table_menu
tables_menu-table_menu r data' a = refl

table_menu-find :
    (r : Answer) (data' : Forest) (a : App)
    → find_node_by_key r.key (tables_menu r data' a).tree_data
      ≡ Option.map (with_children (update_tree_icons data')) (find_node_by_key r.key a.tree_data)
unfolding tables_menu
table_menu-find r data' a =
    find_node_by_key-update_node_by_key r.key (update_tree_icons data') a.tree_data

-- The menu of the node `k` was asked for, and the tree is as before.
abbrev pub Asked :
    (get_sql : Text → Text → Text) (k : Text) (r : Answer) (before after : App) (menu : Text)
    → Type 0
Asked get_sql k r before after menu =
    (after.requests
      ≡ before.requests
        ++ (record {
          key = k;
          ret_type = menu;
          sql = get_sql (codes "getAll" ++ menu) r.attr.database;
        }
            ∷ []))
    × (after.tree_data ≡ before.tree_data)

handled-created :
    (get_sql : Text → Text → Text) (mark : Mark) (menu k : Text) (r : Answer)
    (data' : List (Text × Text)) (a : App)
    → created_menu mark ≡ some menu
    → Asked get_sql k r a (handled get_sql mark k r data' a) menu
handled-created get_sql create_table_mark menu k r data' a e =
    of_some (Asked get_sql k r a (handled get_sql create_table_mark k r data' a)) refl e
      (refl, refl)
handled-created get_sql create_view_mark menu k r data' a e =
    of_some (Asked get_sql k r a (handled get_sql create_view_mark k r data' a)) refl e (refl, refl)
handled-created get_sql create_function_mark menu k r data' a e =
    of_some (Asked get_sql k r a (handled get_sql create_function_mark k r data' a)) refl e
      (refl, refl)
handled-created get_sql create_procedure_mark menu k r data' a e =
    of_some (Asked get_sql k r a (handled get_sql create_procedure_mark k r data' a)) refl e
      (refl, refl)
handled-created get_sql mark menu k r data' a e = absurd (cc e)

-- When the answer comes that a table, view, function or procedure was created under a node, whose key
-- has no mark in it, the menu of this node is asked for again; and when that request is answered, the
-- node that was found under the key has the nodes of the answer, with their icons, for its children.
pub key_value_json_result-tables_menu :
    (get_sql : Text → Text → Text) (mark : Mark) (menu k : Text) (r : Answer)
    (data' : List (Text × Text)) (a : App) (later : Answer) (nodes : Forest)
    → created_menu mark ≡ some menu
    → Unmarked k
    → r.key ≡ k ++ mark_text mark
    → later.key ≡ k
    → let after = key_value_json_result get_sql r (some data') a in
      Asked get_sql k r a after menu
      × (find_node_by_key k (tables_menu later nodes after).tree_data
          ≡ Option.map (with_children (update_tree_icons nodes)) (find_node_by_key k a.tree_data))
key_value_json_result-tables_menu get_sql mark menu k r data' a later nodes e u key same =
    let run = key_value_json_result-handled get_sql mark k r data' a u key in
    let asked = handled-created get_sql mark menu k r data' a e in
    let after = key_value_json_result get_sql r (some data') a in
    (
      subst (λ (h : App). Asked get_sql k r a h menu) (sym run) asked,
      subst
            (λ (t : Text).
              find_node_by_key t (tables_menu later nodes after).tree_data
              ≡ Option.map (with_children (update_tree_icons nodes))
                  (find_node_by_key t after.tree_data))
            same (table_menu-find later nodes after)
          ∙ ap
              (λ (t : Forest).
                Option.map (with_children (update_tree_icons nodes)) (find_node_by_key k t))
              (ap (λ (h : App). h.tree_data) run ∙ asked.1),
    )
