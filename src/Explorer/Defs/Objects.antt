-- ===== src/Explorer/Defs/Objects.antt =====
-- The menus of views, functions, procedures and saved queries, and the click that opens a menu.
use next_dbm.Base.{true, [], ◌++◌, Text, codes, Option, some}
use mathlib.Core.Option
use next_dbm.Tree.Defs.{Info}
use next_dbm.Utils.Defs.{cut_string_at_dash, dash}
use next_dbm.Tabs.Defs.{Mode, editor, view, function, procedure}
use next_dbm.Dispatch.Defs.{SqlParams}
use next_dbm.Answers.Defs.{Attr, remove_first}
use next_dbm.Explorer.Defs.State.{Call, Panel, call, Converter, database_node, send_statement}
use next_dbm.Explorer.Defs.Opening.{of_database, attr_of}
use next_dbm.Explorer.Defs.Menus.{with_database, open_tab, tab_of}

-- `add` of a view, a function and a procedure: the tab of its own key.
abbrev pub open_object : Mode → Info → Panel → Option Panel
open_object type node x =
    with_database node (λ db asset_id. some (open_tab (tab_of type node.key node.title asset_id) x))
      x

unfoldable pub open_view : Info → Panel → Option Panel
open_view = open_object view

unfoldable pub open_function : Info → Panel → Option Panel
open_function = open_object function

unfoldable pub open_procedure : Info → Panel → Option Panel
open_procedure = open_object procedure

-- The three `delete`, confirmed.
abbrev pub delete_object :
    Converter
    → (name mark : Text) → ((database title : Text) → SqlParams)
    → (named : Attr → Text → Attr) → Info
    → Panel
    → Option Panel
delete_object get_sql name mark params named node x =
    with_database node
      (λ (db : Info) asset_id.
        send_statement (get_sql name (params db.title node.title)) (node.key ++ mark)
          (codes "KeyValueJsonResult") (named (attr_of asset_id db.title []) node.title) x)
      x

unfoldable pub delete_view : Converter → Info → Panel → Option Panel
delete_view get_sql =
    delete_object get_sql (codes "dropView") (codes "-dropView")
      (λ database title. record (of_database database) { view_name = title })
      (λ (attr : Attr) title. record attr { view_name = some title })

unfoldable pub delete_function : Converter → Info → Panel → Option Panel
delete_function get_sql =
    delete_object get_sql (codes "dropFunction") (codes "-dropFunction")
      (λ database title. record (of_database database) { function_name = title })
      (λ (attr : Attr) title. record attr { function_name = some title })

unfoldable pub delete_procedure : Converter → Info → Panel → Option Panel
delete_procedure get_sql =
    delete_object get_sql (codes "dropProcedure") (codes "-dropProcedure")
      (λ database title. record (of_database database) { procedure_name = title })
      (λ (attr : Attr) title. record attr { procedure_name = some title })

-- What the node of a saved query has besides.
pub record Saved : Type 0 where
  pub id : Text
  pub db_name : Text
  pub content : Text

-- `currentNode.key.replace(startKey+"-","")`
unfoldable pub sqls_id : Text → Text
sqls_id key = remove_first (cut_string_at_dash key (dash 3) ++ codes "-") key

-- `add` of a saved query: its tab, under its own id.
unfoldable pub open_sql : Info → Saved → Panel → Option Panel
open_sql node saved x =
    with_database node
      (λ db asset_id. some (
        open_tab
          (record (tab_of editor (sqls_id node.key) node.title asset_id) {
            sql = saved.content;
            db_name = saved.db_name;
          })
          x))
      x

-- `rename`, with the new name: the first call of it; that the title of an open tab then changes is in
-- Tabs.
unfoldable pub rename_sql : (new_name : Text) → Saved → Panel → Panel
rename_sql new_name saved x = call (Call.sqls_create_or_update saved.id new_name saved.db_name) x

-- `delete`, confirmed.
unfoldable pub delete_sql : Info → Panel → Option Panel
delete_sql node x =
    Option.map
      (λ (db : Info).
        call (Call.sqls_delete (sqls_id node.key) (cut_string_at_dash node.key (dash 2)) db.title)
          x)
      (database_node node.key x)

-- `handleRightClick`; the node becomes the argument of the entries.
unfoldable pub handle_right_click : Panel → Panel
handle_right_click x = record x { show_menu = true }
