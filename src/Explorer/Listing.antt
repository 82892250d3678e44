-- ===== src/Explorer/Listing.antt =====
-- Expanding a list of objects: the request, and its answer.
use next_dbm.Base.{
  ◌≡◌, refl, ap, ◌∙◌, text_eq, Bool, true, false, List, [], ◌∷◌, ◌++◌, Text, codes, Option, none,
  some, free_of,
}
use mathlib.Core.Option
use next_dbm.Mysql.Defs.{get_all_tables, get_all_views, get_all_functions, get_all_procedures}
use next_dbm.Tree.Defs.{Info, Node, info_of, find_node_by_key}
use next_dbm.Utils.Defs.{cut_string_at_dash, last_dash}
use next_dbm.Utils.Cut.{cut_string_at_dash-around}
use next_dbm.Dispatch.Defs.{Protocol, get_sql_converter, mysql_cases, postgre_names, statement}
use next_dbm.Dispatch.Outcomes.{per_protocol}
use next_dbm.Explorer.Defs.{
  Message, web_socket_send_data, Panel, call, attr_of, node_at, on_expand, ask_children,
  expand_node,
}

-- The lists below a database, but that of the saved queries.
pub data Menu : Type 0 where
  tables views functions procedures : Menu

abbrev pub menu_type : Menu → Text
menu_type tables = codes "tablesMenu"
menu_type views = codes "viewsMenu"
menu_type functions = codes "functionsMenu"
menu_type procedures = codes "proceduresMenu"

abbrev pub list_statement : Menu → Text → Text
list_statement tables = get_all_tables
list_statement views = get_all_views
list_statement functions = get_all_functions
list_statement procedures = get_all_procedures

-- The request for what is in the list.
abbrev pub list_message : Menu → (db : Info) → (key asset_id : Text) → Message
list_message menu db key asset_id = record {
  key = key;
  ret_type = menu_type menu;
  data' = statement (list_statement menu db.title);
  attr = attr_of asset_id db.title [];
}

-- What expanding does: the request, an error, or nothing.
abbrev pub listed : Protocol → Menu → (db : Info) → (key asset_id : Text) → Panel → Option Panel
listed protocol menu db key asset_id x =
    per_protocol protocol (some (call (web_socket_send_data (list_message menu db key asset_id)) x))
      none (some x)

expand_node-sends :
    (parse : Text → Option Text) (datetime : Text) (protocol : Protocol) (menu : Menu)
    (node db : Info) (asset_id : Text) (x : Panel)
    → node.menu_type ≡ menu_type menu
    → node_at node.key last_dash x ≡ some db
    → db.asset_id ≡ some asset_id
    → expand_node (get_sql_converter parse datetime protocol) node x
      ≡ listed protocol menu db node.key asset_id x
unfolding ask_children get_sql_converter mysql_cases postgre_names get_all_tables get_all_views
    get_all_functions get_all_procedures
expand_node-sends parse datetime Protocol.mysql tables node db asset_id x m h g =
    rw m (rw h (rw g refl))
expand_node-sends parse datetime Protocol.maria_db tables node db asset_id x m h g =
    rw m (rw h (rw g refl))
expand_node-sends parse datetime Protocol.postgre_sql tables node db asset_id x m h g =
    rw m (rw h (rw g refl))
expand_node-sends parse datetime (Protocol.other _) tables node db asset_id x m h g =
    rw m (rw h (rw g refl))
expand_node-sends parse datetime Protocol.mysql views node db asset_id x m h g =
    rw m (rw h (rw g refl))
expand_node-sends parse datetime Protocol.maria_db views node db asset_id x m h g =
    rw m (rw h (rw g refl))
expand_node-sends parse datetime Protocol.postgre_sql views node db asset_id x m h g =
    rw m (rw h (rw g refl))
expand_node-sends parse datetime (Protocol.other _) views node db asset_id x m h g =
    rw m (rw h (rw g refl))
expand_node-sends parse datetime Protocol.mysql functions node db asset_id x m h g =
    rw m (rw h (rw g refl))
expand_node-sends parse datetime Protocol.maria_db functions node db asset_id x m h g =
    rw m (rw h (rw g refl))
expand_node-sends parse datetime Protocol.postgre_sql functions node db asset_id x m h g =
    rw m (rw h (rw g refl))
expand_node-sends parse datetime (Protocol.other _) functions node db asset_id x m h g =
    rw m (rw h (rw g refl))
expand_node-sends parse datetime Protocol.mysql procedures node db asset_id x m h g =
    rw m (rw h (rw g refl))
expand_node-sends parse datetime Protocol.maria_db procedures node db asset_id x m h g =
    rw m (rw h (rw g refl))
expand_node-sends parse datetime Protocol.postgre_sql procedures node db asset_id x m h g =
    rw m (rw h (rw g refl))
expand_node-sends parse datetime (Protocol.other _) procedures node db asset_id x m h g =
    rw m (rw h (rw g refl))

asset_lem : (menu : Menu) → text_eq (menu_type menu) (codes "asset") ≡ false
asset_lem tables = refl
asset_lem views = refl
asset_lem functions = refl
asset_lem procedures = refl

node_at-around :
    (key db_key w : Text) (db : Node) (x : Panel)
    → free_of 45 w ≡ true
    → key ≡ db_key ++ (45 ∷ w)
    → find_node_by_key db_key x.filtered_data ≡ some db
    → node_at key last_dash x ≡ some (info_of db)
node_at-around key db_key w db x h e f =
    ap (λ (k : Text). Option.map info_of (find_node_by_key k x.filtered_data))
      (ap (λ (k : Text). cut_string_at_dash k last_dash) e ∙ cut_string_at_dash-around db_key w h)
    ∙ ap (Option.map info_of) f

-- Expanding or collapsing the list of the tables, views, functions or procedures of a database, whose key
-- is the database's, a dash, and a text without one, where the panel shows the database under its key:
-- for MySQL and MariaDB it sends the statement that lists them, for this database, under the key of the
-- list, and changes nothing else but the keys that are open; for PostgreSQL it throws; for any other
-- protocol only the keys are changed.
pub on_expand-listed :
    (parse : Text → Option Text) (datetime : Text) (protocol : Protocol) (menu : Menu) (node : Info)
    (db : Node) (asset_id : Text) (expanded_keys : List Text) (expanded : Bool) (db_key w : Text)
    (x : Panel)
    → free_of 45 w ≡ true
    → node.key ≡ db_key ++ (45 ∷ w)
    → node.menu_type ≡ menu_type menu
    → find_node_by_key db_key x.filtered_data ≡ some db
    → (info_of db).asset_id ≡ some asset_id
    → on_expand (get_sql_converter parse datetime protocol) expanded_keys expanded node x
      ≡ listed protocol menu
          (info_of db)
          node.key
          asset_id
          (record x { expanded_keys = expanded_keys })
unfolding on_expand
on_expand-listed parse datetime protocol menu node db asset_id expanded_keys expanded db_key w x h e
      m f g =
    let x' = record x { expanded_keys = expanded_keys } in
    rw (ap (λ (t : Text). text_eq t (codes "asset")) m ∙ asset_lem menu) (
      expand_node-sends parse datetime protocol menu node (info_of db) asset_id x' m
        (node_at-around node.key db_key w db x' h e f) g)
