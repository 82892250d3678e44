-- ===== src/Explorer/Dropping.antt =====
-- The requests that drop an object, and what their answers make of the tree.
use next_dbm.Base.{
  ◌≡◌, refl, ap, ◌∙◌, fun_ext, Bool, false, List, [], ◌++◌, Text, codes, Option, none, some,
}
use mathlib.Core.Option
use next_dbm.Mysql.Defs.{includes, drop_table, drop_view, drop_function, drop_procedure}
use next_dbm.Tree.Defs.{Info, find_node_by_key}
use next_dbm.Tree.Find.{find_node_by_key-delete}
use next_dbm.Dispatch.Defs.{
  Protocol, get_sql_converter, mysql_cases, postgre_names, statement, nothing,
}
use next_dbm.Dispatch.Defs as Dispatch
use next_dbm.Dispatch.Outcomes.{per_protocol}
use next_dbm.Answers.Defs.{
  Attr, Answer, App, Mark, mark_text, drop_view_mark, drop_function_mark, drop_procedure_mark,
  key_value_json_result, key_value_chain, key_value_tests, by_marks,
}
use next_dbm.Answers.Objects.{Unmarked, key_value_json_result-handled}
use next_dbm.Explorer.Defs.{
  Message, Call, web_socket_send_data, Panel, call, Converter, attr_of, database_node, delete_view,
  delete_function, delete_procedure, table_delete,
}

-- The request is sent, and nothing else.
abbrev pub sends : Message → Panel → Option Panel
sends m x = some (call (web_socket_send_data m) x)

-- The objects of a database besides its tables.
pub data Kind : Type 0 where
  a_view a_function a_procedure : Kind

abbrev pub delete_of : Kind → Converter → Info → Panel → Option Panel
delete_of a_view = delete_view
delete_of a_function = delete_function
delete_of a_procedure = delete_procedure

abbrev pub drop_mark : Kind → Mark
drop_mark a_view = drop_view_mark
drop_mark a_function = drop_function_mark
drop_mark a_procedure = drop_procedure_mark

abbrev pub drop_statement : Kind → Text → Text → Text
drop_statement a_view = drop_view
drop_statement a_function = drop_function
drop_statement a_procedure = drop_procedure

abbrev pub named : Kind → Attr → Text → Attr
named a_view attr title = record attr { view_name = some title }
named a_function attr title = record attr { function_name = some title }
named a_procedure attr title = record attr { procedure_name = some title }

-- The request to drop an object.
abbrev pub drop_message :
    Kind → (db node : Info) → (asset_id : Text) → Dispatch.Answer Text → Message
drop_message kind db node asset_id data' = record {
  key = node.key ++ mark_text (drop_mark kind);
  ret_type = codes "KeyValueJsonResult";
  data' = data';
  attr = named kind (attr_of asset_id db.title []) node.title;
}

delete-sends :
    (parse : Text → Option Text) (datetime : Text) (protocol : Protocol) (kind : Kind)
    (node db : Info) (asset_id : Text) (x : Panel)
    → database_node node.key x ≡ some db
    → db.asset_id ≡ some asset_id
    → delete_of kind (get_sql_converter parse datetime protocol) node x
      ≡ per_protocol protocol
          (sends
            (drop_message kind db node asset_id
              (statement (drop_statement kind db.title node.title)))
            x)
          none
          (sends (drop_message kind db node asset_id nothing) x)
unfolding delete_view delete_function delete_procedure get_sql_converter mysql_cases postgre_names
delete-sends parse datetime Protocol.mysql a_view node db asset_id x h g = rw h (rw g refl)
delete-sends parse datetime Protocol.maria_db a_view node db asset_id x h g = rw h (rw g refl)
delete-sends parse datetime Protocol.postgre_sql a_view node db asset_id x h g = rw h (rw g refl)
delete-sends parse datetime (Protocol.other _) a_view node db asset_id x h g = rw h (rw g refl)
delete-sends parse datetime Protocol.mysql a_function node db asset_id x h g = rw h (rw g refl)
delete-sends parse datetime Protocol.maria_db a_function node db asset_id x h g = rw h (rw g refl)
delete-sends parse datetime Protocol.postgre_sql a_function node db asset_id x h g =
    rw h (rw g refl)
delete-sends parse datetime (Protocol.other _) a_function node db asset_id x h g = rw h (rw g refl)
delete-sends parse datetime Protocol.mysql a_procedure node db asset_id x h g = rw h (rw g refl)
delete-sends parse datetime Protocol.maria_db a_procedure node db asset_id x h g = rw h (rw g refl)
delete-sends parse datetime Protocol.postgre_sql a_procedure node db asset_id x h g =
    rw h (rw g refl)
delete-sends parse datetime (Protocol.other _) a_procedure node db asset_id x h g = rw h (rw g refl)

dropped-find :
    (get_sql : Text → Text → Text) (kind : Kind) (k : Text) (r : Answer)
    (data' : List (Text × Text)) (a : App)
    → Unmarked k
    → r.key ≡ k ++ mark_text (drop_mark kind)
    → find_node_by_key k (key_value_json_result get_sql r (some data') a).tree_data ≡ none
dropped-find get_sql a_view k r data' a u e =
    ap (λ (h : App). find_node_by_key k h.tree_data)
      (key_value_json_result-handled get_sql drop_view_mark k r data' a u e)
    ∙ find_node_by_key-delete k a.tree_data
dropped-find get_sql a_function k r data' a u e =
    ap (λ (h : App). find_node_by_key k h.tree_data)
      (key_value_json_result-handled get_sql drop_function_mark k r data' a u e)
    ∙ find_node_by_key-delete k a.tree_data
dropped-find get_sql a_procedure k r data' a u e =
    ap (λ (h : App). find_node_by_key k h.tree_data)
      (key_value_json_result-handled get_sql drop_procedure_mark k r data' a u e)
    ∙ find_node_by_key-delete k a.tree_data

-- Where the database of a view, a function or a procedure is found, confirming that it is dropped sends,
-- for MySQL and MariaDB, the statement for it, under the key of its node and its mark, and changes nothing
-- else; for PostgreSQL it throws, and for any other protocol the same request goes out without a statement.
-- Once a request under that key is answered with data, no node of the object's key is in the tree, at any
-- depth, when no mark stands within the object's key.
pub delete_of-dropped :
    (parse : Text → Option Text) (datetime : Text) (protocol : Protocol)
    (get_sql : Text → Text → Text) (kind : Kind) (node db : Info) (asset_id : Text) (x : Panel)
    (r : Answer) (data' : List (Text × Text)) (a : App)
    → database_node node.key x ≡ some db
    → db.asset_id ≡ some asset_id
    → Unmarked node.key
    → r.key ≡ node.key ++ mark_text (drop_mark kind)
    → (delete_of kind (get_sql_converter parse datetime protocol) node x
        ≡ per_protocol protocol
            (sends
              (drop_message kind db node asset_id
                (statement (drop_statement kind db.title node.title)))
              x)
            none
            (sends (drop_message kind db node asset_id nothing) x))
      × (find_node_by_key node.key (key_value_json_result get_sql r (some data') a).tree_data
          ≡ none)
delete_of-dropped parse datetime protocol get_sql kind node db asset_id x r data' a h g u e = (
  delete-sends parse datetime protocol kind node db asset_id x h g,
  dropped-find get_sql kind node.key r data' a u e,
)

-- The request to drop a table: its key has no mark.
abbrev pub drop_table_message :
    (db node : Info) → (asset_id : Text) → Dispatch.Answer Text → Message
drop_table_message db node asset_id data' = record {
  key = node.key;
  ret_type = codes "KeyValueJsonResult";
  data' = data';
  attr = record (attr_of asset_id db.title []) { view_name = some node.title };
}

unmarked_lem :
    (k : Text) → Unmarked k → ◌≡◌ {A = Mark → Bool} (λ m. includes (mark_text m) k) (λ m. false)
unmarked_lem k u = fun_ext u

by_marks-unmarked :
    (get_sql : Text → Text → Text) (r : Answer) (data' : List (Text × Text)) (a : App)
    → by_marks get_sql (λ (m : Mark). false) r data' a ≡ a
unfolding key_value_chain key_value_tests
by_marks-unmarked get_sql r data' a = refl

-- The request is sent, and the node taken out.
abbrev pub sends_and_deletes : Message → (key : Text) → Panel → Option Panel
sends_and_deletes m key x = Option.map (call (Call.delete_tree_node key)) (sends m x)

table_delete-sends :
    (parse : Text → Option Text) (datetime : Text) (protocol : Protocol) (node db : Info)
    (asset_id : Text) (x : Panel)
    → database_node node.key x ≡ some db
    → db.asset_id ≡ some asset_id
    → table_delete (get_sql_converter parse datetime protocol) node x
      ≡ per_protocol protocol
          (sends_and_deletes
            (drop_table_message db node asset_id (statement (drop_table db.title node.title)))
            node.key
            x)
          none
          (sends_and_deletes (drop_table_message db node asset_id nothing) node.key x)
unfolding table_delete get_sql_converter mysql_cases postgre_names
table_delete-sends parse datetime Protocol.mysql node db asset_id x h g = rw h (rw g refl)
table_delete-sends parse datetime Protocol.maria_db node db asset_id x h g = rw h (rw g refl)
table_delete-sends parse datetime Protocol.postgre_sql node db asset_id x h g = rw h (rw g refl)
table_delete-sends parse datetime (Protocol.other _) node db asset_id x h g = rw h (rw g refl)

-- Where the database of a table is found, confirming that it is dropped sends, for MySQL and MariaDB, the
-- statement under the key of the table's node, and takes this node out at once, before any answer; for
-- PostgreSQL it throws, and for any other protocol the node is taken out though no statement is sent. The
-- case for KeyValueJsonResult, to which an answer with data and without an error then comes, changes and
-- shows nothing, when no mark stands within the key.
pub table_delete-unanswered :
    (parse : Text → Option Text) (datetime : Text) (protocol : Protocol)
    (get_sql : Text → Text → Text) (node db : Info) (asset_id : Text) (x : Panel) (r : Answer)
    (data' : List (Text × Text)) (a : App)
    → database_node node.key x ≡ some db
    → db.asset_id ≡ some asset_id
    → Unmarked node.key
    → r.key ≡ node.key
    → (table_delete (get_sql_converter parse datetime protocol) node x
        ≡ per_protocol protocol
            (sends_and_deletes
              (drop_table_message db node asset_id (statement (drop_table db.title node.title)))
              node.key
              x)
            none
            (sends_and_deletes (drop_table_message db node asset_id nothing) node.key x))
      × (key_value_json_result get_sql r (some data') a ≡ a)
unfolding key_value_json_result
table_delete-unanswered parse datetime protocol get_sql node db asset_id x r data' a h g u e = (
  table_delete-sends parse datetime protocol node db asset_id x h g,
  ap (λ (k : Text). by_marks get_sql (λ (m : Mark). includes (mark_text m) k) r data' a) e
      ∙ ap (λ (f : Mark → Bool). by_marks get_sql f r data' a) (unmarked_lem node.key u)
      ∙ by_marks-unmarked get_sql r data' a,
)
