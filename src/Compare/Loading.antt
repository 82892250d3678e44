-- ===== src/Compare/Loading.antt =====
-- The list of tables in the choice is not loaded.
use next_dbm.Base.{◌≡◌, refl, Bool-cases, inl, inr, [], Text, codes, text_eq, Option, some}
use next_dbm.Tree.Defs.{Info, Forest, Node, find_node_by_key}
use next_dbm.Utils.Defs.{cut_string_at_dash, last_dash}
use next_dbm.Dispatch.Defs.{
  Protocol, SqlParams, nothing, get_sql_converter, mysql_cases, postgre_names,
}
use next_dbm.Compare.Defs.{load_data}

-- `protocolType`, as the program writes it.
abbrev pub protocol_name : Protocol → Text
protocol_name Protocol.mysql = codes "MySQL"
protocol_name Protocol.maria_db = codes "MariaDB"
protocol_name Protocol.postgre_sql = codes "PostgreSQL"
protocol_name (Protocol.other name) = name

silent :
    (parse : Text → Option Text) (datetime : Text) (protocol : Protocol) (of_name : SqlParams)
    → get_sql_converter parse datetime protocol (protocol_name protocol) of_name ≡ nothing
unfolding get_sql_converter mysql_cases postgre_names
silent parse datetime Protocol.mysql of_name = refl
silent parse datetime Protocol.maria_db of_name = refl
silent parse datetime Protocol.postgre_sql of_name = refl
silent parse datetime (Protocol.other name) of_name = refl

-- Opening a list of tables in the choice of the tables to compare, whose database is in the tree, sends no
-- request, whatever the protocol: the tables that the tree does not have yet cannot be chosen.
pub load_data-nothing :
    (parse : Text → Option Text) (datetime : Text) (protocol : Protocol) (of_name : SqlParams)
    (tree_data : Forest) (info : Info) (db : Node)
    → find_node_by_key (cut_string_at_dash info.key last_dash) tree_data ≡ some db
    → load_data
        (get_sql_converter parse datetime protocol)
        (protocol_name protocol)
        of_name
        tree_data
        info
      ≡ some []
unfolding load_data
load_data-nothing parse datetime protocol of_name tree_data info db h =
    elim (Bool-cases (text_eq info.menu_type (codes "tablesMenu"))) [
      | inl e ↦ rw (e, h, silent parse datetime protocol of_name) refl
      | inr e ↦ rw e refl
    ]
