-- ===== src/Explorer/Defs/State.antt =====
-- The state of the panel, and what it asks of the other parts.
use next_dbm.Base.{Bool, List, [], ◌∷◌, ◌++◌, Text, Option, none, some}
use mathlib.Core.Option
use next_dbm.Tree.Defs.{Info, Forest, info_of, find_node_by_key}
use next_dbm.Utils.Defs.{cut_string_at_dash, DashPosition, dash}
use next_dbm.Tabs.Defs.{Params}
use next_dbm.Dispatch.Defs.{Answer, SqlParams, threw}
use next_dbm.Answers.Defs.{Attr}

-- A request; `attr` comes back with its answer. Times, and the copy of `data` in `attr`, are left out.
pub record Message : Type 0 where
  pub key : Text
  pub ret_type : Text
  pub data' : Answer Text
  pub attr : Attr

-- The calls of the context and of `webSocketManager`.
pub data Call : Type 0 where
  init close_connection : Text → Call
  web_socket_send_data : Message → Call
  sqls_all : (key db_name : Text) → Call
  sqls_delete : (id key db_name : Text) → Call
  sqls_create_or_update : (id name db_name : Text) → Call
  add_tab : Params → Call
  delete_tree_node : Text → Call

-- `currentNode` is an argument of the handlers of its menu.
pub record Panel : Type 0 where
  pub filter : Text
  pub filtered_data : Forest
  pub expanded_keys : List Text
  pub show_menu : Bool
  pub calls : List Call

abbrev pub call : Call → Panel → Panel
call c x = record x { calls = x.calls ++ (c ∷ []) }

-- `getSQLConverter`, without the parameters that stay the same.
abbrev pub Converter : Type 0
Converter = Text → SqlParams → Answer Text

abbrev pub node_at : Text → DashPosition → Panel → Option Info
node_at key position x =
    Option.map info_of (find_node_by_key (cut_string_at_dash key position) x.filtered_data)

-- `cutStringAtDash(node.key,2)` and `findNodeByKey`: the node of the database.
unfoldable pub database_node : Text → Panel → Option Info
database_node key x = node_at key (dash 2) x

-- `webSocketSendData`, behind a converter that may throw.
abbrev pub send_statement : Answer Text → (key ret_type : Text) → Attr → Panel → Option Panel
send_statement threw key ret_type attr x = none
send_statement data' key ret_type attr x = some (
    call
      (web_socket_send_data (record { key = key; ret_type = ret_type; data' = data'; attr = attr }))
      x)
