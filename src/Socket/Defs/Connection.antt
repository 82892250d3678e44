-- ===== src/Socket/Defs/Connection.antt =====
-- `init`, `onmessage` and the methods that send, of webSocketManager.js.
use next_dbm.Base.{
  ℕ, Bool, true, false, [], ◌∷◌, ◌++◌, Text, codes, length, has_text, ◌==◌, if◌then◌else◌, Option,
  none, some, get_key, set_key,
}
use mathlib.Core.Option
use next_dbm.Socket.Defs.Packets.{
  message_text, message_parse, message_closed, message_connected, message_data, message_ping,
  command_json,
}
use next_dbm.Socket.Defs.State.{ReadyState, Manager, send, close, forget, state_of}

abbrev pub show_error : Text → Manager → Manager
show_error text m = record m { errors = m.errors ++ (text ∷ []) }

-- `init` up to its first wait.
unfoldable pub init : Text → Manager → Manager
init asset_id m =
    if has_text asset_id
    then record m { creating = m.creating ++ (asset_id ∷ []) }
    else show_error (codes "参数缺失，请关闭此页面后重新打开。") m

-- The answer of the server to `createSession`.
pub data Reply : Type 0 where
  refused : Text → Reply
  session : Text → Reply

-- `init` from the answer on.
unfoldable pub init_reply : Text → Reply → Manager → Manager
init_reply asset_id (Reply.refused err_msg) m = show_error (codes "创建会话失败，" ++ err_msg) m
init_reply asset_id (Reply.session session_id) m = record m {
  sessions = set_key asset_id session_id m.sessions;
  web_sockets = set_key asset_id (length m.sockets) m.web_sockets;
  sockets =
      m.sockets
      ++ (record {
        asset_id = asset_id;
        session_id = session_id;
        ready_state = ReadyState.connecting;
        sent = [];
      }
          ∷ []);
}

-- The interval of `onopen`.
unfoldable pub ping : ℕ → Manager → Option Manager
ping s m = send s (message_text message_ping []) m

-- `onmessage`; `converter` is the function of `setGetSQLConverter`, `time` that of `new Date()`, and
-- `received` holds what `webSocketOnData` gets.
abbrev pub on_connected : (Text → Text) → Text → Text → Text → ℕ → Manager → Option Manager
on_connected converter time asset_id session_id s m =
    let command =
      command_json (time ++ codes "-getVariables") (codes "KeyValueJsonResult")
        (converter (codes "getVariables")) asset_id in
    Option.map (λ (sent : Manager). record sent { delayed = sent.delayed ++ ((s, asset_id) ∷ []) })
      (send s (message_text message_data command)
        (record m { connects = m.connects ++ (session_id ∷ []) }))

abbrev pub on_type :
    (Text → Text) → Text → Text → Text → ℕ → Option ℕ → Text → Manager → Option Manager
on_type converter time asset_id session_id s none content m = some m
on_type converter time asset_id session_id s (some type) content m =
    if type == message_connected
    then on_connected converter time asset_id session_id s m
    else if type == message_data
    then some (record m { received = m.received ++ (content ∷ []) })
    else if type == message_closed
    then some (close s (show_error (codes "服务端通知需要关闭连接:" ++ content) m))
    else some m

unfoldable pub on_message : (Text → Text) → Text → Text → Text → ℕ → Text → Manager → Option Manager
on_message converter time asset_id session_id s text m =
    let msg = message_parse text in
    on_type converter time asset_id session_id s msg.type msg.content m

-- The `setTimeout` of `onmessage`, when it is due.
unfoldable pub send_databases : (Text → Text) → Text → Text → ℕ → Manager → Option Manager
send_databases converter time asset_id s m =
    let command =
      command_json (codes "0001" ++ time) (codes "databaseMenu")
        (converter (codes "getAllDatabases")) asset_id in
    send s (message_text message_data command) m

-- `closeConnection`
abbrev pub close_found : Text → Option ℕ → Manager → Manager
close_found asset_id none m = m
close_found asset_id (some s) m = forget asset_id (close s m)

unfoldable pub close_connection : Text → Manager → Manager
close_connection asset_id m = close_found asset_id (get_key asset_id m.web_sockets) m

-- What the promise of `sendData` comes to.
pub data Outcome : Type 0 where
  resolved : Manager → Outcome
  not_found not_open : Outcome

abbrev pub resolve_option : Option Manager → Outcome
resolve_option none = Outcome.not_open
resolve_option (some m) = Outcome.resolved m

abbrev pub is_opened : Option ReadyState → Bool
is_opened none = false
is_opened (some ReadyState.connecting) = false
is_opened (some ReadyState.opened) = true
is_opened (some ReadyState.closing) = false
is_opened (some ReadyState.closed) = false

-- `sendData`; `stringify` writes the JSON of the data with the asset's id put into its attributes.
abbrev pub send_found : (Text → Text) → Text → Option ℕ → Manager → Outcome
send_found stringify asset_id none m = Outcome.not_found
send_found stringify asset_id (some s) m =
    if is_opened (state_of s m)
    then resolve_option (send s (message_text message_data (stringify asset_id)) m)
    else Outcome.not_open

unfoldable pub send_data : (Text → Text) → Text → Manager → Outcome
send_data stringify asset_id m = send_found stringify asset_id (get_key asset_id m.web_sockets) m

-- `writeCommand`
abbrev pub write_found : Text → Option ℕ → Manager → Option Manager
write_found command none m = some m
write_found command (some s) m = send s (message_text message_data command) m

unfoldable pub write_command : Text → Text → Manager → Option Manager
write_command asset_id command m = write_found command (get_key asset_id m.web_sockets) m
