-- ===== src/Socket/Tests.antt =====
-- One asset, its connections, and a text in two pieces.
use next_dbm.Base.{
  ℕ, ◌≡◌, refl, true, false, [], ◌∷◌, Bool, Text, text_eq, codes, get_elem?, Option, none, some,
  get_key, arith, ap, if◌then◌else◌,
}
use next_dbm.Socket.Defs.{
  ReadyState, Socket, Timer, Manager, Outcome, Reply, init, init_reply, on_open, close_connection,
  send_data, message_text, message_parse, Header, is_error, add_data, command_json, json_string,
}
use next_dbm.Socket.Packets.{message_parse-message_text}
use next_dbm.Socket.Steps.{Calls, here, next, inits, replies, disconnects}
use next_dbm.Socket.Paired.{Paired, Run-Paired}
use next_dbm.Socket.Leak.{on_open-Run}
use next_dbm.Socket.Sending.{Sent, send_data-Sent, close_connection-send_data}

abbrev some_or_none : Bool → Option ℕ
some_or_none c = if c then some 0 else none

abbrev calls : Calls
calls = record { converter = λ name. name; stringify = λ asset. asset }

abbrev empty : Manager
empty = record {
  sessions = [];
  web_sockets = [];
  ping_intervals = [];
  sockets = [];
  timers = [];
  creating = [];
  delayed = [];
  connects = [];
  received = [];
  errors = [];
}

abbrev socket_of : Text → ReadyState → Socket
socket_of session state = record {
  asset_id = codes "a";
  session_id = session;
  ready_state = state;
  sent = [];
}

abbrev one : Manager
one = record empty {
  sessions = (codes "a", codes "s1") ∷ [];
  web_sockets = (codes "a", 0) ∷ [];
  ping_intervals = (codes "a", 0) ∷ [];
  sockets = socket_of (codes "s1") ReadyState.opened ∷ [];
  timers = record { socket = 0; active = true } ∷ [];
}

-- A second connection is on its way while the first is open.
abbrev two : Manager
two = record one {
  sessions = (codes "a", codes "s2") ∷ one.sessions;
  web_sockets = (codes "a", 1) ∷ one.web_sockets;
  sockets =
      socket_of (codes "s1") ReadyState.opened ∷ socket_of (codes "s2") ReadyState.opened ∷ [];
}

message_parse-message_text_example :
    message_parse (message_text 2 (codes "{}")) ≡ record { type = some 2; content = codes "{}" }
message_parse-message_text_example = message_parse-message_text 2 (codes "{}") (omega arith)

Run-Paired_example : Paired (
    close_connection
      (codes "a")
      (record (init_reply (codes "a") (Reply.session (codes "s")) (init (codes "a") empty)) {
        creating = [];
      }))
unfolding init
Run-Paired_example =
    Run-Paired calls {m = empty}
      (next
        (next (next here (inits (codes "a")))
          (replies [] (codes "a") [] (Reply.session (codes "s")) refl))
        (disconnects (codes "a")))
      (λ a. refl)

on_open-Run_example :
    (timer : Timer) × (get_elem? (close_connection (codes "a") (on_open (codes "a") 1 two)).timers 0
      ≡ some timer)
    × (timer.active ≡ true)
on_open-Run_example =
    on_open-Run calls (codes "a") 1 0 (record { socket = 0; active = true }) two refl refl
      (λ k other found. cc (ap (λ (c : Bool). some_or_none c) other, found))
      (next here (disconnects (codes "a")))

send_data-Sent_example :
    Sent (λ asset. asset) (codes "a") one (send_data (λ asset. asset) (codes "a") one)
send_data-Sent_example = send_data-Sent (λ asset. asset) (codes "a") one

close_connection-send_data_example :
    (get_elem? (close_connection (codes "a") one).timers 0
      ≡ some (record { socket = 0; active = false }))
    × (send_data (λ asset. asset) (codes "a") (close_connection (codes "a") one)
        ≡ Outcome.not_found)
    × ((b : Text)
        → text_eq (codes "a") b ≡ false
        → get_key b (close_connection (codes "a") one).web_sockets ≡ get_key b one.web_sockets)
close_connection-send_data_example =
    close_connection-send_data (λ asset. asset) (codes "a") 0 0
      (record { socket = 0; active = true }) one refl refl refl

command_json_test :
    command_json
      (codes "1-getVariables")
      (codes "KeyValueJsonResult")
      (codes "SHOW VARIABLES")
      (codes "a\"b")
    ≡ codes
        "{\"key\":\"1-getVariables\",\"retType\":\"KeyValueJsonResult\",\"data\":\"SHOW VARIABLES\",\"attr\":{\"sqlCommand\":\"SHOW VARIABLES\",\"assetId\":\"a\\\"b\"}}"
unfolding command_json json_string
command_json_test = refl

abbrev answer_header : Header
answer_header = record { ret_type = some (codes "tableRsesult"); code = some 1; msg = none }

abbrev parse_answer : Text → Option Header
parse_answer t = if text_eq t (codes "{}") then some answer_header else none

abbrev failed : Header
failed = record { ret_type = some (codes "KeyValueJsonResult"); code = some 1; msg = none }

-- An answer with a code other than 0 that is no result of a table is only shown.
add_data_error :
    add_data
      (λ t. some failed)
      (codes "{}")
      (record { buffer = []; attempts = 0; objects = []; logs = []; errors = [] })
    ≡ record { buffer = []; attempts = 0; objects = []; logs = failed ∷ []; errors = failed ∷ [] }
unfolding add_data is_error
add_data_error = refl
