-- ===== src/Socket/Steps.antt =====
-- Runs of the manager: what the user, the server and the browser do, in any order.
use next_dbm.Base.{ℕ, ◌≡◌, true, List, ◌∷◌, ◌++◌, Text, get_elem?, some}
use next_dbm.Socket.Defs.{
  Socket, Timer, Manager, Reply, Outcome, init, init_reply, on_open, on_close, ping, on_message,
  send_databases, close_connection, send_data, write_command,
}

-- What the handlers call that is not their own.
pub record Calls : Type 0 where
  pub converter : Text → Text
  pub stringify : Text → Text

pub data Step (calls : Calls) (m : Manager) : Manager → Type 0 where
  inits : (asset_id : Text) → Step calls m (init asset_id m)
  replies :
      (before : List Text) (asset_id : Text) (after : List Text) (reply : Reply)
      → m.creating ≡ before ++ (asset_id ∷ after)
      → Step calls m (record (init_reply asset_id reply m) { creating = before ++ after })
  opens :
      (s : ℕ) (w : Socket) → get_elem? m.sockets s ≡ some w → Step calls m (on_open w.asset_id s m)
  shuts :
      (s : ℕ) (w : Socket) → get_elem? m.sockets s ≡ some w → Step calls m (on_close w.asset_id s m)
  pings :
      (t : ℕ) (timer : Timer) {m' : Manager}
      → get_elem? m.timers t ≡ some timer
      → timer.active ≡ true
      → ping timer.socket m ≡ some m'
      → Step calls m m'
  hears :
      (s : ℕ) (w : Socket) (time text : Text) {m' : Manager}
      → get_elem? m.sockets s ≡ some w
      → on_message calls.converter time w.asset_id w.session_id s text m ≡ some m'
      → Step calls m m'
  asks_databases :
      (time asset_id : Text) (s : ℕ) {m' : Manager}
      → send_databases calls.converter time asset_id s m ≡ some m'
      → Step calls m m'
  disconnects : (asset_id : Text) → Step calls m (close_connection asset_id m)
  sends_data :
      (asset_id : Text) {m' : Manager}
      → send_data calls.stringify asset_id m ≡ Outcome.resolved m'
      → Step calls m m'
  writes :
      (asset_id command : Text) {m' : Manager}
      → write_command asset_id command m ≡ some m'
      → Step calls m m'

pub data Run (calls : Calls) (m : Manager) : Manager → Type 0 where
  here : Run calls m m
  next : {m' m'' : Manager} → Run calls m m' → Step calls m' m'' → Run calls m m''
