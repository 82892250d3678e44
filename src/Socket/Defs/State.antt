-- ===== src/Socket/Defs/State.antt =====
-- The state of `WebSocketManager`, with the sockets and timers of the browser that it works on.
use next_dbm.Base.{
  ℕ, zero, suc, Bool, true, false, List, [], ◌∷◌, ◌++◌, Text, length, get_elem?, Option, none, some,
  get_key, set_key, delete_key,
}
use mathlib.Core.Option

-- `readyState`
pub data ReadyState : Type 0 where
  connecting opened closing closed : ReadyState

-- A WebSocket object, with the asset and session of the `init` that made it.
pub record Socket : Type 0 where
  pub asset_id : Text
  pub session_id : Text
  pub ready_state : ReadyState
  pub sent : List Text

-- A timer of `setInterval`, by the socket that it pings.
pub record Timer : Type 0 where
  pub socket : ℕ
  pub active : Bool

-- Objects are numbered in the order in which they are made.
pub record Manager : Type 0 where
  pub sessions : List (Text × Text)
  pub web_sockets : List (Text × ℕ)
  pub ping_intervals : List (Text × ℕ)
  pub sockets : List Socket
  pub timers : List Timer
  pub creating : List Text
  pub delayed : List (ℕ × Text)
  pub connects : List Text
  pub received : List Text
  pub errors : List Text

abbrev pub update_at {ℓ} : {A : Type ℓ} → (A → A) → ℕ → List A → List A
update_at f i [] = []
update_at f zero (x ∷ xs) = f x ∷ xs
update_at f (suc i) (x ∷ xs) = x ∷ update_at f i xs

-- `socket.send(text)`: it throws while the socket is connecting, and drops the text once it closes.
abbrev pub sends : Text → Option ReadyState → ℕ → Manager → Option Manager
sends text none s m = none
sends text (some connecting) s m = none
sends text (some opened) s m =
    some (record m {
      sockets = update_at (λ w. record w { sent = w.sent ++ (text ∷ []) }) s m.sockets;
    })
sends text (some closing) s m = some m
sends text (some closed) s m = some m

abbrev pub state_of : ℕ → Manager → Option ReadyState
state_of s m = Option.map (λ w. w.ready_state) (get_elem? m.sockets s)

unfoldable pub send : ℕ → Text → Manager → Option Manager
send s text m = sends text (state_of s m) s m

abbrev pub set_state : ReadyState → ℕ → Manager → Manager
set_state state s m = record m {
  sockets = update_at (λ w. record w { ready_state = state }) s m.sockets;
}

-- `socket.close()`
abbrev pub closes : Option ReadyState → ℕ → Manager → Manager
closes none s m = m
closes (some connecting) s m = set_state ReadyState.closing s m
closes (some opened) s m = set_state ReadyState.closing s m
closes (some closing) s m = m
closes (some closed) s m = m

unfoldable pub close : ℕ → Manager → Manager
close s m = closes (state_of s m) s m

-- `clearInterval(id)`, where `none` is `undefined`.
abbrev pub clear_interval : Option ℕ → Manager → Manager
clear_interval none m = m
clear_interval (some t) m = record m {
  timers = update_at (λ timer. record timer { active = false }) t m.timers;
}

-- The four statements that `onclose` and `closeConnection` share.
unfoldable pub forget : Text → Manager → Manager
forget asset_id m =
    let cleared = clear_interval (get_key asset_id m.ping_intervals) m in
    record cleared {
      ping_intervals = delete_key asset_id cleared.ping_intervals;
      web_sockets = delete_key asset_id cleared.web_sockets;
      sessions = delete_key asset_id cleared.sessions;
    }

-- `onopen`: the socket is open, and its timer starts.
unfoldable pub on_open : Text → ℕ → Manager → Manager
on_open asset_id s m =
    let opened = set_state ReadyState.opened s m in
    record opened {
      timers = opened.timers ++ (record { socket = s; active = true } ∷ []);
      ping_intervals = set_key asset_id (length opened.timers) opened.ping_intervals;
    }

-- `onclose`
unfoldable pub on_close : Text → ℕ → Manager → Manager
on_close asset_id s m = forget asset_id (set_state ReadyState.closed s m)
