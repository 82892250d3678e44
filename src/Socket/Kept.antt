-- ===== src/Socket/Kept.antt =====
-- What the steps that only send leave alone: the three maps and the timers.
use next_dbm.Base.{
  ℕ, ◌≡◌, refl, true, [], ◌∷◌, ◌++◌, Bool, Text, Option, none, some, get_key, if◌then◌else◌, ◌==◌,
  of_some, false,
}
use mathlib.Core.Option
use next_dbm.Socket.Defs.{
  ReadyState, Manager, Outcome, state_of, sends, send, closes, close, init, ping, on_message,
  on_type, send_databases, send_data, send_found, resolve_option, write_command, write_found,
  message_parse, is_opened, message_connected, message_data, message_closed, show_error,
}

abbrev pub Kept : Manager → Manager → Type 0
Kept m m' =
    (m'.sessions ≡ m.sessions)
    × (m'.web_sockets ≡ m.web_sockets)
    × (m'.ping_intervals ≡ m.ping_intervals)
    × (m'.timers ≡ m.timers)

sends-Kept :
    (o : Option ReadyState) (s : ℕ) (text : Text) (m m' : Manager)
    → sends text o s m ≡ some m'
    → Kept m m'
sends-Kept none s text m m' h = cc
sends-Kept (some ReadyState.connecting) s text m m' h = cc
sends-Kept (some ReadyState.opened) s text m m' h = of_some (Kept m) refl h (refl, refl, refl, refl)
sends-Kept (some ReadyState.closing) s text m m' h =
    of_some (Kept m) refl h (refl, refl, refl, refl)
sends-Kept (some ReadyState.closed) s text m m' h = of_some (Kept m) refl h (refl, refl, refl, refl)

pub send-Kept : (s : ℕ) (text : Text) (m m' : Manager) → send s text m ≡ some m' → Kept m m'
unfolding send
send-Kept s text m m' h = sends-Kept (state_of s m) s text m m' h

-- A close changes sockets alone.
pub closes-Kept : (o : Option ReadyState) (s : ℕ) (m : Manager) → Kept m (closes o s m)
closes-Kept none s m = (refl, refl, refl, refl)
closes-Kept (some ReadyState.connecting) s m = (refl, refl, refl, refl)
closes-Kept (some ReadyState.opened) s m = (refl, refl, refl, refl)
closes-Kept (some ReadyState.closing) s m = (refl, refl, refl, refl)
closes-Kept (some ReadyState.closed) s m = (refl, refl, refl, refl)

pub close-Kept : (s : ℕ) (m : Manager) → Kept m (close s m)
unfolding close
close-Kept s m = closes-Kept (state_of s m) s m

pub init-Kept : (asset_id : Text) (m : Manager) → Kept m (init asset_id m)
unfolding init
init-Kept [] m = (refl, refl, refl, refl)
init-Kept (_ ∷ _) m = (refl, refl, refl, refl)

pub ping-Kept : (s : ℕ) (m m' : Manager) → ping s m ≡ some m' → Kept m m'
unfolding ping
ping-Kept s m m' h = send-Kept s _ m m' h

delayed-Kept :
    (o : Option Manager) (entry : ℕ × Text) (m m' : Manager)
    → ((q : Manager) → o ≡ some q → Kept m q)
    → Option.map (λ (sent : Manager). record sent { delayed = sent.delayed ++ (entry ∷ []) }) o
      ≡ some m'
    → Kept m m'
delayed-Kept none entry m m' k h = cc
delayed-Kept (some q) entry m m' k h = of_some (Kept m) refl h (k q refl)

chosen :
    (m m' : Manager) (b : Bool) {x y : Option Manager}
    → (x ≡ some m' → Kept m m')
    → (y ≡ some m' → Kept m m')
    → (if b then x else y) ≡ some m'
    → Kept m m'
chosen m m' true p q h = p h
chosen m m' false p q h = q h

on_type-Kept :
    (converter : Text → Text) (time asset_id session_id : Text) (s : ℕ) (type : Option ℕ)
    (content : Text) (m m' : Manager)
    → on_type converter time asset_id session_id s type content m ≡ some m'
    → Kept m m'
on_type-Kept converter time asset_id session_id s none content m m' h =
    of_some (Kept m) refl h (refl, refl, refl, refl)
on_type-Kept converter time asset_id session_id s (some type) content m m' h =
    chosen m m' (type == message_connected)
      (λ e. delayed-Kept _ (s, asset_id) m m' (λ q k. send-Kept s _ _ q k) e)
      (λ e.
        chosen m m' (type == message_data) (λ d. of_some (Kept m) refl d (refl, refl, refl, refl))
          (λ d.
            chosen m m' (type == message_closed)
              (λ c. of_some (Kept m) refl c (close-Kept s (show_error _ m)))
              (λ c. of_some (Kept m) refl c (refl, refl, refl, refl)) d)
          e)
      h

pub on_message-Kept :
    (converter : Text → Text) (time asset_id session_id : Text) (s : ℕ) (text : Text)
    (m m' : Manager)
    → on_message converter time asset_id session_id s text m ≡ some m'
    → Kept m m'
unfolding on_message
on_message-Kept converter time asset_id session_id s text m m' h =
    let msg = message_parse text in
    on_type-Kept converter time asset_id session_id s msg.type msg.content m m' h

pub send_databases-Kept :
    (converter : Text → Text) (time asset_id : Text) (s : ℕ) (m m' : Manager)
    → send_databases converter time asset_id s m ≡ some m'
    → Kept m m'
unfolding send_databases
send_databases-Kept converter time asset_id s m m' h = send-Kept s _ m m' h

pub write_command-Kept :
    (asset_id command : Text) (m m' : Manager)
    → write_command asset_id command m ≡ some m'
    → Kept m m'
unfolding write_command
write_command-Kept asset_id command m m' h = found (get_key asset_id m.web_sockets) h
  where
    found : (o : Option ℕ) → write_found command o m ≡ some m' → Kept m m'
    found none e = of_some (Kept m) refl e (refl, refl, refl, refl)
    found (some s) e = send-Kept s _ m m' e

pub resolve_option-resolved :
    (o : Option Manager) (m' : Manager) → resolve_option o ≡ Outcome.resolved m' → o ≡ some m'
resolve_option-resolved none m' h = cc
resolve_option-resolved (some q) m' h = cc

pub send_found-opened :
    (b : Bool) (x : Outcome) (m' : Manager)
    → (if b then x else Outcome.not_open) ≡ Outcome.resolved m'
    → (b ≡ true) × (x ≡ Outcome.resolved m')
send_found-opened true x m' h = (refl, h)
send_found-opened false x m' h = cc

pub send_data-Kept :
    (stringify : Text → Text) (asset_id : Text) (m m' : Manager)
    → send_data stringify asset_id m ≡ Outcome.resolved m'
    → Kept m m'
unfolding send_data
send_data-Kept stringify asset_id m m' h = found (get_key asset_id m.web_sockets) h
  where
    found : (o : Option ℕ) → send_found stringify asset_id o m ≡ Outcome.resolved m' → Kept m m'
    found none e = cc
    found (some s) e =
        send-Kept s _ m m'
          (resolve_option-resolved _ m' (send_found-opened (is_opened (state_of s m)) _ m' e).1)
