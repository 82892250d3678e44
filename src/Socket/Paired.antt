-- ===== src/Socket/Paired.antt =====
-- The assets that have a session are those that have a socket.
use next_dbm.Base.{
  ℕ, ◌≡◌, refl, ap, ◌∙◌, Text, text_eq, Option, none, some, get_key, delete_key, get_key-delete_key,
  some_value, arith, if◌then◌else◌, sym,
}
use next_dbm.Socket.Defs.{
  Manager, Reply, on_open, on_close, init, init_reply, forget, clear_interval, close_connection,
  close_found, close,
}
use next_dbm.Socket.Kept.{
  Kept, close-Kept, init-Kept, ping-Kept, on_message-Kept, send_databases-Kept, send_data-Kept,
  write_command-Kept,
}
use next_dbm.Socket.Steps.{
  Calls, Step, Run, here, next, inits, replies, opens, shuts, pings, hears, asks_databases,
  disconnects, sends_data, writes,
}

abbrev pub Paired : Manager → Type 0
Paired m = (a : Text) → some_value (get_key a m.sessions) ≡ some_value (get_key a m.web_sockets)

Kept-Paired : (m m' : Manager) → Kept m m' → Paired m → Paired m'
Kept-Paired m m' (s, w, _, _) p a =
    ap (λ x. some_value (get_key a x)) s ∙ p a ∙ sym (ap (λ x. some_value (get_key a x)) w)

clear_interval-maps :
    (o : Option ℕ) (m : Manager)
    → ((clear_interval o m).sessions ≡ m.sessions)
      × ((clear_interval o m).web_sockets ≡ m.web_sockets)
clear_interval-maps none m = (refl, refl)
clear_interval-maps (some t) m = (refl, refl)

pub get_key-forget :
    (a b : Text) (m : Manager)
    → (get_key b (forget a m).sessions ≡ (if text_eq a b then none else get_key b m.sessions))
      × (get_key b (forget a m).web_sockets
          ≡ (if text_eq a b then none else get_key b m.web_sockets))
unfolding forget
get_key-forget a b m =
    let (s, w) = clear_interval-maps (get_key a m.ping_intervals) m in
    (
      ap (λ x. get_key b (delete_key a x)) s ∙ get_key-delete_key b a m.sessions,
      ap (λ x. get_key b (delete_key a x)) w ∙ get_key-delete_key b a m.web_sockets,
    )

forget-Paired : (a : Text) (m : Manager) → Paired m → Paired (forget a m)
forget-Paired a m p b = let (s, w) = get_key-forget a b m in ground (arith, s, w, p b)

init_reply-Paired :
    (a : Text) (reply : Reply) (m : Manager) → Paired m → Paired (init_reply a reply m)
unfolding init_reply
init_reply-Paired a (Reply.refused e) m p b = p b
init_reply-Paired a (Reply.session s) m p b = ground (arith, p b)

close_found-Paired : (a : Text) (o : Option ℕ) (m : Manager) → Paired m → Paired (close_found a o m)
close_found-Paired a none m p = p
close_found-Paired a (some s) m p =
    forget-Paired a (close s m) (Kept-Paired m (close s m) (close-Kept s m) p)

on_open-Paired : (a : Text) (s : ℕ) (m : Manager) → Paired m → Paired (on_open a s m)
unfolding on_open
on_open-Paired a s m p = p

on_close-Paired : (a : Text) (s : ℕ) (m : Manager) → Paired m → Paired (on_close a s m)
unfolding on_close
on_close-Paired a s m p = forget-Paired a _ p

close_connection-Paired : (a : Text) (m : Manager) → Paired m → Paired (close_connection a m)
unfolding close_connection
close_connection-Paired a m p = close_found-Paired a (get_key a m.web_sockets) m p

Step-Paired : (calls : Calls) {m m' : Manager} → Step calls m m' → Paired m → Paired m'
Step-Paired calls {m} (inits a) p = Kept-Paired m (init a m) (init-Kept a m) p
Step-Paired calls {m} (replies before a after reply e) p = λ b. init_reply-Paired a reply m p b
Step-Paired calls {m} (opens s w e) p = on_open-Paired w.asset_id s m p
Step-Paired calls {m} (shuts s w e) p = on_close-Paired w.asset_id s m p
Step-Paired calls {m} {m'} (pings t timer e b h) p =
    Kept-Paired m m' (ping-Kept timer.socket m m' h) p
Step-Paired calls {m} {m'} (hears s w time text e h) p =
    Kept-Paired m m' (on_message-Kept calls.converter time w.asset_id w.session_id s text m m' h) p
Step-Paired calls {m} {m'} (asks_databases time a s h) p =
    Kept-Paired m m' (send_databases-Kept calls.converter time a s m m' h) p
Step-Paired calls {m} (disconnects a) p = close_connection-Paired a m p
Step-Paired calls {m} {m'} (sends_data a h) p =
    Kept-Paired m m' (send_data-Kept calls.stringify a m m' h) p
Step-Paired calls {m} {m'} (writes a command h) p =
    Kept-Paired m m' (write_command-Kept a command m m' h) p

-- In every run, in whatever order the user, the server and the browser act, exactly those assets have
-- a session that have a socket, once this is so.
pub Run-Paired : (calls : Calls) {m m' : Manager} → Run calls m m' → Paired m → Paired m'
Run-Paired calls here p = p
Run-Paired calls (next r s) p = Step-Paired calls s (Run-Paired calls r p)
