-- ===== src/Socket/Sending.antt =====
-- What `sendData`, `closeConnection` and a late close do.
use next_dbm.Base.{
  ℕ, zero, suc, ◌≡◌, ◌≢◌, refl, ap, ◌∙◌, true, false, List, [], ◌∷◌, ◌++◌, Text, text_eq,
  text_eq_refl, get_elem?, Option, none, some, get_key, arith, if◌then◌else◌, sym, Bool-cases,
  Option-cases, inl, inr, subst,
}
use mathlib.Core.Option
use next_dbm.Socket.Defs.{
  ReadyState, Socket, Timer, Manager, Outcome, state_of, sends, send, forget, clear_interval, close,
  on_close, close_connection, close_found, send_data, send_found, is_opened, resolve_option,
  update_at, message_text, message_parse, message_data, set_state,
}
use next_dbm.Socket.Kept.{close-Kept}
use next_dbm.Socket.Packets.{message_parse-message_text}
use next_dbm.Socket.Paired.{get_key-forget}
use next_dbm.Socket.Leak.{get_elem?-update_at}

module _ {A : Type 0} where
  get_elem?-here :
      (f : A → A) (i : ℕ) (xs : List A)
      → get_elem? (update_at f i xs) i ≡ Option.map f (get_elem? xs i)
  get_elem?-here f i [] = refl
  get_elem?-here f zero (x ∷ xs) = refl
  get_elem?-here f (suc i) (x ∷ xs) = get_elem?-here f i xs

-- A text that socket `s` takes, and no other.
abbrev pub Delivered : ℕ → Text → Manager → Manager → Type 0
Delivered s text m m' =
    (w : Socket) × (get_elem? m.sockets s ≡ some w)
    × (w.ready_state ≡ ReadyState.opened)
    × (get_elem? m'.sockets s ≡ some (record w { sent = w.sent ++ (text ∷ []) }))
    × ((k : ℕ) → s ≢ k → get_elem? m'.sockets k ≡ get_elem? m.sockets k)

map-opened :
    (o : Option Socket)
    → is_opened (Option.map (λ (w : Socket). w.ready_state) o) ≡ true
    → (w : Socket) × (o ≡ some w) × (w.ready_state ≡ ReadyState.opened)
map-opened none h = cc
map-opened (some w) h = (w, refl, state w.ready_state h)
  where
    state : (r : ReadyState) → is_opened (some r) ≡ true → r ≡ ReadyState.opened
    state ReadyState.connecting e = cc
    state ReadyState.opened e = refl
    state ReadyState.closing e = cc
    state ReadyState.closed e = cc

abbrev push_text : Text → Socket → Socket
push_text text w = record w { sent = w.sent ++ (text ∷ []) }

send-Delivered :
    (s : ℕ) (text : Text) (m : Manager)
    → is_opened (state_of s m) ≡ true
    → (m' : Manager) × (send s text m ≡ some m') × Delivered s text m m'
unfolding send
send-Delivered s text m b =
    let (w, e, r) = map-opened (get_elem? m.sockets s) b in
    (
      record m { sockets = update_at (push_text text) s m.sockets },
      ap (λ o. sends text o s m) (ap (Option.map (λ v. v.ready_state)) e ∙ ap some r),
      (
        w,
        e,
        r,
        get_elem?-here (push_text text) s m.sockets ∙ ap (Option.map (push_text text)) e,
        λ k ne. get_elem?-update_at (push_text text) s k m.sockets ne,
      ),
    )

-- What `sendData` may come to, and when.
pub data Sent (stringify : Text → Text) (asset_id : Text) (m : Manager) : Outcome → Type 0 where
  no_socket : get_key asset_id m.web_sockets ≡ none → Sent stringify asset_id m Outcome.not_found
  not_ready :
      (s : ℕ)
      → get_key asset_id m.web_sockets ≡ some s
      → is_opened (state_of s m) ≡ false
      → Sent stringify asset_id m Outcome.not_open
  delivered :
      (s : ℕ) (text : Text) (m' : Manager)
      → get_key asset_id m.web_sockets ≡ some s
      → Delivered s text m m'
      → message_parse text ≡ record { type = some message_data; content = stringify asset_id }
      → Sent stringify asset_id m (Outcome.resolved m')

-- `sendData` is refused as not found where the asset has no socket, and as not open where it has one
-- that is not open. Else it resolves: then the asset's socket, which is open, takes one more text and
-- no other socket takes any, and read as a message that text is of type Data and holds exactly what was
-- sent.
pub send_data-Sent :
    (stringify : Text → Text) (asset_id : Text) (m : Manager)
    → Sent stringify asset_id m (send_data stringify asset_id m)
unfolding send_data
send_data-Sent stringify asset_id m = elim (Option-cases (get_key asset_id m.web_sockets)) [
  | inl e ↦ rw e (no_socket e)
  | inr (s, e) ↦
      let text = message_text message_data (stringify asset_id) in
      elim (Bool-cases (is_opened (state_of s m))) [
        | inl b ↦
            let (m', sent, d) = send-Delivered s text m b in
            subst (Sent stringify asset_id m)
              (sym (
                ap (λ o. send_found stringify asset_id o m) e
                ∙ ap (λ c. if c then resolve_option (send s text m) else Outcome.not_open) b
                ∙ ap resolve_option sent))
              (delivered s text m' e d
                (message_parse-message_text message_data (stringify asset_id) (omega arith)))
        | inr b ↦
            subst (Sent stringify asset_id m)
              (sym (
                ap (λ o. send_found stringify asset_id o m) e
                ∙ ap (λ c. if c then resolve_option (send s text m) else Outcome.not_open) b))
              (not_ready s e b)
      ]
]

clear_interval-sockets : (o : Option ℕ) (m : Manager) → (clear_interval o m).sockets ≡ m.sockets
clear_interval-sockets none m = refl
clear_interval-sockets (some t) m = refl

forgotten : (a : Text) (m : Manager) → get_key a (forget a m).web_sockets ≡ none
forgotten a m =
    (get_key-forget a a m).1
    ∙ ap (λ c. if c then none else get_key a m.web_sockets) (text_eq_refl a)

forget-state_of : (a : Text) (s : ℕ) (m : Manager) → state_of s (forget a m) ≡ state_of s m
unfolding forget
forget-state_of a s m =
    ap (λ x. Option.map (λ w. w.ready_state) (get_elem? x s))
      (clear_interval-sockets (get_key a m.ping_intervals) m)

-- An old socket of an asset closes while another one is registered and open: that other one stays open,
-- but its entry is gone, so that `sendData` for the asset finds no socket.
pub on_close-send_data :
    (stringify : Text → Text) (a : Text) (s s' : ℕ) (m : Manager)
    → s ≢ s'
    → get_key a m.web_sockets ≡ some s'
    → is_opened (state_of s' m) ≡ true
    → (is_opened (state_of s' (on_close a s m)) ≡ true)
      × (send_data stringify a (on_close a s m) ≡ Outcome.not_found)
unfolding on_close send_data
on_close-send_data stringify a s s' m ne here b =
    let closed = set_state ReadyState.closed s m in
    let other =
      get_elem?-update_at (λ w. record w { ready_state = ReadyState.closed }) s s' m.sockets ne in
    (
      ap is_opened (forget-state_of a s' closed ∙ ap (Option.map (λ w. w.ready_state)) other) ∙ b,
      ap (λ o. send_found stringify a o (forget a closed)) (forgotten a closed),
    )

clear_interval-stops :
    (o : Option ℕ) (t : ℕ) (timer : Timer) (m : Manager)
    → o ≡ some t
    → get_elem? m.timers t ≡ some timer
    → get_elem? (clear_interval o m).timers t ≡ some (record timer { active = false })
clear_interval-stops none t timer m e h = cc
clear_interval-stops (some u) t timer m e h =
    let same : u ≡ t = cc in
    subst
      (λ k. get_elem? (clear_interval (some u) m).timers k ≡ some (record timer { active = false }))
      same
      (get_elem?-here (λ v. record v { active = false }) u m.timers
        ∙ ap (Option.map (λ (v : Timer). record v { active = false }))
            (subst (λ k. get_elem? m.timers k ≡ some timer) (sym same) h))

-- Closing the connection of an asset that has a socket: its ping timer stops, `sendData` finds no socket
-- for it any more, and the sockets of all other assets stay registered as they were.
pub close_connection-send_data :
    (stringify : Text → Text) (a : Text) (s t : ℕ) (timer : Timer) (m : Manager)
    → get_key a m.web_sockets ≡ some s
    → get_key a m.ping_intervals ≡ some t
    → get_elem? m.timers t ≡ some timer
    → (get_elem? (close_connection a m).timers t ≡ some (record timer { active = false }))
      × (send_data stringify a (close_connection a m) ≡ Outcome.not_found)
      × ((b : Text)
          → text_eq a b ≡ false
          → get_key b (close_connection a m).web_sockets ≡ get_key b m.web_sockets)
unfolding close_connection send_data forget
close_connection-send_data stringify a s t timer m here ping run =
    let (_, web, intervals, timers) = close-Kept s m in
    let after = close s m in
    let found : close_connection a m ≡ forget a after = ap (λ o. close_found a o m) here in
    (
      ap (λ q. get_elem? q.timers t) found
          ∙ clear_interval-stops (get_key a after.ping_intervals) t timer after
              (ap (get_key a) intervals ∙ ping) (ap (λ x. get_elem? x t) timers ∙ run),
      ap (send_data stringify a) found
          ∙ ap (λ o. send_found stringify a o (forget a after)) (forgotten a after),
      λ b other.
          ap (λ q. get_key b q.web_sockets) found
          ∙ (get_key-forget a b after).1
          ∙ ap (λ c. if c then none else get_key b after.web_sockets) other
          ∙ ap (get_key b) web,
    )
