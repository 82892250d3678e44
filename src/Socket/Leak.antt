-- ===== src/Socket/Leak.antt =====
-- A ping timer that no entry names any more.
use next_dbm.Base.{
  ℕ, zero, suc, ◌<◌, ◌≡◌, ◌≢◌, refl, ap, ◌∙◌, true, false, List, [], ◌∷◌, ◌++◌, Bool, Text, text_eq,
  length, get_elem?, Option, none, some, get_key, set_key, delete_key, get_key-delete_key, arith,
  if◌then◌else◌, sym, Bool-cases, inl, inr,
}
use next_dbm.Socket.Defs.{
  Timer, Manager, Reply, on_open, on_close, init, init_reply, forget, clear_interval,
  close_connection, close_found, close, update_at,
}
use next_dbm.Socket.Kept.{
  Kept, close-Kept, init-Kept, ping-Kept, on_message-Kept, send_databases-Kept, send_data-Kept,
  write_command-Kept,
}
use next_dbm.Socket.Steps.{
  Calls, Step, Run, here, next, inits, replies, opens, shuts, pings, hears, asks_databases,
  disconnects, sends_data, writes,
}

-- Timer `t` runs, and no asset's entry names it.
abbrev pub Lost : ℕ → Manager → Type 0
Lost t m =
    (timer : Timer) × (get_elem? m.timers t ≡ some timer)
    × (timer.active ≡ true)
    × ((a : Text) → get_key a m.ping_intervals ≢ some t)

module _ {A : Type 0} where
  get_elem?-append :
      (xs ys : List A) (i : ℕ) (x : A) → get_elem? xs i ≡ some x → get_elem? (xs ++ ys) i ≡ some x
  get_elem?-append [] ys i x h = cc
  get_elem?-append (y ∷ xs) ys zero x h = h
  get_elem?-append (y ∷ xs) ys (suc i) x h = get_elem?-append xs ys i x h

  get_elem?-lt : (xs : List A) (i : ℕ) (x : A) → get_elem? xs i ≡ some x → i < length xs
  get_elem?-lt [] i x h = cc
  get_elem?-lt (y ∷ xs) zero x h = omega arith
  get_elem?-lt (y ∷ xs) (suc i) x h = omega (arith, get_elem?-lt xs i x h)

  pub get_elem?-update_at :
      (f : A → A) (i j : ℕ) (xs : List A) → i ≢ j → get_elem? (update_at f i xs) j ≡ get_elem? xs j
  get_elem?-update_at f i j [] ne = refl
  get_elem?-update_at f zero zero (x ∷ xs) ne = absurd (ne refl)
  get_elem?-update_at f zero (suc j) (x ∷ xs) ne = refl
  get_elem?-update_at f (suc i) zero (x ∷ xs) ne = refl
  get_elem?-update_at f (suc i) (suc j) (x ∷ xs) ne =
      get_elem?-update_at f i j xs (λ e. ne (ap suc e))

Kept-Lost : (t : ℕ) (m m' : Manager) → Kept m m' → Lost t m → Lost t m'
Kept-Lost t m m' (_, _, p, q) (timer, e, b, h) =
    (timer, ap (λ x. get_elem? x t) q ∙ e, b, λ a k. h a (sym (ap (get_key a) p) ∙ k))

clear_interval-other :
    (t : ℕ) (o : Option ℕ) (m : Manager)
    → o ≢ some t
    → (get_elem? (clear_interval o m).timers t ≡ get_elem? m.timers t)
      × ((clear_interval o m).ping_intervals ≡ m.ping_intervals)
clear_interval-other t none m h = (refl, refl)
clear_interval-other t (some u) m h = (
  get_elem?-update_at (λ timer. record timer { active = false }) u t m.timers (λ e. h (ap some e)),
  refl,
)

forget-Lost : (t : ℕ) (a : Text) (m : Manager) → Lost t m → Lost t (forget a m)
unfolding forget
forget-Lost t a m (timer, e, b, h) =
    let (q, p) = clear_interval-other t (get_key a m.ping_intervals) m (h a) in
    (
      timer,
      q ∙ e,
      b,
      λ k found. h k (
          kept (text_eq a k) (get_key k m.ping_intervals) (
            sym (ap (λ x. get_key k (delete_key a x)) p ∙ get_key-delete_key k a m.ping_intervals)
            ∙ found)),
    )
  where
    kept : (c : Bool) (o : Option ℕ) → (if c then none else o) ≡ some t → o ≡ some t
    kept true o s = cc
    kept false o s = s

set_key-other :
    (t u : ℕ) (a k : Text) (m : List (Text × ℕ))
    → u ≢ t
    → (text_eq a k ≡ false → get_key k m ≢ some t)
    → get_key k (set_key a u m) ≢ some t
set_key-other t u a k m ne h found = elim (Bool-cases (text_eq a k)) [
  | inl e ↦ ne (some_inj (sym (ap (λ c. if c then some u else get_key k m) e) ∙ found))
  | inr e ↦ h e (sym (ap (λ c. if c then some u else get_key k m) e) ∙ found)
]
  where
    some_inj : some u ≡ some t → u ≡ t
    some_inj s = cc

on_open-Lost : (t : ℕ) (a : Text) (s : ℕ) (m : Manager) → Lost t m → Lost t (on_open a s m)
unfolding on_open
on_open-Lost t a s m (timer, e, b, h) =
    let inside = get_elem?-lt m.timers t timer e in
    (
      timer,
      get_elem?-append m.timers (record { socket = s; active = true } ∷ []) t timer e,
      b,
      λ k. set_key-other t (length m.timers) a k m.ping_intervals (λ q. omega arith) (λ c. h k),
    )

on_close-Lost : (t : ℕ) (a : Text) (s : ℕ) (m : Manager) → Lost t m → Lost t (on_close a s m)
unfolding on_close
on_close-Lost t a s m l = forget-Lost t a _ l

close_found-Lost :
    (t : ℕ) (a : Text) (o : Option ℕ) (m : Manager) → Lost t m → Lost t (close_found a o m)
close_found-Lost t a none m l = l
close_found-Lost t a (some s) m l =
    forget-Lost t a (close s m) (Kept-Lost t m (close s m) (close-Kept s m) l)

close_connection-Lost : (t : ℕ) (a : Text) (m : Manager) → Lost t m → Lost t (close_connection a m)
unfolding close_connection
close_connection-Lost t a m l = close_found-Lost t a (get_key a m.web_sockets) m l

init_reply-Lost :
    (t : ℕ) (a : Text) (reply : Reply) (m : Manager) → Lost t m → Lost t (init_reply a reply m)
unfolding init_reply
init_reply-Lost t a (Reply.refused e) m l = l
init_reply-Lost t a (Reply.session s) m l = l

Step-Lost : (calls : Calls) (t : ℕ) {m m' : Manager} → Step calls m m' → Lost t m → Lost t m'
Step-Lost calls t {m} (inits a) l = Kept-Lost t m (init a m) (init-Kept a m) l
Step-Lost calls t {m} (replies before a after reply e) l = init_reply-Lost t a reply m l
Step-Lost calls t {m} (opens s w e) l = on_open-Lost t w.asset_id s m l
Step-Lost calls t {m} (shuts s w e) l = on_close-Lost t w.asset_id s m l
Step-Lost calls t {m} {m'} (pings u timer e b h) l =
    Kept-Lost t m m' (ping-Kept timer.socket m m' h) l
Step-Lost calls t {m} {m'} (hears s w time text e h) l =
    Kept-Lost t m m' (on_message-Kept calls.converter time w.asset_id w.session_id s text m m' h) l
Step-Lost calls t {m} {m'} (asks_databases time a s h) l =
    Kept-Lost t m m' (send_databases-Kept calls.converter time a s m m' h) l
Step-Lost calls t {m} (disconnects a) l = close_connection-Lost t a m l
Step-Lost calls t {m} {m'} (sends_data a h) l =
    Kept-Lost t m m' (send_data-Kept calls.stringify a m m' h) l
Step-Lost calls t {m} {m'} (writes a command h) l =
    Kept-Lost t m m' (write_command-Kept a command m m' h) l

Run-Lost : (calls : Calls) (t : ℕ) {m m' : Manager} → Run calls m m' → Lost t m → Lost t m'
Run-Lost calls t here l = l
Run-Lost calls t (next r s) l = Step-Lost calls t s (Run-Lost calls t r l)

-- Another connection for an asset opens while the timer of its first one still runs, named by that
-- asset's entry alone: no later run of steps stops the first timer,
-- whichever connections are closed.
pub on_open-Run :
    (calls : Calls) (a : Text) (s t : ℕ) (timer : Timer) (m : Manager) {m' : Manager}
    → get_elem? m.timers t ≡ some timer
    → timer.active ≡ true
    → ((k : Text) → text_eq a k ≡ false → get_key k m.ping_intervals ≢ some t)
    → Run calls (on_open a s m) m'
    → (timer' : Timer) × (get_elem? m'.timers t ≡ some timer') × (timer'.active ≡ true)
unfolding on_open
on_open-Run calls a s t timer m e b alone run =
    let inside = get_elem?-lt m.timers t timer e in
    let lost : Lost t (on_open a s m) = (
      timer,
      get_elem?-append m.timers (record { socket = s; active = true } ∷ []) t timer e,
      b,
      λ k. set_key-other t (length m.timers) a k m.ping_intervals (λ q. omega arith) (alone k),
    ) in
    let (timer', e', b', _) = Run-Lost calls t run lost in (timer', e', b')
