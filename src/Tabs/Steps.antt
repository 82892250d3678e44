-- ===== src/Tabs/Steps.antt =====
-- Sessions of the tabs: every step of the user, and every answer of the server.
use next_dbm.Base.{
  ℕ, ◌≡◌, ◌≢◌, ap, subst, true, false, List, [], ◌∷◌, ◌++◌, Text, text_eq, text_eq_refl, has_text,
  if◌then◌else◌, Option, none, some, Option-cases, of_some, inl, inr, arith,
}
use mathlib.Core.Option
use next_dbm.Tabs.Defs.{
  Tab, Params, Request, Provider, Change, new_tab, has_tab, add_tab, resolve, remove_tab, set_tab,
  activate, on_drag_end, handle_prev, handle_next, go_to, id_at,
}
use next_dbm.Tabs.Ids.{Unique, has_tab-append}
use next_dbm.Tabs.Invariant.{
  IsValid, AllUnique, active_open-has_tab, add_tab-IsValid, resolve-IsValid, remove_tab-IsValid,
  set_tab-IsValid,
}
use next_dbm.Tabs.Order.{ArrayMove, on_drag_end-IsValid}
use next_dbm.Tabs.Cycle.{has_tab-id_at}

-- Answers of the server come in any order; each names an id that no tab of its closure has.
pub data Step (lib : ArrayMove) (p : Provider) : Provider → Type 0 where
  adds : (now : Text) (params : Params) → Step lib p (add_tab now params p)
  resolves :
      (pre : List Request) (r : Request) (post : List Request) (new_id : Text)
      → p.requests ≡ pre ++ (r ∷ post)
      → has_tab new_id r.seen ≡ false
      → Step lib p (record (resolve r new_id p) { requests = pre ++ post })
  closes :
      (key : Text) {q : Provider}
      → has_tab key p.tabs ≡ true
      → remove_tab key p ≡ some q
      → Step lib p q
  changes :
      (key : Text) (c : Change) {q : Provider}
      → has_tab key p.tabs ≡ true
      → set_tab key c p ≡ some q
      → Step lib p q
  activates : (key : Text) → has_tab key p.tabs ≡ true → Step lib p (activate key p)
  drags : (active over : Text) → p.tabs ≢ [] → Step lib p (on_drag_end lib.array_move active over p)
  left : {q : Provider} → handle_prev p ≡ some q → Step lib p q
  right : {q : Provider} → handle_next p ≡ some q → Step lib p q

pub data Session (lib : ArrayMove) (p : Provider) : Provider → Type 0 where
  here : Session lib p p
  next : {q r : Provider} → Session lib p q → Step lib q r → Session lib p r

AllUnique-around :
    (pre : List Request) (r : Request) (post : List Request)
    → AllUnique (pre ++ (r ∷ post))
    → Unique r.seen × AllUnique (pre ++ post)
AllUnique-around [] r post h = (h.0, h.1)
AllUnique-around (x ∷ pre) r post h =
    let (u, rest) = AllUnique-around pre r post h.1 in (u, (h.0, rest))

go_to-IsValid : (o : Option ℕ) (p q : Provider) → IsValid p → go_to o p ≡ some q → IsValid q
go_to-IsValid none p q v h = cc
go_to-IsValid (some i) p q v h = elim (Option-cases (id_at i p.tabs)) [
  | inl e ↦ absurd (nothing e)
  | inr (k, e) ↦
      of_some IsValid (ap (Option.map (λ (key : Text). record p { tab_index = key })) e) h (record {
        unique = v.unique;
        active = active_open-has_tab k p.tabs (has_tab-id_at i p.tabs k e);
        seen = v.seen;
      })
]
  where
    nothing : id_at i p.tabs ≡ none → ⊥
    nothing e = cc (ap (Option.map (λ (key : Text). record p { tab_index = key })) e)

activate-IsValid :
    (key : Text) (p : Provider) → has_tab key p.tabs ≡ true → IsValid p → IsValid (activate key p)
unfolding activate
activate-IsValid key p open' v = record {
  unique = v.unique;
  active = active_open-has_tab key p.tabs open';
  seen = v.seen;
}

handle_prev-IsValid : (p q : Provider) → IsValid p → handle_prev p ≡ some q → IsValid q
unfolding handle_prev
handle_prev-IsValid p q v e = go_to-IsValid _ p q v e

handle_next-IsValid : (p q : Provider) → IsValid p → handle_next p ≡ some q → IsValid q
unfolding handle_next
handle_next-IsValid p q v e = go_to-IsValid _ p q v e

Step-IsValid : (lib : ArrayMove) {p q : Provider} → Step lib p q → IsValid p → IsValid q
Step-IsValid lib {p} (adds now params) v = add_tab-IsValid now params p v
Step-IsValid lib {p} (resolves pre r post new_id at fresh) v =
    let (u, rest) = AllUnique-around pre r post (subst AllUnique at v.seen) in
    let w = resolve-IsValid r new_id p fresh u v in
    record { unique = w.unique; active = w.active; seen = rest }
Step-IsValid lib {p} {q} (closes key open' e) v = remove_tab-IsValid key p q open' v e
Step-IsValid lib {p} {q} (changes key c open' e) v = set_tab-IsValid key c p q open' v e
Step-IsValid lib {p} (activates key open') v = activate-IsValid key p open' v
Step-IsValid lib {p} (drags active over ne) v = on_drag_end-IsValid lib active over p ne v
Step-IsValid lib {p} {q} (left e) v = handle_prev-IsValid p q v e
Step-IsValid lib {p} {q} (right e) v = handle_next-IsValid p q v e

-- In every session from a valid state, whatever the order of the user's steps and of the server's
-- answers, the ids of the open tabs stay distinct, and while a tab is open the active one is open.
pub Session-IsValid : (lib : ArrayMove) {p q : Provider} → IsValid p → Session lib p q → IsValid q
Session-IsValid lib v here = v
Session-IsValid lib v (next s st) = Step-IsValid lib st (Session-IsValid lib v s)

-- What an `addTab` without a key leaves to the answer.
abbrev request : Text → Params → List Tab → Request
request now params seen = record {
  params = params;
  new_title = if has_text params.title then params.title else now;
  seen = seen;
}

add_tab-no_key :
    (now : Text) (params : Params) (p : Provider)
    → params.key ≡ []
    → add_tab now params p
      ≡ record p { operation_label = []; requests = p.requests ++ (request now params p.tabs ∷ []) }
unfolding add_tab
add_tab-no_key now params p e = rw (ap has_text e, add_tab)

-- Two tabs asked for before the server has answered: the second answer puts back the tabs that its
-- own closure holds, so the tab of the first answer is gone, although nobody closed it.
pub resolve-resolve :
    (now now' : Text) (first second : Params) (p : Provider) (id id' : Text)
    → first.key ≡ []
    → second.key ≡ []
    → p.requests ≡ []
    → has_tab id p.tabs ≡ false
    → text_eq id' id ≡ false
    → let q = add_tab now' second (add_tab now first p) in
      (r : Request) × (r' : Request) × (q.requests ≡ r ∷ r' ∷ [])
      × (has_tab id (resolve r id q).tabs ≡ true)
      × (has_tab id (resolve r' id' (resolve r id q)).tabs ≡ false)
unfolding resolve new_tab
resolve-resolve now now' first second p id id' b b' none_yet fresh ne = (
  request now first p.tabs,
  request now' second p.tabs,
  rw (add_tab-no_key now first p b) (
      rw (add_tab-no_key now' second _ b') (
        ap (λ rs. (rs ++ (request now first p.tabs ∷ [])) ++ (request now' second p.tabs ∷ []))
          none_yet)),
  ground (
    arith,
    has_tab-append id p.tabs (new_tab id (request now first p.tabs).new_title first ∷ []),
    text_eq_refl id,
  ),
  ground (
    arith,
    has_tab-append id p.tabs (new_tab id' (request now' second p.tabs).new_title second ∷ []),
  ),
)
