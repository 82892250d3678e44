-- ===== src/Tabs/Invariant.antt =====
-- What every step of the tabs keeps: distinct ids, and an active tab that is open.
use next_dbm.Base.{
  ◌≡◌, refl, sym, ap, subst, ◌∙◌, Bool, true, false, List, [], ◌∷◌, ◌++◌, map, Text, text_eq,
  text_eq_refl, has_text, if◌then◌else◌, some, Bool-cases, of_some, inl, inr, arith,
}
use mathlib.Core.Option
use next_dbm.Tabs.Defs.{
  Tab, Params, Request, Provider, Change, new_tab, has_tab, add_tab, resolve, remove_tab, change,
  change_at, set_tab,
}
use next_dbm.Tabs.Ids.{
  Unique, Unique-snoc, Unique-around, has_tab-append, has_tab-split, text_eq_comm,
}
use next_dbm.Tabs.Remove.{id_of_last, left_or_first, remove_tab-around}
use next_dbm.Tabs.Change.{id-change, has_tab-change, change_tabs-has_tab}

-- With tabs, the active id is one of theirs.
abbrev pub active_open : Text → List Tab → Bool
active_open key [] = true
active_open key (tab ∷ tabs) = has_tab key (tab ∷ tabs)

abbrev pub AllUnique : List Request → Type 0
AllUnique [] = Unit {0}
AllUnique (r ∷ rs) = Unique r.seen × AllUnique rs

pub record IsValid (p : Provider) : Type 0 where
  pub unique : Unique p.tabs
  pub active : active_open p.tab_index p.tabs ≡ true
  pub seen : AllUnique p.requests

AllUnique-snoc :
    (rs : List Request) (r : Request) → AllUnique rs → Unique r.seen → AllUnique (rs ++ (r ∷ []))
AllUnique-snoc [] r h u = (u, tt)
AllUnique-snoc (x ∷ rs) r h u = (h.0, AllUnique-snoc rs r h.1 u)

pub active_open-has_tab :
    (key : Text) (tabs : List Tab) → has_tab key tabs ≡ true → active_open key tabs ≡ true
active_open-has_tab key [] h = refl
active_open-has_tab key (t ∷ tabs) h = h

has_tab-snoc : (tabs : List Tab) (tab : Tab) → has_tab tab.id (tabs ++ (tab ∷ [])) ≡ true
has_tab-snoc tabs tab = ground (arith, has_tab-append tab.id tabs (tab ∷ []), text_eq_refl tab.id)

active_open-snoc : (tabs : List Tab) (tab : Tab) → active_open tab.id (tabs ++ (tab ∷ [])) ≡ true
active_open-snoc tabs tab = active_open-has_tab tab.id (tabs ++ (tab ∷ [])) (has_tab-snoc tabs tab)

pub add_tab-IsValid :
    (now : Text) (params : Params) (p : Provider) → IsValid p → IsValid (add_tab now params p)
unfolding add_tab new_tab
add_tab-IsValid now params p v = elim (Bool-cases (has_text params.key)) [
  | inl key ↦ elim (Bool-cases (has_tab params.key p.tabs)) [
    | inl known ↦
        rw (key, known, add_tab)
          (record {
            unique = v.unique;
            active = active_open-has_tab params.key p.tabs known;
            seen = v.seen;
          })
    | inr new' ↦
        rw (key, new', add_tab)
          (record {
            unique = Unique-snoc p.tabs _ new' v.unique;
            active = active_open-snoc p.tabs _;
            seen = v.seen;
          })
  ]
  | inr blank ↦
      rw (blank, add_tab)
        (record {
          unique = v.unique;
          active = v.active;
          seen = AllUnique-snoc p.requests _ v.seen v.unique;
        })
]

pub resolve-IsValid :
    (r : Request) (new_id : Text) (p : Provider)
    → has_tab new_id r.seen ≡ false
    → Unique r.seen
    → IsValid p
    → IsValid (resolve r new_id p)
unfolding resolve new_tab
resolve-IsValid r new_id p fresh u v = record {
  unique = Unique-snoc r.seen _ fresh u;
  active = active_open-snoc r.seen _;
  seen = v.seen;
}

-- The active tab after a removal is open.
has_tab-id_of_last :
    (x : Tab) (pre post : List Tab) → has_tab (id_of_last x pre) ((x ∷ pre) ++ post) ≡ true
has_tab-id_of_last x [] post = ground (arith, text_eq_refl x.id)
has_tab-id_of_last x (y ∷ pre) post = ground (arith, has_tab-id_of_last y pre post)

left_or_first-open :
    (pre post : List Tab) (key : Text)
    → active_open (left_or_first pre post key) (pre ++ post) ≡ true
left_or_first-open [] [] key = refl
left_or_first-open [] (y ∷ post) key = ground (arith, text_eq_refl y.id)
left_or_first-open (x ∷ pre) post key = has_tab-id_of_last x pre post

-- Another tab than the removed one stays open.
has_tab-around :
    (key : Text) (pre : List Tab) (tab : Tab) (post : List Tab)
    → has_tab key (pre ++ (tab ∷ post)) ≡ true
    → text_eq key tab.id ≡ false
    → has_tab key (pre ++ post) ≡ true
has_tab-around key pre tab post h n = ground (
  arith,
  has_tab-append key pre (tab ∷ post),
  has_tab-append key pre post,
  text_eq_comm key tab.id,
)

pub has_tab-of_active_open :
    (key t : Text) (tabs : List Tab)
    → active_open key tabs ≡ true
    → has_tab t tabs ≡ true
    → has_tab key tabs ≡ true
has_tab-of_active_open key t [] h k = cc
has_tab-of_active_open key t (x ∷ tabs) h k = h

active_open-around :
    (active : Text) (pre : List Tab) (tab : Tab) (post : List Tab)
    → active_open active (pre ++ (tab ∷ post)) ≡ true
    → active_open
        (if text_eq active tab.id then left_or_first pre post active else active)
        (pre ++ post)
      ≡ true
active_open-around active pre tab post h = elim (Bool-cases (text_eq active tab.id)) [
  | inl e ↦ rw e (left_or_first-open pre post active)
  | inr e ↦ rw e (
      active_open-has_tab active (pre ++ post) (
        has_tab-around active pre tab post
          (has_tab-of_active_open active tab.id (pre ++ (tab ∷ post)) h
            (ground (arith, has_tab-append tab.id pre (tab ∷ post), text_eq_refl tab.id)))
          e))
]

pub remove_tab-IsValid :
    (key : Text) (p q : Provider)
    → has_tab key p.tabs ≡ true
    → IsValid p
    → remove_tab key p ≡ some q
    → IsValid q
remove_tab-IsValid key p q open' v e =
    let (pre, tab, post, at, id, _) = has_tab-split key p.tabs open' in
    of_some IsValid (remove_tab-around p pre tab post at v.unique)
      (subst (λ k. remove_tab k p ≡ some q) (sym id) e)
      (record {
        unique = (Unique-around pre tab post (subst Unique at v.unique)).2;
        active =
            active_open-around p.tab_index pre tab post
              (subst (λ tabs. active_open p.tab_index tabs ≡ true) at v.active);
        seen = v.seen;
      })

Unique-change :
    (key : Text) (c : Change) (tabs : List Tab)
    → Unique tabs
    → Unique (map (change_at key (change c)) tabs)
Unique-change key c [] u = tt
Unique-change key c (t ∷ tabs) u =
    (ground (arith, id-change c t, has_tab-change key t.id c tabs), Unique-change key c tabs u.1)

active_open-change :
    (key active : Text) (c : Change) (tabs : List Tab)
    → active_open active tabs ≡ true
    → active_open active (map (change_at key (change c)) tabs) ≡ true
active_open-change key active c [] h = refl
active_open-change key active c (t ∷ tabs) h = has_tab-change key active c (t ∷ tabs) ∙ h

pub set_tab-IsValid :
    (key : Text) (c : Change) (p q : Provider)
    → has_tab key p.tabs ≡ true
    → IsValid p
    → set_tab key c p ≡ some q
    → IsValid q
unfolding set_tab
set_tab-IsValid key c p q open' v e =
    of_some IsValid
      (ap (Option.map (λ (tabs : List Tab). record p { tabs = tabs }))
        (change_tabs-has_tab key (change c) p.tabs open'))
      e
      (record {
        unique = Unique-change key c p.tabs v.unique;
        active = active_open-change key p.tab_index c p.tabs v.active;
        seen = v.seen;
      })
