-- ===== src/Tabs/Change.antt =====
-- What the setters of a tab change, and what they leave.
use next_dbm.Base.{
  ◌≡◌, refl, ◌∙◌, true, List, [], ◌∷◌, map, Text, text_eq, text_eq_iff, if◌then◌else◌, some,
  Option-cases, inl, inr, arith,
}
use mathlib.Core.Option
use next_dbm.Tabs.Defs.{
  Tab, Provider, Change, has_tab, get_tab_by_id, change, change_at, change_tabs, set_tab,
}

pub id-change : (c : Change) (tab : Tab) → (change c tab).id ≡ tab.id
unfolding change
id-change (Change.value sql) tab = refl
id-change _ tab = refl

pub has_tab-change :
    (key k : Text) (c : Change) (tabs : List Tab)
    → has_tab k (map (change_at key (change c)) tabs) ≡ has_tab k tabs
has_tab-change key k c [] = refl
has_tab-change key k c (tab ∷ tabs) = ground (arith, id-change c tab, has_tab-change key k c tabs)

get_tab_by_id-change_at :
    (key k : Text) (c : Change) (tabs : List Tab)
    → get_tab_by_id k (map (change_at key (change c)) tabs)
      ≡ Option.map (change_at key (change c)) (get_tab_by_id k tabs)
unfolding get_tab_by_id
get_tab_by_id-change_at key k c [] = refl
get_tab_by_id-change_at key k c (tab ∷ tabs) =
    ground (arith, id-change c tab, get_tab_by_id-change_at key k c tabs)

pub change_tabs-has_tab :
    (key : Text) (f : Tab → Tab) (tabs : List Tab)
    → has_tab key tabs ≡ true
    → change_tabs key f tabs ≡ some (map (change_at key f) tabs)
unfolding change_tabs
change_tabs-has_tab key f [] h = refl
change_tabs-has_tab key f (tab ∷ tabs) h = rw h

get_tab_by_id-id :
    (k : Text) (tabs : List Tab) {tab : Tab} → get_tab_by_id k tabs ≡ some tab → tab.id ≡ k
unfolding get_tab_by_id
get_tab_by_id-id k [] h = cc
get_tab_by_id-id k (t ∷ tabs) {tab} h =
    ground (arith, text_eq_iff t.id k, get_tab_by_id-id k tabs {tab = tab})

change_found :
    (key k : Text) (c : Change) (tabs : List Tab)
    → Option.map (change_at key (change c)) (get_tab_by_id k tabs) ≡ (
        if text_eq k key
        then Option.map (change c) (get_tab_by_id k tabs)
        else get_tab_by_id k tabs)
change_found key k c tabs = elim (Option-cases (get_tab_by_id k tabs)) [
  | inl e ↦ ground arith
  | inr (t, e) ↦ ground (arith, get_tab_by_id-id k tabs {tab = t})
]

ids-change :
    (key : Text) (c : Change) (tabs : List Tab)
    → map (λ t. t.id) (map (change_at key (change c)) tabs) ≡ map (λ t. t.id) tabs
ids-change key c [] = refl
ids-change key c (t ∷ tabs) = ground (arith, id-change c t, ids-change key c tabs)

-- A setter on an open tab does not throw; every tab is then found as before, the one that was named
-- with the change and all others as they were, and the tabs' order of ids is the same.
pub get_tab_by_id-set_tab :
    (p : Provider) (key k : Text) (c : Change)
    → has_tab key p.tabs ≡ true
    → (q : Provider) × (set_tab key c p ≡ some q)
      × (get_tab_by_id k q.tabs ≡ (
          if text_eq k key
          then Option.map (change c) (get_tab_by_id k p.tabs)
          else get_tab_by_id k p.tabs))
      × (map (λ t. t.id) q.tabs ≡ map (λ t. t.id) p.tabs)
      × (q.tab_index ≡ p.tab_index)
unfolding set_tab
get_tab_by_id-set_tab p key k c h = (
  record p { tabs = map (change_at key (change c)) p.tabs },
  rw (change_tabs-has_tab key (change c) p.tabs h),
  get_tab_by_id-change_at key k c p.tabs ∙ change_found key k c p.tabs,
  ids-change key c p.tabs,
  refl,
)
