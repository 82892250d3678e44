-- ===== src/Tabs/Remove.antt =====
-- What closing a tab leaves, and which tab becomes active.
use next_dbm.Base.{
  ℕ, suc, ◌+◌, ◌≡◌, refl, ap, subst, ◌∙◌, List, [], ◌∷◌, ◌++◌, Text, text_eq, length, if◌then◌else◌,
  none, some, arith,
}
use next_dbm.Tabs.Defs.{
  Tab, Provider, remove_tab, other_tabs, last_index, before, next_active, id_at,
}
use next_dbm.Tabs.Ids.{Unique, Unique-around, other_tabs-around, last_index-around}

-- The last tab before a position.
abbrev pub id_of_last : Tab → List Tab → Text
id_of_last x [] = x.id
id_of_last x (y ∷ ys) = id_of_last y ys

-- The tab to the left; else the first that is left; else the active id stays as it was.
abbrev pub left_or_first : List Tab → List Tab → Text → Text
left_or_first [] [] key = key
left_or_first [] (y ∷ post) key = y.id
left_or_first (x ∷ pre) post key = id_of_last x pre

id_at-last :
    (x : Tab) (pre post : List Tab)
    → id_at (length pre) ((x ∷ pre) ++ post) ≡ some (id_of_last x pre)
id_at-last x [] post = refl
id_at-last x (y ∷ pre) post = id_at-last y pre post

add_zero_left : (n : ℕ) → before (0 + suc n) ≡ some n
add_zero_left n = ground arith

next_active-around :
    (active : Text) (pre post : List Tab) (key : Text)
    → next_active key active (before (0 + length pre)) (pre ++ post)
      ≡ some (if text_eq active key then left_or_first pre post active else active)
next_active-around active [] [] key = ground arith
next_active-around active [] (y ∷ post) key = ground arith
next_active-around active (x ∷ pre) post key =
    rw (add_zero_left (length pre), id_at-last x pre post) (ground arith)

-- Closing an open tab never throws. It takes out that tab alone, in order. If it was the active one,
-- the tab to its left becomes active, or the first one if there is none; else the active tab stays.
pub remove_tab-around :
    (p : Provider) (pre : List Tab) (tab : Tab) (post : List Tab)
    → p.tabs ≡ pre ++ (tab ∷ post)
    → Unique p.tabs
    → remove_tab tab.id p
      ≡ some (record p {
        tabs = pre ++ post;
        tab_index =
            if text_eq p.tab_index tab.id then left_or_first pre post p.tab_index else p.tab_index;
      })
unfolding remove_tab
remove_tab-around p pre tab post e u =
    let (a, b, _) = Unique-around pre tab post (subst Unique e u) in
    let others : other_tabs tab.id p.tabs ≡ pre ++ post =
      ap (other_tabs tab.id) e ∙ other_tabs-around tab post pre a b in
    let last : last_index tab.id 0 none p.tabs ≡ before (0 + length pre) =
      ap (last_index tab.id 0 none) e ∙ last_index-around tab post 0 pre none a b in
    rw (others, last, next_active-around p.tab_index pre post tab.id)
