-- ===== src/Tabs/Cycle.antt =====
-- Walking through the tabs with the two arrows.
use next_dbm.Base.{
  ℕ, zero, suc, ◌+◌, ◌-◌, ◌<◌, ◌≡◌, ◌≢◌, refl, sym, ap, subst, ◌∙◌, true, false, List, [], ◌∷◌,
  ◌++◌, Text, text_eq_iff, length, length-append, ◌==◌, if◌then◌else◌, some, arith,
}
use next_dbm.Tabs.Defs.{Tab, Provider, has_tab, find_index, id_at, handle_prev, handle_next}
use next_dbm.Tabs.Ids.{Unique, has_tab-split, find_index-around}
use next_dbm.Tabs.Invariant.{IsValid, active_open}

pub has_tab-id_at :
    (i : ℕ) (tabs : List Tab) (key : Text) → id_at i tabs ≡ some key → has_tab key tabs ≡ true
has_tab-id_at i [] key h = cc
has_tab-id_at zero (t ∷ tabs) key h = ground (arith, text_eq_iff t.id key)
has_tab-id_at (suc i) (t ∷ tabs) key h = ground (arith, has_tab-id_at i tabs key)

-- With distinct ids a position is the index of its id.
find_index-id_at :
    (i : ℕ) (tabs : List Tab) (key : Text)
    → Unique tabs
    → id_at i tabs ≡ some key
    → find_index key tabs ≡ some i
unfolding find_index
find_index-id_at i [] key u h = cc
find_index-id_at zero (t ∷ tabs) key u h = ground (arith, text_eq_iff t.id key)
find_index-id_at (suc i) (t ∷ tabs) key u h =
    ground
      (arith, find_index-id_at i tabs key u.1, has_tab-id_at i tabs key, text_eq_iff t.id key, u.0)

id_at-lt : (i : ℕ) (tabs : List Tab) → i < length tabs → (key : Text) × (id_at i tabs ≡ some key)
id_at-lt i [] h = absurd (omega arith)
id_at-lt zero (t ∷ tabs) h = (t.id, refl)
id_at-lt (suc i) (t ∷ tabs) h = id_at-lt i tabs (omega arith)

id_at-around :
    (pre : List Tab) (tab : Tab) (post : List Tab)
    → id_at (length pre) (pre ++ (tab ∷ post)) ≡ some tab.id
id_at-around [] tab post = refl
id_at-around (x ∷ pre) tab post = id_at-around pre tab post

-- Where the active tab stands.
abbrev Stands : ℕ → Provider → Type 0
Stands i p =
    (find_index p.tab_index p.tabs ≡ some i)
    × (id_at i p.tabs ≡ some p.tab_index)
    × (i < length p.tabs)

Stands-active : (p : Provider) → has_tab p.tab_index p.tabs ≡ true → (i : ℕ) × Stands i p
Stands-active p h =
    let (pre, tab, post, at, id, first) = has_tab-split p.tab_index p.tabs h in
    let found : find_index p.tab_index p.tabs ≡ some (length pre) =
      subst (λ k. find_index k p.tabs ≡ some (length pre)) id
        (ap (find_index tab.id) at
          ∙ find_index-around tab post pre (subst (λ k. has_tab k pre ≡ false) (sym id) first)) in
    let here : id_at (length pre) p.tabs ≡ some p.tab_index =
      ap (id_at (length pre)) at ∙ id_at-around pre tab post ∙ ap some id in
    (length pre, (found, here, omega (arith, ap length at, length-append pre (tab ∷ post))))

-- The position that an arrow goes to.
abbrev prev_of : ℕ → ℕ → ℕ
prev_of n i = if i == 0 then n - 1 else i - 1

abbrev next_of : ℕ → ℕ → ℕ
next_of n i = if i + 1 == n then 0 else i + 1

handle_prev-Stands :
    (i : ℕ) (p : Provider) (key : Text)
    → Stands i p
    → id_at (prev_of (length p.tabs) i) p.tabs ≡ some key
    → handle_prev p ≡ some (record p { tab_index = key })
unfolding handle_prev
handle_prev-Stands i p key s e = rw (s.0, e)

handle_next-Stands :
    (i : ℕ) (p : Provider) (key : Text)
    → Stands i p
    → id_at (next_of (length p.tabs) i) p.tabs ≡ some key
    → handle_next p ≡ some (record p { tab_index = key })
unfolding handle_next
handle_next-Stands i p key s e = rw (s.0, e)

pub has_active : (p : Provider) → IsValid p → p.tabs ≢ [] → has_tab p.tab_index p.tabs ≡ true
has_active p v ne = on_tabs p.tabs v.active ne
  where
    on_tabs :
        (tabs : List Tab)
        → active_open p.tab_index tabs ≡ true
        → tabs ≢ []
        → has_tab p.tab_index tabs ≡ true
    on_tabs [] h n = absurd (n refl)
    on_tabs (t ∷ tabs) h n = h

-- The two positions undo one another.
next_of-prev_of : (n i : ℕ) → i < n → next_of n (prev_of n i) ≡ i
next_of-prev_of n i h = ground arith

prev_of-next_of : (n i : ℕ) → i < n → prev_of n (next_of n i) ≡ i
prev_of-next_of n i h = ground arith

prev_of-lt : (n i : ℕ) → i < n → prev_of n i < n
prev_of-lt n i h = ground arith

next_of-lt : (n i : ℕ) → i < n → next_of n i < n
next_of-lt n i h = ground arith

moved-Stands :
    (p : Provider) (j : ℕ) (key : Text)
    → Unique p.tabs
    → j < length p.tabs
    → id_at j p.tabs ≡ some key
    → Stands j (record p { tab_index = key })
moved-Stands p j key u lt e = (find_index-id_at j p.tabs key u e, e, lt)

-- Each arrow goes to an open tab, and the other arrow comes back from there.
pub handle_next-prev :
    (p : Provider)
    → IsValid p
    → p.tabs ≢ []
    → ((q : Provider) × (handle_prev p ≡ some q) × (handle_next q ≡ some p))
      × ((r : Provider) × (handle_next p ≡ some r) × (handle_prev r ≡ some p))
handle_next-prev p v ne =
    let n = length p.tabs in
    let (i, s) = Stands-active p (has_active p v ne) in
    let back = prev_of-lt n i s.2 in
    let forth = next_of-lt n i s.2 in
    let (k, ek) = id_at-lt (prev_of n i) p.tabs back in
    let (l, el) = id_at-lt (next_of n i) p.tabs forth in
    (
      (
        record p { tab_index = k },
        handle_prev-Stands i p k s ek,
        handle_next-Stands (prev_of n i) (record p { tab_index = k }) p.tab_index
            (moved-Stands p (prev_of n i) k v.unique back ek)
            (ap (λ j. id_at j p.tabs) (next_of-prev_of n i s.2) ∙ s.1),
      ),
      (
        record p { tab_index = l },
        handle_next-Stands i p l s el,
        handle_prev-Stands (next_of n i) (record p { tab_index = l }) p.tab_index
            (moved-Stands p (next_of n i) l v.unique forth el)
            (ap (λ j. id_at j p.tabs) (prev_of-next_of n i s.2) ∙ s.1),
      ),
    )
