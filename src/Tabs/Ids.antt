-- ===== src/Tabs/Ids.antt =====
-- The ids of the tabs: distinct, and looked up.
use next_dbm.Base.{
  ℕ, suc, ◌+◌, ◌≡◌, refl, ap, true, false, ◌||◌, List, [], ◌∷◌, ◌++◌, Text, text_eq, text_eq_iff,
  text_eq_refl, length, Option, some, Bool-cases, inl, inr, arith,
}
use next_dbm.Tabs.Defs.{Tab, has_tab, last_index, before, other_tabs, find_index}

abbrev pub Unique : List Tab → Type 0
Unique [] = Unit {0}
Unique (tab ∷ tabs) = (has_tab tab.id tabs ≡ false) × Unique tabs

pub has_tab-append :
    (key : Text) (xs ys : List Tab) → has_tab key (xs ++ ys) ≡ (has_tab key xs || has_tab key ys)
has_tab-append key [] ys = refl
has_tab-append key (x ∷ xs) ys = ground (arith, has_tab-append key xs ys)

pub text_eq_comm : (s t : Text) → text_eq s t ≡ text_eq t s
text_eq_comm [] [] = refl
text_eq_comm [] (y ∷ t) = refl
text_eq_comm (x ∷ s) [] = refl
text_eq_comm (x ∷ s) (y ∷ t) = ground (arith, text_eq_comm s t)

-- A tab with a new id may be appended.
pub Unique-snoc :
    (tabs : List Tab) (tab : Tab)
    → has_tab tab.id tabs ≡ false
    → Unique tabs
    → Unique (tabs ++ (tab ∷ []))
Unique-snoc [] tab h u = (refl, tt)
Unique-snoc (x ∷ xs) tab h u = (
  ground (arith, has_tab-append x.id xs (tab ∷ []), text_eq_comm x.id tab.id),
  Unique-snoc xs tab (ground arith) u.1,
)

-- Around a tab of a list with distinct ids.
pub Unique-around :
    (pre : List Tab) (tab : Tab) (post : List Tab)
    → Unique (pre ++ (tab ∷ post))
    → (has_tab tab.id pre ≡ false) × (has_tab tab.id post ≡ false) × Unique (pre ++ post)
Unique-around [] tab post u = (refl, u.0, u.1)
Unique-around (x ∷ pre) tab post u =
    let (a, b, c) = Unique-around pre tab post u.1 in
    (
      ground (arith, has_tab-append x.id pre (tab ∷ post), text_eq_comm x.id tab.id),
      b,
      (ground (arith, has_tab-append x.id pre (tab ∷ post), has_tab-append x.id pre post), c),
    )

pub other_tabs_absent :
    (key : Text) (tabs : List Tab) → has_tab key tabs ≡ false → other_tabs key tabs ≡ tabs
unfolding other_tabs
other_tabs_absent key [] h = refl
other_tabs_absent key (x ∷ xs) h = ground (arith, other_tabs_absent key xs)

pub last_index_absent :
    (key : Text) (i : ℕ) (found : Option ℕ) (tabs : List Tab)
    → has_tab key tabs ≡ false
    → last_index key i found tabs ≡ found
unfolding last_index
last_index_absent key i found [] h = refl
last_index_absent key i found (x ∷ xs) h = ground (arith, last_index_absent key (suc i) found xs)

module _ (tab : Tab) (post : List Tab) where
  pub other_tabs-around :
      (pre : List Tab)
      → has_tab tab.id pre ≡ false
      → has_tab tab.id post ≡ false
      → other_tabs tab.id (pre ++ (tab ∷ post)) ≡ pre ++ post
  unfolding other_tabs
  other_tabs-around [] h k = ground (arith, text_eq_refl tab.id, other_tabs_absent tab.id post)
  other_tabs-around (x ∷ pre) h k = ground (arith, other_tabs-around pre)

  pub last_index-around :
      (i : ℕ) (pre : List Tab) (found : Option ℕ)
      → has_tab tab.id pre ≡ false
      → has_tab tab.id post ≡ false
      → last_index tab.id i found (pre ++ (tab ∷ post)) ≡ before (i + length pre)
  unfolding last_index
  last_index-around i [] found h k =
      ground (arith, text_eq_refl tab.id, last_index_absent tab.id (suc i) (before i) post)
  last_index-around i (x ∷ pre) found h k = ground (arith, last_index-around (suc i) pre found)

  pub find_index-around :
      (pre : List Tab)
      → has_tab tab.id pre ≡ false
      → find_index tab.id (pre ++ (tab ∷ post)) ≡ some (length pre)
  unfolding find_index
  find_index-around [] h = ground (arith, text_eq_refl tab.id)
  find_index-around (x ∷ pre) h = ground (arith, find_index-around pre)

-- An open tab stands somewhere, the first of its id.
pub has_tab-split :
    (key : Text) (tabs : List Tab)
    → has_tab key tabs ≡ true
    → (pre : List Tab) × (tab : Tab) × (post : List Tab) × (tabs ≡ pre ++ (tab ∷ post))
      × (tab.id ≡ key)
      × (has_tab key pre ≡ false)
has_tab-split key [] h = cc
has_tab-split key (x ∷ xs) h = elim (Bool-cases (text_eq x.id key)) [
  | inl e ↦ ([], x, xs, refl, (text_eq_iff x.id key).0 e, refl)
  | inr e ↦
      let (pre, tab, post, a, b, c) = has_tab-split key xs (ground arith) in
      (x ∷ pre, tab, post, ap (x ∷◌) a, b, ground arith)
]
