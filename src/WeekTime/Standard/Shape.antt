-- ===== src/WeekTime/Standard/Shape.antt =====
-- Steps on the cells of the grid that change marks only.
use next_dbm.Base.{
  ℕ, zero, suc, ◌≡◌, refl, Bool, true, false, List, [], ◌∷◌, map, Option, some, Option-cases, inl,
  inr, arith,
}
use next_dbm.WeekTime.Grid.{
  Cell, Day, set_checked, map_day, map_cells, select_cell, check_slot, modify,
}

-- The days without their marks.
abbrev pub shape : List Day → List Day
shape = map_cells (set_checked false)

pub map_cells-shape :
    (f : Cell → Cell)
    → ((c : Cell) → set_checked false (f c) ≡ set_checked false c)
    → (days : List Day) → shape (map_cells f days) ≡ shape days
map_cells-shape f h [] = refl
map_cells-shape f h (d ∷ ds) = λ i. record d { child = cells d.child i } ∷ map_cells-shape f h ds i
  where
    cells : (cs : List Cell) → map (set_checked false) (map f cs) ≡ map (set_checked false) cs
    cells [] = refl
    cells (c ∷ cs) = λ i. h c i ∷ cells cs i

pub select_cell-unmarked :
    (rows cols : ℕ × ℕ) (b : Bool) (c : Cell)
    → set_checked false (select_cell rows cols b c) ≡ set_checked false c
unfolding select_cell
select_cell-unmarked rows cols b c = ground arith

-- A step on one element that keeps a view of it keeps the view of the list.
pub modify-view {ℓ κ} :
    {A : Type ℓ} {B : Type κ} (v : A → B) (f : A → Option A)
    → ((x y : A) → f x ≡ some y → v y ≡ v x)
    → (i : ℕ) (xs ys : List A) → modify f i xs ≡ some ys
    → map v ys ≡ map v xs
unfolding modify
modify-view v f h i [] ys e = cc
modify-view v f h zero (x ∷ xs) ys e = elim (Option-cases (f x)) [
  | inl q ↦ ground arith
  | inr (y, q) ↦ ground (arith, h x y q)
]
modify-view v f h (suc i) (x ∷ xs) ys e = elim (Option-cases (modify f i xs)) [
  | inl q ↦ ground arith
  | inr (zs, q) ↦ ground (arith, modify-view v f h i xs zs q)
]

pub check_slot-shape :
    (i : ℕ) (d d' : Day)
    → check_slot i d ≡ some d'
    → map_day (set_checked false) d' ≡ map_day (set_checked false) d
unfolding check_slot
check_slot-shape i d d' e =
    elim (Option-cases (modify (λ item. some (set_checked true item)) i d.child)) [
      | inl q ↦ ground arith
      | inr (cs, q) ↦ ground (
        arith,
        modify-view (set_checked false) (λ item. some (set_checked true item))
            (λ x y h. ground arith) i d.child cs q,
      )
    ]
