-- ===== src/WeekTime/Paint.antt =====
-- What the loops of `renderTimePeriod` check: the slots of a range, in one row.
use next_dbm.Base.{
  ℕ, zero, suc, ◌+◌, ◌≤◌, ◌<◌, ◌≡◌, refl, sym, ap, ◌∙◌, Bool, true, false, ◌&&◌, ◌||◌, List, [],
  ◌∷◌, ◌++◌, length, leb, ltb, ◌==◌, if◌then◌else◌, Option, none, some, Option-cases, inl, inr,
  fun_ext, arith,
}
use mathlib.Core.Option
use next_dbm.WeekTime.Grid.{Cell, Day, set_checked, modify, and_then, check_slot, check_slots}

-- Check the cells whose slots `p` names, from slot `i` on.
unfoldable pub mark : (ℕ → Bool) → ℕ → List Cell → List Cell
mark p i [] = []
mark p i (item ∷ arr) = (if p i then set_checked true item else item) ∷ mark p (suc i) arr

pub mark-mark :
    (p q : ℕ → Bool) (i : ℕ) (cells : List Cell)
    → mark q i (mark p i cells) ≡ mark (λ k. p k || q k) i cells
unfolding mark
mark-mark p q i [] = refl
mark-mark p q i (item ∷ arr) = ground (arith, mark-mark p q (suc i) arr)

pub mark-ext :
    (p q : ℕ → Bool) (i : ℕ) (cells : List Cell)
    → ((k : ℕ) → i ≤ k → p k ≡ q k)
    → mark p i cells ≡ mark q i cells
unfolding mark
mark-ext p q i [] h = refl
mark-ext p q i (item ∷ arr) h =
    ground (arith, h i (omega arith), mark-ext p q (suc i) arr (λ k le. h k (omega arith)))

pub mark_none :
    (p : ℕ → Bool) (i : ℕ) (cells : List Cell)
    → ((k : ℕ) → i ≤ k → p k ≡ false)
    → mark p i cells ≡ cells
unfolding mark
mark_none p i [] h = refl
mark_none p i (item ∷ arr) h =
    ground (arith, h i (omega arith), mark_none p (suc i) arr (λ k le. h k (omega arith)))

module _ {ℓ} {A : Type ℓ} where
  pub modify-some : (i : ℕ) (xs : List A) → i < length xs → modify some i xs ≡ some xs
  unfolding modify
  modify-some i [] h = absurd (omega arith)
  modify-some zero (x ∷ xs) h = refl
  modify-some (suc i) (x ∷ xs) h = rw (modify-some i xs (omega arith))

  pub modify-modify :
      (f g : A → Option A) (i : ℕ) (xs : List A)
      → and_then (modify f i xs) (modify g i) ≡ modify (λ x. and_then (f x) g) i xs
  unfolding modify
  modify-modify f g i [] = refl
  modify-modify f g zero (x ∷ xs) = on_first (f x)
    where
      on_first :
          (o : Option A)
          → and_then (Option.map (λ y. y ∷ xs) o) (modify g zero)
            ≡ Option.map (λ y. y ∷ xs) (and_then o g)
      on_first none = refl
      on_first (some y) = refl
  modify-modify f g (suc i) (x ∷ xs) =
      on_rest (modify f i xs) ∙ ap (Option.map (x ∷◌)) (modify-modify f g i xs)
    where
      on_rest :
          (o : Option (List A))
          → and_then (Option.map (x ∷◌) o) (modify g (suc i))
            ≡ Option.map (x ∷◌) (and_then o (modify g i))
      on_rest none = refl
      on_rest (some ys) = refl

  pub length-modify :
      (f : A → Option A) (i : ℕ) (xs ys : List A) → modify f i xs ≡ some ys → length ys ≡ length xs
  unfolding modify
  length-modify f i [] ys h = cc
  length-modify f zero (x ∷ xs) ys h = ground arith
  length-modify f (suc i) (x ∷ xs) ys h = elim (Option-cases (modify f i xs)) [
    | inl e ↦ ground arith
    | inr (zs, e) ↦ ground (arith, length-modify f i xs zs e)
  ]

  pub modify-append :
      (f : A → Option A) (pre : List A) (x y : A) (post : List A)
      → f x ≡ some y
      → modify f (length pre) (pre ++ (x ∷ post)) ≡ some (pre ++ (y ∷ post))
  unfolding modify
  modify-append f [] x y post h = rw h
  modify-append f (z ∷ pre) x y post h = rw (modify-append f pre x y post h)

  pub modify-ext :
      (f g : A → Option A) (i : ℕ) (xs : List A)
      → ((x : A) → f x ≡ g x)
      → modify f i xs ≡ modify g i xs
  modify-ext f g i xs h = rw (fun_ext h)

-- The loop over the slots of one day.
pub check_in_day : ℕ → ℕ → Day → Option Day
check_in_day zero i day = some day
check_in_day (suc n) i day =
    let rest = λ (d : Day). check_in_day n (suc i) d in and_then (check_slot i day) rest

-- Its row is looked up in every round, and is the same in each.
pub check_slots-modify :
    (n i row : ℕ) (days : List Day)
    → row < length days
    → check_slots n i row days ≡ modify (check_in_day n i) row days
unfolding check_slots check_in_day
check_slots-modify zero i row days h = sym (modify-some row days h)
check_slots-modify (suc n) i row days h =
    on_first (modify (check_slot i) row days) (λ days' e.
      check_slots-modify n (suc i) row days'
        (omega (arith, length-modify (check_slot i) row days days' e)))
    ∙ modify-modify (check_slot i) (check_in_day n (suc i)) row days
  where
    on_first :
        (o : Option (List Day))
        → ((days' : List Day)
            → o ≡ some days'
            → check_slots n (suc i) row days' ≡ modify (check_in_day n (suc i)) row days')
        → and_then o (λ d. check_slots n (suc i) row d)
          ≡ and_then o (modify (check_in_day n (suc i)) row)
    on_first none h' = refl
    on_first (some d) h' = h' d refl

pub length-mark :
    (p : ℕ → Bool) (i : ℕ) (cells : List Cell) → length (mark p i cells) ≡ length cells
unfolding mark
length-mark p i [] = refl
length-mark p i (item ∷ arr) = ap suc (length-mark p (suc i) arr)

abbrev check_cell : Cell → Option Cell
check_cell item = some (set_checked true item)

modify-check_cell :
    (base i : ℕ) (cells : List Cell)
    → i < length cells
    → modify check_cell i cells ≡ some (mark (λ k. k == (base + i)) base cells)
unfolding modify mark
modify-check_cell base i [] h = absurd (omega arith)
modify-check_cell base zero (item ∷ arr) h =
    ground (arith, mark_none (λ k. k == (base + 0)) (suc base) arr (λ k le. ground arith))
modify-check_cell base (suc i) (item ∷ arr) h = ground (
  arith,
  modify-check_cell (suc base) i arr (omega arith),
  mark-ext (λ k. k == (suc base + i)) (λ k. k == (base + suc i)) (suc base) arr
      (λ k le. ground arith),
)

-- The slots from `i` to `i + n`.
abbrev pub from_for : ℕ → ℕ → ℕ → Bool
from_for i n k = leb i k && ltb k (i + n)

abbrev pub mark_day : (ℕ → Bool) → Day → Day
mark_day p day = record day { child = mark p 0 day.child }

check_slot-mark :
    (i : ℕ) (day : Day)
    → i < length day.child
    → check_slot i day ≡ some (mark_day (λ k. k == i) day)
unfolding check_slot
check_slot-mark i day h = rw (modify-check_cell 0 i day.child h) (
    ap (λ cells. some (record day { child = cells }))
      (mark-ext (λ k. k == (0 + i)) (λ k. k == i) 0 day.child (λ k le. ground arith)))

-- In bounds, the loop checks the slots from `i` to `i + n`, and no other.
pub check_in_day-mark :
    (n i : ℕ) (day : Day)
    → i + n ≤ length day.child
    → check_in_day n i day ≡ some (mark_day (from_for i n) day)
unfolding check_in_day
check_in_day-mark zero i day h =
    ap (λ cells. some (record day { child = cells }))
      (sym (mark_none (from_for i 0) 0 day.child (λ k le. ground arith)))
check_in_day-mark (suc n) i day h = rw (check_slot-mark i day (omega arith)) (
    check_in_day-mark n (suc i) (mark_day (λ k. k == i) day)
      (omega (arith, length-mark (λ k. k == i) 0 day.child))
    ∙ ap (λ cells. some (record day { child = cells }))
        (mark-mark (λ k. k == i) (from_for (suc i) n) 0 day.child
          ∙ mark-ext (λ k. k == i || from_for (suc i) n k) (from_for i (suc n)) 0 day.child
              (λ k le. ground arith)))
