-- ===== src/WeekTime/Spans.antt =====
-- What `splicing` writes: the spans of checked slots, each with its first and last slot.
use next_dbm.Base.{
  ℕ, suc, ◌+◌, ◌≤◌, ◌<◌, ◌≡◌, refl, ap, ◌∙◌, Bool, true, false, ◌&&◌, ◌||◌, List, [], ◌∷◌, leb,
  ◌==◌, if◌then◌else◌, length, arith,
}
use next_dbm.WeekTime.Grid.{Cell, set_checked}

pub record Span : Type 0 where
  pub first : ℕ
  pub last : ℕ

abbrev pub within : Span → ℕ → Bool
within s k = leb s.first k && leb k s.last

abbrev pub covers : List Span → ℕ → Bool
covers [] k = false
covers (s ∷ ss) k = within s k || covers ss k

-- Spans in reverse, as the tokens of the loop.
abbrev pub extend : ℕ → List Span → List Span
extend i [] = []
extend i (s ∷ ss) = record s { last = i } ∷ ss

unfoldable pub span_step : ℕ → List Span → Bool → Cell → List Span
span_step i spans same item =
    if item.checked
    then (if same then extend i spans else record { first = i; last = i } ∷ spans)
    else spans

unfoldable pub span_loop : ℕ → List Span → Bool → List Cell → List Span
span_loop i spans same [] = spans
span_loop i spans same (item ∷ arr) =
    span_loop (suc i) (span_step i spans same item) item.checked arr

-- Whether the slot `k` of the cells from slot `i` on is checked.
abbrev pub checked_from : ℕ → List Cell → ℕ → Bool
checked_from i [] k = false
checked_from i (item ∷ arr) k = (k == i && item.checked) || checked_from (suc i) arr k

-- The last span ends where the loop stands while the previous slot was checked.
abbrev pub Continues : ℕ → List Span → Bool → Type 0
Continues i spans false = Unit {0}
Continues i [] true = ⊥
Continues i (s ∷ ss) true = (s.first < i) × (suc s.last ≡ i)

pub span_step-Continues :
    (i : ℕ) (spans : List Span) (same : Bool) (item : Cell)
    → Continues i spans same
    → Continues (suc i) (span_step i spans same item) item.checked
unfolding span_step
span_step-Continues i spans same item c = on_checked item.checked
  where
    on_checked : (b : Bool) → Continues (suc i) (span_step i spans same (set_checked b item)) b
    on_checked false = tt
    on_checked true = on_same spans same c
      where
        on_same :
            (spans' : List Span) (same' : Bool)
            → Continues i spans' same'
            → Continues (suc i) (span_step i spans' same' (set_checked true item)) true
        on_same spans' false c' = (omega arith, refl)
        on_same [] true c' = absurd c'
        on_same (s ∷ ss) true c' = (omega arith, refl)

covers-span_step :
    (i : ℕ) (spans : List Span) (same : Bool) (item : Cell) (k : ℕ)
    → Continues i spans same
    → covers (span_step i spans same item) k ≡ (covers spans k || (k == i && item.checked))
unfolding span_step
covers-span_step i spans false item k c = ground arith
covers-span_step i [] true item k c = absurd c
covers-span_step i (s ∷ ss) true item k c = ground arith

or_assoc : (a b c : Bool) → ((a || b) || c) ≡ (a || (b || c))
or_assoc a b c = ground arith

-- The spans cover exactly the checked slots.
pub covers-span_loop :
    (i : ℕ) (spans : List Span) (same : Bool) (cells : List Cell) (k : ℕ)
    → Continues i spans same
    → covers (span_loop i spans same cells) k ≡ (covers spans k || checked_from i cells k)
unfolding span_loop
covers-span_loop i spans same [] k c = ground arith
covers-span_loop i spans same (item ∷ arr) k c =
    covers-span_loop (suc i) (span_step i spans same item) item.checked arr k
      (span_step-Continues i spans same item c)
    ∙ ap (λ b. b || checked_from (suc i) arr k) (covers-span_step i spans same item k c)
    ∙ or_assoc (covers spans k) (k == i && item.checked) (checked_from (suc i) arr k)

abbrev pub AllBelow : ℕ → List Span → Type 0
AllBelow n [] = Unit {0}
AllBelow n (s ∷ ss) = (s.first ≤ s.last) × (s.last < n) × AllBelow n ss

AllBelow-le : {m n : ℕ} (ss : List Span) → AllBelow m ss → m ≤ n → AllBelow n ss
AllBelow-le [] h le = tt
AllBelow-le (s ∷ ss) h le = (h.0, omega arith, AllBelow-le ss h.2 le)

AllBelow-suc : (n : ℕ) (ss : List Span) → AllBelow n ss → AllBelow (suc n) ss
AllBelow-suc n ss h = AllBelow-le ss h (omega arith)

span_step-AllBelow :
    (i : ℕ) (spans : List Span) (same : Bool) (item : Cell)
    → Continues i spans same
    → AllBelow i spans
    → AllBelow (suc i) (span_step i spans same item)
unfolding span_step
span_step-AllBelow i spans false item c h = ground (arith, AllBelow-suc i spans)
span_step-AllBelow i [] true item c h = absurd c
span_step-AllBelow i (s ∷ ss) true item c h = ground (arith, AllBelow-suc i ss)

-- Every span lies below the slot where the cells end.
pub span_loop-AllBelow :
    (i : ℕ) (spans : List Span) (same : Bool) (cells : List Cell) (n : ℕ)
    → Continues i spans same
    → AllBelow i spans
    → length cells + i ≤ n
    → AllBelow n (span_loop i spans same cells)
unfolding span_loop
span_loop-AllBelow i spans same [] n c h le = AllBelow-le spans h (omega arith)
span_loop-AllBelow i spans same (item ∷ arr) n c h le =
    span_loop-AllBelow (suc i) (span_step i spans same item) item.checked arr n
      (span_step-Continues i spans same item c) (span_step-AllBelow i spans same item c h)
      (omega arith)
