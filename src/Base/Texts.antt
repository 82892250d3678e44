-- ===== src/Base/Texts.antt =====
-- JavaScript strings as lists of UTF-16 code units, and the operations on them that the code uses.
use Prim.Native.Nat.{ℕ, zero, suc, ◌+◌, ◌-◌, ◌*◌, ◌/◌, ◌%◌, ◌<◌}
use Prim.Native.Char.{code}
use Prim.Native.String.{String}
use mathlib.Core.Path.{◌≡◌, refl}
use mathlib.Core.Logic.{◌↔◌}
use mathlib.Core.Bool.{Bool, true, false, ◌&&◌}
use native.Mathlib.Omega.{arith}
use mathlib.Core.List.{List, [], ◌∷◌, ◌++◌}
use mathlib.Core.Option.{Option, none, some}
use next_dbm.Base.Tests.{ltb, leb, ◌==◌, if◌then◌else◌, if_intro}

abbrev pub Text : Type 0
Text = List ℕ

-- A literal. All literals of the code lie in the basic plane: one unit for each character.
abbrev pub codes : String → Text
codes String.[] = []
codes (String.◌∷◌ c s) = code c ∷ codes s

-- `parts.join('')`
abbrev pub concat : List Text → Text
concat [] = []
concat (t ∷ ts) = t ++ concat ts

-- `parts.join(sep)`
abbrev pub join : Text → List Text → Text
join sep [] = []
join sep (t ∷ []) = t
join sep (t ∷ u ∷ ts) = t ++ (sep ++ join sep (u ∷ ts))

abbrev pub push_unit : ℕ → List Text → List Text
push_unit x [] = (x ∷ []) ∷ []
push_unit x (w ∷ ws) = (x ∷ w) ∷ ws

-- `text.split(c)` at a separator of one unit: never empty.
unfoldable pub split : ℕ → Text → List Text
split c [] = [] ∷ []
split c (x ∷ xs) = let rest = split c xs in if x == c then [] ∷ rest else push_unit x rest

-- The decimal text of a number, on fuel; `n + 1` rounds are enough, as `n / 10 < n`.
digits_on : ℕ → ℕ → Text
digits_on zero n = []
digits_on (suc fuel) n =
    let rest = digits_on fuel (n / 10) ++ ((48 + n % 10) ∷ []) in
    if ltb n 10 then (48 + n) ∷ [] else rest

unfoldable pub number_text : ℕ → Text
unfolding digits_on
number_text n = digits_on (suc n) n

digits_value : ℕ → Text → Option ℕ
digits_value acc [] = some acc
digits_value acc (x ∷ xs) =
    let rest = digits_value (10 * acc + (x - 48)) xs in if leb 48 x && leb x 57 then rest else none

-- `Number(text)` on texts of digits; `none` is NaN. The empty text is 0.
unfoldable pub text_number : Text → Option ℕ
unfolding digits_value
text_number = digits_value 0

-- `s === t`
abbrev pub text_eq : Text → Text → Bool
text_eq [] [] = true
text_eq [] (y ∷ t) = false
text_eq (x ∷ s) [] = false
text_eq (x ∷ s) (y ∷ t) = x == y && text_eq s t

pub text_eq_iff : (s t : Text) → (text_eq s t ≡ true) ↔ (s ≡ t)
text_eq_iff [] [] = ground arith
text_eq_iff [] (y ∷ t) = ground arith
text_eq_iff (x ∷ s) [] = ground arith
text_eq_iff (x ∷ s) (y ∷ t) = ground (arith, text_eq_iff s t)

pub text_eq_refl : (s : Text) → text_eq s s ≡ true
text_eq_refl s = (text_eq_iff s s).1 refl

-- A text is true as a condition unless it is empty.
abbrev pub has_text : Text → Bool
has_text [] = false
has_text (_ ∷ _) = true

-- A number's text starts with a digit.
abbrev digit_first : Text → Bool
digit_first [] = true
digit_first (x ∷ t) = leb x 57

digit_first-append :
    (t : Text) (x : ℕ) → digit_first t ≡ true → leb x 57 ≡ true → digit_first (t ++ (x ∷ [])) ≡ true
digit_first-append [] x h k = k
digit_first-append (y ∷ t) x h k = h

digit_first-digits_on : (fuel n : ℕ) → digit_first (digits_on fuel n) ≡ true
unfolding digits_on
digit_first-digits_on zero n = refl
digit_first-digits_on (suc fuel) n =
    if_intro (λ t. digit_first t ≡ true) (ltb n 10) _ _ (λ h. ground arith)
      (λ _.
        digit_first-append (digits_on fuel (n / 10)) (48 + n % 10)
          (digit_first-digits_on fuel (n / 10)) (ground arith))

not_digit_first :
    (t : Text) (x : ℕ) (s : Text) → digit_first t ≡ true → 57 < x → text_eq t (x ∷ s) ≡ false
not_digit_first [] x s h k = refl
not_digit_first (y ∷ t) x s h k = ground arith

-- The text of no number is a word.
pub number_text-ne : (n x : ℕ) (s : Text) → 57 < x → text_eq (number_text n) (x ∷ s) ≡ false
unfolding number_text
number_text-ne n x s h = not_digit_first _ x s (digit_first-digits_on (suc n) n) h
