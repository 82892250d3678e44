-- ===== src/Mysql/Defs/Doubles.antt =====
-- `String(Number(text))` on an integer in decimal: the double next to it, printed with the fewest digits
-- that read back as it, a part of the language.
use next_dbm.Base.{
  ℕ, zero, suc, ◌+◌, ◌-◌, ◌*◌, ◌/◌, ◌%◌, ◌^◌, ◌||◌, ◌&&◌, [], ◌∷◌, ◌++◌, Text, codes, leb, ltb,
  ◌==◌, if◌then◌else◌, Option, none, some, number_text, length,
}

abbrev pub digits_number : ℕ → Text → ℕ
digits_number n [] = n
digits_number n (x ∷ s) = digits_number (n * 10 + (x - 48)) s

-- How often a number is halved until 53 bits hold it; `fuel` bounds its bits.
unfoldable pub halvings : ℕ → ℕ → ℕ
halvings zero n = 0
halvings (suc fuel) n = let rest = suc (halvings fuel (n / 2)) in if ltb n (2 ^ 53) then 0 else rest

-- `n / unit` rounded to the next integer, a half to the even one.
abbrev pub rounded_quotient : ℕ → ℕ → ℕ
rounded_quotient n unit =
    let q = n / unit in
    let twice = 2 * (n % unit) in
    if ltb unit twice || ((twice == unit) && (q % 2 == 1)) then suc q else q

-- The double next to an integer of at most `bits` bits.
unfoldable pub double_of : ℕ → ℕ → ℕ
double_of bits n = let unit = 2 ^ halvings bits n in rounded_quotient n unit * unit

-- A number of units that reads back as the double `v`, the nearest one first.
unfoldable pub reads_back : ℕ → ℕ → ℕ → Option ℕ
reads_back bits v unit =
    let near = rounded_quotient v unit in
    let other = if leb (near * unit) v then suc near else near - 1 in
    if double_of bits (near * unit) == v
    then some near
    else if double_of bits (other * unit) == v
    then some other
    else none

abbrev pub in_units : (ℕ → ℕ × ℕ) → ℕ × ℕ → Option ℕ → ℕ × ℕ
in_units larger found none = found
in_units larger found (some digits) = larger digits

-- The fewest digits that read back as `v`, and how many zeros follow them.
unfoldable pub fewest_digits : ℕ → ℕ → ℕ → ℕ → ℕ → ℕ × ℕ
fewest_digits zero bits v places digits = (digits, places)
fewest_digits (suc fuel) bits v places digits =
    in_units (fewest_digits fuel bits v (suc places)) (digits, places)
      (reads_back bits v (10 ^ suc places))

abbrev pub zeros : ℕ → Text
zeros zero = []
zeros (suc n) = 48 ∷ zeros n

-- From 22 places on with an exponent.
abbrev pub printed : Text → ℕ → Text
printed [] places = []
printed (x ∷ []) places =
    if leb (1 + places) 21 then x ∷ zeros places else x ∷ (codes "e+" ++ number_text places)
printed (x ∷ y ∷ s) places =
    if leb (length (x ∷ y ∷ s) + places) 21
    then (x ∷ y ∷ s) ++ zeros places
    else x ∷ (codes "." ++ ((y ∷ s) ++ (codes "e+" ++ number_text (length (y ∷ s) + places))))

abbrev pub digits_printed : ℕ × ℕ → Text
digits_printed (digits, places) = printed (number_text digits) places

-- Past the largest double, Infinity. `size` is the number of digits.
unfoldable pub double_print : ℕ → ℕ → Text
double_print size n =
    let v = double_of (4 * size) n in
    if leb (2 ^ 1024) v
    then codes "Infinity"
    else digits_printed (fewest_digits size (4 * size + 4) v 0 v)

-- Up to 15 digits are held exactly.
unfoldable pub integer_print : Text → Text
integer_print t = if leb (length t) 15 then t else double_print (length t) (digits_number 0 t)
