-- ===== src/Utils/Cut.antt =====
-- Cutting texts, against splitting them.
use next_dbm.Base.{
  ℕ, zero, suc, ◌+◌, ◌≡◌, refl, ap, ◌∙◌, sym, true, false, not, List, [], ◌∷◌, ◌++◌, Text, join,
  split, push_unit, free_of, ◌==◌, if◌then◌else◌, Option, none, some, arith, both, length, ==_iff,
  Bool-cases, inl, inr,
}
use mathlib.Core.Option
use next_dbm.Utils.Defs.{
  last_index_of, take_units, drop_units, after_index, get_file_name, dash_index, last_dash, dash,
  cut_at, cut_string_at_dash,
}

last_index_of-free :
    (c i : ℕ) (found : Option ℕ) (s : Text) → free_of c s ≡ true → last_index_of c i found s ≡ found
unfolding last_index_of
last_index_of-free c i found [] h = refl
last_index_of-free c i found (x ∷ s) h =
    let (a, b) = both {a = not (x == c)} h in
    ground (arith, a, last_index_of-free c (suc i) found s b)

last_index_of-around :
    (c i : ℕ) (found : Option ℕ) (pre post : Text)
    → free_of c post ≡ true
    → last_index_of c i found (pre ++ (c ∷ post)) ≡ some (i + length pre)
unfolding last_index_of
last_index_of-around c i found [] post h =
    ground (arith, last_index_of-free c (suc i) (some i) post h)
last_index_of-around c i found (x ∷ pre) post h =
    last_index_of-around c (suc i) (if x == c then some i else found) pre post h
    ∙ ap some (omega arith)

drop_units-around :
    (c : ℕ) (pre post : Text) → drop_units (suc (length pre)) (pre ++ (c ∷ post)) ≡ post
drop_units-around c [] post = refl
drop_units-around c (x ∷ pre) post = drop_units-around c pre post

take_units-around : (pre post : Text) → take_units (length pre) (pre ++ post) ≡ pre
take_units-around [] post = refl
take_units-around (x ∷ pre) post = ap (x ∷◌) (take_units-around pre post)

-- The name of a file in a path is exactly what stands behind its last slash.
pub get_file_name-around :
    (pre post : Text) → free_of 47 post ≡ true → get_file_name (pre ++ (47 ∷ post)) ≡ post
unfolding get_file_name
get_file_name-around pre post h =
    ap (λ o. drop_units (after_index o) (pre ++ (47 ∷ post)))
      (last_index_of-around 47 0 none pre post h)
    ∙ ap (λ n. drop_units (suc n) (pre ++ (47 ∷ post))) (zero_plus (length pre))
    ∙ drop_units-around 47 pre post
  where
    zero_plus : (n : ℕ) → 0 + n ≡ n
    zero_plus n = omega arith

-- The first parts of a text that is split at its dashes.
abbrev pub first_parts : ℕ → List Text → List Text
first_parts zero parts = []
first_parts (suc n) [] = []
first_parts (suc n) (p ∷ parts) = p ∷ first_parts n parts

-- The index of dash number `n`, counted from 0, within a text.
abbrev dash_at : ℕ → Text → Option ℕ
dash_at n [] = none
dash_at zero (x ∷ s) =
    let rest = Option.map suc (dash_at zero s) in if x == 45 then some 0 else rest
dash_at (suc n) (x ∷ s) = Option.map suc (dash_at (if x == 45 then n else suc n) s)

shifted : (i : ℕ) (o : Option ℕ) → Option.map (suc i +◌) o ≡ Option.map (i +◌) (Option.map suc o)
shifted i none = refl
shifted i (some j) = ap some (omega arith)

dash_index-dash_at :
    (n position i : ℕ) (s : Text)
    → dash_index (suc n + position) position i s ≡ Option.map (i +◌) (dash_at n s)
unfolding dash_index
dash_index-dash_at zero position i [] = refl
dash_index-dash_at (suc n) position i [] = refl
dash_index-dash_at zero position i (x ∷ s) = elim (Bool-cases (x == 45)) [
  | inl e ↦ ground (arith, e)
  | inr e ↦ rw e (dash_index-dash_at zero position (suc i) s ∙ shifted i (dash_at zero s))
]
dash_index-dash_at (suc n) position i (x ∷ s) = elim (Bool-cases (x == 45)) [
  | inl e ↦
      let later : (suc position == suc (suc n) + position) ≡ false = ground arith in
      let moved : suc (suc n) + position ≡ suc n + suc position = omega arith in
      rw (e, later)
        (ap (λ k. dash_index k (suc position) (suc i) s) moved
          ∙ dash_index-dash_at n (suc position) (suc i) s
          ∙ shifted i (dash_at n s))
  | inr e ↦ rw e (dash_index-dash_at (suc n) position (suc i) s ∙ shifted i (dash_at (suc n) s))
]

-- A text is split into at least one part.
split-first : (c : ℕ) (s : Text) → (p : Text) × (ps : List Text) × (split c s ≡ p ∷ ps)
unfolding split
split-first c [] = ([], [], refl)
split-first c (x ∷ s) = elim (Bool-cases (x == c)) [
  | inl e ↦ ([], split c s, rw e refl)
  | inr e ↦ let (p, ps, q) = split-first c s in (x ∷ p, ps, rw (e, q) refl)
]

cut_at-suc : (x : ℕ) (s : Text) (o : Option ℕ) → cut_at (x ∷ s) (Option.map suc o) ≡ x ∷ cut_at s o
cut_at-suc x s none = refl
cut_at-suc x s (some i) = refl

join-first :
    (x : ℕ) (p : Text) (parts : List Text)
    → join (45 ∷ []) ((x ∷ p) ∷ parts) ≡ x ∷ join (45 ∷ []) (p ∷ parts)
join-first x p [] = refl
join-first x p (q ∷ parts) = refl

pushed :
    (n x : ℕ) (s : Text)
    → join (45 ∷ []) (first_parts (suc n) (push_unit x (split 45 s)))
      ≡ x ∷ join (45 ∷ []) (first_parts (suc n) (split 45 s))
pushed n x s =
    let (p, ps, q) = split-first 45 s in
    ap (λ w. join (45 ∷ []) (first_parts (suc n) (push_unit x w))) q
    ∙ join-first x p (first_parts n ps)
    ∙ sym (ap (λ w. x ∷ join (45 ∷ []) (first_parts (suc n) w)) q)

new_part :
    (n : ℕ) (s : Text)
    → join (45 ∷ []) (first_parts (suc (suc n)) ([] ∷ split 45 s))
      ≡ 45 ∷ join (45 ∷ []) (first_parts (suc n) (split 45 s))
new_part n s =
    let (p, ps, q) = split-first 45 s in
    ap (λ w. join (45 ∷ []) (first_parts (suc (suc n)) ([] ∷ w))) q
    ∙ sym (ap (λ w. 45 ∷ join (45 ∷ []) (first_parts (suc n) w)) q)

cut_at-dash_at :
    (n : ℕ) (s : Text) → cut_at s (dash_at n s) ≡ join (45 ∷ []) (first_parts (suc n) (split 45 s))
unfolding split
cut_at-dash_at zero [] = refl
cut_at-dash_at (suc n) [] = refl
cut_at-dash_at zero (x ∷ s) = elim (Bool-cases (x == 45)) [
  | inl e ↦ rw e refl
  | inr e ↦
      rw e (
        cut_at-suc x s (dash_at zero s) ∙ ap (x ∷◌) (cut_at-dash_at zero s) ∙ sym (pushed zero x s))
]
cut_at-dash_at (suc n) (x ∷ s) = elim (Bool-cases (x == 45)) [
  | inl e ↦
      let same : x ≡ 45 = (==_iff x 45).0 e in
      rw e (
        cut_at-suc x s (dash_at n s)
        ∙ ap (λ c. c ∷ cut_at s (dash_at n s)) same
        ∙ ap (45 ∷◌) (cut_at-dash_at n s)
        ∙ sym (new_part n s))
  | inr e ↦ rw e (
      cut_at-suc x s (dash_at (suc n) s)
      ∙ ap (x ∷◌) (cut_at-dash_at (suc n) s)
      ∙ sym (pushed (suc n) x s))
]

-- Cut at dash number `n`, counted from 1, a text keeps exactly its first `n` parts between dashes, joined
-- as they were: the whole text where it has no more parts.
pub cut_string_at_dash-split :
    (n : ℕ) (str : Text)
    → cut_string_at_dash str (dash (suc n)) ≡ join (45 ∷ []) (first_parts (suc n) (split 45 str))
unfolding cut_string_at_dash
cut_string_at_dash-split n str =
    let plain : suc n + 0 ≡ suc n = omega arith in
    ap (λ k. cut_at str (dash_index k 0 0 str)) (sym plain)
    ∙ ap (cut_at str) (dash_index-dash_at n 0 0 str ∙ unmoved (dash_at n str))
    ∙ cut_at-dash_at n str
  where
    unmoved : (o : Option ℕ) → Option.map (0 +◌) o ≡ o
    unmoved none = refl
    unmoved (some i) = ap some (omega arith)

-- Cut at its last dash, a text keeps exactly what stands before that dash.
pub cut_string_at_dash-around :
    (pre post : Text)
    → free_of 45 post ≡ true
    → cut_string_at_dash (pre ++ (45 ∷ post)) last_dash ≡ pre
unfolding cut_string_at_dash
cut_string_at_dash-around pre post h =
    ap (cut_at (pre ++ (45 ∷ post)))
      (last_index_of-around 45 0 none pre post h ∙ ap some (zero_plus (length pre)))
    ∙ take_units-around pre (45 ∷ post)
  where
    zero_plus : (n : ℕ) → 0 + n ≡ n
    zero_plus n = omega arith
