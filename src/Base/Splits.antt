-- ===== src/Base/Splits.antt =====
-- `split` undoes `join` where the parts are free of the separator.
use Prim.Native.Nat.{ℕ}
use mathlib.Core.Path.{◌≡◌, refl, ap, ◌∙◌}
use mathlib.Core.Bool.{Bool, true, not, ◌&&◌}
use mathlib.Core.List.{List, [], ◌∷◌, ◌++◌}
use native.Mathlib.Omega.{arith}
use next_dbm.Base.Tests.{◌==◌, ==_refl}
use next_dbm.Base.Texts.{Text, join, split}

abbrev pub free_of : ℕ → Text → Bool
free_of c [] = true
free_of c (x ∷ xs) = not (x == c) && free_of c xs

abbrev pub all_free : ℕ → List Text → Bool
all_free c [] = true
all_free c (t ∷ ts) = free_of c t && all_free c ts

pub both : {a b : Bool} → (a && b) ≡ true → (a ≡ true) × (b ≡ true)
both h = ground arith

pub free_of-append : (c : ℕ) (t u : Text) → free_of c (t ++ u) ≡ (free_of c t && free_of c u)
free_of-append c [] u = refl
free_of-append c (x ∷ t) u = ground (arith, free_of-append c t u)

pub split-append :
    (c : ℕ) (t u : Text) → free_of c t ≡ true → split c (t ++ (c ∷ u)) ≡ t ∷ split c u
unfolding split
split-append c [] u h = rw (==_refl c)
split-append c (x ∷ t) u h =
    let ih = split-append c t u (both {a = not (x == c)} h).1 in rw ih (ground arith)

pub split-free : (c : ℕ) (t : Text) → free_of c t ≡ true → split c t ≡ t ∷ []
unfolding split
split-free c [] h = refl
split-free c (x ∷ t) h =
    let ih = split-free c t (both {a = not (x == c)} h).1 in rw ih (ground arith)

pub split-join :
    (c : ℕ) (t : Text) (ts : List Text)
    → all_free c (t ∷ ts) ≡ true
    → split c (join (c ∷ []) (t ∷ ts)) ≡ t ∷ ts
split-join c t [] h = split-free c t (both h).0
split-join c t (u ∷ ts) h =
    split-append c t (join (c ∷ []) (u ∷ ts)) (both h).0 ∙ ap (t ∷◌) (split-join c u ts (both h).1)
