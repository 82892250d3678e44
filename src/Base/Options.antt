-- ===== src/Base/Options.antt =====
-- Chains of fallible calls, and one over a list: the first failure is the result's.
use mathlib.Core.List.{List, [], ◌∷◌}
use mathlib.Core.Option.{Option, none, some}
use mathlib.Core.Option
use mathlib.Core.Path.{◌≡◌, subst}

abbrev pub and_then {ℓ κ} : {A : Type ℓ} {B : Type κ} → Option A → (A → Option B) → Option B
and_then none f = none
and_then (some a) f = f a

abbrev pub cons_option {ℓ} : {A : Type ℓ} → Option A → Option (List A) → Option (List A)
cons_option none r = none
cons_option (some a) r = Option.map (a ∷◌) r

abbrev pub traverse {ℓ κ} : {A : Type ℓ} {B : Type κ} → (A → Option B) → List A → Option (List B)
traverse f [] = some []
traverse f (x ∷ xs) = cons_option (f x) (traverse f xs)

-- What holds of the result, if there is one: rules for a test, a map, and an equation.
abbrev pub Ensures {ℓ κ} : {A : Type ℓ} → (A → Type κ) → Option A → Type κ
Ensures P none = Unit
Ensures P (some a) = P a

pub of_Ensures {ℓ κ} :
    {A : Type ℓ} (P : A → Type κ) {o : Option A} {a : A} → o ≡ some a → Ensures P o → P a
of_Ensures P e h = subst (Ensures P) e h

pub Ensures-map {ℓ κ ι ν} :
    {A : Type ℓ} {B : Type κ} (P : A → Type ι) (Q : B → Type ν) (f : A → B) (o : Option A)
    → ((a : A) → P a → Q (f a))
    → Ensures P o
    → Ensures Q (Option.map f o)
Ensures-map P Q f none h x = tt
Ensures-map P Q f (some a) h x = h a x

pub Ensures-trivial {ℓ} : {A : Type ℓ} (o : Option A) → Ensures (λ _. Unit {0}) o
Ensures-trivial none = tt
Ensures-trivial (some a) = tt
