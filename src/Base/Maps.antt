-- ===== src/Base/Maps.antt =====
-- A `Map` whose keys are texts: an association list in which the first entry of a key counts.
use mathlib.Core.Path.{◌≡◌}
use mathlib.Core.Bool.{Bool, true, false}
use mathlib.Core.List.{List, [], ◌∷◌}
use mathlib.Core.Option.{Option, none, some}
use native.Mathlib.Omega.{arith}
use next_dbm.Base.Tests.{if◌then◌else◌}
use next_dbm.Base.Texts.{Text, text_eq, text_eq_iff}

module _ {ℓ} {A : Type ℓ} where
  -- `map.get(key)`
  abbrev pub get_key : Text → List (Text × A) → Option A
  get_key key [] = none
  get_key key ((k, v) ∷ m) = if text_eq k key then some v else get_key key m

  -- `map.set(key, v)`
  abbrev pub set_key : Text → A → List (Text × A) → List (Text × A)
  set_key key v m = (key, v) ∷ m

  -- `map.delete(key)`
  abbrev pub delete_key : Text → List (Text × A) → List (Text × A)
  delete_key key [] = []
  delete_key key ((k, v) ∷ m) =
      let rest = delete_key key m in if text_eq k key then rest else (k, v) ∷ rest

  abbrev pub some_value : Option A → Bool
  some_value none = false
  some_value (some _) = true

  pub get_key-delete_key :
      (k key : Text) (m : List (Text × A))
      → get_key k (delete_key key m) ≡ (if text_eq key k then none else get_key k m)
  get_key-delete_key k key [] = ground arith
  get_key-delete_key k key ((k', v) ∷ m) =
      ground
        (arith, get_key-delete_key k key m, text_eq_iff k' key, text_eq_iff k' k, text_eq_iff key k)
