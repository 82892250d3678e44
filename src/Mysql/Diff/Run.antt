-- ===== src/Mysql/Diff/Run.antt =====
-- The steps of an ALTER TABLE, one by one: a column is added only if it is not there, changed or dropped
-- only if it is.
use next_dbm.Base.{
  ◌≡◌, refl, ap, ◌∙◌, Bool, true, false, List, [], ◌∷◌, ◌++◌, Text, text_eq, text_eq_iff,
  if◌then◌else◌, Option, none, some, and_then, arith, sym, inl, inr, Option-cases, Bool-cases,
}
use next_dbm.Mysql.Defs.{Ddl, Alter, get, put}

abbrev pub is_some : Option Text → Bool
is_some none = false
is_some (some _) = true

abbrev pub has : Text → Ddl → Bool
has key d = is_some (get key d)

unfoldable pub remove : Text → Ddl → Ddl
remove key [] = []
remove key ((k, v) ∷ d) = let rest = remove key d in if text_eq k key then rest else (k, v) ∷ rest

abbrev pub run_one : Alter → Ddl → Option Ddl
run_one (Alter.add key type) d = if has key d then none else some (put key type d)
run_one (Alter.modify key type) d = if has key d then some (put key type d) else none
run_one (Alter.drop key) d = if has key d then some (remove key d) else none

abbrev pub run : List Alter → Ddl → Option Ddl
run [] d = some d
run (a ∷ rest) d = and_then (run_one a d) (run rest)

pub get-put :
    (k key v : Text) (d : Ddl) → get k (put key v d) ≡ (if text_eq key k then some v else get k d)
unfolding get put
get-put k key v [] = refl
get-put k key v ((k', v') ∷ d) =
    ground (arith, get-put k key v d, text_eq_iff k' key, text_eq_iff k' k, text_eq_iff key k)

pub get-remove :
    (k key : Text) (d : Ddl) → get k (remove key d) ≡ (if text_eq key k then none else get k d)
unfolding get remove
get-remove k key [] = ground arith
get-remove k key ((k', v') ∷ d) =
    ground (arith, get-remove k key d, text_eq_iff k' key, text_eq_iff k' k, text_eq_iff key k)

pub run-append :
    (first second : List Alter) (d d' : Ddl)
    → run first d ≡ some d'
    → run (first ++ second) d ≡ run second d'
run-append [] second d d' h = ap (λ o. and_then o (run second)) h
run-append (a ∷ first) second d d' h =
    let from = λ (as' : List Alter). λ (o : Option Ddl). and_then o (run as') in
    elim (Option-cases (run_one a d)) [
      | inl e ↦ cc (sym (ap (from first) e) ∙ h)
      | inr (q, e) ↦
          ap (from (first ++ second)) e ∙ run-append first second q d' (sym (ap (from first) e) ∙ h)
    ]

-- Each key once.
abbrev pub Unique : Ddl → Type 0
Unique [] = Unit
Unique ((k, _) ∷ d) = (get k d ≡ none) × Unique d

pub unlisted :
    (key k : Text) (rest : Ddl) → get key rest ≡ none → has k rest ≡ true → text_eq key k ≡ false
unlisted key k rest new h = elim (Bool-cases (text_eq key k)) [
  | inl e ↦ cc (ap (λ x. has x rest) ((text_eq_iff key k).0 e), ap is_some new, h)
  | inr e ↦ e
]
