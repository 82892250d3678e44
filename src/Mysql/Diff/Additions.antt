-- ===== src/Mysql/Diff/Additions.antt =====
-- ADD and MODIFY bring a table to the modified columns.
use next_dbm.Base.{
  ◌≡◌, refl, ap, ◌∙◌, Bool, true, List, [], ◌∷◌, ◌++◌, ◌&&◌, both, Text, text_eq, text_eq_iff,
  has_text, if◌then◌else◌, Option, none, some, arith, Bool-cases, text_eq_refl, inl, inr, sym,
}
use next_dbm.Mysql.Defs.{Ddl, Alter, get, put, lacks, differs, is_table, additions}
use next_dbm.Mysql.Diff.Run.{run, get-put, run-append, Unique, unlisted, is_some}

-- What is found in a table that takes over `rest`, but for the key `table`.
abbrev pub over : Option Text → Option Text → Option Text
over none old = old
over (some t) old = some t

abbrev pub Overlaid : Ddl → Ddl → Ddl → Type 0
Overlaid rest d d' =
    (k : Text) → get k d' ≡ (if is_table k then get k d else over (get k rest) (get k d))

-- The steps for one column.
abbrev pub addition : Option Text → Text → Text → List Alter
addition old key type =
    if is_table key
    then []
    else if lacks old
    then Alter.add key type ∷ []
    else if differs old type
    then Alter.modify key type ∷ []
    else []

additions-one :
    (original : Ddl) (key type : Text) (rest : Ddl)
    → additions original ((key, type) ∷ rest)
      ≡ addition (get key original) key type ++ additions original rest
unfolding additions
additions-one original key type rest = ground arith

-- No column has an empty type.
abbrev pub Typed : Ddl → Type 0
Typed d = (k t : Text) → get k d ≡ some t → has_text t ≡ true

found-same :
    (key s type : Text) (d : Ddl)
    → get key d ≡ some s
    → text_eq s type ≡ true
    → (k : Text) → get k d ≡ (if text_eq key k then some type else get k d)
found-same key s type d e same k = elim (Bool-cases (text_eq key k)) [
  | inl h ↦ rw h (
      ap (λ x. get x d) (sym ((text_eq_iff key k).0 h)) ∙ e ∙ ap some ((text_eq_iff s type).0 same))
  | inr h ↦ rw h refl
]

run-addition :
    (old : Option Text) (key type : Text) (d : Ddl)
    → ((t : Text) → old ≡ some t → has_text t ≡ true)
    → get key d ≡ old
    → (d' : Ddl) × (run (addition old key type) d ≡ some d')
      × ((k : Text)
          → get k d'
            ≡ (if is_table key then get k d else if text_eq key k then some type else get k d))
run-addition none key type d typed e = elim (Bool-cases (is_table key)) [
  | inl t ↦ (d, rw t refl, λ k. rw t refl)
  | inr t ↦ (put key type d, rw (t, e) refl, λ k. rw t (get-put k key type d))
]
run-addition (some s) key type d typed e = elim (Bool-cases (is_table key)) [
  | inl t ↦ (d, rw t refl, λ k. rw t refl)
  | inr t ↦ elim (Bool-cases (text_eq s type)) [
    | inl same ↦ (d, ground (arith, typed s refl), λ k. rw t (found-same key s type d e same k))
    | inr other ↦ (put key type d, ground (arith, typed s refl), λ k. rw t (get-put k key type d))
  ]
]

abbrev Changed : Text → Text → Ddl → Ddl → Type 0
Changed key type d d1 =
    (k : Text)
    → get k d1 ≡ (if is_table key then get k d else if text_eq key k then some type else get k d)

Overlaid-cons :
    (key type : Text) (rest d d1 d2 : Ddl)
    → get key rest ≡ none
    → Changed key type d d1
    → Overlaid rest d1 d2
    → Overlaid ((key, type) ∷ rest) d d2
unfolding get
Overlaid-cons key type rest d d1 d2 new at1 at2 k = elim (Bool-cases (text_eq key k)) [
  | inl e ↦
      let q = (text_eq_iff key k).0 e in
      let gone : get k rest ≡ none = ap (λ x. get x rest) (sym q) ∙ new in
      let table : is_table key ≡ is_table k = ap is_table q in
      ground (arith, e, gone, table, at1 k, at2 k)
  | inr e ↦ ground (arith, e, at1 k, at2 k)
]

-- The steps of ADD and MODIFY are all carried out: the columns of `rest` are then as they say, and
-- all others as they were.
pub run-additions :
    (original : Ddl)
    → Typed original
    → (rest d : Ddl) → Unique rest
    → ((k t : Text) → get k rest ≡ some t → get k d ≡ get k original)
    → (d' : Ddl) × (run (additions original rest) d ≡ some d') × Overlaid rest d d'
unfolding additions get
run-additions original typed [] d u agree = (d, refl, λ k. ground arith)
run-additions original typed ((key, type) ∷ rest) d (new, u) agree =
    let here : get key d ≡ get key original =
      agree key type (ap (λ b. if b then some type else get key rest) (text_eq_refl key)) in
    let (d1, one, at1) = run-addition (get key original) key type d (typed key) here in
    let agree1 : (k t : Text) → get k rest ≡ some t → get k d1 ≡ get k original = λ k t h.
      let other = unlisted key k rest new (ap is_some h) in
      let old = agree k t (ap (λ b. if b then some type else get k rest) other ∙ h) in
      ground (arith, other, old, at1 k) in
    let (d2, all, at2) = run-additions original typed rest d1 u agree1 in
    (
      d2,
      ap (λ as'. run as' d) (additions-one original key type rest)
          ∙ run-append (addition (get key original) key type) (additions original rest) d d1 one
          ∙ all,
      Overlaid-cons key type rest d d1 d2 new at1 at2,
    )

abbrev pub all_typed : Ddl → Bool
all_typed [] = true
all_typed ((_, t) ∷ d) = has_text t && all_typed d

-- A check that runs.
pub Typed-all_typed : (d : Ddl) → all_typed d ≡ true → Typed d
unfolding get
Typed-all_typed [] h k t e = cc
Typed-all_typed ((key, s) ∷ d) h k t e =
    ground (arith, Typed-all_typed d (both {a = has_text s} h).1 k t)
