-- ===== src/Mysql/Diff/Removals.antt =====
-- DROP COLUMN takes out the columns that the modified table lacks.
use next_dbm.Base.{
  ◌≡◌, refl, ap, ◌∙◌, Bool, true, false, not, ◌&&◌, List, [], ◌∷◌, ◌++◌, Text, text_eq, text_eq_iff,
  if◌then◌else◌, none, some, arith, Bool-cases, text_eq_refl, inl, inr, sym,
}
use next_dbm.Mysql.Defs.{Ddl, Alter, get, lacks, is_table, removals}
use next_dbm.Mysql.Diff.Run.{run, remove, get-remove, run-append, Unique, has, is_some, unlisted}

-- Whether the loop drops a column.
abbrev pub drops : Ddl → Text → Bool
drops modified k = not (is_table k) && lacks (get k modified)

abbrev pub Reduced : Ddl → Ddl → Ddl → Ddl → Type 0
Reduced modified rest d d' =
    (k : Text) → get k d' ≡ (if has k rest && drops modified k then none else get k d)

abbrev removal : Bool → Text → List Alter
removal b key = if b then Alter.drop key ∷ [] else []

removals-one :
    (modified : Ddl) (key type : Text) (rest : Ddl)
    → removals modified ((key, type) ∷ rest)
      ≡ removal (drops modified key) key ++ removals modified rest
unfolding removals
removals-one modified key type rest = ground arith

run-removal :
    (b : Bool) (key : Text) (d : Ddl)
    → (b ≡ true → has key d ≡ true)
    → (d' : Ddl) × (run (removal b key) d ≡ some d')
      × ((k : Text) → get k d' ≡ (if b && text_eq key k then none else get k d))
run-removal true key d there = (remove key d, rw (there refl) refl, λ k. get-remove k key d)
run-removal false key d there = (d, refl, λ k. refl)

Reduced-cons :
    (modified : Ddl) (key type : Text) (rest d d1 d2 : Ddl)
    → get key rest ≡ none
    → ((k : Text) → get k d1 ≡ (if drops modified key && text_eq key k then none else get k d))
    → Reduced modified rest d1 d2
    → Reduced modified ((key, type) ∷ rest) d d2
unfolding get
Reduced-cons modified key type rest d d1 d2 new at1 at2 k = elim (Bool-cases (text_eq key k)) [
  | inl e ↦
      let q = (text_eq_iff key k).0 e in
      let gone : get k rest ≡ none = ap (λ x. get x rest) (sym q) ∙ new in
      let same : drops modified key ≡ drops modified k = ap (drops modified) q in
      ground (arith, e, gone, same, at1 k, at2 k)
  | inr e ↦ ground (arith, e, at1 k, at2 k)
]

-- The steps of DROP COLUMN are all carried out.
pub run-removals :
    (modified rest d : Ddl)
    → Unique rest
    → ((k : Text) → has k rest ≡ true → drops modified k ≡ true → has k d ≡ true)
    → (d' : Ddl) × (run (removals modified rest) d ≡ some d') × Reduced modified rest d d'
unfolding removals get
run-removals modified [] d u there = (d, refl, λ k. refl)
run-removals modified ((key, type) ∷ rest) d (new, u) there =
    let (d1, one, at1) =
      run-removal (drops modified key) key d (
        there key (ap (λ b. is_some (if b then some type else get key rest)) (text_eq_refl key))) in
    let there1 : (k : Text) → has k rest ≡ true → drops modified k ≡ true → has k d1 ≡ true =
      λ k h b.
        let other = unlisted key k rest new h in
        let old = there k (ap (λ c. is_some (if c then some type else get k rest)) other ∙ h) b in
        ap is_some (at1 k) ∙ ground (arith, other, old) in
    let (d2, all, at2) = run-removals modified rest d1 u there1 in
    (
      d2,
      ap (λ as'. run as' d) (removals-one modified key type rest)
          ∙ run-append (removal (drops modified key) key) (removals modified rest) d d1 one
          ∙ all,
      Reduced-cons modified key type rest d d1 d2 new at1 at2,
    )
