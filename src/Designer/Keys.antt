-- ===== src/Designer/Keys.antt =====
-- The keys of the rows: compared, looked up, and distinct.
use next_dbm.Base.{
  ℕ, zero, suc, ◌≡◌, refl, sym, ap, subst, ◌∙◌, ◌↔◌, true, false, ◌||◌, List, [], ◌∷◌, ◌++◌,
  text_eq_iff, ==_iff, length, some, Bool-cases, inl, inr, arith,
}
use mathlib.Core.Bool.{Bool-set}
use mathlib.Core.HLevel.{×_prop, Unit-prop}
use mathlib.Core.List.{Permᴰ}
use next_dbm.Designer.Defs.{
  Entries, Key, undefined, stamp, string, key_eq, Row, find_index, splice_merged, other_rows,
  has_key,
}

pub key_eq_iff : (a b : Key) → (key_eq a b ≡ true) ↔ (a ≡ b)
key_eq_iff undefined undefined = ground arith
key_eq_iff undefined (stamp b) = ground arith
key_eq_iff undefined (string b) = ground arith
key_eq_iff (stamp a) undefined = ground arith
key_eq_iff (stamp a) (stamp b) = ground (arith, ==_iff a b)
key_eq_iff (stamp a) (string b) = ground arith
key_eq_iff (string a) undefined = ground arith
key_eq_iff (string a) (stamp b) = ground arith
key_eq_iff (string a) (string b) = ground (arith, text_eq_iff a b)

pub key_eq_refl : (a : Key) → key_eq a a ≡ true
key_eq_refl a = (key_eq_iff a a).1 refl

pub key_eq_comm : (a b : Key) → key_eq a b ≡ key_eq b a
key_eq_comm a b = elim (Bool-cases (key_eq a b)) [
  | inl e ↦ e ∙ sym ((key_eq_iff b a).1 (sym ((key_eq_iff a b).0 e)))
  | inr e ↦ ground (arith, key_eq_iff a b, key_eq_iff b a)
]

abbrev pub Distinct : List Row → Type 0
Distinct [] = Unit {0}
Distinct (item ∷ rows) = (has_key item.key rows ≡ false) × Distinct rows

pub has_key-append :
    (key : Key) (xs ys : List Row) → has_key key (xs ++ ys) ≡ (has_key key xs || has_key key ys)
has_key-append key [] ys = refl
has_key-append key (x ∷ xs) ys = ground (arith, has_key-append key xs ys)

pub Distinct-snoc :
    (rows : List Row) (item : Row)
    → has_key item.key rows ≡ false
    → Distinct rows
    → Distinct (rows ++ (item ∷ []))
Distinct-snoc [] item h d = (refl, tt)
Distinct-snoc (x ∷ rows) item h d = (
  ground (arith, has_key-append x.key rows (item ∷ []), key_eq_comm x.key item.key),
  Distinct-snoc rows item (ground arith) d.1,
)

pub has_key-other_rows :
    (key k : Key) (rows : List Row)
    → has_key k rows ≡ false
    → has_key k (other_rows key rows) ≡ false
has_key-other_rows key k [] h = refl
has_key-other_rows key k (x ∷ rows) h = ground (arith, has_key-other_rows key k rows)

pub has_key-other_rows_self :
    (key : Key) (rows : List Row) → has_key key (other_rows key rows) ≡ false
has_key-other_rows_self key [] = refl
has_key-other_rows_self key (x ∷ rows) = ground (arith, has_key-other_rows_self key rows)

pub Distinct-other_rows :
    (key : Key) (rows : List Row) → Distinct rows → Distinct (other_rows key rows)
Distinct-other_rows key [] d = tt
Distinct-other_rows key (x ∷ rows) d = elim (Bool-cases (key_eq key x.key)) [
  | inl e ↦ rw (e, other_rows) (Distinct-other_rows key rows d.1)
  | inr e ↦
      rw (e, other_rows) (has_key-other_rows key x.key rows d.0, Distinct-other_rows key rows d.1)
]

-- Values merged into a row leave the keys as they are.
pub has_key-splice_merged :
    (k : Key) (i : ℕ) (row : Entries) (rows : List Row)
    → has_key k (splice_merged i row rows) ≡ has_key k rows
has_key-splice_merged k i row [] = refl
has_key-splice_merged k zero row (x ∷ rows) = refl
has_key-splice_merged k (suc i) row (x ∷ rows) = ground (arith, has_key-splice_merged k i row rows)

pub Distinct-splice_merged :
    (i : ℕ) (row : Entries) (rows : List Row) → Distinct rows → Distinct (splice_merged i row rows)
Distinct-splice_merged i row [] d = tt
Distinct-splice_merged zero row (x ∷ rows) d = d
Distinct-splice_merged (suc i) row (x ∷ rows) d =
    (has_key-splice_merged x.key i row rows ∙ d.0, Distinct-splice_merged i row rows d.1)

pub length-splice_merged :
    (i : ℕ) (row : Entries) (rows : List Row) → length (splice_merged i row rows) ≡ length rows
length-splice_merged i row [] = refl
length-splice_merged zero row (x ∷ rows) = refl
length-splice_merged (suc i) row (x ∷ rows) = ap suc (length-splice_merged i row rows)

-- A row's key is found where some row has it.
pub find_index-has_key :
    (key : Key) (rows : List Row)
    → has_key key rows ≡ true
    → (i : ℕ) × (find_index key rows ≡ some i)
find_index-has_key key [] h = absurd (cc)
find_index-has_key key (x ∷ rows) h = elim (Bool-cases (key_eq key x.key)) [
  | inl e ↦ (0, rw (e, find_index))
  | inr e ↦
      let (i, found) = find_index-has_key key rows (ground arith) in
      (suc i, rw (e, find_index, found))
]

-- In another order.
pub has_key-perm : (key : Key) {xs ys : List Row} → Permᴰ xs ys → has_key key xs ≡ has_key key ys
has_key-perm key Permᴰ.nil = refl
has_key-perm key (Permᴰ.cons e d) = ground (arith, ap (λ (t : Row). t.key) e, has_key-perm key d)
has_key-perm key (Permᴰ.swap e f) =
    ground (arith, ap (λ (t : Row). t.key) e, ap (λ (t : Row). t.key) f)
has_key-perm key (Permᴰ.trans d d') = has_key-perm key d ∙ has_key-perm key d'

pub Distinct-perm : {xs ys : List Row} → Permᴰ xs ys → Distinct xs → Distinct ys
Distinct-perm Permᴰ.nil u = u
Distinct-perm (Permᴰ.cons {b = b} {l₁ = l} e d) u = (
  sym (has_key-perm b.key d) ∙ subst (λ (t : Row). has_key t.key l ≡ false) e u.0,
  Distinct-perm d u.1,
)
Distinct-perm (Permᴰ.swap {a = a} {b = b} {b' = b'} {l = l} e f) u =
    subst (λ t. Distinct (t ∷ b' ∷ l)) f
      (subst (λ t. Distinct (b ∷ t ∷ l)) e
        (ground (arith, key_eq_comm a.key b.key), (ground arith, u.1.1)))
Distinct-perm (Permᴰ.trans d d') u = Distinct-perm d' (Distinct-perm d u)

pub length-perm : {xs ys : List Row} → Permᴰ xs ys → length xs ≡ length ys
length-perm Permᴰ.nil = refl
length-perm (Permᴰ.cons e d) = ap suc (length-perm d)
length-perm (Permᴰ.swap e f) = refl
length-perm (Permᴰ.trans d d') = length-perm d ∙ length-perm d'

pub Distinct-prop : (rows : List Row) → IsProp (Distinct rows)
Distinct-prop [] = Unit-prop
Distinct-prop (t ∷ rows) = ×_prop (Bool-set _ _) (Distinct-prop rows)
