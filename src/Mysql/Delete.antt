-- ===== src/Mysql/Delete.antt =====
-- Which rows `deleteRow` names.
use next_dbm.Base.{
  ℕ, suc, ◌+◌, ◌≡◌, refl, ap, ◌∙◌, Bool, true, false, not, ◌&&◌, ◌||◌, List, [], ◌∷◌, ◌++◌, Text,
  codes, join, text_eq, text_eq_refl, ◌==◌, if◌then◌else◌, some, arith, leb, length, both,
}
use next_dbm.Mysql.Defs.{
  Value, Column, RowParams, int_or_bit, primary_key, key_column, all_digits, number_print,
  integer_print, number_cell, row_cell, where_keys, delete_head, delete_row,
}

-- A natural number of at most 15 digits as JavaScript writes it.
abbrev pub decimal : Text → Bool
decimal [] = false
decimal (x ∷ []) = all_digits (x ∷ [])
decimal (x ∷ y ∷ s) = not (x == 48) && (all_digits (x ∷ y ∷ s) && leb (length (x ∷ y ∷ s)) 15)

number_print-decimal : (t : Text) → decimal t ≡ true → number_print t ≡ t
unfolding number_print integer_print
number_print-decimal [] h = cc
number_print-decimal (x ∷ []) h = rw h refl
number_print-decimal (x ∷ y ∷ s) h =
    let (a, bc) = both {a = not (x == 48)} h in
    let (b, c) = both {a = all_digits (x ∷ y ∷ s)} bc in ground (arith, a, b, c)

-- The rows have these texts in the column.
abbrev pub Keys : ℕ → List (List Value) → List Text → Type 0
Keys i [] [] = Unit
Keys i [] (_ ∷ _) = ⊥
Keys i (_ ∷ _) [] = ⊥
Keys i (row ∷ rows) (k ∷ ks) =
    (row_cell i row ≡ some (Value.text k)) × (decimal k ≡ true) × Keys i rows ks

where_keys-int :
    (key : Column) (i : ℕ) (rows : List (List Value)) (ks : List Text)
    → int_or_bit key.type ≡ true
    → Keys i rows ks
    → where_keys key i rows ≡ ks
unfolding where_keys number_cell
where_keys-int key i [] [] h k = refl
where_keys-int key i [] (_ ∷ _) h k = absurd k
where_keys-int key i (_ ∷ _) [] h k = absurd k
where_keys-int key i (row ∷ rows) (t ∷ ks) h (e, d, k) =
    rw (h, e, number_print-decimal t d, where_keys-int key i rows ks h k) refl

where_keys-other :
    (key : Column) (i : ℕ) (rows : List (List Value))
    → int_or_bit key.type ≡ false
    → where_keys key i rows ≡ []
unfolding where_keys
where_keys-other key i [] h = refl
where_keys-other key i (row ∷ rows) h = rw (h, where_keys-other key i rows h) refl

abbrev pub has_name : Text → List Text → Bool
has_name name [] = false
has_name name (c ∷ cs) = text_eq c name || has_name name cs

key_column-absent :
    (name : Text) (i found : ℕ) (cs : List Text)
    → has_name name cs ≡ false
    → key_column name i found cs ≡ found
unfolding key_column
key_column-absent name i found [] h = refl
key_column-absent name i found (c ∷ cs) h = ground (arith, key_column-absent name (suc i) found cs)

key_column-around :
    (name : Text) (i found : ℕ) (pre post : List Text)
    → has_name name post ≡ false
    → key_column name i found (pre ++ (name ∷ post)) ≡ i + length pre
unfolding key_column
key_column-around name i found [] post h =
    ap (λ b. key_column name (suc i) (if b then i else found) post) (text_eq_refl name)
    ∙ key_column-absent name (suc i) i post h
    ∙ omega arith
key_column-around name i found (c ∷ pre) post h =
    key_column-around name (suc i) (if text_eq c name then i else found) pre post h ∙ omega arith

-- Where the primary key has an integer type, `deleteRow` names exactly the keys of the rows that it
-- is given, in their order, as long as these are natural numbers of at most 15 digits in decimal. The key's column is the
-- last of its name.
pub delete_row-Keys :
    (p : RowParams) (key : Column) (pre post : List Text) (rows : List (List Value))
    (ks : List Text)
    → primary_key p.table_struct ≡ some key
    → int_or_bit key.type ≡ true
    → p.columns ≡ pre ++ (key.field ∷ post)
    → has_name key.field post ≡ false
    → Keys (length pre) rows ks
    → delete_row p rows ≡ delete_head p key ++ (join (codes ", ") ks ++ codes ");")
unfolding delete_row
delete_row-Keys p key pre post rows ks found int columns last k =
    let at : key_column key.field 0 0 p.columns ≡ length pre =
      ap (key_column key.field 0 0) columns
      ∙ key_column-around key.field 0 0 pre post last
      ∙ omega arith in
    rw (found, at, where_keys-int key (length pre) rows ks int k) refl

-- Where the primary key has any other type, the statement names no row at all, whichever rows it is
-- given: the list of IN is empty, which MySQL refuses.
pub delete_row-other :
    (p : RowParams) (key : Column) (rows : List (List Value))
    → primary_key p.table_struct ≡ some key
    → int_or_bit key.type ≡ false
    → delete_row p rows ≡ delete_head p key ++ codes ");"
unfolding delete_row
delete_row-other p key rows found other =
    rw (found, where_keys-other key (key_column key.field 0 0 p.columns) rows other) refl
