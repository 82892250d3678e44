-- ===== src/Mysql/Insert.antt =====
-- What `insertRow` writes, read back.
use next_dbm.Base.{
  ℕ, ◌≤◌, ◌≡◌, refl, Bool, true, false, not, ◌&&◌, List, [], ◌∷◌, ◌++◌, map, Text, codes, join,
  Option, none, some, arith, and_then, traverse, length, both,
}
use next_dbm.Mysql.Defs.{
  Value, Column, RowParams, int_or_bit, primary_key, column_type, quoted, insert_values,
  filtered_row, insert_tuple, insert_head, insert_row, insert_typed,
}
use next_dbm.Mysql.Reader.{quote_text}
use next_dbm.Mysql.RowReader.{tuple_of, read_rows, all_readable, read_rows-join}

abbrev text_type : Option Text → Bool
text_type none = false
text_type (some type) = not (int_or_bit type)

-- Each column is known and takes text.
abbrev pub text_columns : List Column → List Text → Bool
text_columns struct [] = true
text_columns struct (c ∷ columns) = text_type (column_type c struct) && text_columns struct columns

-- The rows hold these texts, and none is wider than the columns.
abbrev pub Holds : ℕ → List (List (Text × Value)) → List (List Text) → Type 0
Holds width [] [] = Unit
Holds width [] (_ ∷ _) = ⊥
Holds width (_ ∷ _) [] = ⊥
Holds width (row ∷ rows) (ts ∷ texts) =
    (filtered_row row ≡ map Value.text ts) × (length ts ≤ width) × Holds width rows texts

insert_typed-text :
    (o : Option Text) (t : Text)
    → text_type o ≡ true
    → and_then o (insert_typed (Value.text t)) ≡ some (quote_text t)
unfolding quoted
insert_typed-text none t h = cc
insert_typed-text (some type) t h = ground arith

insert_values-text :
    (struct : List Column) (columns ts : List Text)
    → text_columns struct columns ≡ true
    → length ts ≤ length columns
    → insert_values struct columns (map Value.text ts) ≡ some (map quote_text ts)
unfolding insert_values
insert_values-text struct columns [] h fits = refl
insert_values-text struct [] (t ∷ ts) h fits = absurd (omega arith)
insert_values-text struct (c ∷ columns) (t ∷ ts) h fits =
    let typed = insert_typed-text (column_type c struct) t (both h).0 in
    let rest =
      insert_values-text struct columns ts (both {a = text_type (column_type c struct)} h).1
        (omega arith) in
    rw (typed, rest) refl

insert_tuples-text :
    (p : RowParams) (rows : List (List (Text × Value))) (texts : List (List Text))
    → text_columns p.table_struct p.columns ≡ true
    → Holds (length p.columns) rows texts
    → traverse (insert_tuple p) rows ≡ some (map tuple_of texts)
unfolding insert_tuple
insert_tuples-text p [] [] h k = refl
insert_tuples-text p [] (_ ∷ _) h k = absurd k
insert_tuples-text p (_ ∷ _) [] h k = absurd k
insert_tuples-text p (row ∷ rows) (ts ∷ texts) h (e, fits, k) =
    rw
      (
        e,
        insert_values-text p.table_struct p.columns ts h fits,
        insert_tuples-text p rows texts h k,
      )
      refl

-- Rows of one or more texts without a backslash, none wider than the columns, for text columns that
-- are all known, in a table with a primary key: `insertRow` does not throw, and MySQL reads back exactly
-- the rows from behind VALUES, up to the final semicolon, whatever quotes the texts hold.
pub insert_row-read_rows :
    (p : RowParams) (key : Column) (rows : List (List (Text × Value))) (texts : List (List Text))
    → primary_key p.table_struct ≡ some key
    → text_columns p.table_struct p.columns ≡ true
    → Holds (length p.columns) rows texts
    → all_readable texts ≡ true
    → (body : Text) × (insert_row p rows ≡ some (insert_head p ++ body))
      × (read_rows (length texts) body ≡ some (texts, codes ";"))
unfolding insert_row
insert_row-read_rows p key rows texts k h holds plain = (
  join (codes ",\n") (map tuple_of texts) ++ codes ";",
  rw (k, insert_tuples-text p rows texts h holds) refl,
  read_rows-join texts plain,
)
