-- ===== src/Mysql/RowReader.antt =====
-- How MySQL reads several rows of values.
use next_dbm.Base.{
  ℕ, zero, suc, ◌≡◌, refl, Bool, true, false, ◌&&◌, List, [], ◌∷◌, ◌++◌, map, Text, codes, join,
  ◌==◌, if◌then◌else◌, Option, none, some, all_free, both, append_assoc, and_then, length,
}
use next_dbm.Mysql.Defs.{tuple_text}
use next_dbm.Mysql.Reader.{Place, reads, quote_text, reads-tuple_text}

-- A number of rows, with what stands between two of them.
abbrev pub skip_comma : Text → Text
skip_comma [] = []
skip_comma (x ∷ []) = x ∷ []
skip_comma (x ∷ y ∷ s) = if x == 44 && y == 10 then s else x ∷ y ∷ s

abbrev pub Rows : Type 0
Rows = Option (List (List Text) × Text)

abbrev pub prepend_row : List Text → Rows → Rows
prepend_row vs none = none
prepend_row vs (some (rows, rest)) = some (vs ∷ rows, rest)

unfoldable pub read_rows : ℕ → Text → Rows
read_rows zero s = some ([], s)
read_rows (suc n) s =
    and_then (reads Place.opening s) (λ (vs, rest). prepend_row vs (read_rows n (skip_comma rest)))

-- A row with at least one value, and no backslash in any.
abbrev pub readable : List Text → Bool
readable [] = false
readable (t ∷ ts) = all_free 92 (t ∷ ts)

abbrev pub all_readable : List (List Text) → Bool
all_readable [] = true
all_readable (row ∷ rows) = readable row && all_readable rows

reads-readable :
    (row : List Text) (rest : Text)
    → readable row ≡ true
    → reads Place.opening (tuple_text (map quote_text row) ++ rest) ≡ some (row, rest)
reads-readable [] rest h = cc
reads-readable (t ∷ ts) rest h = reads-tuple_text t ts rest h

abbrev pub tuple_of : List Text → Text
tuple_of row = tuple_text (map quote_text row)

pub read_rows-join :
    (rows : List (List Text))
    → all_readable rows ≡ true
    → read_rows (length rows) (join (codes ",\n") (map tuple_of rows) ++ codes ";")
      ≡ some (rows, codes ";")
unfolding read_rows
read_rows-join [] h = refl
read_rows-join (row ∷ []) h = rw (reads-readable row (codes ";") (both h).0) refl
read_rows-join (row ∷ other ∷ rows) h =
    let rest = join (codes ",\n") (map tuple_of (other ∷ rows)) in
    rw
      (
        append_assoc (tuple_of row) (codes ",\n" ++ rest) (codes ";"),
        reads-readable row (44 ∷ 10 ∷ (rest ++ codes ";")) (both h).0,
        read_rows-join (other ∷ rows) (both {a = readable row} h).1,
      )
      refl
