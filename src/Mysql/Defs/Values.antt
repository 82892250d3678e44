-- ===== src/Mysql/Defs/Values.antt =====
-- Cells, columns and the conversions of deleteRow, insertRow and updateRow.
use next_dbm.Base.{
  ℕ, suc, Bool, true, false, ◌&&◌, ◌||◌, List, [], ◌∷◌, ◌++◌, Text, codes, text_eq, has_text, leb,
  ◌==◌, if◌then◌else◌, Option, none, some, get_elem?,
}
use next_dbm.Mysql.Defs.Doubles.{integer_print}

-- A cell of the table that is edited.
pub data Value : Type 0 where
  null : Value
  text : Text → Value

-- A row of `tableStruct`: the places 0, 1 and 3 of the answer to DESCRIBE.
pub record Column : Type 0 where
  pub field : Text
  pub type : Text
  pub key : Text

abbrev pub starts_with : Text → Text → Bool
starts_with [] s = true
starts_with (x ∷ t) [] = false
starts_with (x ∷ t) (y ∷ s) = x == y && starts_with t s

-- `s.includes(t)`
abbrev pub includes : Text → Text → Bool
includes t [] = starts_with t []
includes t (x ∷ s) = starts_with t (x ∷ s) || includes t s

-- `/int|bigint|bit/.test(type)`
abbrev pub int_or_bit : Text → Bool
int_or_bit type =
    includes (codes "int") type || (includes (codes "bigint") type || includes (codes "bit") type)

-- `/int|bigint/.test(type)`
abbrev pub int_type : Text → Bool
int_type type = includes (codes "int") type || includes (codes "bigint") type

-- `tableStruct.find((item) => item[3] === 'PRI')`
unfoldable pub primary_key : List Column → Option Column
primary_key [] = none
primary_key (c ∷ cs) = if text_eq c.key (codes "PRI") then some c else primary_key cs

-- `tableStruct.find((item) => item[0] === name)[1]`; `none` where it throws.
unfoldable pub column_type : Text → List Column → Option Text
column_type name [] = none
column_type name (c ∷ cs) = if text_eq c.field name then some c.type else column_type name cs

-- `columns.forEach(…)`: the last index of the key's name, 0 if there is none.
unfoldable pub key_column : Text → ℕ → ℕ → List Text → ℕ
key_column name i found [] = found
key_column name i found (c ∷ cs) = key_column name (suc i) (if text_eq c name then i else found) cs

abbrev pub all_digits : Text → Bool
all_digits [] = true
all_digits (x ∷ s) = leb 48 x && leb x 57 && all_digits s

abbrev pub strip_zeros : Text → Text
strip_zeros [] = []
strip_zeros (x ∷ []) = x ∷ []
strip_zeros (x ∷ y ∷ s) = let rest = strip_zeros (y ∷ s) in if x == 48 then rest else x ∷ y ∷ s

abbrev pub negated : Text → Text
negated t = if text_eq t (codes "0") then t else 45 ∷ t

-- `String(Number(text))` on integers in decimal; all other text is taken to be NaN.
unfoldable pub number_print : Text → Text
number_print [] = codes "0"
number_print (x ∷ s) =
    if all_digits (x ∷ s)
    then integer_print (strip_zeros (x ∷ s))
    else if x == 45 && has_text s && all_digits s
    then negated (integer_print (strip_zeros s))
    else codes "NaN"

-- `Number(cell)`, where `none` is `undefined`.
unfoldable pub number_cell : Option Value → Text
number_cell none = codes "NaN"
number_cell (some Value.null) = codes "0"
number_cell (some (Value.text t)) = number_print t

-- `value === '' || value === null ? 0 : value`, and 0 where that is NaN.
unfoldable pub number_or_zero : Value → Text
number_or_zero Value.null = codes "0"
number_or_zero (Value.text []) = codes "0"
number_or_zero (Value.text (x ∷ t)) =
    if text_eq (number_print (x ∷ t)) (codes "NaN") then codes "0" else x ∷ t

-- `value.replace(/'/g, "\\'")`
unfoldable pub escape_quotes : Text → Text
escape_quotes [] = []
escape_quotes (x ∷ s) = if x == 39 then 92 ∷ 39 ∷ escape_quotes s else x ∷ escape_quotes s

-- The literal of a text; `null.replace` throws.
unfoldable pub quoted : Value → Option Text
quoted Value.null = none
quoted (Value.text t) = some (39 ∷ (escape_quotes t ++ (39 ∷ [])))

abbrev pub row_cell : ℕ → List Value → Option Value
row_cell i row = get_elem? row i
