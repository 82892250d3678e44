-- ===== src/Mysql/Defs/Rows.antt =====
-- `deleteRow`, `insertRow` and `updateRow` of mysql.js. `none` stands where the code throws.
use next_dbm.Base.{
  ℕ, List, [], ◌∷◌, ◌++◌, map, Text, codes, concat, join, text_eq, if◌then◌else◌, Option, none,
  some, and_then, traverse, cons_option,
}
use mathlib.Core.Option
use next_dbm.Mysql.Defs.Values.{
  Value, Column, int_or_bit, int_type, primary_key, column_type, key_column, number_print,
  number_cell, number_or_zero, quoted, row_cell,
}

pub record RowParams : Type 0 where
  pub database : Text
  pub table_name : Text
  pub table_struct : List Column
  pub columns : List Text

-- The name `db`.`table`, in back quotes.
abbrev pub table_path : Text → Text → Text
table_path database table_name =
    concat (codes "`" ∷ database ∷ codes "`.`" ∷ table_name ∷ codes "`" ∷ [])

-- `whereArr`: only a key of an integer type adds to it.
unfoldable pub where_keys : Column → ℕ → List (List Value) → List Text
where_keys key i [] = []
where_keys key i (row ∷ rows) =
    let rest = where_keys key i rows in
    if int_or_bit key.type then number_cell (row_cell i row) ∷ rest else rest

unfoldable pub delete_head : RowParams → Column → Text
delete_head p key = concat (
    codes "DELETE FROM "
    ∷ table_path p.database p.table_name
    ∷ codes " WHERE "
    ∷ key.field
    ∷ codes " IN ("
    ∷ [])

abbrev pub delete_by : RowParams → List (List Value) → Option Column → Text
delete_by p values none = []
delete_by p values (some key) =
    delete_head p key
    ++ (join (codes ", ") (where_keys key (key_column key.field 0 0 p.columns) values)
        ++ codes ");")

unfoldable pub delete_row : RowParams → List (List Value) → Text
delete_row p values = delete_by p values (primary_key p.table_struct)

-- One value of a row, by the type of its column.
abbrev pub insert_typed : Value → Text → Option Text
insert_typed value type = if int_or_bit type then some (number_or_zero value) else quoted value

-- `filteredRow.map(…)`, from a column on; a column that is missing throws.
unfoldable pub insert_values : List Column → List Text → List Value → Option (List Text)
insert_values struct columns [] = some []
insert_values struct [] (value ∷ row) = none
insert_values struct (c ∷ columns) (value ∷ row) =
    cons_option (and_then (column_type c struct) (insert_typed value))
      (insert_values struct columns row)

-- `Object.entries(row)` without `rowIndex`.
unfoldable pub filtered_row : List (Text × Value) → List Value
filtered_row [] = []
filtered_row ((key, value) ∷ row) =
    let rest = filtered_row row in if text_eq key (codes "rowIndex") then rest else value ∷ rest

unfoldable pub tuple_text : List Text → Text
tuple_text values = codes "(" ++ (join (codes ", ") values ++ codes ")")

unfoldable pub insert_tuple : RowParams → List (Text × Value) → Option Text
insert_tuple p row =
    Option.map tuple_text (insert_values p.table_struct p.columns (filtered_row row))

abbrev pub back_quoted : Text → Text
back_quoted name = codes "`" ++ (name ++ codes "`")

unfoldable pub insert_head : RowParams → Text
insert_head p = concat (
    codes "INSERT INTO "
    ∷ table_path p.database p.table_name
    ∷ codes " ("
    ∷ join (codes ", ") (map back_quoted p.columns)
    ∷ codes ") VALUES "
    ∷ [])

abbrev pub insert_by : RowParams → List (List (Text × Value)) → Option Column → Option Text
insert_by p values none = some []
insert_by p values (some key) =
    Option.map (λ tuples. insert_head p ++ (join (codes ",\n") tuples ++ codes ";"))
      (traverse (insert_tuple p) values)

unfoldable pub insert_row : RowParams → List (List (Text × Value)) → Option Text
insert_row p values = insert_by p values (primary_key p.table_struct)

-- One assignment of SET.
abbrev pub set_typed : Value → Text → Option Text
set_typed value type =
    if int_or_bit type then some (number_print (number_or_zero value)) else quoted value

-- `setArr`; `params.values[index]` is `undefined` past the end: 0 in an integer column, else it throws.
abbrev pub set_missing : Text → Option Text
set_missing type = if int_or_bit type then some (codes "0") else none

unfoldable pub set_values : List Column → List Text → List Value → Option (List Text)
set_values struct [] row = some []
set_values struct (c ∷ columns) [] =
    cons_option
      (Option.map (λ cell. c ++ (codes " = " ++ cell))
        (and_then (column_type c struct) set_missing))
      (set_values struct columns [])
set_values struct (c ∷ columns) (value ∷ row) =
    cons_option
      (Option.map (λ cell. c ++ (codes " = " ++ cell))
        (and_then (column_type c struct) (set_typed value)))
      (set_values struct columns row)

-- A cell that is printed as it is; `null` and `undefined` print nothing in an array.
abbrev pub raw_cell : Option Value → Text
raw_cell none = []
raw_cell (some Value.null) = []
raw_cell (some (Value.text t)) = t

unfoldable pub where_value : Column → Option Value → Text
where_value key cell = if int_type key.type then number_cell cell else raw_cell cell

abbrev pub update_by : RowParams → List Value → List Value → Option Column → Option Text
update_by p values old_row none = some []
update_by p values old_row (some key) =
    let cell = row_cell (key_column key.field 0 0 p.columns) old_row in
    Option.map
      (λ set_arr. concat (
        codes "UPDATE "
        ∷ table_path p.database p.table_name
        ∷ codes " SET "
        ∷ join (codes ", ") set_arr
        ∷ codes " WHERE "
        ∷ key.field
        ∷ codes " = "
        ∷ where_value key cell
        ∷ codes ";"
        ∷ []))
      (set_values p.table_struct p.columns values)

unfoldable pub update_row : RowParams → List Value → List Value → Option Text
update_row p values old_row = update_by p values old_row (primary_key p.table_struct)
