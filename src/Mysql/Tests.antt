-- ===== src/Mysql/Tests.antt =====
-- A table `shop`.`item` with a whole-number key and a name, and what is done with it.
use next_dbm.Base.{number_text, ◌≡◌, refl, [], ◌∷◌, ◌++◌, Text, codes, some, arith}
use next_dbm.Mysql.Defs.{
  Value, Column, RowParams, insert_row, insert_head, quoted, escape_quotes, where_value, set_values,
  key_column, update_row, number_print, integer_print, double_print, double_of, halvings,
  reads_back, fewest_digits, filtered_row, primary_key, column_type,
}
use next_dbm.Mysql.RowReader.{read_rows}
use next_dbm.Mysql.Insert.{insert_row-read_rows}

abbrev id_column : Column
id_column = record { field = codes "id"; type = codes "bigint"; key = codes "PRI" }

abbrev code_column : Column
code_column = record { field = codes "code"; type = codes "varchar(8)"; key = codes "PRI" }

abbrev name_column : Column
name_column = record { field = codes "name"; type = codes "varchar(50)"; key = [] }

abbrev items : RowParams
items = record {
  database = codes "shop";
  table_name = codes "item";
  table_struct = id_column ∷ name_column ∷ [];
  columns = codes "name" ∷ codes "id" ∷ [];
}

abbrev codes_table : RowParams
codes_table = record {
  database = codes "shop";
  table_name = codes "code";
  table_struct = code_column ∷ name_column ∷ [];
  columns = codes "code" ∷ codes "name" ∷ [];
}

insert_row-read_rows_example :
    (body : Text) × (insert_row codes_table (
        ((codes "rowIndex", Value.null)
          ∷ (codes "code", Value.text (codes "a'b"))
          ∷ (codes "name", Value.text (codes "O'Hara"))
          ∷ [])
        ∷ [])
      ≡ some (insert_head codes_table ++ body))
    × (read_rows 1 body ≡ some ((codes "a'b" ∷ codes "O'Hara" ∷ []) ∷ [], codes ";"))
unfolding filtered_row primary_key column_type
insert_row-read_rows_example =
    insert_row-read_rows codes_table code_column
      (((codes "rowIndex", Value.null)
          ∷ (codes "code", Value.text (codes "a'b"))
          ∷ (codes "name", Value.text (codes "O'Hara"))
          ∷ [])
        ∷ [])
      ((codes "a'b" ∷ codes "O'Hara" ∷ []) ∷ []) refl refl (refl, omega arith, tt) refl

update_row_test :
    update_row codes_table
      (Value.text (codes "a") ∷ Value.text (codes "Bo") ∷ [])
      (Value.text (codes "a") ∷ Value.text (codes "Al") ∷ [])
    ≡ some (codes "UPDATE `shop`.`code` SET code = 'a', name = 'Bo' WHERE code = a;")
unfolding update_row set_values primary_key key_column column_type quoted escape_quotes where_value
update_row_test = refl

-- The first integer that a double does not hold, the largest 64-bit integer, and one of 30 digits.
number_print_2_53 : number_print (codes "9007199254740993") ≡ codes "9007199254740992"
unfolding number_print integer_print double_print double_of halvings reads_back fewest_digits
    number_text
number_print_2_53 = refl

number_print_2_64 : number_print (codes "-18446744073709551615") ≡ codes "-18446744073709552000"
unfolding number_print integer_print double_print double_of halvings reads_back fewest_digits
    number_text
number_print_2_64 = refl

number_print_exponent :
    number_print (codes "123456789012345678901234567890") ≡ codes "1.2345678901234568e+29"
unfolding number_print integer_print double_print double_of halvings reads_back fewest_digits
    number_text
number_print_exponent = refl
