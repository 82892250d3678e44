-- ===== src/Mysql/SchemaTests.antt =====
-- Definitions of a table `item`, and the statements about it.
use next_dbm.Base.{◌≡◌, refl, true, false, List, [], ◌∷◌, ◌++◌, Text, codes, none, some, split}
use next_dbm.Mysql.Defs.{
  Field, TableParams, Alter, Ddl, get, is_table, alter_table, create_table, table_end, parse_ddl,
  parse_lines, parse_line, match_table, trim, put, generate_alter_statements, additions, removals,
  alterations, alter_text, definitions_sql, primary_key_sql, keys_from, field_sql, options_sql,
}
use next_dbm.Mysql.Diff.Run.{remove}
use next_dbm.Mysql.Diff.Execute.{execute, statement_text}
use next_dbm.Mysql.Diff.Additions.{Typed-all_typed}
use next_dbm.Mysql.Diff.Applied.{alter_table-run}
use next_dbm.Mysql.Comma.{create_table-comma}

abbrev old_ddl : Text
old_ddl = codes "CREATE TABLE item (\n  id int,\n  name varchar(50),\n  size int\n)"

abbrev new_ddl : Text
new_ddl = codes "CREATE TABLE item (\n  id bigint,\n  name varchar(50),\n  price decimal(8, 2)\n)"

abbrev same_ddl : Text
same_ddl =
    codes "CREATE TABLE item (\n  id int,\n  name varchar(50),\n  size int,\n PRIMARY KEY (id)\n);"

abbrev old_columns : Ddl
old_columns =
    (codes "table", codes "item")
    ∷ (codes "id", codes "int")
    ∷ (codes "name", codes "varchar(50)")
    ∷ (codes "size", codes "int")
    ∷ []

abbrev new_columns : Ddl
new_columns =
    (codes "table", codes "item")
    ∷ (codes "id", codes "bigint")
    ∷ (codes "name", codes "varchar(50)")
    ∷ (codes "price", codes "decimal(8, 2)")
    ∷ []

old_ddl-parses : parse_ddl old_ddl ≡ some old_columns
unfolding parse_ddl parse_lines parse_line match_table trim put split
old_ddl-parses = refl

new_ddl-parses : parse_ddl new_ddl ≡ some new_columns
unfolding parse_ddl parse_lines parse_line match_table trim put split
new_ddl-parses = refl

same_ddl-parses : parse_ddl same_ddl ≡ some old_columns
unfolding parse_ddl parse_lines parse_line match_table trim put split
same_ddl-parses = refl

alter_table-run_example :
    (steps : List Alter) × (d : Ddl) × (alter_table old_ddl new_ddl
      ≡ some (statement_text (codes "item") steps))
    × (execute steps old_columns ≡ some d)
    × ((k : Text) → is_table k ≡ false → get k d ≡ get k new_columns)
unfolding get
alter_table-run_example =
    alter_table-run old_ddl new_ddl (codes "item") old_columns new_columns old_ddl-parses
      new_ddl-parses refl (Typed-all_typed old_columns refl) (Typed-all_typed new_columns refl) refl
      refl refl

-- A key is no column: changing its columns in place is refused, and so is dropping all columns.
execute_key : execute (Alter.modify (codes "KEY") (codes "a (b)") ∷ []) old_columns ≡ none
execute_key = refl

execute_last : execute (Alter.drop (codes "id") ∷ []) ((codes "id", codes "int") ∷ []) ≡ none
unfolding get remove
execute_last = refl

alter_table_test :
    alter_table old_ddl new_ddl
    ≡ some (codes "ALTER TABLE item MODIFY id bigint, ADD price decimal(8, 2), DROP COLUMN size;")
unfolding alter_table generate_alter_statements parse_ddl parse_lines parse_line match_table trim
    put split get additions removals alterations alter_text
alter_table_test = refl

abbrev id_field : Field
id_field = record {
  name = codes "id";
  type = some (codes "int");
  len = some (codes "11");
  port = some (codes "0");
  unsigned = true;
  zero_fill = false;
  is_null = true;
  default_value = none;
  automatic_increment = false;
  comment = none;
  is_primary_key = true;
}

abbrev one_field : TableParams
one_field = record {
  table_name = codes "item";
  field_data = id_field ∷ [];
  index_data = [];
  foreign_key_data = [];
  trigger_data = [];
  option_data = none;
  remark = [];
}

create_table_test :
    create_table one_field
    ≡ codes "CREATE TABLE item (\n\t`id`  int(11, 0) UNSIGNED NOT NULL\n\tPRIMARY KEY (`id`),\n\n);"
unfolding create_table definitions_sql table_end primary_key_sql keys_from field_sql options_sql
create_table_test = refl

create_table-comma_example :
    (front : Text) × (create_table one_field ≡ front ++ (codes "," ++ table_end one_field))
unfolding keys_from
create_table-comma_example = create_table-comma one_field refl
