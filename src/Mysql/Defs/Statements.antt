-- ===== src/Mysql/Defs/Statements.antt =====
-- The converters of mysql.js that fill one template.
use next_dbm.Base.{◌++◌, [], ◌∷◌, Text, codes, concat, Option, none, some}
use next_dbm.Mysql.Defs.Rows.{table_path}
use next_dbm.Mysql.Defs.Table.{clause}

pub record ViewOptions : Type 0 where
  pub algorithm : Option Text
  pub legislator : Option Text
  pub security : Option Text
  pub check_options : Option Text

abbrev pub view_head : Option ViewOptions → Text
view_head none = []
view_head (some o) =
    clause o.algorithm (codes " ALGORITHM = ") [] ++ clause o.legislator (codes " DEFINER = ") []

abbrev pub view_security : Option ViewOptions → Text
view_security none = []
view_security (some o) = clause o.security (codes " SQL SECURITY ") []

abbrev pub view_check : Option ViewOptions → Text
view_check none = []
view_check (some o) = clause o.check_options (codes " WITH ") (codes " CHECK OPTION")

unfoldable pub create_view : Option ViewOptions → Text → Text → Text
create_view options view_name sql = concat (
    codes "CREATE "
    ∷ view_head options
    ∷ codes " VIEW "
    ∷ view_name
    ∷ codes " AS"
    ∷ view_security options
    ∷ codes " "
    ∷ sql
    ∷ codes " "
    ∷ view_check options
    ∷ codes ";\n\n"
    ∷ [])

unfoldable pub create_function : Text → Text
create_function sql = sql ++ codes "\n\n"

unfoldable pub create_procedure : Text → Text
create_procedure sql = sql ++ codes "\n\n"

unfoldable pub create_database : Text → Text → Text → Text
create_database database charset collation = concat (
    codes "CREATE DATABASE IF NOT EXISTS "
    ∷ database
    ∷ codes "\n DEFAULT CHARACTER SET "
    ∷ charset
    ∷ codes "\n DEFAULT COLLATE "
    ∷ collation
    ∷ codes ";\n"
    ∷ [])

unfoldable pub drop_database : Text → Text
drop_database database = codes "DROP DATABASE IF EXISTS " ++ database

-- A statement about one table, view or routine of a database.
abbrev pub about : Text → Text → Text → Text → Text
about head database name tail = head ++ (table_path database name ++ tail)

abbrev pub quoted_in : Text → Text → Text → Text
quoted_in head name tail = head ++ (name ++ tail)

unfoldable pub get_now : Text
get_now = codes "SELECT NOW();"

unfoldable pub get_all_variables : Text
get_all_variables = codes "SHOW VARIABLES"

unfoldable pub get_all_databases : Text
get_all_databases =
    codes "SELECT SCHEMA_NAME FROM INFORMATION_SCHEMA.SCHEMATA ORDER BY SCHEMA_NAME ASC;"

unfoldable pub get_all_tables : Text → Text
get_all_tables database =
    quoted_in (codes "SELECT TABLE_NAME FROM information_schema.TABLES WHERE TABLE_SCHEMA = '")
      database (codes "' AND TABLE_TYPE= 'BASE TABLE';")

unfoldable pub get_all_columns : Text → Text → Text
get_all_columns database table_name = about (codes "DESCRIBE ") database table_name (codes ";")

unfoldable pub get_all_keys : Text → Text
get_all_keys table_name =
    quoted_in
      (codes "SELECT CONSTRAINT_NAME FROM INFORMATION_SCHEMA.KEY_COLUMN_USAGE WHERE TABLE_NAME = '")
      table_name (codes "' AND REFERENCED_TABLE_NAME IS NOT NULL;")

unfoldable pub get_all_indexs : Text → Text → Text
get_all_indexs database table_name =
    about (codes "SHOW INDEX FROM ") database table_name (codes ";")

unfoldable pub get_all_views : Text → Text
get_all_views database =
    quoted_in (codes "SHOW TABLE STATUS FROM `") database (codes "` WHERE Comment = 'view';")

unfoldable pub get_all_functions : Text → Text
get_all_functions database =
    quoted_in (codes "SHOW FUNCTION STATUS WHERE DB = '") database (codes "';")

unfoldable pub get_all_procedures : Text → Text
get_all_procedures database =
    quoted_in (codes "SHOW PROCEDURE STATUS WHERE DB = '") database (codes "';")

unfoldable pub get_all_sqls : Text → Text
get_all_sqls database = quoted_in (codes "SHOW PROCEDURE STATUS WHERE DB = '") database (codes "';")

unfoldable pub get_table_ddl : Text → Text → Text
get_table_ddl database table_name =
    about (codes "SHOW CREATE TABLE ") database table_name (codes ";")

unfoldable pub drop_table : Text → Text → Text
drop_table database table_name = about (codes "DROP TABLE ") database table_name (codes ";")

unfoldable pub rename_table : Text → Text → Text → Text
rename_table database old_name new_name =
    about (codes "ALTER TABLE ") database old_name
      (about (codes " RENAME TO ") database new_name (codes ";"))

unfoldable pub truncate_table : Text → Text → Text
truncate_table database table_name = about (codes "TRUNCATE TABLE ") database table_name (codes ";")

unfoldable pub select_table_data : Text → Text → Text
select_table_data database table_name =
    about (codes "SELECT * FROM ") database table_name (codes ";")

unfoldable pub drop_view : Text → Text → Text
drop_view database view_name = about (codes "DROP VIEW ") database view_name (codes ";")

unfoldable pub drop_function : Text → Text → Text
drop_function database function_name =
    about (codes "DROP FUNCTION ") database function_name (codes ";")

unfoldable pub drop_procedure : Text → Text → Text
drop_procedure database procedure_name =
    about (codes "DROP PROCEDURE ") database procedure_name (codes ";")

-- `copyTable` at a time that `getYYYYMMDDHHmmss` writes.
unfoldable pub copy_table : Text → Text → Text → Text
copy_table datetime database table_name =
    about (codes "CREATE TABLE ") database (table_name ++ (codes "_copy_" ++ datetime))
      (about (codes " LIKE ") database table_name (codes ";"))
