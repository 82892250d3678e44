-- ===== src/Mysql/Defs/Columns.antt =====
-- The converters of mysql.js that name a table by a text of their own, without quotes.
use next_dbm.Base.{[], ◌∷◌, Text, codes, concat}

abbrev alter : Text → Text → Text → Text
alter table_name action rest =
    concat (codes "ALTER TABLE " ∷ table_name ∷ action ∷ rest ∷ codes ";" ∷ [])

unfoldable pub add_table_column : Text → Text → Text
add_table_column table_name column = alter table_name (codes " ADD COLUMN ") column

unfoldable pub delete_table_column : Text → Text → Text
delete_table_column table_name column = alter table_name (codes " DROP COLUMN ") column

unfoldable pub update_table_column : Text → Text → Text
update_table_column table_name column = alter table_name (codes " MODIFY COLUMN ") column

unfoldable pub delete_table : Text → Text
delete_table table_name = concat (codes "DROP TABLE " ∷ table_name ∷ codes ";" ∷ [])

unfoldable pub update_table_name : Text → Text → Text
update_table_name old_name new_name = alter old_name (codes " RENAME TO ") new_name

unfoldable pub update_table_column_name : Text → Text → Text → Text
update_table_column_name table_name old_name new_name =
    alter table_name (codes " CHANGE COLUMN ") (concat (old_name ∷ codes " " ∷ new_name ∷ []))

-- `updateTableColumnType`, `…Nullable`, `…DefaultValue` and `…Comment` share this template.
unfoldable pub update_table_column_type : Text → Text → Text → Text
update_table_column_type table_name column_name new_type =
    alter table_name (codes " MODIFY COLUMN ") (concat (column_name ∷ codes " " ∷ new_type ∷ []))

unfoldable pub update_table_column_detail : Text → Text → Text → Text → Text → Text → Text
update_table_column_detail table_name column_name new_type new_nullable new_default_value
      new_comment =
    alter table_name (codes " MODIFY COLUMN ") (
      concat (
        column_name
        ∷ codes " "
        ∷ new_type
        ∷ codes " "
        ∷ new_nullable
        ∷ codes " "
        ∷ new_default_value
        ∷ codes " "
        ∷ new_comment
        ∷ []))

unfoldable pub get_table_structure : Text → Text
get_table_structure table_name = concat (codes "DESCRIBE " ∷ table_name ∷ codes ";" ∷ [])

unfoldable pub export_table : Text → Text
export_table table_name = concat (
    codes "SELECT * INTO OUTFILE '"
    ∷ table_name
    ∷ codes
        ".csv' FIELDS TERMINATED BY ',' OPTIONALLY ENCLOSED BY '\"' LINES TERMINATED BY '\n' FROM "
    ∷ table_name
    ∷ codes ";"
    ∷ [])

unfoldable pub import_table : Text → Text
import_table table_name = concat (
    codes "LOAD DATA INFILE '"
    ∷ table_name
    ∷ codes ".csv' INTO TABLE "
    ∷ table_name
    ∷ codes " FIELDS TERMINATED BY ',' OPTIONALLY ENCLOSED BY '\"' LINES TERMINATED BY '\n';"
    ∷ [])

-- `loadSqlFile` ignores its arguments.
unfoldable pub load_sql_file : Text → Text → Text
load_sql_file db_name path = codes "USE database_name; source /path/to/your/file.sql;"
