-- ===== src/Dispatch/Defs.antt =====
-- `getSQLConverter`.
use next_dbm.Base.{List, [], ◌∷◌, map, Text, codes, text_eq, if◌then◌else◌, Option, none, some}
use next_dbm.Mysql.Defs.{
  Value, Column, RowParams, TableParams, ViewOptions, delete_row, insert_row, update_row,
  alter_table, create_table, create_view, create_function, create_procedure, create_database,
  drop_database, get_all_variables, get_all_databases, get_all_tables, get_all_columns,
  get_all_keys, get_all_indexs, get_all_views, get_all_functions, get_all_procedures, get_all_sqls,
  get_table_ddl, drop_table, rename_table, truncate_table, select_table_data, drop_view,
  drop_function, drop_procedure, copy_table,
}

-- `protocolType`
pub data Protocol : Type 0 where
  mysql maria_db postgre_sql : Protocol
  other : Text → Protocol

-- All the fields of `params` that some converter reads.
pub record SqlParams : Type 0 where
  pub database : Text
  pub table_name : Text
  pub old_name : Text
  pub new_name : Text
  pub view_name : Text
  pub function_name : Text
  pub procedure_name : Text
  pub charset : Text
  pub collation : Text
  pub sql : Text
  pub view_options : Option ViewOptions
  pub table : TableParams
  pub original_ddl : Text
  pub modified_ddl : Text
  pub table_struct : List Column
  pub columns : List Text
  pub rows : List (List Value)
  pub new_rows : List (List (Text × Value))
  pub values : List Value
  pub old_row : List Value

-- `undefined`, or what the converter returns; a converter may throw.
pub data Answer (S : Type 0) : Type 0 where
  threw nothing : Answer S
  statement : Text → Answer S
  structure : S → Answer S

abbrev pub or_throw : {S : Type 0} → Option Text → Answer S
or_throw none = threw
or_throw (some sql) = statement sql

abbrev pub or_throw_structure : {S : Type 0} → Option S → Answer S
or_throw_structure none = threw
or_throw_structure (some s) = structure s

abbrev pub row_params : SqlParams → RowParams
row_params p = record {
  database = p.database;
  table_name = p.table_name;
  table_struct = p.table_struct;
  columns = p.columns;
}

-- The tests on `functionName`, in their order: the first that fits answers.
abbrev pub first_of : {S : Type 0} → Text → List (Text × Answer S) → Answer S
first_of function_name [] = nothing
first_of function_name ((name, answer) ∷ cases) =
    if text_eq function_name name then answer else first_of function_name cases

-- The MySQL branch. `getNow` is asked of `postgre`, a name that the module does not have: it throws.
-- `datetime` is what `copyTable` reads off the clock, and `parse` is `parseCreateTableSql`.
unfoldable pub mysql_cases :
    {S : Type 0} → (Text → Option S) → Text → SqlParams → List (Text × Answer S)
mysql_cases parse datetime p =
    (codes "getNow", threw)
    ∷ (codes "selectTableData", statement (select_table_data p.database p.table_name))
    ∷ (codes "getVariables", statement get_all_variables)
    ∷ (codes "getTableDDL", statement (get_table_ddl p.database p.table_name))
    ∷ (codes "createDatabase", statement (create_database p.database p.charset p.collation))
    ∷ (codes "dropDatabase", statement (drop_database p.database))
    ∷ (codes "createTable", statement (create_table p.table))
    ∷ (codes "parseCreateTableSql", or_throw_structure (parse p.sql))
    ∷ (codes "alterTable", or_throw (alter_table p.original_ddl p.modified_ddl))
    ∷ (codes "truncateTable", statement (truncate_table p.database p.table_name))
    ∷ (codes "copyTable", statement (copy_table datetime p.database p.table_name))
    ∷ (codes "dropTable", statement (drop_table p.database p.table_name))
    ∷ (codes "renameTable", statement (rename_table p.database p.old_name p.new_name))
    ∷ (codes "createView", statement (create_view p.view_options p.view_name p.sql))
    ∷ (codes "createFunction", statement (create_function p.sql))
    ∷ (codes "createProcedure", statement (create_procedure p.sql))
    ∷ (codes "getAllDatabases", statement get_all_databases)
    ∷ (codes "getAlltablesMenu", statement (get_all_tables p.database))
    ∷ (codes "getAlltables", statement (get_all_tables p.database))
    ∷ (codes "getAllcolumnsMenu", statement (get_all_columns p.database p.table_name))
    ∷ (codes "getAllcolumns", statement (get_all_columns p.database p.table_name))
    ∷ (codes "getAllkeysMenu", statement (get_all_keys p.table_name))
    ∷ (codes "getAllindexsMenu", statement (get_all_indexs p.database p.table_name))
    ∷ (codes "getAllviewsMenu", statement (get_all_views p.database))
    ∷ (codes "getAllfunctionsMenu", statement (get_all_functions p.database))
    ∷ (codes "getAllproceduresMenu", statement (get_all_procedures p.database))
    ∷ (codes "getAllsqlsMenu", statement (get_all_sqls p.database))
    ∷ (codes "dropView", statement (drop_view p.database p.view_name))
    ∷ (codes "dropFunction", statement (drop_function p.database p.function_name))
    ∷ (codes "dropProcedure", statement (drop_procedure p.database p.procedure_name))
    ∷ (codes "deleteRow", statement (delete_row (row_params p) p.rows))
    ∷ (codes "insertRow", or_throw (insert_row (row_params p) p.new_rows))
    ∷ (codes "updateRow", or_throw (update_row (row_params p) p.values p.old_row))
    ∷ []

-- The names that the PostgreSQL branch tests for.
unfoldable pub postgre_names : List Text
postgre_names = map codes (
    "getNow" ∷ "selectTableData" ∷ "getVariables" ∷ "getTableDDL" ∷ "createDatabase"
    ∷ "dropDatabase" ∷ "createTable" ∷ "parseCreateTableSql" ∷ "alterTable" ∷ "truncateTable"
    ∷ "copyTable" ∷ "dropTable" ∷ "renameTable" ∷ "createView" ∷ "createFunction"
    ∷ "createProcedure" ∷ "getAllDatabases" ∷ "getAlltablesMenu" ∷ "getAlltables"
    ∷ "getAllcolumnsMenu" ∷ "getAllcolumns" ∷ "getAllkeysMenu" ∷ "getAllindexsMenu"
    ∷ "getAllviewsMenu" ∷ "getAllfunctionsMenu" ∷ "getAllproceduresMenu" ∷ "getAllsqlsMenu"
    ∷ "dropView" ∷ "dropFunction" ∷ "dropProcedure" ∷ "deleteRow" ∷ "insertRow" ∷ "updateRow" ∷ [])

-- Each of its calls goes to `postgre`, whose import is commented out: it throws.
abbrev pub throwing : {S : Type 0} → Text → Text × Answer S
throwing name = (name, threw)

unfoldable pub get_sql_converter :
    {S : Type 0} → (Text → Option S) → Text → Protocol → Text → SqlParams → Answer S
get_sql_converter parse datetime mysql function_name p =
    first_of function_name (mysql_cases parse datetime p)
get_sql_converter parse datetime maria_db function_name p =
    first_of function_name (mysql_cases parse datetime p)
get_sql_converter parse datetime postgre_sql function_name p =
    first_of function_name (map throwing postgre_names)
get_sql_converter parse datetime (other _) function_name p = nothing
