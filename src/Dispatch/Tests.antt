-- ===== src/Dispatch/Tests.antt =====
-- The commands of one table.
use next_dbm.Base.{◌≡◌, refl, [], Text, codes, Option, none}
use next_dbm.Mysql.Defs.{TableParams, drop_table}
use next_dbm.Dispatch.Defs.{Protocol, SqlParams, statement, get_sql_converter, mysql_cases}

abbrev no_table : TableParams
no_table = record {
  table_name = [];
  field_data = [];
  index_data = [];
  foreign_key_data = [];
  trigger_data = [];
  option_data = none;
  remark = [];
}

abbrev params : SqlParams
params = record {
  database = codes "shop";
  table_name = codes "item";
  old_name = [];
  new_name = [];
  view_name = [];
  function_name = [];
  procedure_name = [];
  charset = [];
  collation = [];
  sql = [];
  view_options = none;
  table = no_table;
  original_ddl = [];
  modified_ddl = [];
  table_struct = [];
  columns = [];
  rows = [];
  new_rows = [];
  values = [];
  old_row = [];
}

abbrev no_parser : Text → Option Text
no_parser sql = none

drop_table_test :
    get_sql_converter no_parser [] Protocol.mysql (codes "dropTable") params
    ≡ statement (codes "DROP TABLE `shop`.`item`;")
unfolding get_sql_converter mysql_cases drop_table
drop_table_test = refl
