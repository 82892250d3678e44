-- ===== src/Mysql/Defs/CreateTable.antt =====
-- `createTable` of mysql.js as a whole.
use next_dbm.Base.{
  Bool, true, false, List, [], ◌∷◌, ◌++◌, map, Text, codes, concat, join, has_text, length, ltb,
  if◌then◌else◌, Option, none, some,
}
use next_dbm.Mysql.Defs.Table.{
  Field, Index, ForeignKey, Trigger, is_set, shown, clause, flag, in_back_quotes, field_sql,
  index_sql, foreign_key_sql, foreign_key_index_sql, trigger_sql,
}

pub record OptionData : Type 0 where
  pub engines : Option Text
  pub charsets : Option Text
  pub collations : Option Text
  pub auto : Option Text
  pub data_dir : Option Text
  pub index_dir : Option Text
  pub avage_row_len : Option Text
  pub min_row_count : Option Text
  pub max_row_count : Option Text
  pub key_block_size : Option Text
  pub pack_keys_size : Option Text
  pub row_format : Option Text
  pub stats_auot_recalc : Bool
  pub data_options1 : Option Text
  pub stats_persistent : Bool
  pub data_options2 : Option Text
  pub encryption : Bool
  pub table_space : Option Text

pub record TableParams : Type 0 where
  pub table_name : Text
  pub field_data : List Field
  pub index_data : List Index
  pub foreign_key_data : List ForeignKey
  pub trigger_data : List Trigger
  pub option_data : Option OptionData
  pub remark : Text

abbrev pub option_sql : OptionData → Text
option_sql o = concat (
    clause o.engines (codes " ENGINE = ") []
    ∷ clause o.charsets (codes " CHARACTER SET = ") []
    ∷ clause o.collations (codes " COLLATE = ") []
    ∷ clause o.auto (codes " AUTO_INCREMENT = ") []
    ∷ clause o.data_dir (codes " DATA DIRECTORY = '") (codes "'")
    ∷ clause o.index_dir (codes " INDEX DIRECTORY = '") (codes "'")
    ∷ clause o.avage_row_len (codes " AVG_ROW_LENGTH = ") []
    ∷ clause o.min_row_count (codes " MIN_ROWS = ") []
    ∷ clause o.max_row_count (codes " MAX_ROWS = ") []
    ∷ flag (is_set o.key_block_size) (codes " KEY_BLOCK_SIZE = " ++ shown o.pack_keys_size)
    ∷ clause o.row_format (codes " ROW_FORMAT = ") []
    ∷ flag o.stats_auot_recalc (codes " STATS_AUTO_RECALC = " ++ shown o.data_options1)
    ∷ flag o.stats_persistent (codes " STATS_PERSISTENT = " ++ shown o.data_options2)
    ∷ clause o.index_dir (codes " STATS_SAMPLE_PAGES = ") []
    ∷ flag o.encryption (codes " ENCRYPTION = 'Y'")
    ∷ clause o.table_space (codes " TABLESPACE = ") []
    ∷ [])

unfoldable pub options_sql : Option OptionData → Text
options_sql none = []
options_sql (some o) = option_sql o

-- The primary key's fields: a comma stands before each but the very first field of the table.
unfoldable pub keys_from : Bool → List Field → Text
keys_from first [] = []
keys_from first (item ∷ items) =
    flag item.is_primary_key
      (flag (if first then false else true) (codes ",") ++ in_back_quotes item.name)
    ++ keys_from false items

unfoldable pub primary_key_sql : List Field → Text
primary_key_sql fields =
    flag (has_text (keys_from true fields))
      (codes "\n\tPRIMARY KEY (" ++ (keys_from true fields ++ codes "),"))

-- A comma where the list has more than one member.
abbrev pub comma_after_many {ℓ} : {A : Type ℓ} → List A → Text
comma_after_many items = flag (ltb 1 (length items)) (codes ",")

unfoldable pub definitions_sql : TableParams → Text
definitions_sql p = concat (
    join (codes ",") (map field_sql p.field_data)
    ∷ comma_after_many p.field_data
    ∷ join (codes ",") (map index_sql p.index_data)
    ∷ join (codes ",") (map foreign_key_sql p.foreign_key_data)
    ∷ comma_after_many p.foreign_key_data
    ∷ primary_key_sql p.field_data
    ∷ [])

abbrev pub remark_sql : Text → Text
remark_sql remark =
    if has_text remark then codes " COMMENT = '" ++ (remark ++ codes "' ;") else codes ";"

abbrev pub after_trigger : Trigger → Text
after_trigger item = codes "\n\n" ++ trigger_sql item

-- What stands behind the definitions.
unfoldable pub table_end : TableParams → Text
table_end p =
    codes "\n\n)"
    ++ (options_sql p.option_data
        ++ (remark_sql p.remark ++ concat (map after_trigger p.trigger_data)))

unfoldable pub create_table : TableParams → Text
create_table p =
    concat (map foreign_key_index_sql p.foreign_key_data)
    ++ (codes "CREATE TABLE "
        ++ (p.table_name ++ (codes " (" ++ (definitions_sql p ++ table_end p))))
