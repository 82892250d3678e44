-- ===== src/Mysql/Defs/Table.antt =====
-- `createTable` of mysql.js, with its clauses for fields, indexes, foreign keys, triggers and options.
use next_dbm.Base.{
  Bool, false, List, [], ◌∷◌, ◌++◌, map, Text, codes, concat, join, text_eq, has_text,
  if◌then◌else◌, Option, none, some,
}

-- A field of a form that may be unset. As a condition, an unset one and an empty text are false.
abbrev pub is_set : Option Text → Bool
is_set none = false
is_set (some t) = has_text t

-- In a template.
abbrev pub shown : Option Text → Text
shown none = codes "undefined"
shown (some t) = t

pub record Field : Type 0 where
  pub name : Text
  pub type : Option Text
  pub len : Option Text
  pub port : Option Text
  pub unsigned : Bool
  pub zero_fill : Bool
  pub is_null : Bool
  pub default_value : Option Text
  pub automatic_increment : Bool
  pub comment : Option Text
  pub is_primary_key : Bool

pub record Index : Type 0 where
  pub index_type : Option Text
  pub name : Option Text
  pub fileds : List Text
  pub key_block_size : Option Text
  pub index_function : Option Text
  pub btree_with_parser : Option Text
  pub remark : Text

pub record ForeignKey : Type 0 where
  pub name : Option Text
  pub field : Option Text
  pub database : Option Text
  pub table : Option Text
  pub columns : List Text
  pub delete_actions : Option Text
  pub update_actions : Option Text

pub record Trigger : Type 0 where
  pub name : Option Text
  pub trigger_time_type : Option Text
  pub trigger_action_type : Option Text
  pub table : Option Text
  pub sql : Option Text

-- `if (value) sql += before + value + after`
abbrev pub clause : Option Text → Text → Text → Text
clause value before after = if is_set value then before ++ (shown value ++ after) else []

abbrev pub flag : Bool → Text → Text
flag b t = if b then t else []

abbrev pub type_sql : Field → Option Text → Text
type_sql item none = []
type_sql item (some []) = []
type_sql item (some (x ∷ type)) =
    if text_eq (x ∷ type) (codes "varchar")
    then concat (codes " " ∷ (x ∷ type) ∷ codes "(" ∷ shown item.len ∷ codes ")" ∷ [])
    else concat (
        codes " "
        ∷ (x ∷ type)
        ∷ codes "("
        ∷ shown item.len
        ∷ codes ", "
        ∷ shown item.port
        ∷ codes ")"
        ∷ [])

abbrev pub is_empty_string : Option Text → Bool
is_empty_string none = false
is_empty_string (some t) = text_eq t (codes "EMPTY STRING")

unfoldable pub field_sql : Field → Text
field_sql item = concat (
    codes "\n\t`"
    ∷ item.name
    ∷ codes "` "
    ∷ type_sql item item.type
    ∷ flag item.unsigned (codes " UNSIGNED")
    ∷ flag item.zero_fill (codes " ZEROFILL")
    ∷ flag item.is_null (codes " NOT NULL")
    ∷ flag (is_empty_string item.default_value) (codes " DEFAULT ''")
    ∷ flag item.automatic_increment (codes " AUTO_INCREMENT")
    ∷ clause item.comment (codes " COMMENT '") (codes "'")
    ∷ [])

abbrev pub in_back_quotes : Text → Text
in_back_quotes field = codes "`" ++ (field ++ codes "`")

abbrev pub index_type_sql : Option Text → Text
index_type_sql none = []
index_type_sql (some []) = []
index_type_sql (some (x ∷ t)) =
    if text_eq (x ∷ t) (codes "NORMAL") then [] else codes " " ++ (x ∷ t)

unfoldable pub index_sql : Index → Text
index_sql item =
    let fields = join (codes ",") (map in_back_quotes item.fileds) in
    concat (
      codes "\n\t"
      ∷ index_type_sql item.index_type
      ∷ clause item.name (codes " INDEX '") (codes "' (" ++ (fields ++ codes ")"))
      ∷ clause item.key_block_size (codes " KEY_BLOCK_SIZE = ") []
      ∷ clause item.index_function (codes " USING ") []
      ∷ clause item.btree_with_parser (codes " WITH PARSER `") (codes "`")
      ∷ clause (some item.remark) (codes " COMMENT '") (codes "'")
      ∷ [])

-- The columns, each with a comma behind it, without the last comma.
abbrev pub foreign_columns : ForeignKey → Text
foreign_columns item = join (codes ",") (map in_back_quotes item.columns)

unfoldable pub foreign_key_index_sql : ForeignKey → Text
foreign_key_index_sql item = concat (
    codes "ALTER TABLE `"
    ∷ shown item.database
    ∷ codes "`.`"
    ∷ shown item.table
    ∷ codes "` ADD INDEX ("
    ∷ foreign_columns item
    ∷ codes "); \n\n"
    ∷ [])

unfoldable pub foreign_key_sql : ForeignKey → Text
foreign_key_sql item = concat (
    codes "\n\tCONSTRAINT `"
    ∷ shown item.name
    ∷ codes "` FOREIGN KEY (`"
    ∷ shown item.field
    ∷ codes "`) REFERENCES `"
    ∷ shown item.database
    ∷ codes "`.`"
    ∷ shown item.table
    ∷ codes "` ("
    ∷ foreign_columns item
    ∷ codes ")"
    ∷ clause item.delete_actions (codes " ON DELETE ") []
    ∷ clause item.update_actions (codes " ON UPDATE ") []
    ∷ [])

unfoldable pub trigger_sql : Trigger → Text
trigger_sql item = concat (
    codes "CREATE TRIGGER `"
    ∷ shown item.name
    ∷ codes "` "
    ∷ shown item.trigger_time_type
    ∷ codes " "
    ∷ shown item.trigger_action_type
    ∷ codes " ON `"
    ∷ shown item.table
    ∷ codes "` FOR EACH ROW "
    ∷ shown item.sql
    ∷ codes ";"
    ∷ [])
