-- ===== src/Answers/Defs/State.antt =====
-- The state that the answers change, and the answers.
use next_dbm.Base.{ℕ, Bool, List, [], ◌∷◌, ◌++◌, Text, drop, length, if◌then◌else◌, Option}
use next_dbm.Mysql.Defs.{starts_with}
use next_dbm.Tree.Defs.{Forest}

-- The attributes of an answer that its handlers read.
pub record Attr : Type 0 where
  pub asset_id : Option Text
  pub database : Text
  pub table_name : Option Text
  pub view_name : Option Text
  pub function_name : Option Text
  pub procedure_name : Option Text
  pub new_name : Text
  pub data_type : Text
  pub tab_id : Text

pub record Answer : Type 0 where
  pub key : Text
  pub ret_type : Text
  pub code : ℕ
  pub msg : Text
  pub attr : Attr

-- A request that a handler sends.
pub record Request : Type 0 where
  pub key : Text
  pub ret_type : Text
  pub sql : Text

-- An entry that an answer adds to the results of a tab.
pub record Processed : Type 0 where
  pub tab_key : Text
  pub success : Bool
  pub msg : Text
  pub attr : Attr

-- Of a tab, what these answers write: the two sides of a comparison, the entries that are added to its
-- results, and the statement from which `parseCreateTableSql` fills the designer.
pub record DiffTab : Type 0 where
  pub id : Text
  pub src_obj : Text
  pub dist_obj : Text
  pub results : List Processed
  pub ddl : Text

-- `tree_data` to `os_info` as the code calls them; `toasts` are the notes on the screen.
pub record App : Type 0 where
  pub tree_data : Forest
  pub db_names : List (Text × Text)
  pub tabs : List DiffTab
  pub tab_index : Text
  pub ddl_value : Text
  pub db_variables : List (Text × Text)
  pub db_info : Text
  pub os_info : Text
  pub requests : List Request
  pub toasts : List Text

abbrev pub toast : Text → App → App
toast t a = record a { toasts = a.toasts ++ (t ∷ []) }

abbrev pub request : Request → App → App
request r a = record a { requests = a.requests ++ (r ∷ []) }

-- `text.replace(sub, "")`: the first occurrence is taken out.
unfoldable pub remove_first : Text → Text → Text
remove_first sub [] = []
remove_first sub (x ∷ text) =
    let rest = x ∷ remove_first sub text in
    if starts_with sub (x ∷ text) then drop (length sub) (x ∷ text) else rest
