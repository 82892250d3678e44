-- ===== src/Tabs/Defs/Types.antt =====
-- The tab objects, the tab part of the context of visibilityProvider.js, and `getTabByID`.
use next_dbm.Base.{
  ℕ, Bool, false, ◌||◌, List, [], ◌∷◌, Text, text_eq, if◌then◌else◌, Option, none, some,
}

-- `SQL_EDIT_MODE`
pub data Mode : Type 0 where
  editor filter diff designer view function procedure er : Mode

pub record QueryResult : Type 0 where
  pub key : ℕ
  pub label : Text
  pub success : Bool
  pub headers : List Text
  pub rows : List (List Text)

pub record Tab : Type 0 where
  pub id : Text
  pub title : Text
  pub type : Mode
  pub content : Text
  pub sql : Text
  pub asset_id : Text
  pub ask_ai : Bool
  pub select_sql : Text
  pub where_text : Text
  pub order_by : Text
  pub rows : List (List Text)
  pub headers : List Text
  pub csv_data : List (List Text)
  pub results : List QueryResult
  pub query : Text
  pub db_name : Text
  pub table_name : Text
  pub er_url : Text
  pub table_struct : List (List Text)
  pub src_obj : Text
  pub dist_obj : Text

-- The argument of `addTab`; a field that is not given is the empty text.
pub record Params : Type 0 where
  pub key : Text
  pub title : Text
  pub type : Mode
  pub sql : Text
  pub asset_id : Text
  pub db_name : Text
  pub table_name : Text
  pub er_url : Text

-- An `addTab` that waits for `sqlsGetId`, with the `tabs` that its closure holds.
pub record Request : Type 0 where
  pub params : Params
  pub new_title : Text
  pub seen : List Tab

pub record Provider : Type 0 where
  pub tabs : List Tab
  pub tab_index : Text
  pub operation_label : Text
  pub requests : List Request

-- `getTabByID`: the first tab with the id.
unfoldable pub get_tab_by_id : Text → List Tab → Option Tab
get_tab_by_id key [] = none
get_tab_by_id key (tab ∷ tabs) = if text_eq tab.id key then some tab else get_tab_by_id key tabs

abbrev pub has_tab : Text → List Tab → Bool
has_tab key [] = false
has_tab key (tab ∷ tabs) = text_eq tab.id key || has_tab key tabs
