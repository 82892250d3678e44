-- ===== src/Tabs/Defs/Operations.antt =====
-- `addTab`, `removeTab` and the setters of one tab, of visibilityProvider.js.
use next_dbm.Base.{
  ℕ, zero, suc, Bool, false, ◌&&◌, List, [], ◌∷◌, ◌++◌, map, Text, codes, text_eq, has_text,
  get_elem?, if◌then◌else◌, Option, none, some,
}
use mathlib.Core.Option
use next_dbm.Tabs.Defs.Types.{QueryResult, Tab, Params, Request, Provider, has_tab}

-- The new tab object, as both branches of `addTab` write it.
unfoldable pub new_tab : Text → Text → Params → Tab
new_tab key new_title params = record {
  id = key;
  title = new_title;
  type = params.type;
  content = codes "Content " ++ key;
  sql = params.sql;
  asset_id = params.asset_id;
  ask_ai = false;
  select_sql = [];
  where_text = [];
  order_by = [];
  rows = [];
  headers = [];
  csv_data = [];
  results = [];
  query = [];
  db_name = params.db_name;
  table_name = params.table_name;
  er_url = params.er_url;
  table_struct = [];
  src_obj = [];
  dist_obj = [];
}

-- `addTab`; `now` is `utils.formatTimestamp(Date.now())`.
unfoldable pub add_tab : Text → Params → Provider → Provider
add_tab now params p0 =
    let p = record p0 { operation_label = [] } in
    let new_title = if has_text params.title then params.title else now in
    let tab = new_tab params.key new_title params in
    if has_text params.key && has_tab params.key p.tabs
    then record p { tab_index = params.key }
    else if has_text params.key
    then record p { tabs = p.tabs ++ (tab ∷ []); tab_index = params.key }
    else record p {
      requests =
          p.requests ++ (record { params = params; new_title = new_title; seen = p.tabs } ∷ []);
    }

-- The continuation of `sqlsGetId().then`: it sets the tabs from those that its closure holds.
unfoldable pub resolve : Request → Text → Provider → Provider
resolve request new_id p = record p {
  tabs = request.seen ++ (new_tab new_id request.new_title request.params ∷ []);
  tab_index = new_id;
}

-- `removeTab`: `lastIndex`, where `none` is -1; a later match overrides an earlier one.
abbrev pub before : ℕ → Option ℕ
before zero = none
before (suc i) = some i

unfoldable pub last_index : Text → ℕ → Option ℕ → List Tab → Option ℕ
last_index key i found [] = found
last_index key i found (tab ∷ tabs) =
    last_index key (suc i) (if text_eq tab.id key then before i else found) tabs

unfoldable pub other_tabs : Text → List Tab → List Tab
other_tabs key [] = []
other_tabs key (tab ∷ tabs) =
    let rest = other_tabs key tabs in if text_eq tab.id key then rest else tab ∷ rest

-- `newPanes[i].id`; out of range it throws.
abbrev pub id_at : ℕ → List Tab → Option Text
id_at i tabs = Option.map (λ tab. tab.id) (get_elem? tabs i)

abbrev pub neighbour : Option ℕ → List Tab → Option Text
neighbour none panes = id_at 0 panes
neighbour (some i) panes = id_at i panes

abbrev pub next_active : Text → Text → Option ℕ → List Tab → Option Text
next_active key active last [] = some active
next_active key active last (tab ∷ panes) =
    if text_eq active key then neighbour last (tab ∷ panes) else some active

unfoldable pub remove_tab : Text → Provider → Option Provider
remove_tab key p =
    let panes = other_tabs key p.tabs in
    Option.map (λ active. record p { tabs = panes; tab_index = active })
      (next_active key p.tab_index (last_index key 0 none p.tabs) panes)

-- What the setters change of a tab.
pub data Change : Type 0 where
  value query select_sql apple_value where_text order_by name : Text → Change
  ask_ai : Bool → Change
  rows csv_data table_struct : List (List Text) → Change
  headers : List Text → Change
  results : List QueryResult → Change
  reset_objects : Change

unfoldable pub change : Change → Tab → Tab
change (Change.value sql) tab = record tab { sql = sql }
change (Change.query q) tab = record tab { query = q }
change (Change.select_sql s) tab = record tab { select_sql = s }
change (Change.apple_value sql) tab = record tab { sql = tab.sql ++ (13 ∷ 10 ∷ sql) }
change (Change.where_text w) tab = record tab { where_text = w }
change (Change.order_by o) tab = record tab { order_by = o }
change (Change.name n) tab = record tab { title = n }
change (Change.ask_ai b) tab = record tab { ask_ai = b }
change (Change.rows r) tab = record tab { rows = r }
change (Change.csv_data c) tab = record tab { csv_data = c }
change (Change.table_struct s) tab = record tab { table_struct = s }
change (Change.headers h) tab = record tab { headers = h }
change (Change.results r) tab = record tab { results = r }
change Change.reset_objects tab = record tab { src_obj = []; dist_obj = []; results = [] }

abbrev pub change_at : Text → (Tab → Tab) → Tab → Tab
change_at key f tab = if text_eq tab.id key then f tab else tab

-- `tabs.map(tab => tab.id === getTabByID(key).id ? … : tab)`: with tabs, and none of that id, the
-- access of `id` throws.
unfoldable pub change_tabs : Text → (Tab → Tab) → List Tab → Option (List Tab)
change_tabs key f [] = some []
change_tabs key f (tab ∷ tabs) =
    if has_tab key (tab ∷ tabs) then some (map (change_at key f) (tab ∷ tabs)) else none

unfoldable pub set_tab : Text → Change → Provider → Option Provider
set_tab key c p = Option.map (λ tabs. record p { tabs = tabs }) (change_tabs key (change c) p.tabs)

-- The setters of the active tab.
abbrev pub set_active_tab : Change → Provider → Option Provider
set_active_tab c p = set_tab p.tab_index c p

-- The setters that catch the error and change nothing.
unfoldable pub try_set_active_tab : Change → Provider → Provider
try_set_active_tab c p = elim (set_active_tab c p) [ none ↦ p | some q ↦ q ]
