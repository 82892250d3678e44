-- ===== src/Runs/Defs.antt =====
-- `runQuery` and `reset` of the five kinds of panels.
use next_dbm.Base.{
  ℕ, suc, ◌*◌, Bool, true, false, ◌==◌, List, [], ◌∷◌, ◌++◌, Text, codes, has_text, split,
  number_text, get_elem?, if◌then◌else◌, Option, none, some, and_then,
}
use mathlib.Core.Option
use next_dbm.Mysql.Defs.{trim, non_empty}
use next_dbm.Tabs.Defs.{Tab, Provider, Change, get_tab_by_id, set_active_tab}
use next_dbm.Dispatch.Defs.{Answer, statement}
use next_dbm.Answers.Defs.{Attr}
use next_dbm.Explorer.Defs.{Message, Converter, of_table}

-- A run that shows a note and sends nothing, or that sends a request.
pub data Run : Type 0 where
  refused : Text → Run
  sent : Message → Run

-- `getTabByID(tabIndex)`; without it the code throws.
abbrev pub active_tab : Provider → Option Tab
active_tab p = get_tab_by_id p.tab_index p.tabs

-- `tabItem.title.split(".")[i]`; what is not there is written as it is into a template.
abbrev pub or_undefined : Option Text → Text
or_undefined none = codes "undefined"
or_undefined (some t) = t

abbrev pub title_part : Tab → ℕ → Text
title_part tab i = or_undefined (get_elem? (split 46 tab.title) i)

-- `attr` names no asset.
abbrev pub run_attr : (database tab_id : Text) → Attr
run_attr database tab_id = record {
  asset_id = none;
  database = database;
  table_name = none;
  view_name = none;
  function_name = none;
  procedure_name = none;
  new_name = [];
  data_type = [];
  tab_id = tab_id;
}

-- The request that a panel makes of its tab; `named` sets the field of `attr` with the title.
abbrev pub run_message : (named : Attr → Text → Attr) → (sql : Text) → Tab → Message
run_message named sql tab = record {
  key = tab.id;
  ret_type = codes "KeyValueJsonResult";
  data' = statement sql;
  attr = named (run_attr (title_part tab 0) []) tab.title;
}

-- `if(!sql)`: the note, else the request.
abbrev pub run_panel :
    (note : Text)
    → (named : Attr → Text → Attr) → (sql : Text) → (Tab → Text)
    → Provider
    → Option Run
run_panel note named sql sends p =
    let asked =
      Option.map (λ (tab : Tab). sent (run_message named (sends tab) tab)) (active_tab p) in
    if has_text sql then asked else some (refused note)

abbrev pub with_table_name : Attr → Text → Attr
with_table_name attr title = record attr { table_name = some title }

abbrev pub with_view_name : Attr → Text → Attr
with_view_name attr title = record attr { view_name = some title }

abbrev pub with_function_name : Attr → Text → Attr
with_function_name attr title = record attr { function_name = some title }

abbrev pub with_procedure_name : Attr → Text → Attr
with_procedure_name attr title = record attr { procedure_name = some title }

-- The panel of tables sends the statement that it shows.
unfoldable pub run_designer : (sql : Text) → Provider → Option Run
run_designer sql p = run_panel (codes "请输入正确的表信息") with_table_name sql (λ tab. sql) p

-- Those of views, functions and procedures send the text of their tab.
unfoldable pub run_view : (sql : Text) → Provider → Option Run
run_view sql p = run_panel (codes "请输入正确的视图信息") with_view_name sql (λ (tab : Tab). tab.sql) p

unfoldable pub run_function : (sql : Text) → Provider → Option Run
run_function sql p =
    run_panel (codes "请输入正确的函数信息") with_function_name sql (λ (tab : Tab). tab.sql) p

unfoldable pub run_procedure : (sql : Text) → Provider → Option Run
run_procedure sql p =
    run_panel (codes "请输入正确的存储过程信息") with_procedure_name sql (λ (tab : Tab). tab.sql) p

-- `replace(/;/g, '')`
abbrev pub without_semicolons : Text → Text
without_semicolons [] = []
without_semicolons (x ∷ s) = let rest = without_semicolons s in if x == 59 then rest else x ∷ rest

abbrev pub clause : (keyword text : Text) → Text
clause keyword text = if has_text text then keyword ++ text else []

-- The statement of a filter.
abbrev pub filtered : Tab → Text → Text
filtered tab sql =
    (without_semicolons sql ++ clause (codes " where ") tab.where_text)
    ++ (clause (codes " order by ") tab.order_by ++ codes ";")

abbrev pub filter_message : (sql : Text) → Tab → Message
filter_message sql tab = record {
  key = tab.id;
  ret_type = codes "tableRsesult";
  data' = statement (filtered tab sql);
  attr = run_attr (title_part tab 0) tab.id;
}

-- The label that the run of a filter sets is left out. `getSQLConverter(...).replace`: without a text it throws. The text that is sent is never empty.
abbrev pub run_filtered : Answer Text → Tab → Option Run
run_filtered (statement sql) tab = some (sent (filter_message sql tab))
run_filtered _ tab = none

unfoldable pub run_filter : Converter → Provider → Option Run
run_filter get_sql p = and_then (active_tab p) (λ (tab : Tab).
    run_filtered
      (get_sql (codes "selectTableData") (of_table (title_part tab 0) (title_part tab 1))) tab)

-- `reset` of every panel but the editor, confirmed, but for the label of the filter's.
unfoldable pub reset : Provider → Option Provider
reset p = and_then (set_active_tab (Change.where_text []) p) (set_active_tab (Change.order_by []))

-- A request of the editor, sent after `delay` milliseconds; `number` is `newTabIndex`.
pub record Timed : Type 0 where
  pub delay : ℕ
  pub number : ℕ
  pub message : Message

-- `split(";").filter(Boolean)` of the selected text, or else of the whole.
abbrev pub or_whole : List Text → List Text → List Text
or_whole [] whole = whole
or_whole (s ∷ selected) whole = s ∷ selected

unfoldable pub split_sql : Tab → List Text
split_sql tab = or_whole (non_empty (split 59 tab.select_sql)) (non_empty (split 59 tab.sql))

-- `replace(/\n+/g, ' ')`, in or outside a run of line ends.
abbrev pub newlines_to_space : Bool → Text → Text
newlines_to_space within [] = []
newlines_to_space within (x ∷ s) =
    let inside = newlines_to_space true s in
    let outside = newlines_to_space false s in
    if x == 10 then (if within then inside else 32 ∷ inside) else x ∷ outside

unfoldable pub sql_format : Text → Text
sql_format sql = trim (newlines_to_space false sql)

abbrev pub timed : Tab → (index : ℕ) → (sql : Text) → Timed
timed tab index sql = record {
  delay = index * 1000;
  number = suc index;
  message = record {
    key = tab.id ++ (45 ∷ number_text (suc index));
    ret_type = codes "tableRsesult";
    data' = statement sql;
    attr = record (run_attr tab.db_name tab.id) { asset_id = some tab.asset_id };
  };
}

-- `splitSQL.forEach`
unfoldable pub send_each : Tab → (index : ℕ) → List Text → List Timed
send_each tab index [] = []
send_each tab index (sql ∷ pieces) =
    let rest = send_each tab (suc index) pieces in
    if has_text (sql_format sql) then timed tab index (sql_format sql) ∷ rest else rest

-- The state after the results are cleared, and the requests.
unfoldable pub run_editor : Provider → Option (Provider × List Timed)
run_editor p = and_then (active_tab p) (λ (tab : Tab).
    Option.map
      (λ (q : Provider).
        (record q { operation_label = codes "请求查询" }, send_each tab 0 (split_sql tab)))
      (set_active_tab (Change.results []) p))

-- `reset` of the editor, confirmed.
unfoldable pub reset_editor : Provider → Option Provider
reset_editor p =
    Option.map (λ (q : Provider). record q { operation_label = codes "清空编辑器" })
      (set_active_tab (Change.value []) p)
