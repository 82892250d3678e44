-- ===== src/Answers/Defs/KeyValue.antt =====
-- The case `KeyValueJsonResult`: the key of the answer says what had been asked for.
use next_dbm.Base.{
  ℕ, zero, suc, Bool, true, false, ◌==◌, length, List, [], ◌∷◌, ◌++◌, map, concat, Text, codes,
  text_eq, get_key, some_value, if◌then◌else◌, Option, none, some,
}
use next_dbm.Mysql.Defs.{includes}
use next_dbm.Tree.Defs.{Node, single, parent, update_tree_node, delete_tree_node_by_key}
use next_dbm.Answers.Defs.State.{Answer, Processed, DiffTab, App, toast, request, remove_first}

-- What the key of an answer ends with, after the key of the node.
pub data Mark : Type 0 where
  get_variables_mark : Mark
  get_table_ddl_mark : Mark
  rename_table_mark : Mark
  get_diff_table_ddl_mark : Mark
  create_table_mark : Mark
  drop_table_mark : Mark
  alter_table_mark : Mark
  create_view_mark : Mark
  drop_view_mark : Mark
  create_function_mark : Mark
  drop_function_mark : Mark
  create_procedure_mark : Mark
  drop_procedure_mark : Mark
  delete_row_mark : Mark
  insert_row_mark : Mark
  update_row_mark : Mark

abbrev pub mark_word : Mark → Text
mark_word get_variables_mark = codes "getVariables"
mark_word get_table_ddl_mark = codes "getTableDDL"
mark_word rename_table_mark = codes "renameTable"
mark_word get_diff_table_ddl_mark = codes "getDiffTableDDL"
mark_word create_table_mark = codes "createTable"
mark_word drop_table_mark = codes "dropTable"
mark_word alter_table_mark = codes "alterTable"
mark_word create_view_mark = codes "createView"
mark_word drop_view_mark = codes "dropView"
mark_word create_function_mark = codes "createFunction"
mark_word drop_function_mark = codes "dropFunction"
mark_word create_procedure_mark = codes "createProcedure"
mark_word drop_procedure_mark = codes "dropProcedure"
mark_word delete_row_mark = codes "deleteRow"
mark_word insert_row_mark = codes "insertRow"
mark_word update_row_mark = codes "updateRow"

abbrev pub mark_text : Mark → Text
mark_text mark = 45 ∷ mark_word mark

-- A field in a template.
abbrev pub shown_value : Option Text → Text
shown_value none = codes "undefined"
shown_value (some t) = t

abbrev pub two_values : Text → Text → List (Text × Text) → Text
two_values first second data' =
    concat (shown_value (get_key first data') ∷ codes " " ∷ shown_value (get_key second data') ∷ [])

abbrev pub set_db_info : List (Text × Text) → App → App
set_db_info data' a =
    if some_value (get_key (codes "version_comment") data')
    then record a { db_info = two_values (codes "version_comment") (codes "version") data' }
    else a

abbrev pub set_os_info : List (Text × Text) → App → App
set_os_info data' a =
    if some_value (get_key (codes "version_compile_os") data')
    then record a {
      os_info = two_values (codes "version_compile_os") (codes "version_compile_machine") data';
    }
    else a

unfoldable pub get_variables : List (Text × Text) → App → App
get_variables data' a = record (set_os_info data' (set_db_info data' a)) { db_variables = data' }

-- `Object.keys(data).forEach(key => setDdlValue(data[key]))`: the last value stays.
unfoldable pub get_table_ddl : List (Text × Text) → App → App
get_table_ddl [] a = a
get_table_ddl ((_, ddl) ∷ data') a = get_table_ddl data' (record a { ddl_value = ddl })

-- `updater` of the renaming: the title.
abbrev pub with_title : Text → Node → Node
with_title title (single info) = single (record info { title = title })
with_title title (parent info children) = parent (record info { title = title }) children

unfoldable pub rename_table : Answer → App → App
rename_table r a = record (toast (codes "表重命名成功") a) {
  tree_data =
      update_tree_node (remove_first (mark_text rename_table_mark) r.key)
        (with_title r.attr.new_name) a.tree_data;
}

-- `(obj || '') + "\r\n\r\n" + value`
abbrev pub add_object : Text → Text → Text
add_object obj value = obj ++ (13 ∷ 10 ∷ 13 ∷ 10 ∷ value)

abbrev pub add_side : Text → Text → DiffTab → DiffTab
add_side data_type value tab =
    if text_eq data_type (codes "srcObj")
    then record tab { src_obj = add_object tab.src_obj value }
    else if text_eq data_type (codes "distObj")
    then record tab { dist_obj = add_object tab.dist_obj value }
    else tab

-- The entry for a value, put behind the results that the tab of the comparison has; `setTabResults` writes
-- it into the tabs with the id of the active one, which is open, as Tabs.Steps shows.
abbrev pub processed : Answer → Processed
processed r = record { tab_key = r.key; success = r.code == 0; msg = r.msg; attr = r.attr }

abbrev pub set_tab_results : (tab_index : Text) → List Processed → DiffTab → DiffTab
set_tab_results tab_index results tab =
    if text_eq tab.id tab_index then record tab { results = results } else tab

-- The tabs before the tab of the comparison, this tab, and those behind it: all are written into.
pub record Around : Type 0 where
  pub before : List DiffTab
  pub here : DiffTab
  pub behind : List DiffTab

abbrev pub add_value : (tab_index : Text) → Answer → (value : Text) → Around → Around
add_value tab_index r value w =
    let here = add_side r.attr.data_type value w.here in
    let write = set_tab_results tab_index (here.results ++ (processed r ∷ [])) in
    record { before = map write w.before; here = write here; behind = map write w.behind }

unfoldable pub add_sides : (tab_index : Text) → Answer → List (Text × Text) → Around → Around
add_sides tab_index r [] w = w
add_sides tab_index r ((_, value) ∷ data') w =
    add_sides tab_index r data' (add_value tab_index r value w)

-- `tabs.map`, over tabs of which `count` are still to come: `behind` may have been written into.
abbrev pub next_tab :
    (is_tab : Bool) → (added : Around) → (tab : DiffTab) → (before behind : List DiffTab) → Around
next_tab true added tab before behind = added
next_tab false added tab before behind = record { before = before; here = tab; behind = behind }

unfoldable pub add_to_tabs :
    (tab_index : Text)
    → Answer
    → List (Text × Text)
    → (count : ℕ) → (before behind : List DiffTab) → List DiffTab
add_to_tabs tab_index r data' zero before behind = before ++ behind
add_to_tabs tab_index r data' (suc count) before [] = before
add_to_tabs tab_index r data' (suc count) before (tab ∷ behind) =
    let w =
      next_tab (text_eq tab.id r.attr.tab_id)
        (add_sides tab_index r data' (record { before = before; here = tab; behind = behind })) tab
        before behind in
    add_to_tabs tab_index r data' count (w.before ++ (w.here ∷ [])) w.behind

-- `getDiffTableDDL`
unfoldable pub get_diff_table_ddl : Answer → List (Text × Text) → App → App
get_diff_table_ddl r data' a = record a {
  tabs = add_to_tabs a.tab_index r data' (length a.tabs) [] a.tabs;
}

-- `alterTable`: the designer of the tab is filled from each value in turn.
unfoldable pub alter_table_answer : Answer → List (Text × Text) → App → App
alter_table_answer r [] a = a
alter_table_answer r ((_, ddl) ∷ data') a = alter_table_answer r data' (record a {
  tabs =
      map (λ (tab : DiffTab). if text_eq tab.id r.key then record tab { ddl = ddl } else tab)
        a.tabs;
})

-- `"创建" + name + "成功"`, and the request for the new menu; `get_sql` is `getSQLConverter`.
unfoldable pub created :
    (get_sql : Text → Text → Text)
    → Mark
    → (menu : Text) → (name : Option Text) → Answer
    → App
    → App
created get_sql mark menu name r a =
    request
      (record {
        key = remove_first (mark_text mark) r.key;
        ret_type = menu;
        sql = get_sql (codes "getAll" ++ menu) r.attr.database;
      })
      (toast (concat (codes "创建" ∷ shown_value name ∷ codes "成功" ∷ [])) a)

-- `"删除" + name + "成功"`, and `deleteTreeNode`.
unfoldable pub dropped : Mark → (name : Option Text) → Answer → App → App
dropped mark name r a =
    record (toast (concat (codes "删除" ∷ shown_value name ∷ codes "成功" ∷ [])) a) {
      tree_data = delete_tree_node_by_key (remove_first (mark_text mark) r.key) a.tree_data;
    }

-- The chain of `else if`; `marked` is `key.includes`.
unfoldable pub key_value_chain : (marked : Mark → Bool) → Answer → List (Text × Text) → App → App
key_value_chain marked r data' a =
    if marked get_variables_mark
    then get_variables data' a
    else if marked get_table_ddl_mark
    then get_table_ddl data' a
    else if marked rename_table_mark
    then rename_table r a
    else if marked get_diff_table_ddl_mark
    then get_diff_table_ddl r data' a
    else a

abbrev pub when : Bool → (App → App) → App → App
when test f a = if test then f a else a

-- The tests behind it, each for itself.
unfoldable pub key_value_tests :
    (get_sql : Text → Text → Text)
    → (marked : Mark → Bool) → Answer
    → List (Text × Text)
    → App
    → App
key_value_tests get_sql marked r data' a = when (marked update_row_mark) (toast (codes "修改成功")) (
    when (marked insert_row_mark) (toast (codes "插入成功")) (
      when (marked delete_row_mark) (toast (codes "删除成功")) (
        when (marked drop_procedure_mark) (dropped drop_procedure_mark r.attr.procedure_name r) (
          when (marked create_procedure_mark)
            (created get_sql create_procedure_mark (codes "proceduresMenu") r.attr.function_name r)
            (when (marked drop_function_mark) (dropped drop_function_mark r.attr.function_name r) (
              when (marked create_function_mark)
                (created get_sql create_function_mark (codes "functionsMenu") r.attr.function_name
                  r)
                (when (marked drop_view_mark) (dropped drop_view_mark r.attr.view_name r) (
                  when (marked create_view_mark)
                    (created get_sql create_view_mark (codes "viewsMenu") r.attr.view_name r)
                    (when (marked alter_table_mark) (alter_table_answer r data') (
                      when (marked drop_table_mark) (dropped drop_table_mark r.attr.table_name r) (
                        when (marked create_table_mark)
                          (created get_sql create_table_mark (codes "tablesMenu") r.attr.table_name
                            r)
                          a)))))))))))

abbrev pub by_marks :
    (get_sql : Text → Text → Text)
    → (marked : Mark → Bool) → Answer
    → List (Text × Text)
    → App
    → App
by_marks get_sql marked r data' a =
    key_value_tests get_sql marked r data' (key_value_chain marked r data' a)

-- An answer without data is only shown.
unfoldable pub key_value_json_result :
    (get_sql : Text → Text → Text) → Answer → Option (List (Text × Text)) → App → App
key_value_json_result get_sql r none a = toast (r.msg ++ codes ",返回结果为空") a
key_value_json_result get_sql r (some data') a =
    by_marks get_sql (λ mark. includes (mark_text mark) r.key) r data' a
