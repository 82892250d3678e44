-- ===== src/Answers/Objects.antt =====
-- Each answer to a request about an object runs its own handler, on the object's node.
use next_dbm.Base.{
  ◌≡◌, refl, ap, ◌∙◌, fun_ext, Bool, true, false, ◌||◌, List, [], ◌∷◌, ◌++◌, Text, codes, concat,
  Option, some,
}
use next_dbm.Mysql.Defs.{starts_with, includes}
use next_dbm.Tree.Defs.{update_tree_node, delete_tree_node_by_key}
use next_dbm.Answers.Defs.{
  shown_value, Answer, App, toast, request, remove_first, Mark, mark_word, mark_text, with_title,
  get_variables, get_table_ddl, rename_table, get_diff_table_ddl, alter_table_answer, created,
  dropped, key_value_chain, key_value_tests, by_marks, key_value_json_result, get_variables_mark,
  get_table_ddl_mark, rename_table_mark, get_diff_table_ddl_mark, create_table_mark,
  drop_table_mark, alter_table_mark, create_view_mark, drop_view_mark, create_function_mark,
  drop_function_mark, create_procedure_mark, drop_procedure_mark, delete_row_mark, insert_row_mark,
  update_row_mark,
}
use next_dbm.Answers.Keys.{is_word, includes-append, remove_first-append}

-- No mark stands within the key.
abbrev pub Unmarked : Text → Type 0
Unmarked k = (mark : Mark) → includes (mark_text mark) k ≡ false

word_lem : (mark : Mark) → is_word (mark_word mark) ≡ true
word_lem get_variables_mark = refl
word_lem mark = refl

-- The note that an object was made, and the request for the menu of `k`.
abbrev pub asks :
    (get_sql : Text → Text → Text) → (menu k : Text) → (name : Option Text) → Answer → App → App
asks get_sql menu k name r a =
    request
      (record { key = k; ret_type = menu; sql = get_sql (codes "getAll" ++ menu) r.attr.database })
      (toast (concat (codes "创建" ∷ shown_value name ∷ codes "成功" ∷ [])) a)

-- The note that an object was dropped, and the tree without `k`.
abbrev pub takes_out : (k : Text) → (name : Option Text) → Answer → App → App
takes_out k name r a = record (toast (concat (codes "删除" ∷ shown_value name ∷ codes "成功" ∷ [])) a) {
  tree_data = delete_tree_node_by_key k a.tree_data;
}

-- The handler of each mark, on the node `k`.
abbrev pub handled :
    (get_sql : Text → Text → Text) → Mark → (k : Text) → Answer → List (Text × Text) → App → App
handled get_sql get_variables_mark k r data' a = get_variables data' a
handled get_sql get_table_ddl_mark k r data' a = get_table_ddl data' a
handled get_sql rename_table_mark k r data' a = record (toast (codes "表重命名成功") a) {
  tree_data = update_tree_node k (with_title r.attr.new_name) a.tree_data;
}
handled get_sql get_diff_table_ddl_mark k r data' a = get_diff_table_ddl r data' a
handled get_sql create_table_mark k r data' a =
    asks get_sql (codes "tablesMenu") k r.attr.table_name r a
handled get_sql drop_table_mark k r data' a = takes_out k r.attr.table_name r a
handled get_sql alter_table_mark k r data' a = alter_table_answer r data' a
handled get_sql create_view_mark k r data' a =
    asks get_sql (codes "viewsMenu") k r.attr.view_name r a
handled get_sql drop_view_mark k r data' a = takes_out k r.attr.view_name r a
handled get_sql create_function_mark k r data' a =
    asks get_sql (codes "functionsMenu") k r.attr.function_name r a
handled get_sql drop_function_mark k r data' a = takes_out k r.attr.function_name r a
handled get_sql create_procedure_mark k r data' a =
    asks get_sql (codes "proceduresMenu") k r.attr.function_name r a
handled get_sql drop_procedure_mark k r data' a = takes_out k r.attr.procedure_name r a
handled get_sql delete_row_mark k r data' a = toast (codes "删除成功") a
handled get_sql insert_row_mark k r data' a = toast (codes "插入成功") a
handled get_sql update_row_mark k r data' a = toast (codes "修改成功") a

-- The marks found in a key are those whose word begins the word of the key's mark.
marked_lem :
    (k : Text) (mark : Mark)
    → Unmarked k
    → ◌≡◌ {A = Mark → Bool}
        (λ m. includes (mark_text m) (k ++ mark_text mark))
        (λ m. starts_with (mark_word m) (mark_word mark))
marked_lem k mark u = fun_ext (λ m.
    includes-append (mark_word m) k (mark_word mark) (word_lem m) (word_lem mark)
    ∙ ap (λ b. b || starts_with (mark_word m) (mark_word mark)) (u m))

by_marks-handled :
    (get_sql : Text → Text → Text) (mark : Mark) (r : Answer) (data' : List (Text × Text)) (a : App)
    → by_marks get_sql (λ (m : Mark). starts_with (mark_word m) (mark_word mark)) r data' a
      ≡ handled get_sql mark (remove_first (mark_text mark) r.key) r data' a
unfolding key_value_chain key_value_tests created dropped rename_table
by_marks-handled get_sql get_variables_mark r data' a = refl
by_marks-handled get_sql mark r data' a = refl

-- When a request under the key of a node, which has no mark in it, and one mark is answered with data,
-- exactly the handler of this mark runs, and what it changes in the tree or asks for again is the node
-- of that key: the answers to dropping and to creating tables, views, functions and procedures, to
-- renaming a table, to the statements of tables, the variables, and rows.
pub key_value_json_result-handled :
    (get_sql : Text → Text → Text) (mark : Mark) (k : Text) (r : Answer)
    (data' : List (Text × Text)) (a : App)
    → Unmarked k
    → r.key ≡ k ++ mark_text mark
    → key_value_json_result get_sql r (some data') a ≡ handled get_sql mark k r data' a
unfolding key_value_json_result
key_value_json_result-handled get_sql mark k r data' a u e =
    ap (λ (f : Mark → Bool). by_marks get_sql f r data' a)
      (ap (λ (t : Text). λ (m : Mark). includes (mark_text m) t) e ∙ marked_lem k mark u)
    ∙ by_marks-handled get_sql mark r data' a
    ∙ ap (λ (t : Text). handled get_sql mark t r data' a)
        (ap (remove_first (mark_text mark)) e
          ∙ remove_first-append k (mark_word mark) (word_lem mark) (u mark))
