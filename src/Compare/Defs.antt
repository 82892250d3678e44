-- ===== src/Compare/Defs.antt =====
-- The choice of the tables, and the requests for their statements.
use next_dbm.Base.{
  not, ◌&&◌, List, [], ◌∷◌, ◌++◌, Text, codes, text_eq, split, traverse, get_elem?, if◌then◌else◌,
  Option, none, some, and_then,
}
use mathlib.Core.Option
use next_dbm.Tree.Defs.{Info, Forest, nil, leaf, branch, info_of, find_node_by_key}
use next_dbm.Utils.Defs.{cut_string_at_dash, last_dash}
use next_dbm.Dispatch.Defs.{Answer, SqlParams, threw, nothing, statement}
use next_dbm.Explorer.Defs.{Message, Converter, has_nodes, of_table}

-- `convertDataToCascaderOptions`: an option is the node that it holds, with the options below; `label` and
-- `value` are its title, and it is a leaf if it is a table.
unfoldable pub convert_data_to_cascader_options : Forest → Forest
convert_data_to_cascader_options nil = nil
convert_data_to_cascader_options (leaf parent data') =
    leaf parent (convert_data_to_cascader_options data')
convert_data_to_cascader_options (branch parent children data') =
    let rest = convert_data_to_cascader_options data' in
    let options = convert_data_to_cascader_options children in
    if not (text_eq parent.menu_type (codes "tableMenu")) && has_nodes children
    then branch parent options rest
    else leaf parent rest

-- The three loops of the effect on `treeData`; an option that fits and has none below throws.
abbrev pub append_option : Option (List Info) → Option (List Info) → Option (List Info)
append_option none b = none
append_option (some a) b = Option.map (a ++◌) b

abbrev pub grandsons : Text → (op child : Info) → Forest → List Info
grandsons value op child nil = []
grandsons value op child (leaf info rest) =
    let later = grandsons value op child rest in
    if text_eq info.title value then op ∷ child ∷ info ∷ later else later
grandsons value op child (branch info children rest) =
    let later = grandsons value op child rest in
    if text_eq info.title value then op ∷ child ∷ info ∷ later else later

abbrev pub children_selected : (list table : Text) → (op : Info) → Forest → Option (List Info)
children_selected list table op nil = some []
children_selected list table op (leaf child rest) =
    let later = children_selected list table op rest in
    if text_eq child.title list then none else later
children_selected list table op (branch child below rest) =
    let later = children_selected list table op rest in
    if text_eq child.title list
    then append_option (some (grandsons table op child below)) later
    else later

unfoldable pub selected_options :
    (database list table : Text) → (options : Forest) → Option (List Info)
selected_options database list table nil = some []
selected_options database list table (leaf op rest) =
    let later = selected_options database list table rest in
    if text_eq op.title database then none else later
selected_options database list table (branch op below rest) =
    let later = selected_options database list table rest in
    if text_eq op.title database
    then append_option (children_selected list table op below) later
    else later

-- `if (sqlStr)`: the request, or nothing; a converter that throws.
abbrev pub if_given : Answer Text → (Answer Text → Message) → Option (List Message)
if_given threw f = none
if_given nothing f = some []
if_given (statement []) f = some []
if_given data' f = some (f data' ∷ [])

-- `loadData` of the last option that was chosen: the requests that it sends. In its call
-- `getSQLConverter(protocolType, "getAll"+..., {...})` the protocol is taken for the name of the function, and
-- the name for the parameters; `of_name` is what the fields of this text are.
unfoldable pub load_data :
    Converter
    → (protocol_type : Text) → (of_name : SqlParams) → (tree_data : Forest) → Info
    → Option (List Message)
load_data get_sql protocol_type of_name tree_data info =
    let database =
      Option.map info_of (find_node_by_key (cut_string_at_dash info.key last_dash) tree_data) in
    let asked = and_then database (λ (db : Info). if_given (get_sql protocol_type of_name) (λ data'.
      record {
        key = info.key;
        ret_type = info.menu_type;
        data' = data';
        attr = record {
          asset_id = none;
          database = db.title;
          table_name = none;
          view_name = none;
          function_name = none;
          procedure_name = none;
          new_name = [];
          data_type = [];
          tab_id = [];
        };
      })) in
    if text_eq info.menu_type (codes "tablesMenu") then asked else some []

-- `extractPaths`: of each choice the labels of the database and the table; too short a choice throws.
abbrev pub path_of : List Text → Option Text
path_of sub_array = and_then (get_elem? sub_array 0) (λ (database : Text).
    Option.map (λ (table : Text). database ++ (46 ∷ table)) (get_elem? sub_array 2))

unfoldable pub extract_paths : Option (List (List Text)) → Option (List Text)
extract_paths none = some []
extract_paths (some data') = traverse path_of data'

-- `path.split('.')[i]`; a path has a dot, so that both parts are there.
abbrev pub or_empty : Option Text → Text
or_empty none = []
or_empty (some t) = t

-- The request for the statement of a table of one side.
abbrev pub diff_message : (tab_id data_type path : Text) → Answer Text → Message
diff_message tab_id data_type path data' = record {
  key = path ++ codes "-getDiffTableDDL";
  ret_type = codes "KeyValueJsonResult";
  data' = data';
  attr = record {
    asset_id = none;
    database = [];
    table_name = none;
    view_name = none;
    function_name = none;
    procedure_name = none;
    new_name = [];
    data_type = data_type;
    tab_id = tab_id;
  };
}

abbrev pub cons_messages : Option (List Message) → Option (List Message) → Option (List Message)
cons_messages none b = none
cons_messages (some a) b = Option.map (a ++◌) b

-- One of the two loops of `runQuery`, without its waits.
unfoldable pub ask_side : Converter → (tab_id data_type : Text) → List Text → Option (List Message)
ask_side get_sql tab_id data_type [] = some []
ask_side get_sql tab_id data_type (path ∷ paths) =
    cons_messages
      (if_given
        (get_sql (codes "getTableDDL") (
          of_table (or_empty (get_elem? (split 46 path) 0))
            (or_empty (get_elem? (split 46 path) 1))))
        (diff_message tab_id data_type path))
      (ask_side get_sql tab_id data_type paths)

-- `runQuery`: the requests, in their order. The two objects of the tab and its results are emptied before.
unfoldable pub run_compare :
    Converter
    → (tab_id : Text) → (src_obj_arry dis_obj_arry : Option (List (List Text)))
    → Option (List Message)
run_compare get_sql tab_id src_obj_arry dis_obj_arry =
    and_then (extract_paths src_obj_arry) (λ (srcs : List Text).
      and_then (extract_paths dis_obj_arry) (λ (dists : List Text).
        cons_messages (ask_side get_sql tab_id (codes "srcObj") srcs)
          (ask_side get_sql tab_id (codes "distObj") dists)))
