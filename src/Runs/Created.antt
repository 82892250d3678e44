-- ===== src/Runs/Created.antt =====
-- From the menu of a list, over the tab that opens and its button, to the answer: a new view, function
-- or procedure.
use next_dbm.Base.{
  ◌≡◌, refl, ap, Bool, true, false, ◌||◌, if◌then◌else◌, Bool-cases, inl, inr, List, [], ◌∷◌, ◌++◌,
  Text, codes, has_text, text_eq, text_eq_iff, Option, some,
}
use next_dbm.Tree.Defs.{Info, nil}
use next_dbm.Tabs.Defs.{Tab, Params, Provider, Mode, new_tab, has_tab, get_tab_by_id, add_tab}
use next_dbm.Dispatch.Defs.{statement}
use next_dbm.Answers.Defs.{
  Attr, Answer, App, Mark, mark_text, create_view_mark, create_function_mark, create_procedure_mark,
  key_value_json_result,
}
use next_dbm.Answers.Objects.{Unmarked}
use next_dbm.Answers.Menus.{Asked, created_menu, key_value_json_result-tables_menu}
use next_dbm.Explorer.Defs.{
  Message, Call, Panel, call, database_node, tab_of, full_name, add_view, add_function,
  add_procedure,
}
use next_dbm.Explorer.Dropping.{Kind, a_view, a_function, a_procedure}
use next_dbm.Runs.Defs.{
  with_view_name, with_function_name, with_procedure_name, Run, sent, active_tab, run_message,
  run_view, run_function, run_procedure,
}

abbrev pub mode_of : Kind → Mode
mode_of a_view = Mode.view
mode_of a_function = Mode.function
mode_of a_procedure = Mode.procedure

abbrev pub create_mark : Kind → Mark
create_mark a_view = create_view_mark
create_mark a_function = create_function_mark
create_mark a_procedure = create_procedure_mark

abbrev pub list_of : Kind → Text
list_of a_view = codes "viewsMenu"
list_of a_function = codes "functionsMenu"
list_of a_procedure = codes "proceduresMenu"

abbrev pub add_of : Kind → (new_name : Text) → Info → Panel → Option Panel
add_of a_view = add_view
add_of a_function = add_function
add_of a_procedure = add_procedure

abbrev pub run_of : Kind → (sql : Text) → Provider → Option Run
run_of a_view = run_view
run_of a_function = run_function
run_of a_procedure = run_procedure

-- The tab that the menu of the list asks for.
abbrev pub new_params : Kind → (db node : Info) → (new_name asset_id : Text) → Params
new_params kind db node new_name asset_id =
    tab_of (mode_of kind) (node.key ++ mark_text (create_mark kind)) (full_name db.title new_name)
      asset_id

add_of-add_tab :
    (kind : Kind) (db node : Info) (new_name asset_id : Text) (x : Panel)
    → database_node node.key x ≡ some db
    → db.asset_id ≡ some asset_id
    → add_of kind new_name node x
      ≡ some (call (Call.add_tab (new_params kind db node new_name asset_id)) x)
unfolding add_view add_function add_procedure
add_of-add_tab a_view db node new_name asset_id x h g = rw h (rw g refl)
add_of-add_tab a_function db node new_name asset_id x h g = rw h (rw g refl)
add_of-add_tab a_procedure db node new_name asset_id x h g = rw h (rw g refl)

neither : (a b : Bool) → (a || b) ≡ false → (a ≡ false) × (b ≡ false)
neither true b h = absurd (cc h)
neither false b h = (refl, h)

get_tab_by_id-append :
    (key : Text) (tabs : List Tab) (tab : Tab)
    → has_tab key tabs ≡ false
    → text_eq tab.id key ≡ true
    → get_tab_by_id key (tabs ++ (tab ∷ [])) ≡ some tab
unfolding get_tab_by_id
get_tab_by_id-append key [] tab h e = rw e refl
get_tab_by_id-append key (t ∷ tabs) tab h e =
    let (here, later) = neither (text_eq t.id key) (has_tab key tabs) h in
    rw here (get_tab_by_id-append key tabs tab later e)

-- The first tab of a key that some tab has.
Found : Text → Option Tab → Type 0
Found key o = (tab : Tab) × (o ≡ some tab) × (tab.id ≡ key)

has_tab-Found :
    (key : Text) (tabs : List Tab) → has_tab key tabs ≡ true → Found key (get_tab_by_id key tabs)
unfolding get_tab_by_id Found
has_tab-Found key [] h = absurd (cc h)
has_tab-Found key (t ∷ tabs) h = elim (Bool-cases (text_eq t.id key)) [
  | inl e ↦ (t, rw e refl, (text_eq_iff t.id key).0 e)
  | inr e ↦ rw e (has_tab-Found key tabs (rest (text_eq t.id key) e h))
]
  where
    rest : (b : Bool) → b ≡ false → (b || has_tab key tabs) ≡ true → has_tab key tabs ≡ true
    rest true q h = absurd (cc q)
    rest false q h = h

-- The tab that `addTab` with a key shows is one with this key.
add_tab-Found :
    (now : Text) (params : Params) (p : Provider)
    → has_text params.key ≡ true
    → Found params.key (active_tab (add_tab now params p))
unfolding add_tab new_tab Found
add_tab-Found now params p key = elim (Bool-cases (has_tab params.key p.tabs)) [
  | inl known ↦ rw (key, known) (has_tab-Found params.key p.tabs known)
  | inr new' ↦
      let tab = new_tab params.key (if has_text params.title then params.title else now) params in
      rw (key, new')
        (
          tab,
          get_tab_by_id-append params.key p.tabs tab new'
              ((text_eq_iff params.key params.key).1 refl),
          refl,
        )
]

abbrev named_of : Kind → Attr → Text → Attr
named_of a_view = with_view_name
named_of a_function = with_function_name
named_of a_procedure = with_procedure_name

run_of-found :
    (kind : Kind) (sql : Text) (p : Provider) (tab : Tab)
    → active_tab p ≡ some tab
    → has_text sql ≡ true
    → run_of kind sql p ≡ some (sent (run_message (named_of kind) tab.sql tab))
unfolding run_view run_function run_procedure
run_of-found a_view sql p tab e h = rw (e, h) refl
run_of-found a_function sql p tab e h = rw (e, h) refl
run_of-found a_procedure sql p tab e h = rw (e, h) refl

has_text-mark : (k : Text) (mark : Mark) → has_text (k ++ mark_text mark) ≡ true
has_text-mark [] mark = refl
has_text-mark (x ∷ k) mark = refl

created_menu-create_mark : (kind : Kind) → created_menu (create_mark kind) ≡ some (list_of kind)
created_menu-create_mark a_view = refl
created_menu-create_mark a_function = refl
created_menu-create_mark a_procedure = refl

-- The button of the panel sends a request under `key`.
abbrev pub Sends : Option Run → (key : Text) → Type 0
Sends run key = (m : Message) × (run ≡ some (sent m)) × (m.key ≡ key)

add_tab-Sends :
    (kind : Kind) (now sql : Text) (params : Params) (p : Provider)
    → has_text params.key ≡ true
    → has_text sql ≡ true
    → Sends (run_of kind sql (add_tab now params p)) params.key
unfolding Found
add_tab-Sends kind now sql params p key h =
    let (tab, found, same) = add_tab-Found now params p key in
    (
      run_message (named_of kind) tab.sql tab,
      run_of-found kind sql (add_tab now params p) tab found h,
      same,
    )

-- A name is given for a new view, function or procedure in the menu of their list, whose database is found
-- and whose key has no mark in it. Then a tab is opened; its button, when the panel shows a statement, sends
-- a request under the list's key and the mark; and when a request under that key is answered with data, the
-- list is asked for again, under its own key, and the tree is left.
pub add_of-run_of-Asked :
    (kind : Kind) (db node : Info) (new_name asset_id now sql : Text) (x : Panel) (p : Provider)
    (get_sql : Text → Text → Text) (r : Answer) (data' : List (Text × Text)) (a : App)
    → database_node node.key x ≡ some db
    → db.asset_id ≡ some asset_id
    → has_text sql ≡ true
    → Unmarked node.key
    → r.key ≡ node.key ++ mark_text (create_mark kind)
    → let params = new_params kind db node new_name asset_id in
      (add_of kind new_name node x ≡ some (call (Call.add_tab params) x))
      × Sends (run_of kind sql (add_tab now params p)) (node.key ++ mark_text (create_mark kind))
      × Asked get_sql node.key r a (key_value_json_result get_sql r (some data') a) (list_of kind)
add_of-run_of-Asked kind db node new_name asset_id now sql x p get_sql r data' a h g shown u key =
    let params = new_params kind db node new_name asset_id in
    (
      add_of-add_tab kind db node new_name asset_id x h g,
      add_tab-Sends kind now sql params p (has_text-mark node.key (create_mark kind)) shown,
      (key_value_json_result-tables_menu get_sql (create_mark kind) (list_of kind) node.key r data'
          a (record r { key = node.key }) nil (created_menu-create_mark kind) u key refl).0,
    )

fresh-active_tab :
    (now : Text) (params : Params) (p : Provider)
    → has_text params.key ≡ true
    → has_tab params.key p.tabs ≡ false
    → (tab : Tab) × (active_tab (add_tab now params p) ≡ some tab) × (tab.sql ≡ params.sql)
unfolding add_tab new_tab
fresh-active_tab now params p key new' =
    let tab = new_tab params.key (if has_text params.title then params.title else now) params in
    rw (key, new')
      (
        tab,
        get_tab_by_id-append params.key p.tabs tab new'
            ((text_eq_iff params.key params.key).1 refl),
        refl,
      )

-- Whatever statement the panel of a new view, function or procedure shows, running it in its newly opened
-- tab sends an empty statement, when no tab of the key was open before.
pub add_of-run_of-empty :
    (kind : Kind) (db node : Info) (new_name asset_id now sql : Text) (p : Provider)
    → has_text sql ≡ true
    → has_tab (node.key ++ mark_text (create_mark kind)) p.tabs ≡ false
    → (m : Message) × (run_of kind sql (add_tab now (new_params kind db node new_name asset_id) p)
        ≡ some (sent m))
      × (m.data' ≡ statement [])
add_of-run_of-empty kind db node new_name asset_id now sql p shown new' =
    let params = new_params kind db node new_name asset_id in
    let (tab, found, blank) =
      fresh-active_tab now params p (has_text-mark node.key (create_mark kind)) new' in
    (
      run_message (named_of kind) tab.sql tab,
      run_of-found kind sql (add_tab now params p) tab found shown,
      ap statement blank,
    )
