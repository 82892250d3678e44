-- ===== src/Compare/Sides.antt =====
-- What a comparison asks, and what its answers put side by side.
use next_dbm.Base.{
  ℕ, zero, suc, length, arith, ◌≡◌, refl, ap, fun_ext, ◌∙◌, sym, true, Bool-cases, inl, inr, List,
  [], ◌∷◌, ◌++◌, map, append_assoc, append-nil, Text, codes, text_eq, free_of, split, split-append,
  split-free, if◌then◌else◌, Option, some,
}
use next_dbm.Mysql.Defs.{get_table_ddl}
use next_dbm.Dispatch.Defs.{Protocol, statement, get_sql_converter, mysql_cases}
use next_dbm.Answers.Defs.{
  Answer, App, DiffTab, get_diff_table_ddl_mark, get_diff_table_ddl, add_to_tabs, add_sides,
  add_side, set_tab_results, processed, Processed, key_value_json_result,
}
use next_dbm.Dispatch.Outcomes.{is_mysql}
use next_dbm.Answers.Objects.{Unmarked, key_value_json_result-handled}
use next_dbm.Explorer.Defs.{Message}
use next_dbm.Compare.Defs.{diff_message, ask_side, extract_paths, run_compare}

-- A table that is chosen, and the statement that the server answers for it.
pub record Chosen : Type 0 where
  pub database : Text
  pub table : Text
  pub ddl : Text

abbrev pub path : Chosen → Text
path c = c.database ++ (46 ∷ c.table)

-- The labels of the three options of the choice.
abbrev pub choice : Chosen → List Text
choice c = c.database ∷ codes "tables" ∷ c.table ∷ []

-- No dot within the names, and no mark within the path.
abbrev pub Plain : Chosen → Type 0
Plain c = (free_of 46 c.database ≡ true) × (free_of 46 c.table ≡ true) × Unmarked (path c)

abbrev pub AllPlain : List Chosen → Type 0
AllPlain [] = Unit
AllPlain (c ∷ cs) = Plain c × AllPlain cs

pub data Side : Type 0 where
  src dist : Side

abbrev pub side_text : Side → Text
side_text src = codes "srcObj"
side_text dist = codes "distObj"

abbrev pub side_message : (tab_id : Text) → Side → Chosen → Message
side_message tab_id side c =
    diff_message tab_id (side_text side) (path c) (statement (get_table_ddl c.database c.table))

split-path :
    (c : Chosen)
    → free_of 46 c.database ≡ true
    → free_of 46 c.table ≡ true
    → split 46 (path c) ≡ c.database ∷ c.table ∷ []
split-path c h g =
    split-append 46 c.database c.table h ∙ ap (c.database ∷◌) (split-free 46 c.table g)

ask_side-messages :
    (parse : Text → Option Text) (datetime tab_id : Text) (protocol : Protocol) (side : Side)
    (cs : List Chosen)
    → is_mysql protocol ≡ true
    → AllPlain cs
    → ask_side (get_sql_converter parse datetime protocol) tab_id (side_text side) (map path cs)
      ≡ some (map (side_message tab_id side) cs)
unfolding ask_side get_sql_converter mysql_cases get_table_ddl
ask_side-messages parse datetime tab_id protocol side [] m p = refl
ask_side-messages parse datetime tab_id Protocol.mysql side (c ∷ cs) m ((h, g, u), p) =
    rw (split-path c h g, ask_side-messages parse datetime tab_id Protocol.mysql side cs m p) refl
ask_side-messages parse datetime tab_id Protocol.maria_db side (c ∷ cs) m ((h, g, u), p) =
    rw (split-path c h g, ask_side-messages parse datetime tab_id Protocol.maria_db side cs m p)
      refl
ask_side-messages parse datetime tab_id Protocol.postgre_sql side (c ∷ cs) m p = absurd (cc m)
ask_side-messages parse datetime tab_id (Protocol.other _) side (c ∷ cs) m p = absurd (cc m)

extract_paths-choice :
    (cs : List Chosen) → extract_paths (some (map choice cs)) ≡ some (map path cs)
unfolding extract_paths
extract_paths-choice [] = refl
extract_paths-choice (c ∷ cs) = rw (extract_paths-choice cs) refl

-- What is written into the tab of the comparison.
abbrev pub at : Text → (DiffTab → DiffTab) → DiffTab → DiffTab
at id f tab = if text_eq tab.id id then f tab else tab

abbrev pub put : Side → Text → DiffTab → DiffTab
put src text tab = record tab { src_obj = tab.src_obj ++ text }
put dist text tab = record tab { dist_obj = tab.dist_obj ++ text }

-- Each statement behind two line ends.
abbrev pub listing : List Chosen → Text
listing [] = []
listing (c ∷ cs) = (13 ∷ 10 ∷ 13 ∷ 10 ∷ c.ddl) ++ listing cs

-- The server gives back the key and `attr`.
abbrev pub reply : Message → Answer
reply m = record { key = m.key; ret_type = m.ret_type; code = 0; msg = []; attr = m.attr }

abbrev pub answer_side :
    (get_sql : Text → Text → Text) → (tab_id : Text) → Side → List Chosen → App → App
answer_side get_sql tab_id side [] a = a
answer_side get_sql tab_id side (c ∷ cs) a = answer_side get_sql tab_id side cs (
    key_value_json_result get_sql (reply (side_message tab_id side c))
      (some ((c.table, c.ddl) ∷ [])) a)

-- A tab but for the entries of its results.
abbrev pub forget : DiffTab → DiffTab
forget tab = record tab { results = [] }

forget-set_tab_results :
    (tab_index : Text) (results : List Processed) (tab : DiffTab)
    → forget (set_tab_results tab_index results tab) ≡ forget tab
forget-set_tab_results tab_index results tab = elim (Bool-cases (text_eq tab.id tab_index)) [
  | inl e ↦ rw e refl
  | inr e ↦ rw e refl
]

map-forget-set_tab_results :
    (tab_index : Text) (results : List Processed) (tabs : List DiffTab)
    → map forget (map (set_tab_results tab_index results) tabs) ≡ map forget tabs
map-forget-set_tab_results tab_index results [] = refl
map-forget-set_tab_results tab_index results (tab ∷ tabs) =
    rw
      (
        forget-set_tab_results tab_index results tab,
        map-forget-set_tab_results tab_index results tabs,
      )
      refl

map-append : (f : DiffTab → DiffTab) (a b : List DiffTab) → map f (a ++ b) ≡ map f a ++ map f b
map-append f [] b = refl
map-append f (t ∷ a) b = ap (f t ∷◌) (map-append f a b)

length-map : (f : DiffTab → DiffTab) (a : List DiffTab) → length (map f a) ≡ length a
length-map f [] = refl
length-map f (t ∷ a) = ap suc (length-map f a)

-- The text of an answer, as it is added.
abbrev gap : Chosen → Text
gap c = 13 ∷ 10 ∷ 13 ∷ 10 ∷ c.ddl

forget-add_side :
    (side : Side) (c : Chosen) (tab : DiffTab)
    → forget (add_side (side_text side) c.ddl tab) ≡ put side (gap c) (forget tab)
forget-add_side src c tab = refl
forget-add_side dist c tab = refl

-- The value is added to the tab of the comparison, wherever its entry goes.
add_to_tabs-forget :
    (tab_index tab_id : Text) (side : Side) (c : Chosen) (count : ℕ) (before behind : List DiffTab)
    → length behind ≡ count
    → map forget (
        add_to_tabs tab_index
          (reply (side_message tab_id side c))
          ((c.table, c.ddl) ∷ [])
          count
          before
          behind)
      ≡ map forget before ++ map (at tab_id (put side (gap c))) (map forget behind)
unfolding add_to_tabs add_sides
add_to_tabs-forget tab_index tab_id side c zero before [] h = map-append forget before []
add_to_tabs-forget tab_index tab_id side c zero before (tab ∷ behind) h = absurd (cc h)
add_to_tabs-forget tab_index tab_id side c (suc count) before [] h = absurd (cc h)
add_to_tabs-forget tab_index tab_id side c (suc count) before (tab ∷ behind) h =
    elim (Bool-cases (text_eq tab.id tab_id)) [
      | inl e ↦
          let r = reply (side_message tab_id side c) in
          let here = add_side (side_text side) c.ddl tab in
          let entries = here.results ++ (processed r ∷ []) in
          let write = set_tab_results tab_index entries in
          rw e (
            add_to_tabs-forget tab_index tab_id side c count (map write before ++ (write here ∷ []))
              (map write behind) (length-map write behind ∙ less h)
            ∙ ap (◌++ map (at tab_id (put side (gap c))) (map forget (map write behind))) (
                map-append forget (map write before) (write here ∷ [])
                ∙ ap (◌++ (forget (write here) ∷ []))
                    (map-forget-set_tab_results tab_index entries before)
                ∙ ap (λ (t : DiffTab). map forget before ++ (t ∷ []))
                    (forget-set_tab_results tab_index entries here ∙ forget-add_side side c tab))
            ∙ ap
                (λ (ts : List DiffTab).
                  (map forget before ++ (put side (gap c) (forget tab) ∷ []))
                  ++ map (at tab_id (put side (gap c))) ts)
                (map-forget-set_tab_results tab_index entries behind)
            ∙ append_assoc (map forget before) (put side (gap c) (forget tab) ∷ [])
                (map (at tab_id (put side (gap c))) (map forget behind)))
      | inr e ↦ rw e (
          add_to_tabs-forget tab_index tab_id side c count (before ++ (tab ∷ [])) behind (less h)
          ∙ ap (◌++ map (at tab_id (put side (gap c))) (map forget behind))
              (map-append forget before (tab ∷ []))
          ∙ append_assoc (map forget before) (forget tab ∷ [])
              (map (at tab_id (put side (gap c))) (map forget behind)))
    ]
  where
    less : {a b : ℕ} → suc a ≡ suc b → a ≡ b
    less k = omega arith

one_answer :
    (get_sql : Text → Text → Text) (tab_id : Text) (side : Side) (c : Chosen) (a : App)
    → Unmarked (path c)
    → map forget
        (key_value_json_result get_sql
          (reply (side_message tab_id side c))
          (some ((c.table, c.ddl) ∷ []))
          a).tabs
      ≡ map (at tab_id (put side (gap c))) (map forget a.tabs)
unfolding get_diff_table_ddl
one_answer get_sql tab_id side c a u =
    ap (λ (h : App). map forget h.tabs)
      (key_value_json_result-handled get_sql get_diff_table_ddl_mark (path c)
        (reply (side_message tab_id side c)) ((c.table, c.ddl) ∷ []) a u refl)
    ∙ add_to_tabs-forget a.tab_index tab_id side c (length a.tabs) [] a.tabs refl

put_id : (side : Side) (text : Text) (tab : DiffTab) → (put side text tab).id ≡ tab.id
put_id src text tab = refl
put_id dist text tab = refl

map-at :
    (id : Text) (f g : DiffTab → DiffTab) (tabs : List DiffTab)
    → ((tab : DiffTab) → (f tab).id ≡ tab.id)
    → map (at id g) (map (at id f) tabs) ≡ map (at id (λ tab. g (f tab))) tabs
map-at id f g [] k = refl
map-at id f g (tab ∷ tabs) k = elim (Bool-cases (text_eq tab.id id)) [
  | inl e ↦ rw (e, ap (λ (t : Text). text_eq t id) (k tab) ∙ e, map-at id f g tabs k) refl
  | inr e ↦ rw (e, e, map-at id f g tabs k) refl
]

put_twice :
    (side : Side) (a b : Text) (tab : DiffTab) → put side b (put side a tab) ≡ put side (a ++ b) tab
put_twice src a b tab = ap (λ (t : Text). record tab { src_obj = t }) (append_assoc tab.src_obj a b)
put_twice dist a b tab =
    ap (λ (t : Text). record tab { dist_obj = t }) (append_assoc tab.dist_obj a b)

put_nothing : (side : Side) (tab : DiffTab) → put side [] tab ≡ tab
put_nothing src tab = ap (λ (t : Text). record tab { src_obj = t }) (append-nil tab.src_obj)
put_nothing dist tab = ap (λ (t : Text). record tab { dist_obj = t }) (append-nil tab.dist_obj)

at_nothing : (id : Text) (side : Side) (tabs : List DiffTab) → map (at id (put side [])) tabs ≡ tabs
at_nothing id side [] = refl
at_nothing id side (tab ∷ tabs) = elim (Bool-cases (text_eq tab.id id)) [
  | inl e ↦ rw (e, put_nothing side tab, at_nothing id side tabs) refl
  | inr e ↦ rw (e, at_nothing id side tabs) refl
]

answer_side-tabs :
    (get_sql : Text → Text → Text) (tab_id : Text) (side : Side) (cs : List Chosen) (a : App)
    → AllPlain cs
    → map forget (answer_side get_sql tab_id side cs a).tabs
      ≡ map (at tab_id (put side (listing cs))) (map forget a.tabs)
answer_side-tabs get_sql tab_id side [] a p = sym (at_nothing tab_id side (map forget a.tabs))
answer_side-tabs get_sql tab_id side (c ∷ cs) a ((h, g, u), p) =
    let a' =
      key_value_json_result get_sql (reply (side_message tab_id side c))
        (some ((c.table, c.ddl) ∷ [])) a in
    answer_side-tabs get_sql tab_id side cs a' p
    ∙ ap (map (at tab_id (put side (listing cs)))) (one_answer get_sql tab_id side c a u)
    ∙ map-at tab_id (put side (gap c)) (put side (listing cs)) (map forget a.tabs)
        (put_id side (gap c))
    ∙ ap (λ (f : DiffTab → DiffTab). map (at tab_id f) (map forget a.tabs))
        (fun_ext (put_twice side (gap c) (listing cs)))

-- For MySQL and MariaDB, when tables are chosen on both sides whose names have no dot, and whose paths have
-- no mark, the run asks for the statement of each, in their order, those of the source first. And when each
-- request is answered with its statement, in this order, the source object of the tab has the statements of
-- the source tables added, each behind two line ends, the other object those of the other tables, and of
-- no other tab is anything changed but the entries of its results.
pub run_compare-answered :
    (parse : Text → Option Text) (datetime : Text) (protocol : Protocol)
    (get_sql : Text → Text → Text) (tab_id : Text) (srcs dists : List Chosen) (a : App)
    → is_mysql protocol ≡ true
    → AllPlain srcs
    → AllPlain dists
    → (run_compare
          (get_sql_converter parse datetime protocol)
          tab_id
          (some (map choice srcs))
          (some (map choice dists))
        ≡ some (map (side_message tab_id src) srcs ++ map (side_message tab_id dist) dists))
      × (map forget
            (answer_side get_sql tab_id dist dists (answer_side get_sql tab_id src srcs a)).tabs
          ≡ map
              (at tab_id (λ (tab : DiffTab). record tab {
                src_obj = tab.src_obj ++ listing srcs;
                dist_obj = tab.dist_obj ++ listing dists;
              }))
              (map forget a.tabs))
unfolding run_compare
run_compare-answered parse datetime protocol get_sql tab_id srcs dists a m p q = (
  rw
      (
        extract_paths-choice srcs,
        extract_paths-choice dists,
        ask_side-messages parse datetime tab_id protocol src srcs m p,
        ask_side-messages parse datetime tab_id protocol dist dists m q,
      )
      refl,
  answer_side-tabs get_sql tab_id dist dists (answer_side get_sql tab_id src srcs a) q
      ∙ ap (map (at tab_id (put dist (listing dists))))
          (answer_side-tabs get_sql tab_id src srcs a p)
      ∙ map-at tab_id (put src (listing srcs)) (put dist (listing dists)) (map forget a.tabs)
          (put_id src (listing srcs)),
)
