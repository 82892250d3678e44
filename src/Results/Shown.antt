-- ===== src/Results/Shown.antt =====
-- Which tabs show the result of a query.
use next_dbm.Base.{
  ◌≡◌, refl, ap, ◌∙◌, sym, Bool, true, false, List, [], ◌∷◌, ◌||◌, map, Text, text_eq, text_eq_refl,
  text_eq_iff, Bool-cases, inl, inr, if◌then◌else◌, Option, some, and_then, arith,
}
use mathlib.Core.Option
use next_dbm.Tabs.Defs.{
  Mode, QueryResult, Tab, Provider, Change, get_tab_by_id, has_tab, set_active_tab, change,
}
use next_dbm.Tabs.Change.{get_tab_by_id-set_tab}
use next_dbm.Results.Defs.{TableAnswer, editor_results, show_in_editor, show_result, table_rsesult}

abbrev has_id : Text → List Text → Bool
has_id k [] = false
has_id k (id ∷ ids) = text_eq id k || has_id k ids

abbrev id_of : Tab → Text
id_of tab = tab.id

has_tab-ids : (k : Text) (tabs : List Tab) → has_tab k tabs ≡ has_id k (map id_of tabs)
has_tab-ids k [] = refl
has_tab-ids k (tab ∷ tabs) = ap (text_eq tab.id k ||◌) (has_tab-ids k tabs)

still_open :
    (k : Text) (p q : Provider)
    → map id_of q.tabs ≡ map id_of p.tabs
    → has_tab k p.tabs ≡ true
    → has_tab k q.tabs ≡ true
still_open k p q e h = has_tab-ids k q.tabs ∙ ap (has_id k) e ∙ sym (has_tab-ids k p.tabs) ∙ h

get_tab_by_id-has_tab :
    (k : Text) (tabs : List Tab) (tab : Tab)
    → get_tab_by_id k tabs ≡ some tab
    → has_tab k tabs ≡ true
unfolding get_tab_by_id
get_tab_by_id-has_tab k [] tab h = cc
get_tab_by_id-has_tab k (t ∷ tabs) tab h = ground (arith, get_tab_by_id-has_tab k tabs tab)

-- A tab under one setter: `if` it is the tab that is named, with the change.
abbrev changed_if : Bool → Change → Option Tab → Option Tab
changed_if b c o = if b then Option.map (change c) o else o

-- The steps of the editor's case from the second on.
abbrev after_first : TableAnswer → List QueryResult → Provider → Option Provider
after_first a results changed =
    and_then (set_active_tab (Change.results results) changed)
      (set_active_tab (Change.query a.sql_command))

show_in_editor-found :
    (a : TableAnswer) (results : List QueryResult) (p : Provider) (k : Text)
    → has_tab a.tab_id p.tabs ≡ true
    → has_tab p.tab_index p.tabs ≡ true
    → (q : Provider) × (show_in_editor a results p ≡ some q)
      × (get_tab_by_id k q.tabs
          ≡ changed_if (text_eq k p.tab_index) (Change.query a.sql_command) (
              changed_if (text_eq k p.tab_index) (Change.results results) (
                changed_if (text_eq k a.tab_id) (Change.results results) (get_tab_by_id k p.tabs))))
unfolding show_in_editor
show_in_editor-found a results p k own active =
    let (q1, s1, g1, i1, t1) = get_tab_by_id-set_tab p a.tab_id k (Change.results results) own in
    let active1 : has_tab q1.tab_index q1.tabs ≡ true =
      ap (λ x. has_tab x q1.tabs) t1 ∙ still_open p.tab_index p q1 i1 active in
    let (q2, s2, g2, i2, t2) =
      get_tab_by_id-set_tab q1 q1.tab_index k (Change.results results) active1 in
    let active2 : has_tab q2.tab_index q2.tabs ≡ true =
      ap (λ x. has_tab x q2.tabs) t2 ∙ still_open q1.tab_index q1 q2 i2 active1 in
    let (q3, s3, g3, _, _) =
      get_tab_by_id-set_tab q2 q2.tab_index k (Change.query a.sql_command) active2 in
    (
      q3,
      ap (λ o. and_then o (after_first a results)) s1
          ∙ ap (λ o. and_then o (set_active_tab (Change.query a.sql_command))) s2
          ∙ s3,
      g3
          ∙ ap
              (λ x. changed_if (text_eq k x) (Change.query a.sql_command) (get_tab_by_id k q2.tabs))
              (t2 ∙ t1)
          ∙ ap (changed_if (text_eq k p.tab_index) (Change.query a.sql_command)) (
              g2
              ∙ ap
                  (λ x. changed_if (text_eq k x) (Change.results results) (get_tab_by_id k q1.tabs))
                  t1
              ∙ ap (changed_if (text_eq k p.tab_index) (Change.results results)) g1),
    )

table_rsesult-editor :
    (a : TableAnswer) (p : Provider) (tab : Tab)
    → get_tab_by_id a.tab_id p.tabs ≡ some tab
    → tab.type ≡ Mode.editor
    → table_rsesult a p ≡ show_in_editor a (editor_results a tab.results) p
unfolding table_rsesult
table_rsesult-editor a p tab found type =
    ap (λ o. and_then o (λ t. show_result t.type a t p)) found
    ∙ ap (λ m. show_result m a tab p) type

-- The answer to a query of the active tab, an editor that is still open: nothing throws, this tab gets
-- the new list of results and the query, and every other tab is found as it was.
pub table_rsesult-active :
    (a : TableAnswer) (p : Provider) (tab : Tab) (k : Text)
    → get_tab_by_id a.tab_id p.tabs ≡ some tab
    → tab.type ≡ Mode.editor
    → p.tab_index ≡ a.tab_id
    → (q : Provider) × (table_rsesult a p ≡ some q)
      × (get_tab_by_id k q.tabs ≡ (
          if text_eq k a.tab_id
          then some (record tab { results = editor_results a tab.results; query = a.sql_command })
          else get_tab_by_id k p.tabs))
unfolding change
table_rsesult-active a p tab k found type active =
    let own = get_tab_by_id-has_tab a.tab_id p.tabs tab found in
    let (q, run, at) =
      show_in_editor-found a (editor_results a tab.results) p k own
        (ap (λ x. has_tab x p.tabs) active ∙ own) in
    (
      q,
      table_rsesult-editor a p tab found type ∙ run,
      at ∙ (elim (Bool-cases (text_eq k a.tab_id)) [
        | inl e ↦
            let same : text_eq k p.tab_index ≡ true = ap (text_eq k) active ∙ e in
            let here : get_tab_by_id k p.tabs ≡ some tab =
              ap (λ x. get_tab_by_id x p.tabs) ((text_eq_iff k a.tab_id).0 e) ∙ found in
            rw (e, same, here) refl
        | inr e ↦
            let other : text_eq k p.tab_index ≡ false = ap (text_eq k) active ∙ e in
            rw (e, other) refl
      ]),
    )

-- The answer to a query of an editor that is not the active tab any more: the active tab, whatever it is,
-- shows the results and the query of that other tab in place of its own.
pub table_rsesult-other :
    (a : TableAnswer) (p : Provider) (tab shown : Tab)
    → get_tab_by_id a.tab_id p.tabs ≡ some tab
    → tab.type ≡ Mode.editor
    → get_tab_by_id p.tab_index p.tabs ≡ some shown
    → text_eq p.tab_index a.tab_id ≡ false
    → (q : Provider) × (table_rsesult a p ≡ some q)
      × (get_tab_by_id p.tab_index q.tabs
          ≡ some (record shown { results = editor_results a tab.results; query = a.sql_command }))
unfolding change
table_rsesult-other a p tab shown found type active differs =
    let (q, run, at) =
      show_in_editor-found a (editor_results a tab.results) p p.tab_index
        (get_tab_by_id-has_tab a.tab_id p.tabs tab found)
        (get_tab_by_id-has_tab p.tab_index p.tabs shown active) in
    (
      q,
      table_rsesult-editor a p tab found type ∙ run,
      at ∙ rw (differs, text_eq_refl p.tab_index, active) refl,
    )
