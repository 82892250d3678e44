-- ===== src/Grid/Adding.antt =====
-- The button to add a row, once one has been added.
use next_dbm.Base.{
  ℕ, ◌≡◌, refl, Bool, true, false, List, [], ◌∷◌, map, some, Ensures, Ensures-trivial, if_intro,
  Ensures-map, of_Ensures,
}
use next_dbm.Grid.Steps.{Step, Steps}
use next_dbm.Mysql.Defs.{insert_row, update_row}
use next_dbm.Grid.Defs.{
  Row, entries, Props, Grid, set_wait_save_row_data, handle_page_change, select_unless,
  on_select_row, on_cell_double_clicked, show_rows, insert_waiting, save, Push, delete, update,
  insert, paste, untyped, push_wait_save_row_data, add_row_data, delete_selected_rows, update_rows,
  paste_from_clipboard, click_add, click_delete, click_copy, click_paste, click_save,
}

abbrev CannotAdd : Grid → Type 0
CannotAdd g = g.is_add ≡ false

set_wait-CannotAdd :
    (rows : List Row) (g : Grid) → CannotAdd g → CannotAdd (set_wait_save_row_data rows g)
unfolding set_wait_save_row_data
set_wait-CannotAdd [] g s = s
set_wait-CannotAdd (row ∷ rows) g s = refl

waits-CannotAdd : (row : Row) (g : Grid) → CannotAdd (set_wait_save_row_data (row ∷ []) g)
unfolding set_wait_save_row_data
waits-CannotAdd row g = refl

push-CannotAdd :
    (props : Props) (push : Push) (g : Grid)
    → CannotAdd g
    → Ensures CannotAdd (push_wait_save_row_data props push g)
unfolding push_wait_save_row_data
push-CannotAdd props (delete rows) g s = s
push-CannotAdd props (update row old_row) g s =
    if_intro (Ensures CannotAdd) g.is_save _ _ (λ _. waits-CannotAdd row g)
      (λ _.
        Ensures-map (λ _. Unit {0}) CannotAdd _ (update_row props.params row.cells old_row)
          (λ sql _. s) (Ensures-trivial _))
push-CannotAdd props (insert row) g s = waits-CannotAdd row _
push-CannotAdd props (paste row) g s = waits-CannotAdd row _
push-CannotAdd props (untyped row second) g s = s

delete-CannotAdd :
    (props : Props) (is_ok : Bool) (selected : List Row) (g : Grid)
    → CannotAdd g
    → Ensures CannotAdd (delete_selected_rows props is_ok selected g)
unfolding delete_selected_rows
delete-CannotAdd props is_ok [] g s = s
delete-CannotAdd props false (row ∷ selected) g s = s
delete-CannotAdd props true (row ∷ selected) g s = push-CannotAdd props _ _ s

paste-CannotAdd :
    (props : Props) (id : ℕ) (selected : List Row) (g : Grid)
    → CannotAdd g
    → Ensures CannotAdd (paste_from_clipboard props id selected g)
unfolding paste_from_clipboard
paste-CannotAdd props id [] g s = s
paste-CannotAdd props id (row ∷ selected) g s = push-CannotAdd props _ _ s

insert_waiting-CannotAdd :
    (props : Props) (rows : List Row) (g : Grid)
    → CannotAdd g
    → Ensures CannotAdd (insert_waiting props rows g)
insert_waiting-CannotAdd props [] g s = s
insert_waiting-CannotAdd props (row ∷ rows) g s =
    Ensures-map (λ _. Unit {0}) CannotAdd _ (insert_row props.params (map entries (row ∷ rows)))
      (λ sql _. s) (Ensures-trivial _)

save-CannotAdd : (props : Props) (g : Grid) → CannotAdd g → Ensures CannotAdd (save props g)
unfolding save
save-CannotAdd props g s = Ensures-map CannotAdd CannotAdd _ _ (set_wait-CannotAdd []) (
    if_intro (Ensures CannotAdd) g.is_save _ _ (λ _. insert_waiting-CannotAdd props g.waiting g s)
      (λ _. s))

select_unless-CannotAdd :
    (waiting : List Row) (g : Grid) → CannotAdd g → CannotAdd (select_unless waiting g)
select_unless-CannotAdd [] g s = s
select_unless-CannotAdd (_ ∷ _) g s = s

module _ (props : Props) where
  Step-CannotAdd : {g h : Grid} → Step props g h → CannotAdd g → CannotAdd h
  unfolding click_add click_delete click_copy click_paste click_save update_rows on_select_row
      on_cell_double_clicked show_rows handle_page_change
  Step-CannotAdd {g} (Step.adds id selected e) s =
      of_Ensures CannotAdd e
        (if_intro (Ensures CannotAdd) g.is_add _ _ (λ on. absurd (cc (on, s))) (λ _. s))
  Step-CannotAdd {g} (Step.deletes is_ok selected e) s = of_Ensures CannotAdd e (
      if_intro (Ensures CannotAdd) g.is_delete _ _
        (λ _.
          Ensures-map CannotAdd CannotAdd _ (delete_selected_rows props is_ok selected g) (λ h k. k)
            (delete-CannotAdd props is_ok selected g s))
        (λ _. s))
  Step-CannotAdd {g} Step.copying s = if_intro CannotAdd g.is_copy _ g (λ _. s) (λ _. s)
  Step-CannotAdd {g} (Step.pasting id selected e) s = of_Ensures CannotAdd e (
      if_intro (Ensures CannotAdd) g.is_paste _ _
        (λ _.
          Ensures-map CannotAdd CannotAdd _ (paste_from_clipboard props id selected g) (λ h k. k)
            (paste-CannotAdd props id selected g s))
        (λ _. s))
  Step-CannotAdd {g} (Step.saves e) s =
      of_Ensures CannotAdd e
        (if_intro (Ensures CannotAdd) g.is_save _ _ (λ _. save-CannotAdd props g s) (λ _. s))
  Step-CannotAdd {g} (Step.edits row_index row e) s =
      of_Ensures CannotAdd e (push-CannotAdd props _ _ s)
  Step-CannotAdd {g} Step.selects s = select_unless-CannotAdd g.waiting g s
  Step-CannotAdd (Step.double_clicks row) s = s
  Step-CannotAdd {g} (Step.pages current_page page_size) s = s
  Step-CannotAdd (Step.shows rows) s = s

  Steps-CannotAdd : {g h : Grid} → Steps props g h → CannotAdd g → CannotAdd h
  Steps-CannotAdd Steps.here s = s
  Steps-CannotAdd (Steps.next steps st) s = Step-CannotAdd st (Steps-CannotAdd steps s)

-- Once the user has added a row, the button to add one stays off, whatever follows, saving the row
-- included, until the table is refreshed or a waiting row is given up.
pub click_add-Steps :
    (props : Props) (id : ℕ) (selected : List Row) (g : Grid) {added h : Grid}
    → g.is_add ≡ true
    → click_add props id selected g ≡ some added
    → Steps props added h
    → h.is_add ≡ false
unfolding click_add add_row_data push_wait_save_row_data
click_add-Steps props id selected g on e steps = Steps-CannotAdd props steps (
    of_Ensures CannotAdd e (
      if_intro (Ensures CannotAdd) g.is_add _ _ (λ _. waits-CannotAdd _ _)
        (λ off. absurd (cc (on, off)))))
