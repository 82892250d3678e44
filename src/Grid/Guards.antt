-- ===== src/Grid/Guards.antt =====
-- Which buttons are on while a row waits to be saved.
use next_dbm.Base.{
  ℕ, ◌≡◌, refl, sym, subst, Bool, true, false, List, [], ◌∷◌, Ensures, Ensures-trivial, if_intro,
  Ensures-map, of_Ensures,
}
use next_dbm.Grid.Steps.{Step, Run}
use next_dbm.Mysql.Defs.{update_row}
use next_dbm.Grid.Defs.{
  Row, Props, Grid, set_wait_save_row_data, handle_page_change, refresh, select_unless,
  on_select_row, on_cell_double_clicked, show_rows, save, dont_save, Push, delete, update, insert,
  paste, untyped, push_wait_save_row_data, add_row_data, delete_selected_rows, update_rows,
  paste_from_clipboard, click_add, click_delete, click_copy, click_paste, click_save,
  click_dont_save,
}

-- Nothing waits, or one row and the buttons to delete, copy and paste are off.
abbrev pub Guarded : List Row → (is_delete is_copy is_paste : Bool) → Type 0
Guarded [] d c v = Unit {0}
Guarded (row ∷ []) d c v = (d ≡ false) × (c ≡ false) × (v ≡ false)
Guarded (row ∷ second ∷ rows) d c v = ⊥

abbrev pub IsGuarded : Grid → Type 0
IsGuarded g = Guarded g.waiting g.is_delete g.is_copy g.is_paste

set_wait-IsGuarded : (row : Row) (g : Grid) → IsGuarded (set_wait_save_row_data (row ∷ []) g)
unfolding set_wait_save_row_data
set_wait-IsGuarded row g = (refl, refl, refl)

clear-IsGuarded : (g : Grid) → IsGuarded (set_wait_save_row_data [] g)
unfolding set_wait_save_row_data
clear-IsGuarded g = tt

fewer-Guarded :
    (waiting : List Row) {d c v d' c' v' : Bool}
    → ((d ≡ false) → d' ≡ false)
    → ((c ≡ false) → c' ≡ false)
    → ((v ≡ false) → v' ≡ false)
    → Guarded waiting d c v
    → Guarded waiting d' c' v'
fewer-Guarded [] d c v g = tt
fewer-Guarded (row ∷ []) d c v g = (d g.0, c g.1, v g.2)
fewer-Guarded (row ∷ second ∷ rows) d c v g = g

page-IsGuarded :
    (props : Props) (current_page page_size : ℕ) (g : Grid)
    → IsGuarded g
    → IsGuarded (handle_page_change props current_page page_size g)
unfolding handle_page_change
page-IsGuarded props current_page page_size g =
    fewer-Guarded g.waiting (λ e. refl) (λ e. refl) (λ e. refl)

push-IsGuarded :
    (props : Props) (push : Push) (g : Grid)
    → IsGuarded g
    → Ensures IsGuarded (push_wait_save_row_data props push g)
unfolding push_wait_save_row_data
push-IsGuarded props (delete rows) g s = s
push-IsGuarded props (update row old_row) g s =
    if_intro (Ensures IsGuarded) g.is_save _ _ (λ _. set_wait-IsGuarded row g)
      (λ _.
        Ensures-map (λ _. Unit {0}) IsGuarded _ (update_row props.params row.cells old_row)
          (λ sql _. s) (Ensures-trivial (update_row props.params row.cells old_row)))
push-IsGuarded props (insert row) g s = set_wait-IsGuarded row _
push-IsGuarded props (paste row) g s = set_wait-IsGuarded row _
push-IsGuarded props (untyped row second) g s = s

add-IsGuarded :
    (props : Props) (id : ℕ) (selected : List Row) (g : Grid)
    → IsGuarded g
    → Ensures IsGuarded (click_add props id selected g)
unfolding click_add add_row_data
add-IsGuarded props id selected g s =
    if_intro (Ensures IsGuarded) g.is_add _ _ (λ _. push-IsGuarded props _ _ s) (λ _. s)

delete-IsGuarded :
    (props : Props) (is_ok : Bool) (selected : List Row) (g : Grid)
    → IsGuarded g
    → Ensures IsGuarded (delete_selected_rows props is_ok selected g)
unfolding delete_selected_rows
delete-IsGuarded props is_ok [] g s = s
delete-IsGuarded props false (row ∷ selected) g s = s
delete-IsGuarded props true (row ∷ selected) g s = push-IsGuarded props _ _ s

click_delete-IsGuarded :
    (props : Props) (is_ok : Bool) (selected : List Row) (g : Grid)
    → IsGuarded g
    → Ensures IsGuarded (click_delete props is_ok selected g)
unfolding click_delete
click_delete-IsGuarded props is_ok selected g s =
    if_intro (Ensures IsGuarded) g.is_delete _ _
      (λ _.
        Ensures-map IsGuarded IsGuarded _ (delete_selected_rows props is_ok selected g)
          (λ h. fewer-Guarded h.waiting (λ _. refl) (λ e. e) (λ e. e))
          (delete-IsGuarded props is_ok selected g s))
      (λ _. s)

paste-IsGuarded :
    (props : Props) (id : ℕ) (selected : List Row) (g : Grid)
    → IsGuarded g
    → Ensures IsGuarded (paste_from_clipboard props id selected g)
unfolding paste_from_clipboard
paste-IsGuarded props id [] g s = s
paste-IsGuarded props id (row ∷ selected) g s = push-IsGuarded props _ _ s

click_paste-IsGuarded :
    (props : Props) (id : ℕ) (selected : List Row) (g : Grid)
    → IsGuarded g
    → Ensures IsGuarded (click_paste props id selected g)
unfolding click_paste
click_paste-IsGuarded props id selected g s =
    if_intro (Ensures IsGuarded) g.is_paste _ _
      (λ _.
        Ensures-map IsGuarded IsGuarded _ (paste_from_clipboard props id selected g) (λ h k. k)
          (paste-IsGuarded props id selected g s))
      (λ _. s)

save-IsGuarded : (props : Props) (g : Grid) → IsGuarded g → Ensures IsGuarded (save props g)
unfolding save
save-IsGuarded props g s =
    Ensures-map (λ _. Unit {0}) IsGuarded _ _ (λ h _. clear-IsGuarded h) (Ensures-trivial _)

copying_on :
    (waiting : List Row) (d c v : Bool)
    → c ≡ true
    → Guarded waiting d c v
    → Guarded waiting d c true
copying_on [] d c v on s = tt
copying_on (row ∷ []) d c v on s = absurd (cc (on, s.1))
copying_on (row ∷ second ∷ rows) d c v on s = s

-- Copying is off while a row waits, so that pasting stays off.
click_copy-IsGuarded : (g : Grid) → IsGuarded g → IsGuarded (click_copy g)
unfolding click_copy
click_copy-IsGuarded g s =
    if_intro IsGuarded g.is_copy _ g (λ on. copying_on g.waiting _ _ _ on s) (λ off. s)

select_unless-IsGuarded :
    (waiting : List Row) (g : Grid)
    → g.waiting ≡ waiting
    → IsGuarded g
    → IsGuarded (select_unless waiting g)
select_unless-IsGuarded [] g e s = subst (λ t. Guarded t true true g.is_paste) (sym e) tt
select_unless-IsGuarded (_ ∷ _) g e s = s

module _ (props : Props) where
  pub Step-IsGuarded : {g h : Grid} → Step props g h → IsGuarded g → IsGuarded h
  unfolding click_save update_rows on_select_row on_cell_double_clicked show_rows
  Step-IsGuarded {g} (Step.adds id selected e) s =
      of_Ensures IsGuarded e (add-IsGuarded props id selected g s)
  Step-IsGuarded {g} (Step.deletes is_ok selected e) s =
      of_Ensures IsGuarded e (click_delete-IsGuarded props is_ok selected g s)
  Step-IsGuarded {g} Step.copying s = click_copy-IsGuarded g s
  Step-IsGuarded {g} (Step.pasting id selected e) s =
      of_Ensures IsGuarded e (click_paste-IsGuarded props id selected g s)
  Step-IsGuarded {g} (Step.saves e) s =
      of_Ensures IsGuarded e
        (if_intro (Ensures IsGuarded) g.is_save _ _ (λ _. save-IsGuarded props g s) (λ _. s))
  Step-IsGuarded {g} (Step.edits row_index row e) s =
      of_Ensures IsGuarded e (push-IsGuarded props _ _ s)
  Step-IsGuarded {g} Step.selects s = select_unless-IsGuarded g.waiting g refl s
  Step-IsGuarded (Step.double_clicks row) s = s
  Step-IsGuarded {g} (Step.pages current_page page_size) s =
      page-IsGuarded props current_page page_size g s
  Step-IsGuarded (Step.shows rows) s = s

-- Whatever the user does at the table, at most one row waits to be saved, and while one does the
-- buttons to delete, to copy and to paste are off: also after a change of the page, a refresh, or an
-- answer of the server.
pub Run-IsGuarded : (props : Props) {g h : Grid} → Run props g h → IsGuarded g → IsGuarded h
unfolding refresh click_dont_save dont_save
Run-IsGuarded props Run.start s = s
Run-IsGuarded props (Run.step run st) s = Step-IsGuarded props st (Run-IsGuarded props run s)
Run-IsGuarded props (Run.refreshes run) s =
    page-IsGuarded props props.result_page props.page_size _ (Run-IsGuarded props run s)
Run-IsGuarded props (Run.gives_up {h = h} run) s =
    if_intro IsGuarded h.is_save _ h
      (λ _. page-IsGuarded props props.result_page props.page_size _ (clear-IsGuarded h))
      (λ _. Run-IsGuarded props run s)
