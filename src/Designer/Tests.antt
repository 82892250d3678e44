-- ===== src/Designer/Tests.antt =====
-- Runs of the panels on small tables, and the theorems at them.
use next_dbm.Base.{ℕ, ◌≡◌, refl, false, List, [], ◌∷◌, codes, Option, none, some, inr, length}
use mathlib.Core.List.{Perm, Subset}
use mathlib.Core.List
use mathlib.Core.List.Perm
use next_dbm.Designer.Defs.{
  str, Entries, Key, undefined, stamp, Row, merge, has_key, Panel, no_key, handle_change,
  show_saved, save, del, edit, add, on_drag_end, add_selected, add_field, edit_field,
  on_select_change, on_row_click, on_box_change, handle_input_change, on_index_select_change,
  on_index_row_click, Board, handle_add, action_type,
}
use next_dbm.Designer.Board.{saved_of, handle_add-twice, action_type-around}
use next_dbm.Designer.Session.Steps.{Lib, Step, Steps, Run}
use next_dbm.Designer.Session.Synced.{IsSynced, Run-IsSynced}
use next_dbm.Designer.Session.Locked.{del-Steps}
use next_dbm.Designer.Saving.{save-around}

abbrev row_at : Key → Entries → Row
row_at key entries = record { key = key; entries = entries }

abbrev id_row : Row
id_row = row_at (stamp 1) ((codes "name", str (codes "id")) ∷ [])

abbrev age_row : Row
age_row = row_at (stamp 2) ((codes "name", str (codes "age")) ∷ [])

abbrev new_row : Row
new_row = row_at (stamp 3) ((codes "name", str []) ∷ [])

abbrev panel : Panel
panel = record {
  rows = id_row ∷ age_row ∷ [];
  saved = id_row ∷ age_row ∷ [];
  editing_key = no_key;
  selected_key = undefined;
  selected_row = none;
  form = [];
}

-- A form without rules, and a library that moves nothing.
abbrev lib : Lib
lib = record {
  validate_fields = some;
  array_move = λ rows from to. rows;
  move_perm = λ rows from to ne. Perm.refl rows;
}

abbrev typed : Panel
typed = handle_change (codes "name") (str (codes "name")) (edit_field age_row panel)

save-typed : (save some (stamp 2) typed).saved ≡ id_row ∷ merge age_row typed.form ∷ []
unfolding save show_saved edit_field edit handle_change
save-typed = refl

-- Adding a second row before the first one is saved is refused.
add_twice : add_field age_row (add_field new_row panel) ≡ add_field new_row panel
unfolding add_field add_selected add on_select_change
add_twice = refl

select_again : (on_row_click id_row (on_row_click id_row panel)).selected_row ≡ none
unfolding on_row_click on_select_change
select_again = refl

select_other_index :
    (on_index_row_click age_row (on_index_row_click id_row panel)).selected_key ≡ stamp 2
unfolding on_index_row_click on_index_select_change
select_other_index = refl

-- Without a selected row the inputs throw.
input_unselected : handle_input_change (codes "charset") (str (codes "utf8")) panel ≡ none
unfolding handle_input_change
input_unselected = refl

-- A drop outside the rows is handed to the library as one at index -1.
drag_outside :
    (array_move : List Row → Option ℕ → Option ℕ → List Row)
    → (on_drag_end array_move (stamp 1) undefined panel).rows ≡ array_move panel.rows (some 0) none
unfolding on_drag_end
drag_outside array_move = refl

panel-IsSynced : IsSynced panel
panel-IsSynced = record {
  distinct = (refl, (refl, tt));
  shown = List.Subset-refl (id_row ∷ age_row ∷ []);
}

-- A row is added, named and saved; then the first is edited and deleted.
session : Run lib panel (
    del id_row (
      edit_field id_row (
        save some
          (stamp 3)
          (handle_change (codes "name") (str (codes "n")) (add_field new_row panel)))))
unfolding save show_saved edit_field edit handle_change add_field add_selected add on_select_change
session =
    Run.step
      (Run.step
        (Run.step
          (Run.step (Run.step Run.start (Step.adds new_row refl))
            (Step.types (codes "name") (str (codes "n"))))
          (Step.saves new_row refl refl))
        (Step.edits id_row refl refl))
      (Step.deletes id_row refl (inr refl))

Run-IsSynced_example : IsSynced (
    del id_row (
      edit_field id_row (
        save some
          (stamp 3)
          (handle_change (codes "name") (str (codes "n")) (add_field new_row panel)))))
Run-IsSynced_example = Run-IsSynced lib session panel-IsSynced

abbrev locked : Panel
locked = del id_row (edit_field id_row panel)

-- The user clicks another row, ticks its box and tries to add one.
attempts :
    Steps lib locked (add_field new_row (on_box_change (stamp 2) (on_row_click age_row locked)))
unfolding del show_saved edit_field edit on_row_click on_box_change
attempts =
    Steps.next (Steps.next (Steps.next Steps.here (Step.clicks age_row)) (Step.ticks (stamp 2)))
      (Step.adds new_row refl)

del-Steps_example :
    ((add_field new_row (on_box_change (stamp 2) (on_row_click age_row locked))).editing_key
      ≡ stamp 1)
    × (has_key
          (stamp 1)
          (add_field new_row (on_box_change (stamp 2) (on_row_click age_row locked))).rows
        ≡ false)
    × (length (add_field new_row (on_box_change (stamp 2) (on_row_click age_row locked))).rows ≡ 1)
unfolding edit_field edit
del-Steps_example = del-Steps lib id_row (edit_field id_row panel) refl refl refl attempts

save-around_example :
    ((save some (stamp 2) typed).rows ≡ id_row ∷ merge age_row typed.form ∷ [])
    × ((save some (stamp 2) typed).saved ≡ (save some (stamp 2) typed).rows)
    × ((save some (stamp 2) typed).editing_key ≡ no_key)
unfolding edit_field edit handle_change
save-around_example = save-around some (id_row ∷ []) age_row [] typed.form typed refl refl refl

abbrev board : Board
board = record {
  field_panel = panel;
  index_panel = panel;
  foreign_key_panel = panel;
  trigger_panel = panel;
  tabss_index = codes "2";
}

handle_add-twice_example :
    (saved_of (handle_add 5 board) ≡ saved_of board)
    × (handle_add 6 (handle_add 5 board) ≡ handle_add 5 board)
handle_add-twice_example = handle_add-twice 5 6 board refl

action_type_test : action_type (codes "1-0-0-createTable") ≡ codes "createTable"
action_type_test = action_type-around (codes "1-0-0") (codes "createTable") refl
