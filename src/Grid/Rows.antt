-- ===== src/Grid/Rows.antt =====
-- Where new rows come to stand, and which rows are deleted.
use next_dbm.Base.{
  ℕ, zero, suc, ◌≡◌, refl, sym, ap, ◌∙◌, true, false, List, [], ◌∷◌, ◌++◌, map, length, Text, codes,
  join, text_eq_refl, if◌then◌else◌, some, Bool-cases, inl, inr, arith,
}
use next_dbm.Mysql.Defs.{Value, Column, int_or_bit, primary_key, delete_head, delete_row}
use next_dbm.Mysql.Delete.{has_name, Keys, delete_row-Keys}
use next_dbm.Grid.Defs.{
  Row, command, Props, Grid, send, set_wait_save_row_data, answer_key, values,
  push_wait_save_row_data, value_eq, cells_eq, same_json, step_on, place_behind, insert_at,
  blank_row, add_row_data, not_selected, delete_selected_rows, click_add, click_delete,
}

cells_eq_refl : (cells : List Value) → cells_eq cells cells ≡ true
cells_eq_refl [] = refl
cells_eq_refl (Value.null ∷ cells) = cells_eq_refl cells
cells_eq_refl (Value.text t ∷ cells) = ground (arith, text_eq_refl t, cells_eq_refl cells)

value_eq_refl : (v : Value) → value_eq v v ≡ true
value_eq_refl Value.null = refl
value_eq_refl (Value.text t) = text_eq_refl t

same_json_refl : (row : Row) → same_json row row ≡ true
same_json_refl row = rw (cells_eq_refl row.cells, value_eq_refl row.row_index) refl

step_on-eq-zero : (n : ℕ) → step_on n ≡ 0 → n ≡ 0
step_on-eq-zero zero h = refl
step_on-eq-zero (suc n) h = absurd (omega (arith, h))

-- The place behind the first row of the same contents.
place_behind-around :
    (pre : List Row) (row : Row) (post : List Row)
    → place_behind row pre ≡ 0
    → place_behind row (pre ++ (row ∷ post)) ≡ suc (length pre)
unfolding place_behind
place_behind-around [] row post h = rw (same_json_refl row) refl
place_behind-around (x ∷ pre) row post h = elim (Bool-cases (same_json x row)) [
  | inl e ↦
      absurd (omega (arith, sym (ap (λ b. if b then 1 else step_on (place_behind row pre)) e) ∙ h))
  | inr e ↦
      let none_before =
        step_on-eq-zero (place_behind row pre)
          (sym (ap (λ b. if b then 1 else step_on (place_behind row pre)) e) ∙ h) in
      ap (λ b. if b then 1 else step_on (place_behind row (pre ++ (row ∷ post)))) e
      ∙ ap step_on (place_behind-around pre row post none_before)
]

insert_at-around :
    (pre : List Row) (row : Row) (added post : List Row)
    → place_behind row pre ≡ 0
    → insert_at (place_behind row (pre ++ (row ∷ post))) added (pre ++ (row ∷ post))
      ≡ pre ++ (row ∷ (added ++ post))
insert_at-around pre row added post h =
    ap (λ place. insert_at place added (pre ++ (row ∷ post))) (place_behind-around pre row post h)
    ∙ insert_at-suc pre row added post
  where
    insert_at-suc :
        (pre : List Row) (row : Row) (added post : List Row)
        → insert_at (suc (length pre)) added (pre ++ (row ∷ post)) ≡ pre ++ (row ∷ (added ++ post))
    insert_at-suc [] row added post = refl
    insert_at-suc (x ∷ pre) row added post = ap (x ∷◌) (insert_at-suc pre row added post)

-- With a row selected, the button to add puts the blank row, one empty text for each column, right
-- behind the first row with the selected row's contents, moves no other row, and makes the blank row
-- the one that waits.
pub click_add-around :
    (props : Props) (id : ℕ) (pre : List Row) (row : Row) (post selected : List Row) (g : Grid)
    → g.is_add ≡ true
    → g.rows ≡ pre ++ (row ∷ post)
    → place_behind row pre ≡ 0
    → (h : Grid) × (click_add props id (row ∷ selected) g ≡ some h)
      × (h.rows ≡ pre ++ (row ∷ blank_row props id ∷ post))
      × (h.waiting ≡ blank_row props id ∷ [])
unfolding click_add add_row_data push_wait_save_row_data set_wait_save_row_data
click_add-around props id pre row post selected g on e first =
    let rows = insert_at (place_behind row g.rows) (blank_row props id ∷ []) g.rows in
    (
      set_wait_save_row_data (blank_row props id ∷ []) (record g { rows = rows }),
      rw (on, if◌then◌else◌) refl,
      rw e (insert_at-around pre row (blank_row props id ∷ []) post first),
      refl,
    )

-- Deleting the selected rows, when the user agrees, takes exactly these objects out of the table and
-- sends one statement that names exactly their keys, in the order of the selection; given a primary key of an integer
-- type, whose column is the last of its name, and cells of it that are natural numbers of at most
-- 15 digits in decimal.
pub click_delete-Keys :
    (props : Props) (key : Column) (pre post : List Text) (row : Row) (selected : List Row)
    (ks : List Text) (g : Grid)
    → g.is_delete ≡ true
    → primary_key props.params.table_struct ≡ some key
    → int_or_bit key.type ≡ true
    → props.params.columns ≡ pre ++ (key.field ∷ post)
    → has_name key.field post ≡ false
    → Keys (length pre) (map values (row ∷ selected)) ks
    → (h : Grid) × (click_delete props true (row ∷ selected) g ≡ some h)
      × (h.rows ≡ not_selected (row ∷ selected) g.rows)
      × (h.sent
          ≡ g.sent
            ++ (command
                  (answer_key props (codes "-deleteRow"))
                  (delete_head props.params key ++ (join (codes ", ") ks ++ codes ");"))
                ∷ []))
      × (h.is_delete ≡ false)
unfolding click_delete delete_selected_rows push_wait_save_row_data
click_delete-Keys props key pre post row selected ks g on found int columns last keys =
    let sql =
      delete_row-Keys props.params key pre post (map values (row ∷ selected)) ks found int columns
        last keys in
    (
      record (send
          (command (answer_key props (codes "-deleteRow"))
            (delete_row props.params (map values (row ∷ selected))))
          (record g { rows = not_selected (row ∷ selected) g.rows })) { is_delete = false },
      rw (on, if◌then◌else◌) refl,
      refl,
      rw sql refl,
      refl,
    )
