-- ===== src/Grid/Inserting.antt =====
-- What the button to apply sends for the row that waits.
use next_dbm.Base.{
  ℕ, suc, ◌≤◌, ◌≡◌, refl, ap, ◌∙◌, true, List, [], ◌∷◌, ◌++◌, map, set, length, Text, codes,
  number_text-ne, if◌then◌else◌, some, and_then, arith, append-nil,
}
use next_dbm.Mysql.Defs.{Value, Column, primary_key, filtered_row, insert_head, insert_row}
use next_dbm.Mysql.RowReader.{read_rows, all_readable}
use next_dbm.Mysql.Insert.{text_columns, insert_row-read_rows}
use next_dbm.Grid.Defs.{
  Row, number_entries, entries, Message, command, Props, Grid, send, set_wait_save_row_data,
  answer_key, insert_waiting, save, push_wait_save_row_data, rows_with, blank_row, add_row_data,
  update_rows, copies, place_behind, insert_at, paste_from_clipboard, click_add, click_paste,
  click_save,
}

-- The command that inserts the rows.
abbrev pub insert_command : Props → Text → Message
insert_command props sql = command (answer_key props (codes "-insertRow")) sql

insert_waiting-some :
    (props : Props) (row : Row) (sql : Text) (g : Grid)
    → insert_row props.params (entries row ∷ []) ≡ some sql
    → insert_waiting props (row ∷ []) g ≡ some (send (insert_command props sql) g)
insert_waiting-some props row sql g e = rw e

-- While the button to apply is on, an edit of any row makes that row the one that waits; applying then inserts it,
-- when `insertRow` makes a statement for it, and nothing else is sent: the row that waited before is
-- dropped, and an old row that is edited is inserted once more.
pub update_rows-click_save :
    (props : Props) (row_index : ℕ) (row : Row) (sql : Text) (g : Grid)
    → g.is_save ≡ true
    → insert_row props.params (entries row ∷ []) ≡ some sql
    → (h : Grid) × (and_then (update_rows props row_index row g) (click_save props) ≡ some h)
      × (h.sent ≡ g.sent ++ (insert_command props sql ∷ []))
      × (h.waiting ≡ [])
      × (h.rows ≡ set g.rows row_index row)
unfolding update_rows push_wait_save_row_data click_save save set_wait_save_row_data
update_rows-click_save props row_index row sql g on e =
    let waiting =
      set_wait_save_row_data (row ∷ []) (record g { rows = set g.rows row_index row }) in
    (
      set_wait_save_row_data [] (send (insert_command props sql) waiting),
      rw (on, if◌then◌else◌, e) refl,
      refl,
      refl,
      refl,
    )

click_add_lem :
    (props : Props) (id : ℕ) (selected : List Row) (g : Grid)
    → g.is_add ≡ true
    → (h : Grid) × (click_add props id selected g ≡ some h)
      × (h.is_save ≡ true)
      × (h.sent ≡ g.sent)
      × (h.rows ≡ rows_with selected (blank_row props id) g.rows)
unfolding click_add add_row_data push_wait_save_row_data set_wait_save_row_data
click_add_lem props id selected g on =
    let rows = rows_with selected (blank_row props id) g.rows in
    (
      set_wait_save_row_data (blank_row props id ∷ []) (record g { rows = rows }),
      rw (on, if◌then◌else◌) refl,
      refl,
      refl,
      refl,
    )

filtered_row-number_entries :
    (i : ℕ) (cells : List Value) (rest : List (Text × Value))
    → filtered_row (number_entries i cells ++ rest) ≡ cells ++ filtered_row rest
unfolding filtered_row
filtered_row-number_entries i [] rest = refl
filtered_row-number_entries i (cell ∷ cells) rest =
    rw
      (
        number_text-ne i 114 (codes "owIndex") (omega arith),
        if◌then◌else◌,
        filtered_row-number_entries (suc i) cells rest,
      )
      refl

-- `insertRow` leaves out the row's number, and no other cell.
filtered_row-entries : (row : Row) → filtered_row (entries row) ≡ row.cells
unfolding filtered_row
filtered_row-entries row =
    filtered_row-number_entries 0 row.cells ((codes "rowIndex", row.row_index) ∷ [])
    ∙ append-nil row.cells

-- Adding a row, filling it in and applying sends one statement and nothing else, and MySQL reads back
-- from behind its VALUES exactly the texts of the row as it was filled in; then nothing waits, and the
-- row stands in the table at the place of the edit. The texts are one or more and without a backslash, no more than the
-- columns, for text columns that are all known, in a table with a primary key.
pub click_add-update_rows-click_save :
    (props : Props) (key : Column) (id : ℕ) (selected : List Row) (row_index : ℕ) (row : Row)
    (ts : List Text) (g : Grid)
    → g.is_add ≡ true
    → primary_key props.params.table_struct ≡ some key
    → text_columns props.params.table_struct props.params.columns ≡ true
    → row.cells ≡ map Value.text ts
    → length ts ≤ length props.params.columns
    → all_readable (ts ∷ []) ≡ true
    → (h : Grid) × (body : Text) × (and_then
          (click_add props id selected g)
          (λ added. and_then (update_rows props row_index row added) (click_save props))
        ≡ some h)
      × (h.sent ≡ g.sent ++ (insert_command props (insert_head props.params ++ body) ∷ []))
      × (read_rows 1 body ≡ some (ts ∷ [], codes ";"))
      × (h.waiting ≡ [])
      × (h.rows ≡ set (rows_with selected (blank_row props id) g.rows) row_index row)
click_add-update_rows-click_save props key id selected row_index row ts g on k known cells fits
      plain =
    let (added, adds, saves, quiet, rows) = click_add_lem props id selected g on in
    let (body, made, read) =
      insert_row-read_rows props.params key (entries row ∷ []) (ts ∷ []) k known
        (filtered_row-entries row ∙ cells, fits, tt) plain in
    let (h, done, sent, none_left, shown) =
      update_rows-click_save props row_index row (insert_head props.params ++ body) added saves
        made in
    (
      h,
      body,
      rw adds done,
      sent ∙ ap (λ t. t ++ (insert_command props (insert_head props.params ++ body) ∷ [])) quiet,
      read,
      none_left,
      shown ∙ ap (λ t. set t row_index row) rows,
    )

-- Pasting two or more selected rows puts copies of them into the table, but none waits: applying says
-- that it has saved them and sends nothing.
pub click_paste-click_save :
    (props : Props) (id : ℕ) (row second : Row) (selected : List Row) (g : Grid)
    → g.is_paste ≡ true
    → g.waiting ≡ []
    → (h : Grid) × (and_then (click_paste props id (row ∷ second ∷ selected) g) (click_save props)
        ≡ some h)
      × (h.sent ≡ g.sent)
      × (h.rows ≡ insert_at (place_behind row g.rows) (copies id (row ∷ second ∷ selected)) g.rows)
unfolding click_paste paste_from_clipboard push_wait_save_row_data click_save save
    set_wait_save_row_data
click_paste-click_save props id row second selected g on empty =
    let rows = insert_at (place_behind row g.rows) (copies id (row ∷ second ∷ selected)) g.rows in
    (
      set_wait_save_row_data [] (record g { rows = rows }),
      rw (on, if◌then◌else◌, empty) refl,
      refl,
      refl,
    )
