-- ===== src/Grid/Tests.antt =====
-- Runs of the table on a small result, and the theorems at them.
use next_dbm.Base.{
  number_text, ℕ, ◌≡◌, refl, true, false, List, [], ◌∷◌, ◌++◌, Text, codes, some, and_then, arith,
}
use next_dbm.Mysql.Defs.{
  Value, Column, primary_key, column_type, insert_head, insert_row, insert_tuple, insert_values,
  filtered_row, tuple_text, quoted, escape_quotes, delete_head, number_or_zero, number_print,
  integer_print,
}
use next_dbm.Mysql.RowReader.{read_rows}
use next_dbm.Grid.Defs.{
  Row, page, command, Props, Grid, set_wait_save_row_data, handle_page_change, refresh,
  on_select_row, entries, push_wait_save_row_data, add_row_data, update_rows, blank_row, answer_key,
  click_add, click_delete, click_save,
}
use next_dbm.Grid.Steps.{Step, Run}
use next_dbm.Grid.Guards.{IsGuarded, Run-IsGuarded}
use next_dbm.Grid.Rows.{click_delete-Keys}
use next_dbm.Grid.Inserting.{insert_command, click_add-update_rows-click_save}

abbrev id_column : Column
id_column = record { field = codes "id"; type = codes "int"; key = codes "PRI" }

abbrev name_column : Column
name_column = record { field = codes "name"; type = codes "text"; key = [] }

abbrev title_column : Column
title_column = record { field = codes "title"; type = codes "text"; key = codes "PRI" }

-- A table of an id and a name.
abbrev props : Props
props = record {
  tab_key = codes "t";
  params = record {
    database = codes "shop";
    table_name = codes "item";
    table_struct = id_column ∷ name_column ∷ [];
    columns = codes "id" ∷ codes "name" ∷ [];
  };
  sql_command = codes "select * from item;";
  result_page = 1;
  page_size = 10;
}

-- A table of titles.
abbrev titles : Props
titles = record props {
  params = record {
    database = codes "shop";
    table_name = codes "book";
    table_struct = title_column ∷ [];
    columns = codes "title" ∷ [];
  };
}

abbrev row_of : ℕ → List Value → Row
row_of id cells = record { id = id; cells = cells; row_index = Value.null }

abbrev first : Row
first = row_of 1 (Value.text (codes "1") ∷ Value.text (codes "pen") ∷ [])

abbrev second : Row
second = row_of 2 (Value.text (codes "2") ∷ Value.text (codes "ink") ∷ [])

abbrev grid : Grid
grid = record {
  rows = first ∷ second ∷ [];
  old_row = [];
  waiting = [];
  is_add = true;
  is_delete = false;
  is_copy = false;
  is_paste = false;
  is_save = false;
  current_page = 1;
  sent = [];
}

selected_grid : (on_select_row grid).is_delete ≡ true
unfolding on_select_row
selected_grid = refl

refreshed : (refresh props grid).sent ≡ page (codes "select * from item;") 1 10 ∷ []
unfolding refresh handle_page_change
refreshed = refl

-- Applying with nothing that waits sends nothing.
saved_nothing : click_save props grid ≡ some grid
unfolding click_save
saved_nothing = refl

abbrev added : Grid
added =
    set_wait_save_row_data (blank_row props 3 ∷ [])
      (record grid { rows = first ∷ second ∷ blank_row props 3 ∷ [] })

adding : click_add props 3 [] grid ≡ some added
unfolding click_add add_row_data push_wait_save_row_data set_wait_save_row_data
adding = refl

-- A row is selected and copied, another is added, and the page is changed while it waits.
session : Run props grid (handle_page_change props 2 10 added)
session = Run.step (Run.step Run.start (Step.adds 3 [] adding)) (Step.pages 2 10)

Run-IsGuarded_example : IsGuarded (handle_page_change props 2 10 added)
Run-IsGuarded_example = Run-IsGuarded props session tt

abbrev deleting : Grid
deleting = record grid { is_delete = true }

click_delete-Keys_example :
    (h : Grid) × (click_delete props true (second ∷ []) deleting ≡ some h)
    × (h.rows ≡ first ∷ [])
    × (h.sent
        ≡ command
            (answer_key props (codes "-deleteRow"))
            (delete_head props.params id_column ++ (codes "2" ++ codes ");"))
          ∷ [])
    × (h.is_delete ≡ false)
unfolding primary_key
click_delete-Keys_example =
    click_delete-Keys props id_column [] (codes "name" ∷ []) second [] (codes "2" ∷ []) deleting
      refl refl refl refl refl (refl, refl, tt)

abbrev title_row : Row
title_row = row_of 3 (Value.text (codes "it's") ∷ [])

click_add-update_rows-click_save_example :
    (h : Grid) × (body : Text) × (and_then
        (click_add titles 3 [] grid)
        (λ added'. and_then (update_rows titles 2 title_row added') (click_save titles))
      ≡ some h)
    × (h.sent ≡ insert_command titles (insert_head titles.params ++ body) ∷ [])
    × (read_rows 1 body ≡ some ((codes "it's" ∷ []) ∷ [], codes ";"))
    × (h.waiting ≡ [])
    × (h.rows ≡ first ∷ second ∷ title_row ∷ [])
unfolding primary_key column_type
click_add-update_rows-click_save_example =
    click_add-update_rows-click_save titles title_column 3 [] 2 title_row (codes "it's" ∷ []) grid
      refl refl refl refl (omega arith) refl

abbrev insert_second : Text
insert_second = codes "INSERT INTO `shop`.`item` (`id`, `name`) VALUES (2, 'oil');"

abbrev oil : Row
oil = row_of 2 (Value.text (codes "2") ∷ Value.text (codes "oil") ∷ [])

inserts_second : insert_row props.params (entries oil ∷ []) ≡ some insert_second
unfolding insert_row primary_key column_type insert_tuple insert_values filtered_row tuple_text
    quoted escape_quotes insert_head number_or_zero number_text number_print integer_print
inserts_second = refl

abbrev pasting : Grid
pasting = record grid { is_paste = true }
