-- ===== src/Designer/Session/Steps.antt =====
-- The events at FieldPanel.js that its buttons let through, and runs of them.
use next_dbm.Base.{ℕ, ◌≡◌, ◌≢◌, ◌⊎◌, true, false, List, [], Text, Option, some}
use mathlib.Core.List.{Perm}
use next_dbm.Designer.Defs.{
  Value, Entries, Key, Row, has_key, Panel, no_key, is_editing, handle_change, show_saved, cancel,
  save, del, on_drag_end, add_field, edit_field, on_row_click, on_box_change, handle_input_change,
}
use next_dbm.Designer.Keys.{Distinct}

-- The form's `validateFields`, which rejects or gives the values, and the library's `arrayMove`,
-- which documents the same items in another order.
pub record Lib : Type 0 where
  pub validate_fields : Entries → Option Entries
  pub array_move : List Row → Option ℕ → Option ℕ → List Row
  pub move_perm :
      (rows : List Row) (from to : Option ℕ) → rows ≢ [] → Perm rows (array_move rows from to)

-- A new row has the time as its key. A row's buttons are shown only at rows of the table: those to
-- edit and to delete while no row is edited, those to save, to give up and to delete at the row
-- under edit.
pub data Step (lib : Lib) (p : Panel) : Panel → Type 0 where
  adds : (item : Row) → has_key item.key p.rows ≡ false → Step lib p (add_field item p)
  edits :
      (item : Row)
      → has_key item.key p.rows ≡ true
      → p.editing_key ≡ no_key
      → Step lib p (edit_field item p)
  types : (data_index : Text) (value : Value) → Step lib p (handle_change data_index value p)
  cancels :
      (item : Row)
      → has_key item.key p.rows ≡ true
      → is_editing item p ≡ true
      → Step lib p (cancel p)
  saves :
      (item : Row)
      → has_key item.key p.rows ≡ true
      → is_editing item p ≡ true
      → Step lib p (save lib.validate_fields item.key p)
  deletes :
      (item : Row)
      → has_key item.key p.rows ≡ true
      → (p.editing_key ≡ no_key) ⊎ (is_editing item p ≡ true)
      → Step lib p (del item p)
  drags :
      (active over : Key)
      → has_key active p.rows ≡ true
      → Step lib p (on_drag_end lib.array_move active over p)
  clicks : (item : Row) → Step lib p (on_row_click item p)
  ticks : (key : Key) → Step lib p (on_box_change key p)
  extends :
      (dist_type : Text) (value : Value) {p' : Panel}
      → handle_input_change dist_type value p ≡ some p'
      → Step lib p p'

-- What the user does.
pub data Steps (lib : Lib) (p : Panel) : Panel → Type 0 where
  here : Steps lib p p
  next : {q r : Panel} → Steps lib p q → Step lib q r → Steps lib p r

-- A run in which the table's structure may also be read again from the server.
pub data Run (lib : Lib) (p : Panel) : Panel → Type 0 where
  start : Run lib p p
  step : {q r : Panel} → Run lib p q → Step lib q r → Run lib p r
  reload :
      {q : Panel} (rows : List Row) → Run lib p q → Distinct rows → Run lib p (show_saved rows q)
