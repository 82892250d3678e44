-- ===== src/Designer/Saving.antt =====
-- What comes to the parent, and so into the SQL, by saving, deleting, and the inputs below the table.
use next_dbm.Base.{
  ℕ, ◌≡◌, refl, ap, ◌∙◌, ◌≢◌, true, false, ◌&&◌, List, [], ◌∷◌, ◌++◌, Text, codes, length, Option,
  some, Bool-cases, inl, inr, if◌then◌else◌, arith,
}
use next_dbm.Designer.Defs.{
  Value, Entries, Key, key_eq, is_true, Row, merge, has_key, find_index, splice_merged, other_rows,
  Panel, must_finish, has_rows, no_key, show_saved, saved_rows, save_valid, cancel, save, del,
  add_field, on_box_change, str, on_sql_change, with_sql, blur_selected, handle_blur, extended_rows,
  handle_input_change,
}
use next_dbm.Designer.Keys.{key_eq_refl, key_eq_iff}
use next_dbm.Designer.Session.Synced.{add_field-free}

-- The first row with the key.
find_index-around :
    (pre : List Row) (item : Row) (post : List Row)
    → has_key item.key pre ≡ false
    → find_index item.key (pre ++ (item ∷ post)) ≡ some (length pre)
find_index-around [] item post h = rw (key_eq_refl item.key, if◌then◌else◌)
find_index-around (x ∷ pre) item post h = ground (arith, find_index-around pre item post)

splice_merged-around :
    (pre : List Row) (item : Row) (post : List Row) (row : Entries)
    → splice_merged (length pre) row (pre ++ (item ∷ post)) ≡ pre ++ (merge item row ∷ post)
splice_merged-around [] item post row = refl
splice_merged-around (x ∷ pre) item post row = ap (x ∷◌) (splice_merged-around pre item post row)

-- Saving the first row with a key, when the form's values are valid, merges them into this row and
-- no other, ends the editing, and hands all rows of the table to the parent.
pub save-around :
    (validate_fields : Entries → Option Entries) (pre : List Row) (item : Row) (post : List Row)
    (row : Entries) (p : Panel)
    → p.rows ≡ pre ++ (item ∷ post)
    → has_key item.key pre ≡ false
    → validate_fields p.form ≡ some row
    → let q = save validate_fields item.key p in
      (q.rows ≡ pre ++ (merge item row ∷ post)) × (q.saved ≡ q.rows) × (q.editing_key ≡ no_key)
unfolding save show_saved
save-around validate_fields pre item post row p e h valid =
    rw (valid, e, save_valid)
      (rw (find_index-around pre item post h, saved_rows)
        (splice_merged-around pre item post row, refl, refl))

other_rows-append :
    (key : Key) (xs ys : List Row)
    → other_rows key (xs ++ ys) ≡ other_rows key xs ++ other_rows key ys
other_rows-append key [] ys = refl
other_rows-append key (x ∷ xs) ys = ground (arith, other_rows-append key xs ys)

other_rows-keeps :
    (key : Key) (item : Row) → key ≢ item.key → other_rows key (item ∷ []) ≡ item ∷ []
other_rows-keeps key item ne = elim (Bool-cases (key_eq key item.key)) [
  | inl e ↦ absurd (ne ((key_eq_iff key item.key).0 e))
  | inr e ↦ rw (e, if◌then◌else◌)
]

-- A row that is added while none is edited, and then given up, is not handed to the parent; but it
-- stays in the table, and is handed over as soon as some other row is deleted.
pub add_field-cancel-del :
    (item other : Row) (p : Panel)
    → p.editing_key ≡ no_key
    → other.key ≢ item.key
    → let q = cancel (add_field item p) in
      (q.saved ≡ p.saved) × ((del other q).saved ≡ other_rows other.key p.rows ++ (item ∷ []))
unfolding cancel del show_saved
add_field-cancel-del item other p idle ne =
    let free : must_finish p ≡ false = ap (λ (k : Key). is_true k && has_rows p.rows) idle in
    let (r, v) = add_field-free item p free in
    (
      v,
      rw (r, other_rows-append other.key p.rows (item ∷ []))
          (ap (other_rows other.key p.rows ++◌) (other_rows-keeps other.key item ne)),
    )

-- The rows of the panel that an input below the table leaves, where the row is found.
extended_rows-around :
    (change : Entries) (pre : List Row) (item : Row) (post rows : List Row) (p : Panel)
    {found : Option ℕ}
    → rows ≡ pre ++ (item ∷ post)
    → found ≡ some (length pre)
    → ((extended_rows found change rows p).selected_key ≡ p.selected_key)
      × ((extended_rows found change rows p).saved ≡ pre ++ (merge item change ∷ post))
unfolding show_saved
extended_rows-around change pre item post rows p e f =
    rw f (rw e (refl, splice_merged-around pre item post change))

-- When another row's box is ticked after the click on `old`, an input below the table still changes
-- the row with the key of `old`, and no other.
pub on_box_change-handle_input_change :
    (key : Key) (t : Text) (v : Value) (old : Row) (pre : List Row) (item : Row) (post : List Row)
    (p : Panel)
    → is_true key ≡ true
    → p.selected_row ≡ some old
    → old.key ≡ item.key
    → p.rows ≡ pre ++ (item ∷ post)
    → has_key item.key pre ≡ false
    → (q : Panel) × (handle_input_change t v (on_box_change key p) ≡ some q)
      × (q.selected_key ≡ key)
      × (q.saved ≡ pre ++ (merge item ((t, v) ∷ []) ∷ post))
unfolding on_box_change handle_input_change show_saved
on_box_change-handle_input_change key t v old pre item post p set sel same e h =
    let (a, b) =
      extended_rows-around ((t, v) ∷ []) pre item post p.rows
        (record p { selected_key = key; selected_row = some (merge old ((t, v) ∷ [])) }) e
        (ap (λ (k : Key). find_index k p.rows) same
          ∙ ap (find_index item.key) e
          ∙ find_index-around pre item post h) in
    rw set (rw sel (_, refl, a, b))

-- A change of the text of a trigger hands to the parent the text from before the change, in the selected
-- trigger and no other; the new text is only shown.
pub on_sql_change-around :
    (new_value targger_sql : Text) (old : Row) (pre : List Row) (item : Row) (post : List Row)
    (p : Panel)
    → p.selected_row ≡ some old
    → old.key ≡ item.key
    → p.rows ≡ pre ++ (item ∷ post)
    → has_key item.key pre ≡ false
    → (q : Panel) × (on_sql_change new_value (targger_sql, p) ≡ some (new_value, q))
      × (q.saved ≡ pre ++ (merge item ((codes "sql", str targger_sql) ∷ []) ∷ post))
unfolding on_sql_change handle_blur show_saved
on_sql_change-around new_value targger_sql old pre item post p sel same e h =
    let (_, b) =
      extended_rows-around ((codes "sql", str targger_sql) ∷ []) pre item post p.rows p e (
        ap (λ (k : Key). find_index k p.rows) same
        ∙ ap (find_index item.key) e
        ∙ find_index-around pre item post h) in
    (
      extended_rows (find_index old.key p.rows) ((codes "sql", str targger_sql) ∷ []) p.rows p,
      ap
          (λ (s : Option Row).
            with_sql new_value (blur_selected s ((codes "sql", str targger_sql) ∷ []) p))
          sel,
      b,
    )
