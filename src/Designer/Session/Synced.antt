-- ===== src/Designer/Session/Synced.antt =====
-- What the parent holds is shown, in whatever order the user works.
use next_dbm.Base.{
  ℕ, ◌≡◌, refl, ◌∙◌, ◌≢◌, inl, inr, true, false, List, [], ◌∷◌, ◌++◌, Option, none, some,
  Bool-cases, Bool, not, of_some,
}
use mathlib.Core.Logic.{∥∥₁_elim}
use mathlib.Core.List.{Mem, Subset, Perm}
use mathlib.Core.List
use mathlib.Core.List.Perm
use next_dbm.Designer.Defs.{
  Entries, Key, key_eq, is_true, Row, has_key, find_index, Panel, must_finish, handle_change,
  show_saved, saved_rows, save_valid, cancel, save, del, add, on_drag_end, add_selected,
  new_field_defaults, add_field, edit, edit_field, on_select_change, on_row_click, on_box_change,
  extended_rows, change_selected, unless_rows, handle_input_change,
}
use next_dbm.Designer.Keys.{
  Distinct, Distinct-snoc, Distinct-other_rows, Distinct-splice_merged, Distinct-perm,
  Distinct-prop, find_index-has_key,
}
use next_dbm.Designer.Session.Steps.{Lib, Step, Run}

-- No two rows have one key, and the rows that the parent holds stand in the table.
pub record IsSynced (p : Panel) : Type 0 where
  pub distinct : Distinct p.rows
  pub shown : Subset p.saved p.rows

pub show_saved-IsSynced :
    (rows : List Row) (p : Panel) → Distinct rows → IsSynced (show_saved rows p)
unfolding show_saved
show_saved-IsSynced rows p d = record { distinct = d; shown = List.Subset-refl rows }

-- Only the rows count.
rows-IsSynced : {p q : Panel} → (q.rows ≡ p.rows) × (q.saved ≡ p.saved) → IsSynced p → IsSynced q
rows-IsSynced e s = record { distinct = rw e.0 s.distinct; shown = rw e.0 (rw e.1 s.shown) }

on_select_change-keeps :
    (item : Row) (selected : Bool) (p : Panel)
    → ((on_select_change item selected p).rows ≡ p.rows)
      × ((on_select_change item selected p).saved ≡ p.saved)
unfolding on_select_change
on_select_change-keeps item true p = (refl, refl)
on_select_change-keeps item false p = (refl, refl)

on_row_click-keeps :
    (item : Row) (p : Panel)
    → ((on_row_click item p).rows ≡ p.rows) × ((on_row_click item p).saved ≡ p.saved)
unfolding on_row_click
on_row_click-keeps item p = elim (Bool-cases (is_true p.editing_key)) [
  | inl e ↦ rw (e, on_row_click) (refl, refl)
  | inr e ↦ rw (e, on_row_click) (on_select_change-keeps item _ p)
]

add-keeps :
    (defaults : Entries) (item : Row) (p : Panel)
    → must_finish p ≡ false
    → ((add defaults item p).rows ≡ p.rows ++ (item ∷ [])) × ((add defaults item p).saved ≡ p.saved)
unfolding add
add-keeps defaults item p h = rw h (refl, refl)

pub add_field-free :
    (item : Row) (p : Panel)
    → must_finish p ≡ false
    → ((add_field item p).rows ≡ p.rows ++ (item ∷ [])) × ((add_field item p).saved ≡ p.saved)
unfolding add_field add_selected
add_field-free item p e =
    let added = add new_field_defaults item p in
    let (a, b) = on_select_change-keeps item (not (key_eq p.selected_key item.key)) added in
    let (c, d) = add-keeps new_field_defaults item p e in rw e (a ∙ c, b ∙ d)

-- While a row is edited, `add` does nothing but to say so.
add_field-busy : (item : Row) (p : Panel) → must_finish p ≡ true → add_field item p ≡ p
unfolding add_field add_selected
add_field-busy item p e = rw e

pub not-empty : (key : Key) (rows : List Row) → has_key key rows ≡ true → rows ≢ []
not-empty key [] h e = cc
not-empty key (x ∷ rows) h e = cc

extended_rows-IsSynced :
    (found : Option ℕ) (change : Entries) (p q : Panel)
    → (q.rows ≡ p.rows) × (q.saved ≡ p.saved)
    → IsSynced p
    → IsSynced (extended_rows found change p.rows q)
extended_rows-IsSynced none change p q e s = rows-IsSynced e s
extended_rows-IsSynced (some i) change p q e s =
    show_saved-IsSynced _ q (Distinct-splice_merged i change p.rows s.distinct)

unless_rows-IsSynced :
    (rows : List Row) (p : Panel) {q : Panel}
    → unless_rows rows p ≡ some q
    → IsSynced p
    → IsSynced q
unless_rows-IsSynced [] p e s = of_some IsSynced refl e s
unless_rows-IsSynced (_ ∷ _) p e s = absurd (cc)

change_selected-IsSynced :
    (selected : Option Row) (change : Entries) (p : Panel) {q : Panel}
    → change_selected selected change p ≡ some q
    → IsSynced p
    → IsSynced q
change_selected-IsSynced none change p e s =
    unless_rows-IsSynced p.rows _ e (rows-IsSynced (refl, refl) s)
change_selected-IsSynced (some item) change p e s =
    of_some IsSynced refl e (extended_rows-IsSynced _ change p _ (refl, refl) s)

save_valid-IsSynced :
    (item : Row) (row : Option Entries) (p : Panel)
    → has_key item.key p.rows ≡ true
    → IsSynced p
    → IsSynced (save_valid item.key row p)
save_valid-IsSynced item none p has s = s
save_valid-IsSynced item (some row) p has s =
    let (i, found) = find_index-has_key item.key p.rows has in
    show_saved-IsSynced _ _
      (rw (found, saved_rows) (Distinct-splice_merged i row p.rows s.distinct))

module _ (lib : Lib) where
  open lib use {array_move, move_perm}

  on_drag_end-IsSynced :
      (active over : Key) (p : Panel)
      → has_key active p.rows ≡ true
      → IsSynced p
      → IsSynced (on_drag_end array_move active over p)
  unfolding on_drag_end
  on_drag_end-IsSynced active over p has s = elim (Bool-cases (key_eq active over)) [
    | inl e ↦ rw (e, on_drag_end) s
    | inr e ↦
        rw (e, on_drag_end)
          (record {
            distinct = ∥∥₁_elim (moved) (Distinct-prop _) (λ d. Distinct-perm d s.distinct);
            shown = List.Subset-trans s.shown (Perm.subset moved);
          })
  ]
    where
      moved : Perm p.rows (array_move p.rows (find_index active p.rows) (find_index over p.rows))
      moved = move_perm p.rows _ _ (not-empty active p.rows has)

  pub Step-IsSynced : {p q : Panel} → Step lib p q → IsSynced p → IsSynced q
  unfolding edit_field edit cancel handle_change on_box_change save del handle_input_change
  Step-IsSynced {p} (Step.adds item new) s = elim (Bool-cases (must_finish p)) [
    | inl e ↦ rw (add_field-busy item p e) s
    | inr e ↦
        let (r, v) = add_field-free item p e in
        record {
          distinct = rw r (Distinct-snoc p.rows item new s.distinct);
          shown = rw (r, v) (List.Subset-trans s.shown (List.subset-append_left p.rows _));
        }
  ]
  Step-IsSynced (Step.edits item _ _) s = rows-IsSynced (refl, refl) s
  Step-IsSynced (Step.types i v) s = rows-IsSynced (refl, refl) s
  Step-IsSynced (Step.cancels _ _ _) s = rows-IsSynced (refl, refl) s
  Step-IsSynced {p} (Step.saves item has _) s = save_valid-IsSynced item _ p has s
  Step-IsSynced {p} (Step.deletes item _ _) s =
      show_saved-IsSynced _ p (Distinct-other_rows item.key p.rows s.distinct)
  Step-IsSynced {p} (Step.drags active over has) s = on_drag_end-IsSynced active over p has s
  Step-IsSynced {p} (Step.clicks item) s = rows-IsSynced (on_row_click-keeps item p) s
  Step-IsSynced (Step.ticks key) s = rows-IsSynced (refl, refl) s
  Step-IsSynced {p} (Step.extends t v e) s = change_selected-IsSynced p.selected_row _ p e s

-- Whatever the user does at a panel, and whenever its rows are read again, no two rows of the table
-- have one key, and every row from which the SQL is made stands in the table with the same values;
-- given that new rows and rows that are read have keys of their own.
pub Run-IsSynced : (lib : Lib) {p q : Panel} → Run lib p q → IsSynced p → IsSynced q
Run-IsSynced lib Run.start s = s
Run-IsSynced lib (Run.step run st) s = Step-IsSynced lib st (Run-IsSynced lib run s)
Run-IsSynced lib (Run.reload rows run d) s = show_saved-IsSynced rows _ d
