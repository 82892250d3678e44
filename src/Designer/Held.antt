-- ===== src/Designer/Held.antt =====
-- A panel that has added a row holds it until it is saved or given up.
use next_dbm.Base.{◌≡◌, refl, Bool, true, false, not, Bool-cases, inl, inr, List, [], ◌∷◌, ◌++◌}
use next_dbm.Designer.Defs.{
  Entries, key_eq, is_true, index_defaults, new_field_defaults, trigger_defaults,
  foreign_key_defaults, Row, Panel, has_rows, must_finish, add, add_selected, add_field, add_index,
  add_foreign_key, add_trigger, on_select_change, on_index_select_change,
}

-- The row that is added is under edit, and so has to be finished.
has_rows-append : (rows : List Row) (item : Row) → has_rows (rows ++ (item ∷ [])) ≡ true
has_rows-append [] item = refl
has_rows-append (r ∷ rows) item = refl

-- A panel whose row has to be finished, and from which the parent got nothing since `p`.
abbrev pub Held : Panel → Panel → Type 0
Held p q = (must_finish q ≡ true) × (q.saved ≡ p.saved)

add-Held :
    (defaults : Entries) (item : Row) (p : Panel)
    → is_true item.key ≡ true
    → Held p (add defaults item p)
unfolding add
add-Held defaults item p h = elim (Bool-cases (must_finish p)) [
  | inl e ↦ rw e (e, refl)
  | inr e ↦ rw e (rw (h, has_rows-append p.rows item) refl, refl)
]

on_select_change-Held :
    (item : Row) (selected : Bool) (p q : Panel)
    → Held p q
    → Held p (on_select_change item selected q)
unfolding on_select_change
on_select_change-Held item true p q h = h
on_select_change-Held item false p q h = h

on_index_select_change-Held :
    (item : Row) (selected : Bool) (p q : Panel)
    → Held p q
    → Held p (on_index_select_change item selected q)
unfolding on_index_select_change
on_index_select_change-Held item true p q h = h
on_index_select_change-Held item false p q h = elim (Bool-cases (key_eq q.selected_key item.key)) [
  | inl e ↦ rw e h
  | inr e ↦ rw e h
]

add_selected-Held :
    (defaults : Entries) (item : Row) (p : Panel)
    → is_true item.key ≡ true
    → Held p (add_selected defaults item p)
unfolding add_selected
add_selected-Held defaults item p h = elim (Bool-cases (must_finish p)) [
  | inl e ↦ rw e (e, refl)
  | inr e ↦ rw e (
      on_select_change-Held item (not (key_eq p.selected_key item.key)) p (add defaults item p)
        (add-Held defaults item p h))
]

pub add_index-Held : (item : Row) (p : Panel) → is_true item.key ≡ true → Held p (add_index item p)
unfolding add_index
add_index-Held item p h = elim (Bool-cases (must_finish p)) [
  | inl e ↦ rw e (e, refl)
  | inr e ↦ rw e (
      on_index_select_change-Held item (not (key_eq p.selected_key item.key)) p
        (add index_defaults item p) (add-Held index_defaults item p h))
]

-- Where a row has to be finished, no panel adds one.
pub add_field-held : (item : Row) (p : Panel) → must_finish p ≡ true → add_field item p ≡ p
unfolding add_field add_selected
add_field-held item p h = rw h refl

pub add_trigger-held : (item : Row) (p : Panel) → must_finish p ≡ true → add_trigger item p ≡ p
unfolding add_trigger add_selected
add_trigger-held item p h = rw h refl

pub add_index-held : (item : Row) (p : Panel) → must_finish p ≡ true → add_index item p ≡ p
unfolding add_index
add_index-held item p h = rw h refl

pub add_foreign_key-held :
    (item : Row) (p : Panel) → must_finish p ≡ true → add_foreign_key item p ≡ p
unfolding add_foreign_key add
add_foreign_key-held item p h = rw h refl

pub add_field-Held : (item : Row) (p : Panel) → is_true item.key ≡ true → Held p (add_field item p)
unfolding add_field
add_field-Held = add_selected-Held new_field_defaults

pub add_trigger-Held :
    (item : Row) (p : Panel) → is_true item.key ≡ true → Held p (add_trigger item p)
unfolding add_trigger
add_trigger-Held = add_selected-Held trigger_defaults

pub add_foreign_key-Held :
    (item : Row) (p : Panel) → is_true item.key ≡ true → Held p (add_foreign_key item p)
unfolding add_foreign_key
add_foreign_key-Held = add-Held foreign_key_defaults
