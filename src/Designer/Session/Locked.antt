-- ===== src/Designer/Session/Locked.antt =====
-- What deleting the row under edit does to the buttons of the other rows.
use next_dbm.Base.{
  ℕ, suc, ◌≡◌, refl, ap, sym, ◌∙◌, ◌≢◌, inl, inr, true, false, List, [], ◌∷◌, Option, none, some,
  Bool-cases, length, of_some, if◌then◌else◌, ◌&&◌, arith,
}
use mathlib.Core.Logic.{∥∥₁_elim}
use mathlib.Core.Bool.{Bool-set}
use next_dbm.Designer.Session.Synced.{not-empty}
use mathlib.Core.List.{Perm}
use native.Mathlib.Nat.{ℕ_set}
use next_dbm.Designer.Defs.{
  Entries, Key, key_eq, is_true, Row, has_key, find_index, other_rows, Panel, has_rows, must_finish,
  no_key, is_editing, show_saved, handle_change, del, on_drag_end, add_selected, add_field,
  on_row_click, on_box_change, extended_rows, change_selected, unless_rows, handle_input_change,
}
use next_dbm.Designer.Keys.{
  key_eq_iff, has_key-other_rows_self, has_key-splice_merged, has_key-perm, length-perm,
  length-splice_merged,
}
use next_dbm.Designer.Session.Steps.{Lib, Step, Steps}

has_rows_of_length : (m : ℕ) (rows : List Row) → length rows ≡ suc m → has_rows rows ≡ true
has_rows_of_length m [] e = absurd (omega (arith, e))
has_rows_of_length m (x ∷ rows) e = refl

length_of_has_rows : (rows : List Row) → has_rows rows ≡ true → (m : ℕ) × (length rows ≡ suc m)
length_of_has_rows [] h = absurd (cc)
length_of_has_rows (x ∷ rows) h = (length rows, refl)

-- A row is under edit that is not there, among others.
record IsLocked (k : Key) (m : ℕ) (q : Panel) : Type 0 where
  editing : q.editing_key ≡ k
  missing : has_key k q.rows ≡ false
  count : length q.rows ≡ suc m

module _ (k : Key) (m : ℕ) (set : is_true k ≡ true) where
  absent :
      (item : Row) {q : Panel}
      → IsLocked k m q
      → has_key item.key q.rows ≡ true
      → is_editing item q ≢ true
  absent item {q} l has e =
      let same : item.key ≡ k = (key_eq_iff item.key q.editing_key).0 e ∙ l.editing in
      cc (ap (λ (t : Key). has_key t q.rows) same, l.missing)

  not_idle : {q : Panel} → IsLocked k m q → q.editing_key ≢ no_key
  not_idle l e = let same : k ≡ no_key = sym l.editing ∙ e in cc set

  busy : {q : Panel} → IsLocked k m q → is_true q.editing_key ≡ true
  busy l = ap is_true l.editing ∙ set

  unless_rows-IsLocked :
      (rows : List Row) (p : Panel) {q : Panel}
      → unless_rows rows p ≡ some q
      → IsLocked k m p
      → IsLocked k m q
  unless_rows-IsLocked [] p e l = of_some (IsLocked k m) refl e l
  unless_rows-IsLocked (_ ∷ _) p e l = absurd (cc)

  extended_rows-IsLocked :
      (found : Option ℕ) (change : Entries) (p q : Panel)
      → (q.rows ≡ p.rows) × (q.editing_key ≡ p.editing_key)
      → IsLocked k m p
      → IsLocked k m (extended_rows found change p.rows q)
  unfolding show_saved
  extended_rows-IsLocked none change p q e l = record {
    editing = e.1 ∙ l.editing;
    missing = rw e.0 l.missing;
    count = rw e.0 l.count;
  }
  extended_rows-IsLocked (some i) change p q e l = record {
    editing = e.1 ∙ l.editing;
    missing = has_key-splice_merged k i change p.rows ∙ l.missing;
    count = length-splice_merged i change p.rows ∙ l.count;
  }

  change_selected-IsLocked :
      (selected : Option Row) (change : Entries) (p : Panel) {q : Panel}
      → change_selected selected change p ≡ some q
      → IsLocked k m p
      → IsLocked k m q
  change_selected-IsLocked none change p e l =
      unless_rows-IsLocked p.rows _ e
        (record { editing = l.editing; missing = l.missing; count = l.count })
  change_selected-IsLocked (some item) change p e l =
      of_some (IsLocked k m) refl e (extended_rows-IsLocked _ change p _ (refl, refl) l)

  module _ (lib : Lib) where
    open lib use {array_move, move_perm}

    on_drag_end-IsLocked :
        (active over : Key) (p : Panel)
        → has_key active p.rows ≡ true
        → IsLocked k m p
        → IsLocked k m (on_drag_end array_move active over p)
    unfolding on_drag_end
    on_drag_end-IsLocked active over p has l = elim (Bool-cases (key_eq active over)) [
      | inl e ↦ rw (e, on_drag_end) l
      | inr e ↦
          rw (e, on_drag_end)
            (record {
              editing = l.editing;
              missing = ∥∥₁_elim (moved) (Bool-set _ _) (λ d. sym (has_key-perm k d) ∙ l.missing);
              count = ∥∥₁_elim (moved) (ℕ_set _ _) (λ d. sym (length-perm d) ∙ l.count);
            })
    ]
      where
        moved : Perm p.rows (array_move p.rows (find_index active p.rows) (find_index over p.rows))
        moved = move_perm p.rows _ _ (not-empty active p.rows has)

    Step-IsLocked : {p q : Panel} → Step lib p q → IsLocked k m p → IsLocked k m q
    unfolding on_box_change handle_change handle_input_change add_field add_selected on_row_click
    Step-IsLocked {p} (Step.adds item new) l = rw (must_finish_lem, if◌then◌else◌) l
      where
        must_finish_lem : must_finish p ≡ true
        must_finish_lem = rw (busy l, ◌&&◌) (has_rows_of_length m p.rows l.count)
    Step-IsLocked (Step.edits item _ idle) l = absurd (not_idle l idle)
    Step-IsLocked (Step.types i v) l = record {
      editing = l.editing;
      missing = l.missing;
      count = l.count;
    }
    Step-IsLocked (Step.cancels item has editing) l = absurd (absent item l has editing)
    Step-IsLocked (Step.saves item has editing) l = absurd (absent item l has editing)
    Step-IsLocked (Step.deletes item has (inl idle)) l = absurd (not_idle l idle)
    Step-IsLocked (Step.deletes item has (inr editing)) l = absurd (absent item l has editing)
    Step-IsLocked {p} (Step.drags a o has) l = on_drag_end-IsLocked a o p has l
    Step-IsLocked {p} (Step.clicks item) l = rw (busy l, if◌then◌else◌) l
    Step-IsLocked (Step.ticks key) l = record {
      editing = l.editing;
      missing = l.missing;
      count = l.count;
    }
    Step-IsLocked {p} (Step.extends t v e) l = change_selected-IsLocked p.selected_row _ p e l

    Steps-IsLocked : {p q : Panel} → Steps lib p q → IsLocked k m p → IsLocked k m q
    Steps-IsLocked Steps.here l = l
    Steps-IsLocked (Steps.next steps st) l = Step-IsLocked st (Steps-IsLocked steps l)

del-IsLocked :
    (item : Row) (p : Panel)
    → is_editing item p ≡ true
    → has_rows (other_rows item.key p.rows) ≡ true
    → (m : ℕ) × (length (other_rows item.key p.rows) ≡ suc m) × (IsLocked item.key m (del item p))
unfolding del show_saved
del-IsLocked item p e h =
    let (m, count) = length_of_has_rows _ h in
    (
      m,
      count,
      record {
        editing = sym ((key_eq_iff item.key p.editing_key).0 e);
        missing = has_key-other_rows_self item.key p.rows;
        count = count;
      },
    )

-- When the row under edit is deleted and another row is left, then, whatever the user does with the
-- panel, the deleted row's key stays the key under edit while no row has it, and no row is added or
-- deleted: the buttons to edit, save, give up and delete stay away for good.
pub del-Steps :
    (lib : Lib) (item : Row) (p : Panel) {q : Panel}
    → is_true item.key ≡ true
    → is_editing item p ≡ true
    → has_rows (other_rows item.key p.rows) ≡ true
    → Steps lib (del item p) q
    → (q.editing_key ≡ item.key)
      × (has_key item.key q.rows ≡ false)
      × (length q.rows ≡ length (other_rows item.key p.rows))
del-Steps lib item p set editing others steps =
    let (m, count, locked) = del-IsLocked item p editing others in
    let l = Steps-IsLocked item.key m set lib steps locked in
    (l.editing, l.missing, l.count ∙ sym count)
