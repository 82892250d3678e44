-- ===== src/Designer/Board.antt =====
-- Adding rows in the designer, and what its tab is for.
use next_dbm.Base.{
  ℕ, ◌≡◌, refl, ap, sym, ◌∙◌, true, false, ◌==◌, Bool-cases, inl, inr, List, [], ◌∷◌, ◌++◌, Text,
  text_eq, codes, free_of, append_assoc,
}
use next_dbm.Utils.Cut.{cut_string_at_dash-around}
use next_dbm.Answers.Defs.{remove_first}
use next_dbm.Explorer.Saved.{remove_first-start}
use next_dbm.Designer.Defs.{
  stamp, is_true, new_field, new_index, new_foreign_key, new_trigger, Row, Panel, add_field,
  add_index, add_foreign_key, add_trigger, Board, handle_add, action_type,
}
use next_dbm.Designer.Held.{
  add_field-Held, add_field-held, add_trigger-Held, add_trigger-held, add_foreign_key-Held,
  add_foreign_key-held, add_index-Held, add_index-held,
}

-- The rows that the SQL is made of.
abbrev pub saved_of : Board → List (List Row)
saved_of b =
    b.field_panel.saved ∷ b.index_panel.saved ∷ b.foreign_key_panel.saved ∷ b.trigger_panel.saved
    ∷ []

is_true-stamp : (time : ℕ) → (time == 0) ≡ false → is_true (stamp time) ≡ true
is_true-stamp time h = rw h refl

-- After a row is added, the SQL is made of the same rows, and adding again changes nothing.
abbrev Twice : (time later : ℕ) → Board → Type 0
Twice time later b =
    (saved_of (handle_add time b) ≡ saved_of b)
    × (handle_add later (handle_add time b) ≡ handle_add time b)

field_panel-Twice :
    (time later : ℕ) (b : Board)
    → (time == 0) ≡ false
    → text_eq b.tabss_index (codes "1") ≡ true
    → Twice time later b
unfolding handle_add
field_panel-Twice time later b h e =
    let held = add_field-Held (new_field time) b.field_panel (is_true-stamp time h) in
    rw e (
      ap
          (λ (s : List Row).
            saved_of (record b { field_panel = record b.field_panel { saved = s } }))
          held.1,
      rw e (
          ap (λ (q : Panel). record b { field_panel = q })
            (add_field-held (new_field later) (add_field (new_field time) b.field_panel) held.0)),
    )

index_panel-Twice :
    (time later : ℕ) (b : Board)
    → (time == 0) ≡ false
    → text_eq b.tabss_index (codes "1") ≡ false
    → text_eq b.tabss_index (codes "2") ≡ true
    → Twice time later b
unfolding handle_add
index_panel-Twice time later b h e1 e =
    let held = add_index-Held (new_index time) b.index_panel (is_true-stamp time h) in
    rw (e1, e)
      (
        ap
            (λ (s : List Row).
              saved_of (record b { index_panel = record b.index_panel { saved = s } }))
            held.1,
        rw (e1, e)
            (ap (λ (q : Panel). record b { index_panel = q })
              (add_index-held (new_index later) (add_index (new_index time) b.index_panel) held.0)),
      )

foreign_key_panel-Twice :
    (time later : ℕ) (b : Board)
    → (time == 0) ≡ false
    → text_eq b.tabss_index (codes "1") ≡ false
    → text_eq b.tabss_index (codes "2") ≡ false
    → text_eq b.tabss_index (codes "3") ≡ true
    → Twice time later b
unfolding handle_add
foreign_key_panel-Twice time later b h e1 e2 e =
    let held =
      add_foreign_key-Held (new_foreign_key time) b.foreign_key_panel (is_true-stamp time h) in
    rw (e1, e2, e)
      (
        ap
            (λ (s : List Row).
              saved_of (record b { foreign_key_panel = record b.foreign_key_panel { saved = s } }))
            held.1,
        rw (e1, e2, e)
            (ap (λ (q : Panel). record b { foreign_key_panel = q })
              (add_foreign_key-held (new_foreign_key later)
                (add_foreign_key (new_foreign_key time) b.foreign_key_panel) held.0)),
      )

trigger_panel-Twice :
    (time later : ℕ) (b : Board)
    → (time == 0) ≡ false
    → text_eq b.tabss_index (codes "1") ≡ false
    → text_eq b.tabss_index (codes "2") ≡ false
    → text_eq b.tabss_index (codes "3") ≡ false
    → text_eq b.tabss_index (codes "4") ≡ true
    → Twice time later b
unfolding handle_add
trigger_panel-Twice time later b h e1 e2 e3 e =
    let held = add_trigger-Held (new_trigger time) b.trigger_panel (is_true-stamp time h) in
    rw (e1, e2, e3, e)
      (
        ap
            (λ (s : List Row).
              saved_of (record b { trigger_panel = record b.trigger_panel { saved = s } }))
            held.1,
        rw (e1, e2, e3, e)
            (ap (λ (q : Panel). record b { trigger_panel = q })
              (add_trigger-held (new_trigger later) (add_trigger (new_trigger time) b.trigger_panel)
                held.0)),
      )

no_panel-Twice :
    (time later : ℕ) (b : Board)
    → text_eq b.tabss_index (codes "1") ≡ false
    → text_eq b.tabss_index (codes "2") ≡ false
    → text_eq b.tabss_index (codes "3") ≡ false
    → text_eq b.tabss_index (codes "4") ≡ false
    → Twice time later b
unfolding handle_add
no_panel-Twice time later b e1 e2 e3 e4 = rw (e1, e2, e3, e4) (refl, rw (e1, e2, e3, e4) refl)

-- A row that is added, at a time after 0, changes nothing of which the SQL is made; and adding once more,
-- whenever this is, changes nothing at all: the row has to be saved or given up before.
pub handle_add-twice :
    (time later : ℕ) (b : Board)
    → (time == 0) ≡ false
    → (saved_of (handle_add time b) ≡ saved_of b)
      × (handle_add later (handle_add time b) ≡ handle_add time b)
handle_add-twice time later b h = elim (Bool-cases (text_eq b.tabss_index (codes "1"))) [
  | inl e ↦ field_panel-Twice time later b h e
  | inr e1 ↦ elim (Bool-cases (text_eq b.tabss_index (codes "2"))) [
    | inl e ↦ index_panel-Twice time later b h e1 e
    | inr e2 ↦ elim (Bool-cases (text_eq b.tabss_index (codes "3"))) [
      | inl e ↦ foreign_key_panel-Twice time later b h e1 e2 e
      | inr e3 ↦ elim (Bool-cases (text_eq b.tabss_index (codes "4"))) [
        | inl e ↦ trigger_panel-Twice time later b h e1 e2 e3 e
        | inr e4 ↦ no_panel-Twice time later b e1 e2 e3 e4
      ]
    ]
  ]
]

-- What a tab of the designer is for is what its key has behind the last dash.
pub action_type-around : (k w : Text) → free_of 45 w ≡ true → action_type (k ++ (45 ∷ w)) ≡ w
unfolding action_type
action_type-around k w h =
    ap (λ (s : Text). remove_first (s ++ (45 ∷ [])) (k ++ (45 ∷ w)))
      (cut_string_at_dash-around k w h)
    ∙ ap (remove_first (k ++ (45 ∷ []))) (sym (append_assoc k (45 ∷ []) w))
    ∙ remove_first-start k w
