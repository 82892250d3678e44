-- ===== src/Tabs/Order.antt =====
-- Reordering the tabs by the mouse, and walking through them.
use next_dbm.Base.{
  ℕ, ◌≡◌, ◌≢◌, refl, sym, ap, subst, ◌∙◌, true, false, List, [], ◌∷◌, Text, text_eq, Option,
  Bool-cases, inl, inr, arith,
}
use mathlib.Core.Bool.{Bool-set}
use mathlib.Core.HLevel.{×_prop, Unit-prop}
use mathlib.Core.Logic.{∥∥₁_elim}
use mathlib.Core.List.{Perm, Permᴰ}
use next_dbm.Tabs.Defs.{Tab, Provider, has_tab, on_drag_end, find_index}
use next_dbm.Tabs.Ids.{Unique, text_eq_comm}
use next_dbm.Tabs.Invariant.{IsValid, active_open}

-- A permutation of the tabs.
pub has_tab-perm : (key : Text) {xs ys : List Tab} → Permᴰ xs ys → has_tab key xs ≡ has_tab key ys
has_tab-perm key Permᴰ.nil = refl
has_tab-perm key (Permᴰ.cons {a = x} e d) =
    ground (arith, ap (λ (t : Tab). t.id) e, has_tab-perm key d)
has_tab-perm key (Permᴰ.swap e f) =
    ground (arith, ap (λ (t : Tab). t.id) e, ap (λ (t : Tab). t.id) f)
has_tab-perm key (Permᴰ.trans d d') = has_tab-perm key d ∙ has_tab-perm key d'

pub Unique-perm : {xs ys : List Tab} → Permᴰ xs ys → Unique xs → Unique ys
Unique-perm Permᴰ.nil u = u
Unique-perm (Permᴰ.cons {b = b} {l₁ = l} e d) u = (
  sym (has_tab-perm b.id d) ∙ subst (λ (t : Tab). has_tab t.id l ≡ false) e u.0,
  Unique-perm d u.1,
)
Unique-perm (Permᴰ.swap {a = a} {b = b} {b' = b'} {l = l} e f) u =
    subst (λ t. Unique (t ∷ b' ∷ l)) f
      (subst (λ t. Unique (b ∷ t ∷ l)) e
        (ground (arith, text_eq_comm a.id b.id), (ground arith, u.1.1)))
Unique-perm (Permᴰ.trans d d') u = Unique-perm d' (Unique-perm d u)

Unique-prop : (tabs : List Tab) → IsProp (Unique tabs)
Unique-prop [] = Unit-prop
Unique-prop (t ∷ tabs) = ×_prop (Bool-set _ _) (Unique-prop tabs)

active_open-of_perm :
    (key : Text) (xs ys : List Tab)
    → active_open key xs ≡ true
    → (xs ≡ [] → ys ≡ [])
    → has_tab key xs ≡ has_tab key ys
    → active_open key ys ≡ true
active_open-of_perm key xs [] h k e = refl
active_open-of_perm key [] (y ∷ ys) h k e = absurd (nil_not_cons (k refl))
  where
    nil_not_cons : ¬ ((y ∷ ys) ≡ [])
    nil_not_cons e' = cc
active_open-of_perm key (x ∷ xs) (y ∷ ys) h k e = sym e ∙ h

-- What `arrayMove` of @dnd-kit/sortable documents: the same items in another order.
pub record ArrayMove : Type 0 where
  pub array_move : List Tab → Option ℕ → Option ℕ → List Tab
  pub move_perm :
      (tabs : List Tab) (from to : Option ℕ) → tabs ≢ [] → Perm tabs (array_move tabs from to)

module _ (lib : ArrayMove) where
  open lib use {array_move, move_perm}

  pub on_drag_end-IsValid :
      (active over : Text) (p : Provider)
      → p.tabs ≢ []
      → IsValid p
      → IsValid (on_drag_end array_move active over p)
  unfolding on_drag_end
  on_drag_end-IsValid active over p ne v = elim (Bool-cases (text_eq active over)) [
    | inl e ↦ rw (e, on_drag_end) v
    | inr e ↦
        rw (e, on_drag_end)
          (record {
            unique = ∥∥₁_elim (moved) (Unique-prop _) (λ d. Unique-perm d v.unique);
            active =
                active_open-of_perm p.tab_index p.tabs _ v.active
                  (λ none_left. absurd (ne none_left))
                  (∥∥₁_elim (moved) (Bool-set _ _) (λ d. has_tab-perm p.tab_index d));
            seen = v.seen;
          })
  ]
    where
      moved : Perm p.tabs (array_move p.tabs (find_index active p.tabs) (find_index over p.tabs))
      moved = move_perm p.tabs (find_index active p.tabs) (find_index over p.tabs) ne
