-- ===== src/Tabs/Tests.antt =====
-- Two open tabs, and what is done with them.
use next_dbm.Base.{ℕ, ◌≡◌, ◌≢◌, refl, true, false, List, [], ◌∷◌, codes, Option, some}
use mathlib.Core.List.{Perm}
use mathlib.Core.List.Perm
use next_dbm.Tabs.Defs.{
  Tab, Mode, Params, Request, Provider, new_tab, has_tab, add_tab, resolve, remove_tab, on_drag_end,
}
use next_dbm.Tabs.Remove.{remove_tab-around}
use next_dbm.Tabs.Invariant.{IsValid}
use next_dbm.Tabs.Order.{ArrayMove}
use next_dbm.Tabs.Steps.{here, next, adds, drags, Session-IsValid, resolve-resolve}

abbrev no_params : Params
no_params = record {
  key = [];
  title = [];
  type = Mode.editor;
  sql = codes "SELECT 1;";
  asset_id = [];
  db_name = [];
  table_name = [];
  er_url = [];
}

abbrev tab_a : Tab
tab_a = new_tab (codes "a") (codes "A") no_params

abbrev tab_b : Tab
tab_b = new_tab (codes "b") (codes "B") no_params

abbrev two : Provider
two = record {
  tabs = tab_a ∷ tab_b ∷ [];
  tab_index = codes "b";
  operation_label = [];
  requests = [];
}

two-IsValid : IsValid two
unfolding new_tab
two-IsValid = record { unique = (refl, (refl, tt)); active = refl; seen = tt }

-- An `arrayMove` that swaps the first two.
abbrev swap_first : List Tab → Option ℕ → Option ℕ → List Tab
swap_first [] from to = []
swap_first (x ∷ []) from to = x ∷ []
swap_first (x ∷ y ∷ rest) from to = y ∷ x ∷ rest

swap_first-perm :
    (tabs : List Tab) (from to : Option ℕ) → tabs ≢ [] → Perm tabs (swap_first tabs from to)
swap_first-perm [] from to ne = Perm.refl []
swap_first-perm (x ∷ []) from to ne = Perm.refl (x ∷ [])
swap_first-perm (x ∷ y ∷ rest) from to ne = Perm.swap y x rest

abbrev swapping : ArrayMove
swapping = record { array_move = swap_first; move_perm = swap_first-perm }

remove_tab-around_example :
    remove_tab (codes "b") two ≡ some (record two { tabs = tab_a ∷ []; tab_index = codes "a" })
unfolding new_tab
remove_tab-around_example = remove_tab-around two (tab_a ∷ []) tab_b [] refl two-IsValid.unique

Session-IsValid_example :
    IsValid (on_drag_end swap_first (codes "a") (codes "b") (add_tab (codes "now") no_params two))
unfolding add_tab
Session-IsValid_example =
    Session-IsValid swapping two-IsValid
      (next (next here (adds (codes "now") no_params)) (drags (codes "a") (codes "b") (λ e. cc)))

resolve-resolve_example :
    let q = add_tab (codes "now") no_params (add_tab (codes "now") no_params two) in
    (r : Request) × (r' : Request) × (q.requests ≡ r ∷ r' ∷ [])
    × (has_tab (codes "c") (resolve r (codes "c") q).tabs ≡ true)
    × (has_tab (codes "c") (resolve r' (codes "d") (resolve r (codes "c") q)).tabs ≡ false)
unfolding new_tab
resolve-resolve_example =
    resolve-resolve (codes "now") (codes "now") no_params no_params two (codes "c") (codes "d") refl
      refl refl refl refl
