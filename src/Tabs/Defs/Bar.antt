-- ===== src/Tabs/Defs/Bar.antt =====
-- The handlers of the tab bar, of TabBoxPanel/index.js.
use next_dbm.Base.{
  ℕ, suc, ◌+◌, ◌-◌, Bool, ◌||◌, List, [], ◌∷◌, Text, text_eq, has_text, length, ◌==◌, if◌then◌else◌,
  Option, none, some,
}
use mathlib.Core.Option
use next_dbm.Tabs.Defs.Types.{Tab, Provider}
use next_dbm.Tabs.Defs.Operations.{id_at}

-- `onChange` of the tab bar.
unfoldable pub activate : Text → Provider → Provider
activate key p = record p { tab_index = key; operation_label = [] }

-- `onEdit` with the action `remove`: `true` where the user is asked first.
unfoldable pub asks_to_close : Tab → Bool
asks_to_close tab = has_text tab.sql || (has_text tab.where_text || has_text tab.order_by)

-- `findIndex(pane => pane.id === key)`; `none` is -1.
unfoldable pub find_index : Text → List Tab → Option ℕ
find_index key [] = none
find_index key (tab ∷ tabs) =
    let rest = Option.map suc (find_index key tabs) in if text_eq tab.id key then some 0 else rest

-- `currentIndex === 0 ? tabs.length - 1 : currentIndex - 1`; -1 - 1 is no index.
abbrev pub index_before : ℕ → Option ℕ → Option ℕ
index_before n none = none
index_before n (some i) = some (if i == 0 then n - 1 else i - 1)

-- `currentIndex === tabs.length - 1 ? 0 : currentIndex + 1`, where -1 + 1 is 0; with no tabs -1 is
-- `tabs.length - 1`, and 0 is out of range all the same.
abbrev pub index_after : ℕ → Option ℕ → Option ℕ
index_after n none = some 0
index_after n (some i) = some (if i + 1 == n then 0 else i + 1)

abbrev pub go_to : Option ℕ → Provider → Option Provider
go_to none p = none
go_to (some i) p = Option.map (λ key. record p { tab_index = key }) (id_at i p.tabs)

-- `none` where `tabs[newIndex].id` throws.
unfoldable pub handle_prev : Provider → Option Provider
handle_prev p = go_to (index_before (length p.tabs) (find_index p.tab_index p.tabs)) p

unfoldable pub handle_next : Provider → Option Provider
handle_next p = go_to (index_after (length p.tabs) (find_index p.tab_index p.tabs)) p

-- `onDragEnd`, with `arrayMove` of the package @dnd-kit/sortable; -1 stands for `none`.
unfoldable pub on_drag_end :
    (List Tab → Option ℕ → Option ℕ → List Tab) → Text → Text → Provider → Provider
on_drag_end array_move active over p =
    if text_eq active over
    then p
    else record p { tabs = array_move p.tabs (find_index active p.tabs) (find_index over p.tabs) }
