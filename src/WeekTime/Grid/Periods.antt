-- ===== src/WeekTime/Grid/Periods.antt =====
-- Reading periods back: `renderTimePeriod` and `renderWeekTime`.
use next_dbm.Base.{
  ℕ, zero, suc, ◌-◌, true, List, [], ◌∷◌, Text, split, ◌==◌, if◌then◌else◌, Option, none, some,
}
use mathlib.Core.Option
use next_dbm.WeekTime.Label.{count_index}
use next_dbm.WeekTime.Grid.Cells.{Day, Period, Picker}
use next_dbm.WeekTime.Grid.Handlers.{deal_time_period, set_checked, handle_clear_week_time}

-- An index out of range throws: `none`.
unfoldable pub modify {ℓ} : {A : Type ℓ} → (A → Option A) → ℕ → List A → Option (List A)
modify f i [] = none
modify f zero (x ∷ xs) = Option.map (λ y. y ∷ xs) (f x)
modify f (suc i) (x ∷ xs) = Option.map (x ∷◌) (modify f i xs)

abbrev pub and_then {ℓ κ} : {A : Type ℓ} {B : Type κ} → Option A → (A → Option B) → Option B
and_then none f = none
and_then (some a) f = f a

-- `weekTimeData[row].child[i].checked = true`
unfoldable pub check_slot : ℕ → Day → Option Day
check_slot i day =
    Option.map (λ cells. record day { child = cells })
      (modify (λ item. some (set_checked true item)) i day.child)

-- The loop of `renderTimePeriod`, by the rounds that are left.
unfoldable pub check_slots : ℕ → ℕ → ℕ → List Day → Option (List Day)
check_slots zero i row days = some days
check_slots (suc n) i row days =
    let rest = λ (days' : List Day). check_slots n (suc i) row days' in
    and_then (modify (check_slot i) row days) rest

-- The rounds of `for (let i = start; i < (end === 0 ? 48 : end); i++)`; with a NaN there are none.
abbrev pub rounds : ℕ → ℕ → ℕ
rounds start end = (if end == 0 then 48 else end) - start

unfoldable pub check_between : Option ℕ → Option ℕ → ℕ → List Day → Option (List Day)
check_between (some start) (some end) row days = check_slots (rounds start end) start row days
check_between (some _) none row days = some days
check_between none _ row days = some days

-- `const [start, end] = …`: with no `~`, `countIndex(undefined)` throws.
unfoldable pub check_parts : ℕ → List Text → List Day → Option (List Day)
check_parts row [] days = none
check_parts row (start ∷ []) days = none
check_parts row (start ∷ end ∷ _) days =
    check_between (count_index start) (count_index end) row days

-- The row of a period's key.
abbrev pub row_of : ℕ → ℕ
row_of key = if key == 0 then 6 else key - 1

-- `renderTimePeriod`
unfoldable pub render_time_period : ℕ → Text → List Day → Option (List Day)
render_time_period key val days = check_parts (row_of key) (split b'~' val) days

unfoldable pub render_values : ℕ → List Text → List Day → Option (List Day)
render_values key [] days = some days
render_values key (v ∷ cv) days =
    let rest = λ (days' : List Day). render_values key cv days' in
    and_then (render_time_period key v days) rest

-- The unit of `、`.
abbrev pub comma : ℕ
comma = 0x3001

-- `hasText(v)` fails for the empty text, and the period is skipped.
unfoldable pub render_text : ℕ → Text → List Day → Option (List Day)
render_text key [] days = some days
render_text key (x ∷ v) days = render_values key (split comma (x ∷ v)) days

abbrev pub render_period : Period → List Day → Option (List Day)
render_period period days = render_text period.key period.value days

unfoldable pub render_periods : List Period → List Day → Option (List Day)
render_periods [] days = some days
render_periods (t ∷ ts) days =
    let rest = λ (days' : List Day). render_periods ts days' in and_then (render_period t days) rest

-- `renderWeekTime`; `none` where it throws.
unfoldable pub render_week_time : List Period → Picker → Option Picker
render_week_time periods p =
    let cleared = handle_clear_week_time p in
    Option.map (λ days. deal_time_period (record cleared { week_time_data = days }))
      (render_periods periods cleared.week_time_data)
