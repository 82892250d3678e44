-- ===== src/Utils/Defs.antt =====
-- groupBy and getFileName of utils.js, cutStringAtDash of Utils/index.js, and the EventBus.
use next_dbm.Base.{
  ℕ, zero, suc, ◌&&◌, List, [], ◌∷◌, ◌++◌, map, Text, text_eq, ◌==◌, if◌then◌else◌, Option, none,
  some, get_key,
}

module _ {A : Type 0} where
  -- The object `groups`: a key that is there keeps its place, and its group grows at the end.
  unfoldable pub push_group : Text → A → List (Text × List A) → List (Text × List A)
  push_group key x [] = (key, x ∷ []) ∷ []
  push_group key x ((k, group) ∷ groups) =
      let rest = push_group key x groups in
      if text_eq k key then (k, group ++ (x ∷ [])) ∷ groups else (k, group) ∷ rest

  -- `groupBy`; `fn` is the function of the caller with its `toString()`.
  unfoldable pub group_from : (A → Text) → List (Text × List A) → List A → List (Text × List A)
  group_from fn groups [] = groups
  group_from fn groups (x ∷ list) = group_from fn (push_group (fn x) x groups) list

  abbrev pub group_by : List A → (A → Text) → List (Text × List A)
  group_by list fn = group_from fn [] list

-- `str.lastIndexOf(c)`, where `none` is -1.
unfoldable pub last_index_of : ℕ → ℕ → Option ℕ → Text → Option ℕ
last_index_of c i found [] = found
last_index_of c i found (x ∷ s) = last_index_of c (suc i) (if x == c then some i else found) s

abbrev pub take_units : ℕ → Text → Text
take_units zero s = []
take_units (suc n) [] = []
take_units (suc n) (x ∷ s) = x ∷ take_units n s

abbrev pub drop_units : ℕ → Text → Text
drop_units zero s = s
drop_units (suc n) [] = []
drop_units (suc n) (x ∷ s) = drop_units n s

-- `lastIndexOf('/') + 1`
abbrev pub after_index : Option ℕ → ℕ
after_index none = 0
after_index (some i) = suc i

unfoldable pub get_file_name : Text → Text
get_file_name full_file_name =
    drop_units (after_index (last_index_of 47 0 none full_file_name)) full_file_name

-- The loop of `cutStringAtDash`: the index of the dash whose number it is, counted from `position`.
unfoldable pub dash_index : ℕ → ℕ → ℕ → Text → Option ℕ
dash_index dash_position position i [] = none
dash_index dash_position position i (x ∷ str) =
    let rest = dash_index dash_position (if x == 45 then suc position else position) (suc i) str in
    if x == 45 && suc position == dash_position then some i else rest

-- `dashPosition`: -1, or a number.
pub data DashPosition : Type 0 where
  last_dash : DashPosition
  dash : ℕ → DashPosition

abbrev pub target_index : Text → DashPosition → Option ℕ
target_index str last_dash = last_index_of 45 0 none str
target_index str (dash n) = dash_index n 0 0 str

abbrev pub cut_at : Text → Option ℕ → Text
cut_at str none = str
cut_at str (some i) = take_units i str

unfoldable pub cut_string_at_dash : Text → DashPosition → Text
cut_string_at_dash str dash_position = cut_at str (target_index str dash_position)

-- `EventBus`: the handlers of each type, by number, and the log of those that `emit` has called.
pub record EventBus : Type 0 where
  pub events : List (Text × List ℕ)
  pub calls : List (ℕ × Text)

abbrev pub handlers_of : Option (List ℕ) → List ℕ
handlers_of none = []
handlers_of (some fns) = fns

abbrev pub handlers : Text → EventBus → List ℕ
handlers type bus = handlers_of (get_key type bus.events)

-- `filter(f => f !== fn)`
abbrev pub without : ℕ → List ℕ → List ℕ
without fn [] = []
without fn (f ∷ fns) = let rest = without fn fns in if f == fn then rest else f ∷ rest

abbrev pub called_with : Text → ℕ → ℕ × Text
called_with payload fn = (fn, payload)

unfoldable pub on : Text → ℕ → EventBus → EventBus
on type fn bus = record bus { events = (type, handlers type bus ++ (fn ∷ [])) ∷ bus.events }

unfoldable pub emit : Text → Text → EventBus → EventBus
emit type payload bus = record bus {
  calls = bus.calls ++ map (called_with payload) (handlers type bus);
}

unfoldable pub off : Text → ℕ → EventBus → EventBus
off type fn bus = record bus { events = (type, without fn (handlers type bus)) ∷ bus.events }
