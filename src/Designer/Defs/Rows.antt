-- ===== src/Designer/Defs/Rows.antt =====
-- The rows of a panel are JavaScript objects: a key, and entries under their names.
use next_dbm.Base.{
  ℕ, zero, suc, Bool, true, false, List, [], ◌∷◌, ◌++◌, Text, text_eq, has_text, Option, none, some,
  not, if◌then◌else◌, ◌==◌, ◌||◌,
}
use mathlib.Core.Option

pub data Value : Type 0 where
  str : Text → Value
  num : ℕ → Value
  bool : Bool → Value
  strs : List Text → Value

abbrev pub Entries : Type 0
Entries = List (Text × Value)

-- `{...entries, ...more}`: an entry of `more` counts.
abbrev pub spread : Entries → Entries → Entries
spread entries more = more ++ entries

-- The key of a row: none, the time at which it was added, or the text that the parser makes.
pub data Key : Type 0 where
  undefined : Key
  stamp : ℕ → Key
  string : Text → Key

-- `a === b`
abbrev pub key_eq : Key → Key → Bool
key_eq undefined undefined = true
key_eq undefined (stamp b) = false
key_eq undefined (string b) = false
key_eq (stamp a) undefined = false
key_eq (stamp a) (stamp b) = a == b
key_eq (stamp a) (string b) = false
key_eq (string a) undefined = false
key_eq (string a) (stamp b) = false
key_eq (string a) (string b) = text_eq a b

-- A key as a condition: undefined, 0 and the empty text are false.
abbrev pub is_true : Key → Bool
is_true undefined = false
is_true (stamp a) = not (a == 0)
is_true (string a) = has_text a

pub record Row : Type 0 where
  pub key : Key
  pub entries : Entries

-- `{...item, ...row}`, where `row` holds values of the form and no key.
abbrev pub merge : Row → Entries → Row
merge item row = record item { entries = spread item.entries row }

-- `rows.findIndex((item) => key === item.key)`; `none` is -1.
abbrev pub find_index : Key → List Row → Option ℕ
find_index key [] = none
find_index key (item ∷ rows) =
    let rest = Option.map (suc) (find_index key rows) in
    if key_eq key item.key then some 0 else rest

-- `rows.find(item => item.key === key)`
abbrev pub find : Key → List Row → Option Row
find key [] = none
find key (item ∷ rows) = let rest = find key rows in if key_eq key item.key then some item else rest

-- `newData.splice(index, 1, {...newData[index], ...row})`
abbrev pub splice_merged : ℕ → Entries → List Row → List Row
splice_merged i row [] = []
splice_merged zero row (item ∷ rows) = merge item row ∷ rows
splice_merged (suc i) row (item ∷ rows) = item ∷ splice_merged i row rows

-- `rows.filter((item) => item.key !== key)`
abbrev pub other_rows : Key → List Row → List Row
other_rows key [] = []
other_rows key (item ∷ rows) =
    let rest = other_rows key rows in if key_eq key item.key then rest else item ∷ rest

-- Whether some row has the key.
abbrev pub has_key : Key → List Row → Bool
has_key key [] = false
has_key key (item ∷ rows) = key_eq key item.key || has_key key rows
