-- ===== src/Mysql/Defs/AlterTable.antt =====
-- `parseDDL`, `generateAlterStatements` and `alterTable` of mysql.js.
use next_dbm.Base.{
  ℕ, Bool, true, not, ◌&&◌, ◌||◌, List, [], ◌∷◌, ◌++◌, map, reverse, Text, codes, concat, join,
  split, text_eq, has_text, leb, ◌==◌, if◌then◌else◌, Option, none, some, and_then,
}
use mathlib.Core.Option
use next_dbm.Mysql.Defs.Values.{starts_with, includes}

-- White space, as `trim` takes it away.
abbrev pub is_space : ℕ → Bool
is_space x =
    (leb 9 x && leb x 13)
    || x == 32
    || x == 160
    || x == 5760
    || (leb 8192 x && leb x 8202)
    || x == 8232
    || x == 8233
    || x == 8239
    || x == 8287
    || x == 12288
    || x == 65279

abbrev pub trim_start : Text → Text
trim_start [] = []
trim_start (x ∷ s) = let rest = trim_start s in if is_space x then rest else x ∷ s

unfoldable pub trim : Text → Text
trim s = reverse (trim_start (reverse (trim_start s)))

-- `\w`
abbrev pub is_word : ℕ → Bool
is_word x = (leb 48 x && leb x 57) || (leb 65 x && leb x 90) || x == 95 || (leb 97 x && leb x 122)

abbrev pub word_run : Text → Text
word_run [] = []
word_run (x ∷ s) = let rest = word_run s in if is_word x then x ∷ rest else []

abbrev pub drop_text : Text → Text → Text
drop_text [] s = s
drop_text (x ∷ t) [] = []
drop_text (x ∷ t) (y ∷ s) = drop_text t s

-- The name at the head of a text, after `CREATE TABLE `.
abbrev pub table_here : Text → Text
table_here s =
    if starts_with (codes "CREATE TABLE ") s
    then word_run (drop_text (codes "CREATE TABLE ") s)
    else []

-- `line.match(/CREATE TABLE (\w+)/)[1]`: the first match; `none` where there is none, as [1] throws.
unfoldable pub match_table : Text → Option Text
match_table [] = none
match_table (x ∷ s) =
    let rest = match_table s in
    if has_text (table_here (x ∷ s)) then some (table_here (x ∷ s)) else rest

-- The object `result`: the keys in their order, each once. `original[key]` is a lookup.
abbrev pub Ddl : Type 0
Ddl = List (Text × Text)

unfoldable pub get : Text → Ddl → Option Text
get key [] = none
get key ((k, v) ∷ d) = if text_eq k key then some v else get key d

-- A key that is there keeps its place.
unfoldable pub put : Text → Text → Ddl → Ddl
put key value [] = (key, value) ∷ []
put key value ((k, v) ∷ d) =
    let rest = put key value d in if text_eq k key then (k, value) ∷ d else (k, v) ∷ rest

-- `line.split(' ').filter(part => part)`
abbrev pub non_empty : List Text → List Text
non_empty [] = []
non_empty (t ∷ ts) = let rest = non_empty ts in if has_text t then t ∷ rest else rest

-- `replace(/,$/, '')`
abbrev pub strip_comma : Text → Text
strip_comma [] = []
strip_comma (x ∷ []) = if x == 44 then [] else x ∷ []
strip_comma (x ∷ y ∷ s) = x ∷ strip_comma (y ∷ s)

-- A line that is not blank has a part, so that there is no field `undefined`.
abbrev pub put_field : List Text → Ddl → Ddl
put_field [] d = d
put_field (name ∷ parts) d = put name (strip_comma (join (codes " ") parts)) d

unfoldable pub parse_line : Text → Ddl → Option Ddl
parse_line line d =
    if starts_with (codes "CREATE TABLE") line
    then Option.map (λ name. put (codes "table") name d) (match_table line)
    else if includes (codes "PRIMARY KEY") line
    then some d
    else if has_text line && not (starts_with (codes ")") line)
    then some (put_field (non_empty (split 32 line)) d)
    else some d

unfoldable pub parse_lines : List Text → Ddl → Option Ddl
parse_lines [] d = some d
parse_lines (line ∷ lines) d = and_then (parse_line (trim line) d) (parse_lines lines)

unfoldable pub parse_ddl : Text → Option Ddl
parse_ddl ddl = parse_lines (split 10 ddl) []

-- The three forms of a statement, and the texts that `generateAlterStatements` pushes.
pub data Alter : Type 0 where
  add modify : Text → Text → Alter
  drop : Text → Alter

unfoldable pub alter_text : Alter → Text
alter_text (Alter.add key type) = concat (codes "ADD " ∷ key ∷ codes " " ∷ type ∷ [])
alter_text (Alter.modify key type) = concat (codes "MODIFY " ∷ key ∷ codes " " ∷ type ∷ [])
alter_text (Alter.drop key) = codes "DROP COLUMN " ++ key

-- `!object[key]`
abbrev pub lacks : Option Text → Bool
lacks none = true
lacks (some t) = not (has_text t)

abbrev pub is_table : Text → Bool
is_table key = text_eq key (codes "table")

-- `original[key] !== modified[key]` where the first is there.
abbrev pub differs : Option Text → Text → Bool
differs none type = true
differs (some t) type = not (text_eq t type)

-- The loop over the keys of `modified`.
unfoldable pub additions : Ddl → Ddl → List Alter
additions original [] = []
additions original ((key, type) ∷ d) =
    let rest = additions original d in
    if is_table key
    then rest
    else if lacks (get key original)
    then Alter.add key type ∷ rest
    else if differs (get key original) type
    then Alter.modify key type ∷ rest
    else rest

-- The loop over the keys of `original`.
unfoldable pub removals : Ddl → Ddl → List Alter
removals modified [] = []
removals modified ((key, type) ∷ d) =
    let rest = removals modified d in
    if not (is_table key) && lacks (get key modified) then Alter.drop key ∷ rest else rest

unfoldable pub alterations : Ddl → Ddl → List Alter
alterations original modified = additions original modified ++ removals modified original

-- `${modified.table}`
abbrev pub table_name_of : Ddl → Text
table_name_of d = elim (get (codes "table") d) [ none ↦ codes "undefined" | some t ↦ t ]

abbrev pub alter_statement : Ddl → List Alter → Text
alter_statement modified [] = codes "-- No changes detected"
alter_statement modified (a ∷ as') = concat (
    codes "ALTER TABLE "
    ∷ table_name_of modified
    ∷ codes " "
    ∷ join (codes ", ") (map alter_text (a ∷ as'))
    ∷ codes ";"
    ∷ [])

unfoldable pub generate_alter_statements : Text → Text → Option Text
generate_alter_statements original_ddl modified_ddl = and_then (parse_ddl original_ddl) (λ original.
    Option.map (λ modified. alter_statement modified (alterations original modified))
      (parse_ddl modified_ddl))

-- `alterTable`
unfoldable pub alter_table : Text → Text → Option Text
alter_table original_ddl modified_ddl = generate_alter_statements original_ddl modified_ddl
