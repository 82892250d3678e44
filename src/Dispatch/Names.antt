-- ===== src/Dispatch/Names.antt =====
-- Which commands PostgreSQL answers.
use next_dbm.Base.{
  ◌≡◌, refl, Bool, true, false, ◌||◌, List, [], ◌∷◌, map, Text, text_eq, if◌then◌else◌, Option,
}
use next_dbm.Dispatch.Defs.{
  Protocol, SqlParams, Answer, threw, nothing, first_of, postgre_names, throwing, get_sql_converter,
}

abbrev pub is_name : Text → List Text → Bool
is_name name [] = false
is_name name (n ∷ names) = text_eq name n || is_name name names

first_of-throwing :
    {S : Type 0} (name : Text) (names : List Text)
    → first_of {S = S} name (map throwing names) ≡ (if is_name name names then threw else nothing)
first_of-throwing name [] = refl
first_of-throwing {S} name (n ∷ names) =
    by_case (text_eq name n) (first_of {S = S} name (map throwing names))
      (first_of-throwing name names)
  where
    by_case :
        (b : Bool) (r : Answer S)
        → r ≡ (if is_name name names then threw else nothing)
        → (if b then threw else r) ≡ (if b || is_name name names then threw else nothing)
    by_case true r e = refl
    by_case false r e = e

-- For PostgreSQL the converter throws at every command that it knows, and answers nothing to all others:
-- no command ever gives a statement.
pub get_sql_converter-postgre_sql :
    {S : Type 0} (parse : Text → Option S) (datetime name : Text) (p : SqlParams)
    → get_sql_converter parse datetime Protocol.postgre_sql name p
      ≡ (if is_name name postgre_names then threw else nothing)
unfolding get_sql_converter
get_sql_converter-postgre_sql parse datetime name p = first_of-throwing name postgre_names
