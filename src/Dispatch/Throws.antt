-- ===== src/Dispatch/Throws.antt =====
-- Which commands may fail for MySQL and MariaDB.
use next_dbm.Base.{
  ◌≡◌, refl, ap, ◌∙◌, sym, Bool, true, false, ◌||◌, ◌&&◌, both, List, [], ◌∷◌, map, Text, codes,
  text_eq, text_eq_iff, subst, if◌then◌else◌, Option,
}
use next_dbm.Dispatch.Defs.{
  Protocol, SqlParams, Answer, threw, nothing, statement, structure, first_of, mysql_cases,
  get_sql_converter,
}
use next_dbm.Dispatch.Names.{is_name}

-- The commands whose converter may throw, and `getNow`.
abbrev pub may_throw : List Text
may_throw =
    map codes ("getNow" ∷ "parseCreateTableSql" ∷ "alterTable" ∷ "insertRow" ∷ "updateRow" ∷ [])

abbrev is_answer : {S : Type 0} → Answer S → Bool
is_answer threw = false
is_answer nothing = false
is_answer (statement _) = true
is_answer (structure _) = true

abbrev all_safe : {S : Type 0} → List (Text × Answer S) → Bool
all_safe [] = true
all_safe ((name, answer) ∷ cases) = (is_name name may_throw || is_answer answer) && all_safe cases

first_of-threw :
    {S : Type 0} (name : Text) (cases : List (Text × Answer S))
    → all_safe cases ≡ true
    → first_of name cases ≡ threw
    → is_name name may_throw ≡ true
first_of-threw name [] safe h = cc
first_of-threw {S} name ((n, answer) ∷ cases) safe h =
    let (here, later) = both {a = is_name n may_throw || is_answer answer} safe in
    by_case (text_eq name n) (text_eq_iff name n).0 here h (first_of-threw name cases later)
  where
    refused :
        (a : Answer S)
        → (is_name n may_throw || is_answer a) ≡ true
        → a ≡ threw
        → is_name n may_throw ≡ true
    refused a s e =
        by_name (is_name n may_throw) (sym (ap (λ x. is_name n may_throw || is_answer x) e) ∙ s)
      where
        by_name : (b : Bool) → (b || false) ≡ true → b ≡ true
        by_name true q = refl
        by_name false q = q

    by_case :
        (b : Bool)
        → (b ≡ true → name ≡ n)
        → (is_name n may_throw || is_answer answer) ≡ true
        → (if b then answer else first_of name cases) ≡ threw
        → (first_of name cases ≡ threw → is_name name may_throw ≡ true)
        → is_name name may_throw ≡ true
    by_case true same s e rest =
        subst (λ k. is_name k may_throw ≡ true) (sym (same refl)) (refused answer s e)
    by_case false same s e rest = rest e

-- For MySQL and MariaDB the converter throws at no command but getNow, parseCreateTableSql, alterTable,
-- insertRow and updateRow.
pub get_sql_converter-threw :
    {S : Type 0} (parse : Text → Option S) (datetime name : Text) (p : SqlParams)
    → get_sql_converter parse datetime Protocol.mysql name p ≡ threw
    → is_name name may_throw ≡ true
unfolding get_sql_converter mysql_cases
get_sql_converter-threw parse datetime name p h =
    first_of-threw name (mysql_cases parse datetime p) refl h

-- And at getNow it always does.
pub get_sql_converter-get_now :
    {S : Type 0} (parse : Text → Option S) (datetime : Text) (p : SqlParams)
    → get_sql_converter parse datetime Protocol.mysql (codes "getNow") p ≡ threw
unfolding get_sql_converter mysql_cases
get_sql_converter-get_now parse datetime p = refl
