-- ===== src/Mysql/Diff/Execute.antt =====
-- A whole ALTER TABLE: it names columns only, not keys or constraints, and leaves at least one; and how
-- it is written. Names are told apart as texts, and types are not looked into.
use next_dbm.Base.{
  ℕ, ◌≡◌, refl, ap, ◌∙◌, sym, Bool, true, false, not, ◌&&◌, ◌||◌, both, List, [], ◌∷◌, ◌++◌, map,
  Text, codes, join, text_eq, text_eq_iff, text_eq_refl, leb, ◌==◌, ◌-◌, if◌then◌else◌, Option,
  none, some, and_then, arith, Bool-cases, inl, inr, append-nil,
}
use next_dbm.Mysql.Defs.{
  Ddl, Alter, get, is_table, lacks, differs, additions, removals, alterations, alter_text,
  alter_statement, table_name_of,
}
use next_dbm.Mysql.Diff.Run.{run}

abbrev is_name_unit : ℕ → Bool
is_name_unit x =
    (leb 48 x && leb x 57)
    || ((leb 65 x && leb x 90) || ((leb 97 x && leb x 122) || (x == 95 || (x == 36 || leb 128 x))))

abbrev is_plain : Text → Bool
is_plain [] = true
is_plain (x ∷ s) = is_name_unit x && is_plain s

abbrev upper : Text → Text
upper s = map (λ x. if leb 97 x && leb x 122 then x - 32 else x) s

-- The words that a line of a key or a constraint starts with.
abbrev is_keyword : Text → Bool
is_keyword key =
    text_eq key (codes "PRIMARY")
    || (text_eq key (codes "KEY")
        || (text_eq key (codes "INDEX")
            || (text_eq key (codes "UNIQUE")
                || (text_eq key (codes "FULLTEXT")
                    || (text_eq key (codes "SPATIAL")
                        || (text_eq key (codes "FOREIGN")
                            || (text_eq key (codes "CONSTRAINT")
                                || text_eq key (codes "CHECK"))))))))

-- The rest of a name up to its one back quote.
abbrev closes : Text → Bool
closes [] = false
closes (x ∷ []) = x == 96
closes (x ∷ y ∷ s) = not (x == 96) && closes (y ∷ s)

-- A name in back quotes, or one that needs none.
abbrev pub is_column : Text → Bool
is_column [] = false
is_column (x ∷ s) =
    if x == 96
    then not (text_eq s (codes "`")) && closes s
    else is_plain (x ∷ s) && not (is_keyword (upper (x ∷ s)))

-- All keys but the name are columns.
abbrev pub all_columns : Ddl → Bool
all_columns [] = true
all_columns ((key, type) ∷ d) = (is_table key || is_column key) && all_columns d

abbrev pub has_column : Ddl → Bool
has_column [] = false
has_column ((key, type) ∷ d) = not (is_table key) || has_column d

abbrev step_column : Alter → Text
step_column (Alter.add key type) = key
step_column (Alter.modify key type) = key
step_column (Alter.drop key) = key

abbrev steps_columns : List Alter → Bool
steps_columns [] = true
steps_columns (a ∷ steps) = is_column (step_column a) && steps_columns steps

abbrev with_columns : Ddl → Option Ddl
with_columns d = if has_column d then some d else none

-- What the statement of these steps leaves of a table; none where it is refused.
abbrev pub execute : List Alter → Ddl → Option Ddl
execute steps d = if steps_columns steps then and_then (run steps d) with_columns else none

abbrev clause_text : Alter → Text
clause_text (Alter.add key type) = codes "ADD " ++ (key ++ (codes " " ++ type))
clause_text (Alter.modify key type) = codes "MODIFY " ++ (key ++ (codes " " ++ type))
clause_text (Alter.drop key) = codes "DROP COLUMN " ++ key

abbrev clauses_text : Alter → List Alter → Text
clauses_text a [] = clause_text a
clauses_text a (b ∷ steps) = clause_text a ++ (codes ", " ++ clauses_text b steps)

-- How the statement of these steps is written, for a table of this name.
abbrev pub statement_text : Text → List Alter → Text
statement_text name [] = codes "-- No changes detected"
statement_text name (a ∷ steps) =
    codes "ALTER TABLE " ++ (name ++ (codes " " ++ (clauses_text a steps ++ codes ";")))

alter_text-clause_text : (a : Alter) → alter_text a ≡ clause_text a
unfolding alter_text
alter_text-clause_text (Alter.add key type) =
    ap (λ t. codes "ADD " ++ (key ++ (codes " " ++ t))) (append-nil type)
alter_text-clause_text (Alter.modify key type) =
    ap (λ t. codes "MODIFY " ++ (key ++ (codes " " ++ t))) (append-nil type)
alter_text-clause_text (Alter.drop key) = refl

join-clauses_text :
    (a : Alter) (steps : List Alter)
    → join (codes ", ") (map alter_text (a ∷ steps)) ≡ clauses_text a steps
join-clauses_text a [] = alter_text-clause_text a
join-clauses_text a (b ∷ steps) = rw (alter_text-clause_text a, join-clauses_text b steps) refl

pub alter_statement-statement_text :
    (name : Text) (modified : Ddl) (steps : List Alter)
    → get (codes "table") modified ≡ some name
    → alter_statement modified steps ≡ statement_text name steps
alter_statement-statement_text name modified [] e = refl
alter_statement-statement_text name modified (a ∷ steps) e =
    let named : table_name_of modified ≡ name =
      ap (λ (o : Option Text). elim o [ none ↦ codes "undefined" | some t ↦ t ]) e in
    ap
      (λ n.
        codes "ALTER TABLE "
        ++ (n ++ (codes " " ++ (join (codes ", ") (map alter_text (a ∷ steps)) ++ codes ";"))))
      named
    ∙ ap (λ t. codes "ALTER TABLE " ++ (name ++ (codes " " ++ (t ++ codes ";"))))
        (join-clauses_text a steps)

additions-columns :
    (original rest : Ddl) → all_columns rest ≡ true → steps_columns (additions original rest) ≡ true
unfolding additions
additions-columns original [] h = refl
additions-columns original ((key, type) ∷ rest) h =
    let (a, b) = both {a = is_table key || is_column key} h in
    let later = additions-columns original rest b in
    elim (Bool-cases (is_table key)) [
      | inl t ↦ rw t later
      | inr t ↦ rw t (
          let column : is_column key ≡ true = ground arith in
          elim (Bool-cases (lacks (get key original))) [
            | inl l ↦ rw (l, column) later
            | inr l ↦ elim (Bool-cases (differs (get key original) type)) [
              | inl d ↦ rw (l, d, column) later
              | inr d ↦ rw (l, d) later
            ]
          ])
    ]

removals-columns :
    (modified rest : Ddl) → all_columns rest ≡ true → steps_columns (removals modified rest) ≡ true
unfolding removals
removals-columns modified [] h = refl
removals-columns modified ((key, type) ∷ rest) h =
    let (a, b) = both {a = is_table key || is_column key} h in
    let later = removals-columns modified rest b in
    elim (Bool-cases (not (is_table key) && lacks (get key modified))) [
      | inl t ↦ let column : is_column key ≡ true = ground arith in rw (t, column) later
      | inr t ↦ rw t later
    ]

steps_columns-append :
    (first second : List Alter)
    → steps_columns first ≡ true
    → steps_columns second ≡ true
    → steps_columns (first ++ second) ≡ true
steps_columns-append [] second h k = k
steps_columns-append (a ∷ first) second h k =
    let (x, y) = both {a = is_column (step_column a)} h in
    rw x (steps_columns-append first second y k)

steps_columns-alterations :
    (original modified : Ddl)
    → all_columns original ≡ true
    → all_columns modified ≡ true
    → steps_columns (alterations original modified) ≡ true
unfolding alterations
steps_columns-alterations original modified o m =
    steps_columns-append (additions original modified) (removals modified original)
      (additions-columns original modified m) (removals-columns modified original o)

not_table : (k k' : Text) → is_table k ≡ true → is_table k' ≡ false → text_eq k k' ≡ false
not_table k k' t f = elim (Bool-cases (text_eq k k')) [
  | inl e ↦ cc (ap is_table ((text_eq_iff k k').0 e), t, f)
  | inr e ↦ e
]

has_column-get :
    (k t : Text) (d : Ddl) → is_table k ≡ false → get k d ≡ some t → has_column d ≡ true
unfolding get
has_column-get k t [] f h = cc
has_column-get k t ((k', v) ∷ d) f h = elim (Bool-cases (is_table k')) [
  | inl e ↦
      let later : get k d ≡ some t =
        sym (ap (λ (b : Bool). if b then some v else get k d) (not_table k' k e f)) ∙ h in
      rw e (has_column-get k t d f later)
  | inr e ↦ rw e refl
]

get-has_column :
    (d : Ddl)
    → has_column d ≡ true
    → (k : Text) × (t : Text) × (is_table k ≡ false) × (get k d ≡ some t)
unfolding get
get-has_column [] h = cc
get-has_column ((k', v) ∷ d) h = elim (Bool-cases (is_table k')) [
  | inl e ↦
      let (k, t, f, at) = get-has_column d (ground arith) in (k, t, f, rw (not_table k' k e f) at)
  | inr e ↦ (k', v, e, rw (text_eq_refl k') refl)
]

pub execute-alterations :
    (original modified d : Ddl)
    → all_columns original ≡ true
    → all_columns modified ≡ true
    → has_column modified ≡ true
    → run (alterations original modified) original ≡ some d
    → ((k : Text) → is_table k ≡ false → get k d ≡ get k modified)
    → execute (alterations original modified) original ≡ some d
execute-alterations original modified d o m h ran at =
    let (k, t, f, there) = get-has_column modified h in
    let stays : has_column d ≡ true = has_column-get k t d f (at k f ∙ there) in
    rw (steps_columns-alterations original modified o m, ran, stays) refl
