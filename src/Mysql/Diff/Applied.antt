-- ===== src/Mysql/Diff/Applied.antt =====
-- `alterTable` against what an ALTER TABLE does to the columns of a table.
use next_dbm.Base.{
  ◌≡◌, refl, ap, ◌∙◌, Bool, true, false, not, ◌&&◌, List, [], ◌∷◌, Text, codes, text_eq, has_text,
  text_eq_iff, if◌then◌else◌, Option, none, some, arith, Bool-cases, text_eq_refl, inl, inr, sym,
  and_then, split, subst,
}
use mathlib.Core.Option
use next_dbm.Mysql.Defs.{
  Ddl, Alter, get, put, lacks, is_table, additions, removals, alterations, parse_line, parse_lines,
  parse_ddl, put_field, alter_table, generate_alter_statements, match_table, trim, starts_with,
  includes, non_empty,
}
use next_dbm.Mysql.Diff.Run.{run, run-append, get-put, Unique, unlisted, has, is_some}
use next_dbm.Mysql.Diff.Execute.{
  all_columns, has_column, execute, statement_text, alter_statement-statement_text,
  execute-alterations,
}
use next_dbm.Mysql.Diff.Additions.{run-additions, Typed}
use next_dbm.Mysql.Diff.Removals.{run-removals, drops}

lacks-typed :
    (o : Option Text) → ((t : Text) → o ≡ some t → has_text t ≡ true) → lacks o ≡ not (is_some o)
lacks-typed none h = refl
lacks-typed (some t) h = ap not (h t refl)

run-alterations :
    (original modified : Ddl)
    → Typed original
    → Typed modified
    → Unique original
    → Unique modified
    → (d : Ddl) × (run (alterations original modified) original ≡ some d)
      × ((k : Text) → is_table k ≡ false → get k d ≡ get k modified)
unfolding alterations
run-alterations original modified ot mt ou mu =
    let (d1, one, at1) = run-additions original ot modified original mu (λ k t h. refl) in
    let there : (k : Text) → has k original ≡ true → drops modified k ≡ true → has k d1 ≡ true =
      λ k h b. ap is_some (at1 k) ∙ ground (arith, lacks-typed (get k modified) (mt k)) in
    let (d2, all, at2) = run-removals modified original d1 ou there in
    (
      d2,
      run-append (additions original modified) (removals modified original) original d1 one ∙ all,
      λ k h. ground (arith, at1 k, at2 k, lacks-typed (get k modified) (mt k)),
    )

get-nil : (key : Text) → get key [] ≡ none
unfolding get
get-nil key = refl

put-Unique : (key v : Text) (d : Ddl) → Unique d → Unique (put key v d)
unfolding put
put-Unique key v [] u = (get-nil key, tt)
put-Unique key v ((k, w) ∷ d) u = elim (Bool-cases (text_eq k key)) [
  | inl e ↦ rw e u
  | inr e ↦ rw e (
    ground (arith, get-put k key v d, text_eq_iff key k, text_eq_iff k key, u.0),
    put-Unique key v d u.1,
  )
]

abbrev Kept : Option Ddl → Type 0
Kept none = Unit
Kept (some d) = Unique d

Kept-if : (b : Bool) (x y : Option Ddl) → Kept x → Kept y → Kept (if b then x else y)
Kept-if true x y h k = h
Kept-if false x y h k = k

Kept-and_then :
    (f : Ddl → Option Ddl) (o : Option Ddl)
    → ((d : Ddl) → Unique d → Kept (f d))
    → Kept o
    → Kept (and_then o f)
Kept-and_then f none h k = tt
Kept-and_then f (some d) h k = h d k

Kept-table :
    (o : Option Text) (d : Ddl)
    → Unique d
    → Kept (Option.map (λ name. put (codes "table") name d) o)
Kept-table none d u = tt
Kept-table (some name) d u = put-Unique (codes "table") name d u

Unique-put_field : (parts : List Text) (d : Ddl) → Unique d → Unique (put_field parts d)
Unique-put_field [] d u = u
Unique-put_field (name ∷ parts) d u = put-Unique name _ d u

parse_line-Kept : (line : Text) (d : Ddl) → Unique d → Kept (parse_line line d)
unfolding parse_line
parse_line-Kept line d u =
    Kept-if (starts_with (codes "CREATE TABLE") line) _ _ (Kept-table (match_table line) d u) (
      Kept-if (includes (codes "PRIMARY KEY") line) _ _ u (
        Kept-if (has_text line && not (starts_with (codes ")") line)) _ _
          (Unique-put_field (non_empty (split 32 line)) d u) u))

parse_lines-Kept : (lines : List Text) (d : Ddl) → Unique d → Kept (parse_lines lines d)
unfolding parse_lines
parse_lines-Kept [] d u = u
parse_lines-Kept (line ∷ lines) d u =
    Kept-and_then (parse_lines lines) (parse_line (trim line) d)
      (λ d' u'. parse_lines-Kept lines d' u') (parse_line-Kept (trim line) d u)

parse_ddl-Unique : (ddl : Text) (d : Ddl) → parse_ddl ddl ≡ some d → Unique d
unfolding parse_ddl
parse_ddl-Unique ddl d h = subst Kept h (parse_lines-Kept (split 10 ddl) [] tt)

-- Two definitions that are parsed, whose lines are all those of columns (but for a primary key), each
-- with a type, the modified one with a name and a column at least: what `alterTable` writes is the text
-- of one ALTER TABLE, for the table of the modified name, or the note that nothing changes. Carried out on
-- the original columns, names told apart as texts, it adds only columns that are not there, modifies and
-- drops only those that are, names no key, and leaves a column; then each column has the type of the
-- modified definition, and there are no others. The name `table` is left out, since the code keeps the
-- table's own name under it.
pub alter_table-run :
    (original_ddl modified_ddl name : Text) (original modified : Ddl)
    → parse_ddl original_ddl ≡ some original
    → parse_ddl modified_ddl ≡ some modified
    → get (codes "table") modified ≡ some name
    → Typed original
    → Typed modified
    → all_columns original ≡ true
    → all_columns modified ≡ true
    → has_column modified ≡ true
    → (steps : List Alter) × (d : Ddl) × (alter_table original_ddl modified_ddl
        ≡ some (statement_text name steps))
      × (execute steps original ≡ some d)
      × ((k : Text) → is_table k ≡ false → get k d ≡ get k modified)
unfolding alter_table generate_alter_statements
alter_table-run original_ddl modified_ddl name original modified o m t ot mt oc mc left =
    let steps = alterations original modified in
    let (d, ran, at) =
      run-alterations original modified ot mt (parse_ddl-Unique original_ddl original o)
        (parse_ddl-Unique modified_ddl modified m) in
    (
      steps,
      d,
      rw (o, m) (ap some (alter_statement-statement_text name modified steps t)),
      execute-alterations original modified d oc mc left ran at,
      at,
    )

additions-same :
    (original rest : Ddl)
    → Typed original
    → Unique rest
    → ((k t : Text) → is_table k ≡ false → get k rest ≡ some t → get k original ≡ some t)
    → additions original rest ≡ []
unfolding additions get
additions-same original [] ot u same = refl
additions-same original ((key, type) ∷ rest) ot (new, u) same =
    let here = λ (b : is_table key ≡ false).
      same key type b (ap (λ c. if c then some type else get key rest) (text_eq_refl key)) in
    let later : (k t : Text) → is_table k ≡ false → get k rest ≡ some t → get k original ≡ some t =
      λ k t b h. same k t b (
        ap (λ c. if c then some type else get k rest) (unlisted key k rest new (ap is_some h))
        ∙ h) in
    let all = additions-same original rest ot u later in
    elim (Bool-cases (is_table key)) [
      | inl b ↦ rw b all
      | inr b ↦ rw (b, here b, ot key type (here b), text_eq_refl type) all
    ]

removals-same :
    (modified rest : Ddl)
    → Typed modified
    → Unique rest
    → ((k t : Text) → is_table k ≡ false → get k rest ≡ some t → get k modified ≡ some t)
    → removals modified rest ≡ []
unfolding removals get
removals-same modified [] mt u same = refl
removals-same modified ((key, type) ∷ rest) mt (new, u) same =
    let here = λ (b : is_table key ≡ false).
      same key type b (ap (λ c. if c then some type else get key rest) (text_eq_refl key)) in
    let later : (k t : Text) → is_table k ≡ false → get k rest ≡ some t → get k modified ≡ some t =
      λ k t b h. same k t b (
        ap (λ c. if c then some type else get k rest) (unlisted key k rest new (ap is_some h))
        ∙ h) in
    let all = removals-same modified rest mt u later in
    elim (Bool-cases (is_table key)) [
      | inl b ↦ rw b all
      | inr b ↦ rw (b, here b, mt key type (here b)) all
    ]

-- Two definitions of the same columns, in whatever order: no change is reported.
pub alter_table-same :
    (original_ddl modified_ddl : Text) (original modified : Ddl)
    → parse_ddl original_ddl ≡ some original
    → parse_ddl modified_ddl ≡ some modified
    → Typed original
    → ((k : Text) → is_table k ≡ false → get k original ≡ get k modified)
    → Typed modified
    → alter_table original_ddl modified_ddl ≡ some (codes "-- No changes detected")
unfolding alter_table generate_alter_statements alterations
alter_table-same original_ddl modified_ddl original modified o m ot same mt =
    let added =
      additions-same original modified ot (parse_ddl-Unique modified_ddl modified m)
        (λ k t b h. same k b ∙ h) in
    let removed =
      removals-same modified original mt (parse_ddl-Unique original_ddl original o)
        (λ k t b h. sym (same k b) ∙ h) in
    rw (o, m, added, removed) refl
