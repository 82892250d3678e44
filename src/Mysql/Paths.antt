-- ===== src/Mysql/Paths.antt =====
-- The tables that the statements about one table name, cut at the back quotes.
use next_dbm.Base.{
  ◌≡◌, refl, ap, ◌∙◌, true, [], ◌∷◌, ◌++◌, Text, codes, split, free_of, split-append, append_assoc,
  append-nil,
}
use next_dbm.Mysql.Defs.{
  about, drop_table, truncate_table, select_table_data, get_table_ddl, get_all_columns,
  get_all_indexs, rename_table, copy_table,
}

about-split :
    (head database name tail : Text)
    → free_of 96 head ≡ true
    → free_of 96 database ≡ true
    → free_of 96 name ≡ true
    → split 96 (about head database name tail) ≡ head ∷ database ∷ codes "." ∷ name ∷ split 96 tail
about-split head database name tail h d n =
    ap (split 96) (flat head database name tail)
    ∙ split-append 96 head (database ++ (96 ∷ 46 ∷ 96 ∷ (name ++ (96 ∷ tail)))) h
    ∙ ap (head ∷◌) (split-append 96 database (46 ∷ 96 ∷ (name ++ (96 ∷ tail))) d)
    ∙ ap (λ r. head ∷ database ∷ r) (split-append 96 (46 ∷ []) (name ++ (96 ∷ tail)) refl)
    ∙ ap (λ r. head ∷ database ∷ codes "." ∷ r) (split-append 96 name tail n)
  where
    flat :
        (head database name tail : Text)
        → about head database name tail
          ≡ head ++ (96 ∷ (database ++ (96 ∷ 46 ∷ 96 ∷ (name ++ (96 ∷ tail)))))
    flat head database name tail = simp (append_assoc, append-nil)

-- A statement that reads as `head`, the path `database`.`name`, and a semicolon.
abbrev pub Names : Text → Text → Text → Text → Type 0
Names head database name statement =
    split 96 statement ≡ head ∷ database ∷ codes "." ∷ name ∷ codes ";" ∷ []

-- Names without a back quote: cut at the back quotes, each of these statements gives its own words and
-- exactly the names that it is for. Renaming and copying name the old table, or the copy, first, and
-- the other one in the same database.
pub split-statements :
    (database name new_name datetime : Text)
    → free_of 96 database ≡ true
    → free_of 96 name ≡ true
    → free_of 96 new_name ≡ true
    → free_of 96 (name ++ (codes "_copy_" ++ datetime)) ≡ true
    → Names (codes "DROP TABLE ") database name (drop_table database name)
      × Names (codes "TRUNCATE TABLE ") database name (truncate_table database name)
      × Names (codes "SELECT * FROM ") database name (select_table_data database name)
      × Names (codes "SHOW CREATE TABLE ") database name (get_table_ddl database name)
      × Names (codes "DESCRIBE ") database name (get_all_columns database name)
      × Names (codes "SHOW INDEX FROM ") database name (get_all_indexs database name)
      × (split 96 (rename_table database name new_name)
          ≡ codes "ALTER TABLE "
            ∷ database
            ∷ codes "."
            ∷ name
            ∷ codes " RENAME TO "
            ∷ database
            ∷ codes "."
            ∷ new_name
            ∷ codes ";"
            ∷ [])
      × (split 96 (copy_table datetime database name)
          ≡ codes "CREATE TABLE "
            ∷ database
            ∷ codes "."
            ∷ (name ++ (codes "_copy_" ++ datetime))
            ∷ codes " LIKE "
            ∷ database
            ∷ codes "."
            ∷ name
            ∷ codes ";"
            ∷ [])
unfolding drop_table truncate_table select_table_data get_table_ddl get_all_columns get_all_indexs
    rename_table copy_table split
split-statements database name new_name datetime d n m c = (
  one (codes "DROP TABLE ") refl,
  one (codes "TRUNCATE TABLE ") refl,
  one (codes "SELECT * FROM ") refl,
  one (codes "SHOW CREATE TABLE ") refl,
  one (codes "DESCRIBE ") refl,
  one (codes "SHOW INDEX FROM ") refl,
  about-split (codes "ALTER TABLE ") database name _ refl d n
      ∙ ap (λ r. codes "ALTER TABLE " ∷ database ∷ codes "." ∷ name ∷ r)
          (about-split (codes " RENAME TO ") database new_name (codes ";") refl d m),
  about-split (codes "CREATE TABLE ") database (name ++ (codes "_copy_" ++ datetime)) _ refl d c
      ∙ ap
          (λ r.
            codes "CREATE TABLE "
            ∷ database
            ∷ codes "."
            ∷ (name ++ (codes "_copy_" ++ datetime))
            ∷ r)
          (about-split (codes " LIKE ") database name (codes ";") refl d n),
)
  where
    one :
        (head : Text)
        → free_of 96 head ≡ true
        → Names head database name (about head database name (codes ";"))
    one head h = about-split head database name (codes ";") h d n
