-- ===== src/Mysql/Comma.antt =====
-- The comma before the closing parenthesis of `createTable`.
use next_dbm.Base.{
  ◌≡◌, true, [], ◌∷◌, ◌++◌, map, Text, codes, concat, join, has_text, append_assoc, append-nil,
  has_text,
}
use next_dbm.Mysql.Defs.{
  TableParams, field_sql, index_sql, foreign_key_sql, foreign_key_index_sql, keys_from,
  primary_key_sql, comma_after_many, definitions_sql, table_end, create_table,
}

-- In a table with a primary key, whatever else it has, the text right before the parenthesis that
-- closes the definitions is a comma, which MySQL refuses.
pub create_table-comma :
    (p : TableParams)
    → has_text (keys_from true p.field_data) ≡ true
    → (front : Text) × (create_table p ≡ front ++ (codes "," ++ table_end p))
unfolding create_table definitions_sql primary_key_sql
create_table-comma p h = (
  concat (map foreign_key_index_sql p.foreign_key_data)
      ++ (codes "CREATE TABLE "
          ++ (p.table_name
              ++ (codes " ("
                  ++ concat (
                      join (codes ",") (map field_sql p.field_data)
                      ∷ comma_after_many p.field_data
                      ∷ join (codes ",") (map index_sql p.index_data)
                      ∷ join (codes ",") (map foreign_key_sql p.foreign_key_data)
                      ∷ comma_after_many p.foreign_key_data
                      ∷ (codes "\n\tPRIMARY KEY (" ++ (keys_from true p.field_data ++ codes ")"))
                      ∷ [])))),
  rw h (simp (append_assoc, append-nil)),
)
