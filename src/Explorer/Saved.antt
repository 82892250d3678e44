-- ===== src/Explorer/Saved.antt =====
-- The id of a saved query, out of the key of its node.
use next_dbm.Base.{
  ℕ, ◌≡◌, refl, ap, ◌∙◌, true, false, List, [], ◌∷◌, ◌++◌, Text, some, join, split, split-append,
  free_of, arith, append_assoc, drop, length,
}
use next_dbm.Mysql.Defs.{starts_with}
use next_dbm.Utils.Defs.{cut_string_at_dash, dash}
use next_dbm.Utils.Cut.{first_parts, cut_string_at_dash-split}
use next_dbm.Answers.Defs.{remove_first}
use next_dbm.Tree.Defs.{Info}
use next_dbm.Tabs.Defs.{Params, editor}
use next_dbm.Explorer.Defs.{
  Call, Panel, call, database_node, tab_of, Saved, sqls_id, open_sql, delete_sql,
}

starts_with-prefix : (s t : Text) → starts_with s (s ++ t) ≡ true
starts_with-prefix [] t = refl
starts_with-prefix (x ∷ s) t = ground (arith, starts_with-prefix s t)

drop_prefix : (s t : Text) → drop (length s) (s ++ t) ≡ t
drop_prefix [] t = refl
drop_prefix (x ∷ s) t = drop_prefix s t

remove_first-prefix : (x : ℕ) (s t : Text) → remove_first (x ∷ s) ((x ∷ s) ++ t) ≡ t
unfolding remove_first
remove_first-prefix x s t = rw (starts_with-prefix (x ∷ s) t) (drop_prefix (x ∷ s) t)

-- The key of the node of a saved query: that of a database, in two parts, that of its list of queries,
-- and the id.
abbrev pub key_of : (p q r id : Text) → Text
key_of p q r id = p ++ (45 ∷ (q ++ (45 ∷ (r ++ (45 ∷ id)))))

split-key_of :
    (p q r id : Text)
    → free_of 45 p ≡ true
    → free_of 45 q ≡ true
    → free_of 45 r ≡ true
    → split 45 (key_of p q r id) ≡ p ∷ q ∷ r ∷ split 45 id
split-key_of p q r id hp hq hr =
    split-append 45 p (q ++ (45 ∷ (r ++ (45 ∷ id)))) hp
    ∙ ap (p ∷◌) (split-append 45 q (r ++ (45 ∷ id)) hq ∙ ap (q ∷◌) (split-append 45 r id hr))

cut_string_at_dash-key_of :
    (p q r id : Text)
    → free_of 45 p ≡ true
    → free_of 45 q ≡ true
    → free_of 45 r ≡ true
    → cut_string_at_dash (key_of p q r id) (dash 3) ≡ p ++ (45 ∷ (q ++ (45 ∷ r)))
cut_string_at_dash-key_of p q r id hp hq hr =
    cut_string_at_dash-split 2 (key_of p q r id)
    ∙ ap (λ (w : List Text). join (45 ∷ []) (first_parts 3 w)) (split-key_of p q r id hp hq hr)

-- The first part, taken apart so that the text that is replaced is not empty.
pub remove_first-start : (s t : Text) → remove_first (s ++ (45 ∷ [])) ((s ++ (45 ∷ [])) ++ t) ≡ t
remove_first-start [] t = remove_first-prefix 45 [] t
remove_first-start (x ∷ s) t = remove_first-prefix x (s ++ (45 ∷ [])) t

key_of-start :
    (p q r id : Text) → key_of p q r id ≡ ((p ++ (45 ∷ (q ++ (45 ∷ r)))) ++ (45 ∷ [])) ++ id
key_of-start p q r id = simp append_assoc

-- What stands behind the third dash.
sqls_id-key_of :
    (p q r id : Text)
    → free_of 45 p ≡ true
    → free_of 45 q ≡ true
    → free_of 45 r ≡ true
    → sqls_id (key_of p q r id) ≡ id
unfolding sqls_id
sqls_id-key_of p q r id hp hq hr =
    let start = p ++ (45 ∷ (q ++ (45 ∷ r))) in
    ap (λ (s : Text). remove_first (s ++ (45 ∷ [])) (key_of p q r id))
      (cut_string_at_dash-key_of p q r id hp hq hr)
    ∙ ap (remove_first (start ++ (45 ∷ []))) (key_of-start p q r id)
    ∙ remove_first-start start id

-- The key of the database.
cut_string_at_dash-database :
    (p q r id : Text)
    → free_of 45 p ≡ true
    → free_of 45 q ≡ true
    → free_of 45 r ≡ true
    → cut_string_at_dash (key_of p q r id) (dash 2) ≡ p ++ (45 ∷ q)
cut_string_at_dash-database p q r id hp hq hr =
    cut_string_at_dash-split 1 (key_of p q r id)
    ∙ ap (λ (w : List Text). join (45 ∷ []) (first_parts 2 w)) (split-key_of p q r id hp hq hr)

-- The tab in which a saved query is opened.
abbrev pub sql_tab : (id asset_id : Text) → Info → Saved → Params
sql_tab id asset_id node saved = record (tab_of editor id node.title asset_id) {
  sql = saved.content;
  db_name = saved.db_name;
}

-- When the key of a saved query's node is that of its list, in three parts without dashes, a dash, and the
-- id, and its database is found: opening the query asks for the tab under exactly this id, whatever dashes
-- the id has, with the text and the database of the query, and deleting it, once confirmed, deletes exactly
-- this id and names the key and the title of the database.
pub open_sql-delete_sql :
    (p q r id asset_id : Text) (node db : Info) (saved : Saved) (x : Panel)
    → free_of 45 p ≡ true
    → free_of 45 q ≡ true
    → free_of 45 r ≡ true
    → node.key ≡ key_of p q r id
    → database_node node.key x ≡ some db
    → db.asset_id ≡ some asset_id
    → (open_sql node saved x
        ≡ some
            (record (call (Call.add_tab (sql_tab id asset_id node saved)) x) { show_menu = false }))
      × (delete_sql node x ≡ some (call (Call.sqls_delete id (p ++ (45 ∷ q)) db.title) x))
unfolding open_sql delete_sql
open_sql-delete_sql p q r id asset_id node db saved x hp hq hr e f g =
    let at : sqls_id node.key ≡ id = ap sqls_id e ∙ sqls_id-key_of p q r id hp hq hr in
    let of_db : cut_string_at_dash node.key (dash 2) ≡ p ++ (45 ∷ q) =
      ap (λ (k : Text). cut_string_at_dash k (dash 2)) e
      ∙ cut_string_at_dash-database p q r id hp hq hr in
    (rw f (rw (g, at) refl), rw f (rw (at, of_db) refl))
