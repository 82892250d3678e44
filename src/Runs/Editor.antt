-- ===== src/Runs/Editor.antt =====
-- What the editor sends.
use next_dbm.Base.{
  ℕ, suc, ◌*◌, ◌≡◌, refl, ap, ◌∙◌, Bool, true, false, ◌||◌, ◌⊎◌, inl, inr, List, [], ◌∷◌, ◌++◌, map,
  Text, codes, has_text, join, split, split-join, free_of, all_free, number_text, arith, some,
}
use next_dbm.Mysql.Defs.{non_empty}
use next_dbm.Tabs.Defs.{Tab}
use next_dbm.Dispatch.Defs.{statement}
use next_dbm.Runs.Defs.{Timed, or_whole, run_attr, split_sql, send_each}
use next_dbm.Runs.Format.{
  all_space, lines_text, one_line, are_lines, starts_visibly, ends_visibly, sql_format-spaces,
  sql_format-lines,
}

-- A piece of the editor's text between semicolons: nothing, white space, or lines with white space
-- around.
pub data Piece : Type 0 where
  nothing : Piece
  blank : Text → Piece
  lines : (pre first : Text) → List (ℕ × Text) → (post : Text) → Piece

abbrev pub piece_text : Piece → Text
piece_text Piece.nothing = []
piece_text (Piece.blank s) = s
piece_text (Piece.lines pre first rest post) = pre ++ (first ++ lines_text rest post)

-- The lines have no line ends, and the first and the last unit of all of them is no white space.
abbrev pub IsPiece : Piece → Type 0
IsPiece Piece.nothing = Unit
IsPiece (Piece.blank s) = (has_text s ≡ true) × (all_space s ≡ true)
IsPiece (Piece.lines pre first rest post) =
    (all_space pre ≡ true)
    × (starts_visibly first ≡ true)
    × (free_of 10 first ≡ true)
    × (are_lines rest ≡ true)
    × (ends_visibly (first ++ one_line rest []) ≡ true)
    × (all_space post ≡ true)

abbrev pub ArePieces : List Piece → Type 0
ArePieces [] = Unit
ArePieces (p ∷ pieces) = IsPiece p × ArePieces pieces

abbrev pub has_place : Piece → Bool
has_place Piece.nothing = false
has_place (Piece.blank s) = true
has_place (Piece.lines pre first rest post) = true

abbrev pub any_place : List Piece → Bool
any_place [] = false
any_place (p ∷ pieces) = has_place p || any_place pieces

-- The requests for the pieces from place `i` on.
abbrev pub requests : Tab → (i : ℕ) → List Piece → List Timed
requests tab i [] = []
requests tab i (Piece.nothing ∷ pieces) = requests tab i pieces
requests tab i (Piece.blank s ∷ pieces) = requests tab (suc i) pieces
requests tab i (Piece.lines pre first rest post ∷ pieces) =
    record {
      delay = 1000 * i;
      number = suc i;
      message = record {
        key = tab.id ++ (codes "-" ++ number_text (suc i));
        ret_type = codes "tableRsesult";
        data' = statement (first ++ one_line rest []);
        attr = record (run_attr tab.db_name tab.id) { asset_id = some tab.asset_id };
      };
    }
    ∷ requests tab (suc i) pieces

-- The text that counts: the selection, or the whole where nothing is selected.
abbrev pub Chosen : Tab → List Piece → Text → Type 0
Chosen tab pieces text =
    ((tab.select_sql ≡ text) × (any_place pieces ≡ true))
    ⊎ ((tab.select_sql ≡ []) × (tab.sql ≡ text))

has_text-lines :
    (pre first rest : Text) → starts_visibly first ≡ true → has_text (pre ++ (first ++ rest)) ≡ true
has_text-lines [] [] rest h = cc
has_text-lines [] (x ∷ first) rest h = refl
has_text-lines (x ∷ pre) first rest h = refl

send_each-requests :
    (tab : Tab) (i : ℕ) (pieces : List Piece)
    → ArePieces pieces
    → send_each tab i (non_empty (map piece_text pieces)) ≡ requests tab i pieces
unfolding send_each
send_each-requests tab i [] h = refl
send_each-requests tab i (Piece.nothing ∷ pieces) (_, hs) = send_each-requests tab i pieces hs
send_each-requests tab i (Piece.blank s ∷ pieces) ((v, h), hs) =
    rw (v, sql_format-spaces s h) (send_each-requests tab (suc i) pieces hs)
send_each-requests tab i (Piece.lines pre first rest post ∷ pieces) ((a, b, c, d, e, f), hs) =
    let visible : has_text (first ++ one_line rest []) ≡ true =
      has_text-lines [] first (one_line rest []) b in
    let delay : i * 1000 ≡ 1000 * i = omega arith in
    rw
      (
        has_text-lines pre first (lines_text rest post) b,
        sql_format-lines pre first rest post a b c d e f,
        visible,
        send_each-requests tab (suc i) pieces hs,
        delay,
      )
      refl

or_whole-pieces :
    (pieces : List Piece) (whole : List Text)
    → ArePieces pieces
    → any_place pieces ≡ true
    → or_whole (non_empty (map piece_text pieces)) whole ≡ non_empty (map piece_text pieces)
or_whole-pieces [] whole h a = cc
or_whole-pieces (Piece.nothing ∷ pieces) whole (_, hs) a = or_whole-pieces pieces whole hs a
or_whole-pieces (Piece.blank s ∷ pieces) whole ((v, h), hs) a = rw v refl
or_whole-pieces (Piece.lines pre first rest post ∷ pieces) whole ((_, b, _, _, _, _), hs) a =
    rw (has_text-lines pre first (lines_text rest post) b) refl

split-nothing : non_empty (split 59 []) ≡ []
unfolding split
split-nothing = refl

split-pieces :
    (pieces : List Piece)
    → all_free 59 (map piece_text pieces) ≡ true
    → non_empty (split 59 (join (codes ";") (map piece_text pieces)))
      ≡ non_empty (map piece_text pieces)
unfolding split
split-pieces [] h = refl
split-pieces (p ∷ pieces) h = ap non_empty (split-join 59 (piece_text p) (map piece_text pieces) h)

-- The text that the editor runs, the selection where anything is selected and else the whole, being
-- pieces with semicolons between them, of which none has one in it (in a selection, not all pieces are
-- empty): exactly one request goes out for each piece that is neither empty nor white space, in their
-- order, with its lines on one line, without the white space around. It goes out as many seconds later
-- as there are pieces before it that are not empty, under the key of the tab and that number plus 1.
pub send_each-split_sql :
    (tab : Tab) (pieces : List Piece)
    → ArePieces pieces
    → all_free 59 (map piece_text pieces) ≡ true
    → Chosen tab pieces (join (codes ";") (map piece_text pieces))
    → send_each tab 0 (split_sql tab) ≡ requests tab 0 pieces
unfolding split_sql
send_each-split_sql tab pieces h free (inl (e, a)) =
    let whole = non_empty (split 59 tab.sql) in
    ap (λ t. send_each tab 0 (or_whole (non_empty (split 59 t)) whole)) e
    ∙ ap (λ ts. send_each tab 0 (or_whole ts whole)) (split-pieces pieces free)
    ∙ ap (send_each tab 0) (or_whole-pieces pieces whole h a)
    ∙ send_each-requests tab 0 pieces h
send_each-split_sql tab pieces h free (inr (none', e)) =
    let empty : non_empty (split 59 tab.select_sql) ≡ [] =
      ap (λ t. non_empty (split 59 t)) none' ∙ split-nothing in
    ap (λ ts. send_each tab 0 (or_whole ts (non_empty (split 59 tab.sql)))) empty
    ∙ ap (λ t. send_each tab 0 (non_empty (split 59 t))) e
    ∙ ap (send_each tab 0) (split-pieces pieces free)
    ∙ send_each-requests tab 0 pieces h
