-- ===== src/Mysql/Reader.antt =====
-- How MySQL reads the list of values of a row: the grammar of its string literals, where a backslash
-- takes the next character, and which the text of `insertRow` is measured by.
use next_dbm.Base.{
  ℕ, ◌≡◌, refl, ap, ◌∙◌, true, not, List, [], ◌∷◌, ◌++◌, map, Text, codes, join, ◌==◌,
  if◌then◌else◌, Option, none, some, free_of, all_free, both, append_assoc, arith,
}
use next_dbm.Mysql.Defs.{escape_quotes, tuple_text}

-- Where the reader stands.
pub data Place : Type 0 where
  opening item inside escaped closed done failed : Place

abbrev pub next : Place → ℕ → Place
next Place.opening x = if x == 40 then Place.item else Place.failed
next Place.item x = if x == 32 then Place.item else if x == 39 then Place.inside else Place.failed
next Place.inside x =
    if x == 39 then Place.closed else if x == 92 then Place.escaped else Place.inside
next Place.escaped x = Place.inside
next Place.closed x = if x == 44 then Place.item else if x == 41 then Place.done else Place.failed
next Place.done x = Place.done
next Place.failed x = Place.failed

-- The characters that stand for another one after a backslash.
abbrev pub unescape : ℕ → ℕ
unescape x =
    if x == 48
    then 0
    else if x == 98
    then 8
    else if x == 110
    then 10
    else if x == 114
    then 13
    else if x == 116
    then 9
    else if x == 90
    then 26
    else x

abbrev pub Read : Type 0
Read = Option (List Text × Text)

abbrev pub push_char : ℕ → Read → Read
push_char x none = none
push_char x (some ([], rest)) = none
push_char x (some (v ∷ vs, rest)) = some ((x ∷ v) ∷ vs, rest)

abbrev pub new_value : Read → Read
new_value none = none
new_value (some (vs, rest)) = some ([] ∷ vs, rest)

abbrev pub collect : Place → ℕ → Read → Read
collect Place.inside x r = if x == 39 then new_value r else if x == 92 then r else push_char x r
collect Place.escaped x r = push_char (unescape x) r
collect _ x r = r

-- The values from a place on, the first of them from within, and the text behind them.
unfoldable pub reads : Place → Text → Read
reads Place.done s = some ([], s)
reads Place.opening [] = none
reads Place.item [] = none
reads Place.inside [] = none
reads Place.escaped [] = none
reads Place.closed [] = none
reads Place.failed [] = none
reads Place.opening (x ∷ s) = collect Place.opening x (reads (next Place.opening x) s)
reads Place.item (x ∷ s) = collect Place.item x (reads (next Place.item x) s)
reads Place.inside (x ∷ s) = collect Place.inside x (reads (next Place.inside x) s)
reads Place.escaped (x ∷ s) = collect Place.escaped x (reads (next Place.escaped x) s)
reads Place.closed (x ∷ s) = collect Place.closed x (reads (next Place.closed x) s)
reads Place.failed (x ∷ s) = none

abbrev pub quote_text : Text → Text
quote_text t = 39 ∷ (escape_quotes t ++ (39 ∷ []))

abbrev pub prepend : Text → Read → Read
prepend t none = none
prepend t (some (vs, rest)) = some (t ∷ vs, rest)

push_char-prepend : (x : ℕ) (t : Text) (r : Read) → push_char x (prepend t r) ≡ prepend (x ∷ t) r
push_char-prepend x t none = refl
push_char-prepend x t (some (vs, rest)) = refl

new_value-prepend : (r : Read) → new_value r ≡ prepend [] r
new_value-prepend none = refl
new_value-prepend (some (vs, rest)) = refl

reads-inside :
    (t rest : Text)
    → free_of 92 t ≡ true
    → reads Place.inside (escape_quotes t ++ (39 ∷ rest)) ≡ prepend t (reads Place.closed rest)
unfolding reads escape_quotes
reads-inside [] rest h = new_value-prepend (reads Place.closed rest)
reads-inside (x ∷ t) rest h =
    let ih = reads-inside t rest (both {a = not (x == 92)} h).1 in
    ground (arith, ih, push_char-prepend x t (reads Place.closed rest))

reads-item :
    (t rest : Text)
    → free_of 92 t ≡ true
    → reads Place.item (quote_text t ++ rest) ≡ prepend t (reads Place.closed rest)
unfolding reads
reads-item t rest h = rw (append_assoc (escape_quotes t) (39 ∷ []) rest) (reads-inside t rest h)

reads-join :
    (t : Text) (ts : List Text) (rest : Text)
    → all_free 92 (t ∷ ts) ≡ true
    → reads Place.item (join (codes ", ") (map quote_text (t ∷ ts)) ++ (41 ∷ rest))
      ≡ some (t ∷ ts, rest)
unfolding reads
reads-join t [] rest h = reads-item t (41 ∷ rest) (both h).0
reads-join t (u ∷ ts) rest h =
    let joined = join (codes ", ") (map quote_text (u ∷ ts)) in
    ap (reads Place.item) (append_assoc (quote_text t) (codes ", " ++ joined) (41 ∷ rest))
    ∙ reads-item t (44 ∷ 32 ∷ (joined ++ (41 ∷ rest))) (both h).0
    ∙ ap (prepend t) (reads-join u ts rest (both {a = free_of 92 t} h).1)

pub reads-tuple_text :
    (t : Text) (ts : List Text) (rest : Text)
    → all_free 92 (t ∷ ts) ≡ true
    → reads Place.opening (tuple_text (map quote_text (t ∷ ts)) ++ rest) ≡ some (t ∷ ts, rest)
unfolding reads tuple_text
reads-tuple_text t ts rest h =
    rw (append_assoc (join (codes ", ") (map quote_text (t ∷ ts))) (41 ∷ []) rest)
      (reads-join t ts rest h)

pub escape_quotes-append :
    (s t : Text) → escape_quotes (s ++ t) ≡ escape_quotes s ++ escape_quotes t
unfolding escape_quotes
escape_quotes-append [] t = refl
escape_quotes-append (x ∷ s) t = ground (arith, escape_quotes-append s t)

pub reads-inside-backslash :
    (t rest : Text)
    → free_of 92 t ≡ true
    → reads Place.inside (escape_quotes t ++ (92 ∷ 92 ∷ 39 ∷ rest))
      ≡ prepend (t ++ (92 ∷ [])) (reads Place.closed rest)
unfolding reads escape_quotes
reads-inside-backslash [] rest h = ground (
  arith,
  new_value-prepend (reads Place.closed rest),
  push_char-prepend 92 [] (reads Place.closed rest),
)
reads-inside-backslash (x ∷ t) rest h =
    let ih = reads-inside-backslash t rest (both {a = not (x == 92)} h).1 in
    ground (arith, ih, push_char-prepend x (t ++ (92 ∷ [])) (reads Place.closed rest))
