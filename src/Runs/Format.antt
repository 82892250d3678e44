-- ===== src/Runs/Format.antt =====
-- What `replace(/\n+/g, ' ').trim()` makes of a text: white space, lines with line ends between them, and
-- white space.
use next_dbm.Base.{
  ℕ, zero, suc, ◌≡◌, refl, ap, ◌∙◌, sym, Bool, true, false, not, ◌&&◌, Bool-cases, inl, inr, List,
  [], ◌∷◌, ◌++◌, Text, has_text, reverse, reverse-cons, arith, both, free_of, append_assoc,
  append-nil, ◌==◌,
}
use mathlib.Core.List.{reverse-append, reverse-reverse}
use next_dbm.Mysql.Defs.{is_space, trim_start, trim}
use next_dbm.Runs.Defs.{newlines_to_space, sql_format}

abbrev pub all_space : Text → Bool
all_space [] = true
all_space (x ∷ s) = is_space x && all_space s

abbrev pub newlines : ℕ → Text → Text
newlines zero rest = rest
newlines (suc n) rest = 10 ∷ newlines n rest

-- Lines, each behind one line end and `n` more, and the rest of the text.
abbrev pub lines_text : List (ℕ × Text) → Text → Text
lines_text [] rest = rest
lines_text ((n, line) ∷ lines) rest = newlines (suc n) (line ++ lines_text lines rest)

-- The same lines behind one space each.
abbrev pub one_line : List (ℕ × Text) → Text → Text
one_line [] rest = rest
one_line ((n, line) ∷ lines) rest = 32 ∷ (line ++ one_line lines rest)

abbrev pub are_lines : List (ℕ × Text) → Bool
are_lines [] = true
are_lines ((n, line) ∷ lines) = (has_text line && free_of 10 line) && are_lines lines

abbrev pub starts_visibly : Text → Bool
starts_visibly [] = false
starts_visibly (x ∷ s) = not (is_space x)

abbrev pub ends_visibly : Text → Bool
ends_visibly [] = false
ends_visibly (x ∷ []) = not (is_space x)
ends_visibly (x ∷ y ∷ s) = ends_visibly (y ∷ s)

newlines_to_space-line :
    (t rest : Text)
    → free_of 10 t ≡ true
    → newlines_to_space false (t ++ rest) ≡ t ++ newlines_to_space false rest
newlines_to_space-line [] rest h = refl
newlines_to_space-line (x ∷ t) rest h = ground (arith, newlines_to_space-line t rest)

newlines_to_space-newlines :
    (n : ℕ) (rest : Text) → newlines_to_space true (newlines n rest) ≡ newlines_to_space true rest
newlines_to_space-newlines zero rest = refl
newlines_to_space-newlines (suc n) rest = newlines_to_space-newlines n rest

newlines_to_space-within :
    (t rest : Text)
    → has_text t ≡ true
    → free_of 10 t ≡ true
    → newlines_to_space true (t ++ rest) ≡ t ++ newlines_to_space false rest
newlines_to_space-within [] rest v h = cc
newlines_to_space-within (x ∷ t) rest v h = ground (arith, newlines_to_space-line t rest)

newlines_to_space-lines :
    (lines : List (ℕ × Text)) (rest : Text)
    → are_lines lines ≡ true
    → newlines_to_space false (lines_text lines rest)
      ≡ one_line lines (newlines_to_space false rest)
newlines_to_space-lines [] rest h = refl
newlines_to_space-lines ((n, line) ∷ lines) rest h =
    let (l, ls) = both {a = has_text line && free_of 10 line} h in
    let (v, f) = both {a = has_text line} l in
    ap (32 ∷◌) (
      newlines_to_space-newlines n (line ++ lines_text lines rest)
      ∙ newlines_to_space-within line (lines_text lines rest) v f
      ∙ ap (line ++◌) (newlines_to_space-lines lines rest ls))

trim_start-newlines_to_space :
    (within : Bool) (s : Text) (x : ℕ) (rest : Text)
    → all_space s ≡ true
    → is_space x ≡ false
    → trim_start (newlines_to_space within (s ++ (x ∷ rest))) ≡ x ∷ newlines_to_space false rest
trim_start-newlines_to_space within [] x rest h v = ground arith
trim_start-newlines_to_space within (y ∷ s) x rest h v =
    let (a, b) = both {a = is_space y} h in
    let ih = λ (w : Bool). trim_start-newlines_to_space w s x rest b v in
    elim (Bool-cases (y == 10)) [
      | inl e ↦ elim (Bool-cases within) [
        | inl w ↦ rw (e, w) (ih true)
        | inr w ↦ rw (e, w) (ih true)
      ]
      | inr e ↦ rw (e, a) (ih false)
    ]

all_space-newlines_to_space :
    (within : Bool) (s : Text) → all_space s ≡ true → all_space (newlines_to_space within s) ≡ true
all_space-newlines_to_space within [] h = refl
all_space-newlines_to_space within (y ∷ s) h =
    let (a, b) = both {a = is_space y} h in
    let ih = λ (w : Bool). all_space-newlines_to_space w s b in
    elim (Bool-cases (y == 10)) [
      | inl e ↦ elim (Bool-cases within) [
        | inl w ↦ rw (e, w) (ih true)
        | inr w ↦ rw (e, w) (ih true)
      ]
      | inr e ↦ rw (e, a) (ih false)
    ]

trim_start-spaces : (s rest : Text) → all_space s ≡ true → trim_start (s ++ rest) ≡ trim_start rest
trim_start-spaces [] rest h = refl
trim_start-spaces (x ∷ s) rest h =
    let (a, b) = both {a = is_space x} h in rw a (trim_start-spaces s rest b)

all_space-append :
    (s t : Text) → all_space s ≡ true → all_space t ≡ true → all_space (s ++ t) ≡ true
all_space-append [] t h k = k
all_space-append (x ∷ s) t h k = ground (arith, all_space-append s t)

all_space-reverse : (s : Text) → all_space s ≡ true → all_space (reverse s) ≡ true
all_space-reverse [] h = refl
all_space-reverse (x ∷ s) h =
    let (a, b) = both {a = is_space x} h in
    ap all_space (reverse-cons x s)
    ∙ all_space-append (reverse s) (x ∷ []) (all_space-reverse s b) (rw a refl)

reverse-visible :
    (v : Text)
    → ends_visibly v ≡ true
    → (x : ℕ) × (w : Text) × (reverse v ≡ x ∷ w) × (is_space x ≡ false)
reverse-visible [] h = cc
reverse-visible (x ∷ []) h = (x, [], refl, ground arith)
reverse-visible (x ∷ y ∷ s) h =
    let (z, w, e, v) = reverse-visible (y ∷ s) h in
    (z, w ++ (x ∷ []), reverse-cons x (y ∷ s) ∙ ap (◌++ (x ∷ [])) e, v)

trim-end :
    (v s : Text)
    → ends_visibly v ≡ true
    → all_space s ≡ true
    → reverse (trim_start (reverse (v ++ s))) ≡ v
trim-end v s h k =
    let (x, w, e, visible) = reverse-visible v h in
    let stays : trim_start (reverse v) ≡ reverse v = rw (e, visible) refl in
    ap (λ t. reverse (trim_start t)) (reverse-append v s)
    ∙ ap reverse (trim_start-spaces (reverse s) (reverse v) (all_space-reverse s k) ∙ stays)
    ∙ reverse-reverse v

one_line-rest :
    (lines : List (ℕ × Text)) (rest : Text) → one_line lines rest ≡ one_line lines [] ++ rest
one_line-rest [] rest = refl
one_line-rest ((n, line) ∷ lines) rest =
    ap (32 ∷◌)
      (ap (line ++◌) (one_line-rest lines rest) ∙ sym (append_assoc line (one_line lines []) rest))

pub sql_format-spaces : (s : Text) → all_space s ≡ true → sql_format s ≡ []
unfolding sql_format trim
sql_format-spaces s h =
    let e =
      trim_start-spaces (newlines_to_space false s) [] (all_space-newlines_to_space false s h) in
    ap (λ t. reverse (trim_start (reverse t)))
      (ap trim_start (sym (append-nil (newlines_to_space false s))) ∙ e)

pub sql_format-lines :
    (pre first : Text) (lines : List (ℕ × Text)) (post : Text)
    → all_space pre ≡ true
    → starts_visibly first ≡ true
    → free_of 10 first ≡ true
    → are_lines lines ≡ true
    → ends_visibly (first ++ one_line lines []) ≡ true
    → all_space post ≡ true
    → sql_format (pre ++ (first ++ lines_text lines post)) ≡ first ++ one_line lines []
unfolding sql_format trim
sql_format-lines pre [] lines post a b c d e f = cc
sql_format-lines pre (x ∷ first) lines post a b c d e f =
    let visible : is_space x ≡ false = ground arith in
    let free' : free_of 10 first ≡ true = (both {a = not (x == 10)} c).1 in
    let post' = newlines_to_space false post in
    let body =
      newlines_to_space-line first (lines_text lines post) free'
      ∙ ap (first ++◌) (newlines_to_space-lines lines post d ∙ one_line-rest lines post')
      ∙ sym (append_assoc first (one_line lines []) post') in
    ap (λ t. reverse (trim_start (reverse t)))
      (trim_start-newlines_to_space false pre x (first ++ lines_text lines post) a visible
        ∙ ap (x ∷◌) body)
    ∙ trim-end (x ∷ (first ++ one_line lines [])) post' e (all_space-newlines_to_space false post f)
