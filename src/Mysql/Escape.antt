-- ===== src/Mysql/Escape.antt =====
-- A backslash in a text that is inserted or updated.
use next_dbm.Base.{◌≡◌, refl, ap, ◌∙◌, true, [], ◌∷◌, ◌++◌, Text, some, free_of, append_assoc}
use next_dbm.Mysql.Defs.{Value, escape_quotes, quoted}
use next_dbm.Mysql.Reader.{
  Place, reads, prepend, quote_text, escape_quotes-append, reads-inside-backslash,
}

-- `quoted` escapes the quote and not the backslash. Where the first backslash of a text stands right
-- before a quote, MySQL ends the literal at that quote: the value is cut behind the backslash, and
-- the rest of the text is read as what follows a value in the statement.
pub quoted-reads :
    (t s rest : Text)
    → free_of 92 t ≡ true
    → (literal : Text) × (quoted (Value.text (t ++ (92 ∷ 39 ∷ s))) ≡ some literal)
      × (reads Place.item (literal ++ rest)
          ≡ prepend (t ++ (92 ∷ [])) (reads Place.closed (escape_quotes s ++ (39 ∷ rest))))
unfolding quoted reads escape_quotes
quoted-reads t s rest h = (
  quote_text (t ++ (92 ∷ 39 ∷ s)),
  refl,
  ap (λ w. reads Place.inside ((w ++ (39 ∷ [])) ++ rest)) (escape_quotes-append t (92 ∷ 39 ∷ s))
      ∙ ap (λ w. reads Place.inside (w ++ rest))
          (append_assoc (escape_quotes t) (92 ∷ 92 ∷ 39 ∷ escape_quotes s) (39 ∷ []))
      ∙ ap (reads Place.inside)
          (append_assoc (escape_quotes t) (92 ∷ 92 ∷ 39 ∷ (escape_quotes s ++ (39 ∷ []))) rest)
      ∙ ap (λ w. reads Place.inside (escape_quotes t ++ (92 ∷ 92 ∷ 39 ∷ w)))
          (append_assoc (escape_quotes s) (39 ∷ []) rest)
      ∙ reads-inside-backslash t (escape_quotes s ++ (39 ∷ rest)) h,
)
