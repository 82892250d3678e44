-- ===== src/WeekTime/SpanText.antt =====
-- The text of the spans: `splicing` joins a label for each of them.
use next_dbm.Base.{
  ℕ, suc, ◌≡◌, refl, sym, Bool, true, false, List, [], ◌∷◌, ◌++◌, map, reverse, reverse-cons,
  append_assoc, append-nil, Text, codes, concat, join, arith,
}
use mathlib.Core.List.{tail}
use next_dbm.WeekTime.Label.{slot_begin, slot_end}
use next_dbm.WeekTime.Grid.{Cell, splice_step, splice_loop, splicing}
use next_dbm.WeekTime.Spans.{Span, Continues, span_step, span_loop, span_step-Continues}

module _ (zone : ℕ) where
  abbrev pub span_text : Span → Text
  span_text s = slot_begin zone s.first ++ (b'~' ∷ slot_end zone s.last)

  -- The tokens of the spans, both in reverse.
  abbrev tokens : List Span → List Text
  tokens [] = []
  tokens (s ∷ ss) =
      slot_end zone s.last ∷ codes "~" ∷ slot_begin zone s.first ∷ codes "、" ∷ tokens ss

  -- The same in reading order.
  abbrev read_tokens : List Span → List Text
  read_tokens [] = []
  read_tokens (s ∷ ss) =
      codes "、" ∷ slot_begin zone s.first ∷ codes "~" ∷ slot_end zone s.last ∷ read_tokens ss

  -- The cell carries the labels of slot `i`.
  abbrev pub IsSlot : ℕ → Cell → Type 0
  IsSlot i item = (item.begin ≡ slot_begin zone i) × (item.end ≡ slot_end zone i)

  abbrev pub AreSlots : ℕ → List Cell → Type 0
  AreSlots i [] = Unit {0}
  AreSlots i (item ∷ arr) = IsSlot i item × AreSlots (suc i) arr

  splice_step-tokens :
      (i : ℕ) (spans : List Span) (same : Bool) (item : Cell)
      → Continues i spans same
      → IsSlot i item
      → splice_step (tokens spans) same item ≡ tokens (span_step i spans same item)
  unfolding splice_step span_step
  splice_step-tokens i spans false item c s = ground arith
  splice_step-tokens i [] true item c s = absurd c
  splice_step-tokens i (x ∷ xs) true item c s = ground arith

  splice_loop-tokens :
      (i : ℕ) (spans : List Span) (same : Bool) (cells : List Cell)
      → Continues i spans same
      → AreSlots i cells
      → splice_loop (tokens spans) same cells ≡ tokens (span_loop i spans same cells)
  unfolding splice_loop span_loop
  splice_loop-tokens i spans same [] c s = refl
  splice_loop-tokens i spans same (item ∷ arr) c s =
      rw (splice_step-tokens i spans same item c s.0) (
        splice_loop-tokens (suc i) (span_step i spans same item) item.checked arr
          (span_step-Continues i spans same item c) s.1)

  read_tokens-append :
      (xs ys : List Span) → read_tokens (xs ++ ys) ≡ read_tokens xs ++ read_tokens ys
  read_tokens-append [] ys = refl
  read_tokens-append (x ∷ xs) ys = rw (read_tokens-append xs ys)

  reverse-tokens : (spans : List Span) → reverse (tokens spans) ≡ read_tokens (reverse spans)
  reverse-tokens [] = refl
  reverse-tokens (s ∷ ss) = simp (reverse-cons, reverse-tokens ss, read_tokens-append, append_assoc)

  concat-read_tokens :
      (s : Span) (ss : List Span)
      → concat (tail (read_tokens (s ∷ ss))) ≡ join (codes "、") (map span_text (s ∷ ss))
  concat-read_tokens s [] = simp (append_assoc, append-nil)
  concat-read_tokens s (t ∷ ts) = simp (append_assoc, sym (concat-read_tokens t ts))

  -- The text that `splicing` writes for a row that starts at slot `i`.
  pub splicing-spans :
      (i : ℕ) (cells : List Cell)
      → AreSlots i cells
      → splicing cells ≡ join (codes "、") (map span_text (reverse (span_loop i [] false cells)))
  unfolding splicing
  splicing-spans i cells s =
      rw (splice_loop-tokens i [] false cells tt s, reverse-tokens (span_loop i [] false cells))
        (on_spans (reverse (span_loop i [] false cells)))
    where
      on_spans :
          (ss : List Span) → concat (tail (read_tokens ss)) ≡ join (codes "、") (map span_text ss)
      on_spans [] = refl
      on_spans (x ∷ xs) = concat-read_tokens x xs
