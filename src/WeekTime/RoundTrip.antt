-- ===== src/WeekTime/RoundTrip.antt =====
-- `renderWeekTime` reads back what `dealTimePeriod` writes.
use next_dbm.Base.{
  ℕ, suc, ◌+◌, ◌-◌, ◌%◌, ◌≤◌, ◌<◌, ◌≡◌, refl, sym, ap, ◌∙◌, Bool, false, ◌||◌, List, [], ◌∷◌, ◌++◌,
  map, reverse, reverse-cons, codes, join, split, split-append, split-free, length, length-append,
  ◌==◌, if◌then◌else◌, some, arith,
}
use next_dbm.WeekTime.Label.{slot_begin, slot_end}
use next_dbm.WeekTime.Zone.{
  china, count_index-slot_begin, count_index-slot_end, tilde_free-slot_begin, tilde_free-slot_end,
}
use next_dbm.WeekTime.Grid.{
  Cell, Day, row_of, check_parts, set_checked, map_day, splicing, rounds, check_between,
  render_time_period, render_values,
}
use next_dbm.WeekTime.Spans.{
  Span, within, covers, checked_from, span_loop, covers-span_loop, AllBelow, span_loop-AllBelow,
}
use next_dbm.WeekTime.SpanText.{span_text, AreSlots, splicing-spans}
use next_dbm.WeekTime.Paint.{
  mark, mark_day, mark-mark, mark-ext, mark_none, length-mark, from_for, check_in_day,
  check_slots-modify, check_in_day-mark, modify-append,
}

-- One span.
split-span_text :
    (s : Span)
    → s.first < 48
    → s.last < 48
    → split b'~' (span_text china s) ≡ slot_begin china s.first ∷ slot_end china s.last ∷ []
split-span_text s hf hl =
    split-append b'~' (slot_begin china s.first) (slot_end china s.last)
      (tilde_free-slot_begin s.first hf)
    ∙ ap (slot_begin china s.first ∷◌)
        (split-free b'~' (slot_end china s.last) (tilde_free-slot_end s.last hl))

rounds-span : (first last : ℕ) → last < 48 → rounds first ((last + 1) % 48) ≡ suc last - first
rounds-span first last h = ground arith

within-from_for :
    (s : Span) (k : ℕ) → s.first ≤ s.last → from_for s.first (suc s.last - s.first) k ≡ within s k
within-from_for s k h = ground arith

render-span_text :
    (key : ℕ) (s : Span) (pre : List Day) (d : Day) (post : List Day)
    → row_of key ≡ length pre
    → length d.child ≡ 48
    → s.first ≤ s.last
    → s.last < 48
    → render_time_period key (span_text china s) (pre ++ (d ∷ post))
      ≡ some (pre ++ (mark_day (within s) d ∷ post))
unfolding render_time_period check_parts check_between
render-span_text key s pre d post row len le lt =
    rw
      (
        split-span_text s (omega arith) lt,
        count_index-slot_begin s.first (omega arith),
        count_index-slot_end s.last lt,
        rounds-span s.first s.last lt,
        row,
      )
      (check_slots-modify n s.first (length pre) (pre ++ (d ∷ post))
          (omega (arith, length-append pre (d ∷ post)))
        ∙ modify-append (check_in_day n s.first) pre d (mark_day (within s) d) post (
            check_in_day-mark n s.first d (omega arith)
            ∙ ap (λ cells. some (record d { child = cells }))
                (mark-ext (from_for s.first n) (within s) 0 d.child
                  (λ k _. within-from_for s k le))))
  where
    n : ℕ
    n = suc s.last - s.first

-- A list of spans.
pub render-span_texts :
    (key : ℕ) (ss : List Span) (pre : List Day) (d : Day) (post : List Day)
    → row_of key ≡ length pre
    → length d.child ≡ 48
    → AllBelow 48 ss
    → render_values key (map (span_text china) ss) (pre ++ (d ∷ post))
      ≡ some (pre ++ (mark_day (covers ss) d ∷ post))
unfolding render_values
render-span_texts key [] pre d post row len h =
    ap (λ cells. some (pre ++ (record d { child = cells } ∷ post)))
      (sym (mark_none (covers []) 0 d.child (λ k le. refl)))
render-span_texts key (s ∷ ss) pre d post row len h =
    rw (render-span_text key s pre d post row len h.0 h.1) (
      render-span_texts key ss pre (mark_day (within s) d) post row
        (length-mark (within s) 0 d.child ∙ len) h.2
      ∙ ap (λ cells. some (pre ++ (record d { child = cells } ∷ post)))
          (mark-mark (within s) (covers ss) 0 d.child))

-- The spans of a row, in reading order.
covers-append : (xs ys : List Span) (k : ℕ) → covers (xs ++ ys) k ≡ (covers xs k || covers ys k)
covers-append [] ys k = refl
covers-append (x ∷ xs) ys k = ground (arith, covers-append xs ys k)

covers-reverse : (ss : List Span) (k : ℕ) → covers (reverse ss) k ≡ covers ss k
covers-reverse [] k = refl
covers-reverse (s ∷ ss) k =
    rw (reverse-cons s ss)
      (covers-append (reverse ss) (s ∷ []) k ∙ ground (arith, covers-reverse ss k))

AllBelow-append :
    (n : ℕ) (xs ys : List Span) → AllBelow n xs → AllBelow n ys → AllBelow n (xs ++ ys)
AllBelow-append n [] ys h h' = h'
AllBelow-append n (x ∷ xs) ys h h' = (h.0, h.1, AllBelow-append n xs ys h.2 h')

AllBelow-reverse : (n : ℕ) (ss : List Span) → AllBelow n ss → AllBelow n (reverse ss)
AllBelow-reverse n [] h = tt
AllBelow-reverse n (s ∷ ss) h =
    rw (reverse-cons s ss)
      (AllBelow-append n (reverse ss) (s ∷ []) (AllBelow-reverse n ss h.2) (h.0, h.1, tt))

checked_from_below : (i : ℕ) (cells : List Cell) (k : ℕ) → k < i → checked_from i cells k ≡ false
checked_from_below i [] k h = refl
checked_from_below i (item ∷ arr) k h = ground (arith, checked_from_below (suc i) arr k)

-- Checking the slots that were checked, on a cleared row, restores the row.
mark-set_checked :
    (p : ℕ → Bool) (i : ℕ) (cells : List Cell)
    → ((k : ℕ) → i ≤ k → p k ≡ checked_from i cells k)
    → mark p i (map (set_checked false) cells) ≡ cells
unfolding mark
mark-set_checked p i [] h = refl
mark-set_checked p i (item ∷ arr) h =
    let rest = mark-set_checked p (suc i) arr (λ k le. tail_of k le) in
    ground (arith, h i (omega arith), checked_from_below (suc i) arr i, rest)
  where
    tail_of : (k : ℕ) → suc i ≤ k → p k ≡ checked_from (suc i) arr k
    tail_of k le = ground (arith, h k (omega arith))

-- One day: the text that `splicing` writes for it, read into the cleared day.
abbrev pub IsDay : ℕ → Day → Type 0
IsDay i d = (d.row ≡ i) × AreSlots china 0 d.child × (length d.child ≡ 48)

unfoldable pub spans_of : Day → List Span
spans_of d = reverse (span_loop 0 [] false d.child)

abbrev pub clear_day : Day → Day
clear_day = map_day (set_checked false)

pub mark-spans_of : (d : Day) → mark_day (covers (spans_of d)) (clear_day d) ≡ d
unfolding spans_of
mark-spans_of d =
    ap (λ cells. record d { child = cells })
      (mark-set_checked (covers (reverse (span_loop 0 [] false d.child))) 0 d.child (λ k _.
        covers-reverse (span_loop 0 [] false d.child) k ∙ covers-span_loop 0 [] false d.child k tt))

pub AllBelow-spans_of : (d : Day) → length d.child ≡ 48 → AllBelow 48 (spans_of d)
unfolding spans_of
AllBelow-spans_of d len =
    AllBelow-reverse 48 (span_loop 0 [] false d.child)
      (span_loop-AllBelow 0 [] false d.child 48 tt tt (omega arith))

pub value-spans_of :
    (i : ℕ) (d : Day)
    → IsDay i d
    → splicing d.child ≡ join (codes "、") (map (span_text china) (spans_of d))
unfolding spans_of
value-spans_of i d h = splicing-spans china 0 d.child h.1

pub row_of-key : (r : ℕ) → r < 7 → row_of (if r == 6 then 0 else r + 1) ≡ r
row_of-key r h = ground arith
