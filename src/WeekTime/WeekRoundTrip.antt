-- ===== src/WeekTime/WeekRoundTrip.antt =====
-- The whole week: what `renderWeekTime` restores.
use next_dbm.Base.{
  ℕ, zero, suc, ◌+◌, ◌≤◌, ◌<◌, ◌≡◌, refl, sym, ap, ◌∙◌, true, false, List, [], ◌∷◌, ◌++◌, map,
  append_assoc, Text, codes, join, split, free_of, all_free, free_of-append, split-join, length,
  length-append, length-map, subst, some, arith,
}
use mathlib.Core.Option
use next_dbm.WeekTime.Label.{slot_begin, slot_end}
use next_dbm.WeekTime.Zone.{china, comma_free-slot_begin, comma_free-slot_end}
use next_dbm.WeekTime.Grid.{
  Cell, Day, Picker, row_of, set_checked, map_cells, day_period, deal_time_period,
  handle_change_time_period, handle_clear_week_time, comma, render_values, render_text,
  render_period, render_periods, render_week_time, week_data, days_from, children, new_cell,
  week_names,
}
use next_dbm.WeekTime.Spans.{Span, covers, AllBelow}
use next_dbm.WeekTime.SpanText.{span_text, AreSlots}
use next_dbm.WeekTime.Paint.{mark_day, mark_none}
use next_dbm.WeekTime.RoundTrip.{
  IsDay, spans_of, clear_day, mark-spans_of, AllBelow-spans_of, value-spans_of, row_of-key,
  render-span_texts,
}

comma_free-span_text :
    (s : Span) → s.first < 48 → s.last < 48 → free_of comma (span_text china s) ≡ true
comma_free-span_text s hf hl =
    free_of-append comma (slot_begin china s.first) (b'~' ∷ slot_end china s.last)
    ∙ rw (comma_free-slot_begin s.first hf, comma_free-slot_end s.last hl)

all_free-span_texts :
    (ss : List Span) → AllBelow 48 ss → all_free comma (map (span_text china) ss) ≡ true
all_free-span_texts [] h = refl
all_free-span_texts (s ∷ ss) h =
    rw (comma_free-span_text s (omega arith) h.1, all_free-span_texts ss h.2)

-- A text with a unit in it is not skipped.
render_text-append :
    (key : ℕ) (t : Text) (c : ℕ) (u : Text) (days : List Day)
    → render_text key (t ++ (c ∷ u)) days ≡ render_values key (split comma (t ++ (c ∷ u))) days
unfolding render_text
render_text-append key [] c u days = refl
render_text-append key (x ∷ t) c u days = refl

render_text-join :
    (key : ℕ) (s : Span) (ss : List Span) (days : List Day)
    → let v = join (codes "、") (map (span_text china) (s ∷ ss)) in
      render_text key v days ≡ render_values key (split comma v) days
render_text-join key s [] days =
    render_text-append key (slot_begin china s.first) b'~' (slot_end china s.last) days
render_text-join key s (t ∷ ss) days =
    rw (append_assoc (slot_begin china s.first))
      (render_text-append key (slot_begin china s.first) b'~' _ days)

render_text-spans :
    (key : ℕ) (ss : List Span) (pre : List Day) (d : Day) (post : List Day)
    → row_of key ≡ length pre
    → length d.child ≡ 48
    → AllBelow 48 ss
    → render_text key (join (codes "、") (map (span_text china) ss)) (pre ++ (d ∷ post))
      ≡ some (pre ++ (mark_day (covers ss) d ∷ post))
unfolding render_text
render_text-spans key [] pre d post row len h =
    ap (λ cells. some (pre ++ (record d { child = cells } ∷ post)))
      (sym (mark_none (covers []) 0 d.child (λ k le. refl)))
render_text-spans key (s ∷ ss) pre d post row len h =
    render_text-join key s ss (pre ++ (d ∷ post))
    ∙ rw
        (split-join comma (span_text china s) (map (span_text china) ss)
          (all_free-span_texts (s ∷ ss) h))
        (render-span_texts key (s ∷ ss) pre d post row len h)

-- A day is restored from its period.
render_period-day :
    (pre : List Day) (d : Day) (post : List Day)
    → IsDay (length pre) d
    → length pre < 7
    → render_period (day_period d) (pre ++ (clear_day d ∷ post)) ≡ some (pre ++ (d ∷ post))
unfolding day_period
render_period-day pre d post h lt = rw (value-spans_of (length pre) d h) (
    render_text-spans _ (spans_of d) pre (clear_day d) post
      (row_of-key d.row (omega (arith, h.0)) ∙ h.0) (length-map (set_checked false) d.child ∙ h.2)
      (AllBelow-spans_of d h.2)
    ∙ ap (λ d'. some (pre ++ (d' ∷ post))) (mark-spans_of d))

abbrev pub AreDays : ℕ → List Day → Type 0
AreDays i [] = Unit {0}
AreDays i (d ∷ ds) = IsDay i d × AreDays (suc i) ds

length-snoc : (pre : List Day) (d : Day) → length (pre ++ (d ∷ [])) ≡ suc (length pre)
length-snoc pre d = omega (arith, length-append pre (d ∷ []))

render_periods-days :
    (pre ds : List Day)
    → AreDays (length pre) ds
    → length pre + length ds ≤ 7
    → render_periods (map day_period ds) (pre ++ map_cells (set_checked false) ds)
      ≡ some (pre ++ ds)
unfolding render_periods
render_periods-days pre [] h le = refl
render_periods-days pre (d ∷ ds) h le =
    rw (render_period-day pre d (map_cells (set_checked false) ds) h.0 (omega arith)) (
      simp append_assoc at (
        render_periods-days (pre ++ (d ∷ [])) ds
          (subst (λ i. AreDays i ds) (sym (length-snoc pre d)) h.1)
          (omega (arith, length-snoc pre d))))

-- The data of a picker, its marks aside, are those that the module creates.
abbrev pub IsStandard : List Day → Type 0
IsStandard days = map_cells (set_checked false) days ≡ week_data china

AreSlots-children :
    (week : Text) (row i n : ℕ) (cells : List Cell)
    → map (set_checked false) cells ≡ children china week row i n
    → AreSlots china i cells × (length cells ≡ n)
unfolding children new_cell
AreSlots-children week row i zero [] e = (tt, refl)
AreSlots-children week row i (suc n) [] e = cc
AreSlots-children week row i zero (c ∷ cs) e = cc
AreSlots-children week row i (suc n) (c ∷ cs) e =
    let first : set_checked false c ≡ new_cell china week row i = cc in
    let rest : map (set_checked false) cs ≡ children china week row (suc i) n = cc in
    let (slots, len) = AreSlots-children week row (suc i) n cs rest in
    (((ap (λ x. x.begin) first, ap (λ x. x.end) first), slots), ap suc len)

AreDays-days_from :
    (i : ℕ) (names : List Text) (days : List Day)
    → map_cells (set_checked false) days ≡ days_from china i names
    → AreDays i days × (length days ≡ length names)
unfolding days_from
AreDays-days_from i [] [] e = (tt, refl)
AreDays-days_from i [] (d ∷ ds) e = cc
AreDays-days_from i (w ∷ ws) [] e = cc
AreDays-days_from i (w ∷ ws) (d ∷ ds) e =
    let first : clear_day d ≡ record { value = w; row = i; child = children china w i 0 48 } = cc in
    let rest : map_cells (set_checked false) ds ≡ days_from china (suc i) ws = cc in
    let (days, len) = AreDays-days_from (suc i) ws ds rest in
    let (slots, cells) = AreSlots-children w i 0 48 d.child (ap (λ x. x.child) first) in
    (((ap (λ x. x.row) first, slots, cells), days), ap suc len)

-- In the zone 8 hours east of UTC, rendering the periods that one picker reports into any other
-- restores its slots, and reports the same periods again. Nothing is thrown.
pub render_week_time-deal :
    (p q : Picker)
    → IsStandard p.week_time_data
    → IsStandard q.week_time_data
    → (r : Picker) × (render_week_time (deal_time_period p).time_period q ≡ some r)
      × (r.week_time_data ≡ p.week_time_data)
      × (r.time_period ≡ (deal_time_period p).time_period)
unfolding render_week_time week_data week_names handle_clear_week_time handle_change_time_period
    deal_time_period
render_week_time-deal p q hp hq =
    let days = AreDays-days_from 0 week_names p.week_time_data hp in
    (
      deal_time_period (record (handle_clear_week_time q) { week_time_data = p.week_time_data }),
      rw (hq ∙ sym hp) (
          ap
            (Option.map (λ days.
              deal_time_period (record (handle_clear_week_time q) { week_time_data = days })))
            (render_periods-days [] p.week_time_data days.0 (omega (arith, days.1)))),
      refl,
      refl,
    )
