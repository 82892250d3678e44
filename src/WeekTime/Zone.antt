-- ===== src/WeekTime/Zone.antt =====
-- The labels of the slots, checked slot by slot.
use next_dbm.Base.{
  ℕ, ◌+◌, ◌*◌, ◌<◌, ◌%◌, ◌≡◌, refl, Bool, true, false, ◌&&◌, ◌==◌, Option, none, some, holds_below,
  of_holds_below, free_of, both, arith,
}
use next_dbm.WeekTime.Label.{slot_begin, slot_end, count_index}
use next_dbm.WeekTime.Grid.{comma}

-- The zone in which slot 0 begins at midnight: the one that the literal time stamp was taken in.
abbrev pub china : ℕ
china = 480

abbrev is_index : Option ℕ → ℕ → Bool
is_index none n = false
is_index (some m) n = m == n

is_index_eq : (o : Option ℕ) (n : ℕ) → is_index o n ≡ true → o ≡ some n
is_index_eq none n h = ground arith
is_index_eq (some m) n h = ground arith

abbrev begins_well : ℕ → Bool
begins_well c =
    is_index (count_index (slot_begin china c)) c
    && (free_of b'~' (slot_begin china c) && free_of comma (slot_begin china c))

abbrev ends_well : ℕ → Bool
ends_well c =
    is_index (count_index (slot_end china c)) ((c + 1) % 48)
    && (free_of b'~' (slot_end china c) && free_of comma (slot_end china c))

begins_table : holds_below begins_well 48 ≡ true
unfolding holds_below slot_begin count_index
begins_table = refl

ends_table : holds_below ends_well 48 ≡ true
unfolding holds_below slot_end count_index
ends_table = refl

module _ (c : ℕ) (h : c < 48) where
  begin_facts : begins_well c ≡ true
  begin_facts = of_holds_below begins_well 48 h begins_table

  end_facts : ends_well c ≡ true
  end_facts = of_holds_below ends_well 48 h ends_table

  pub count_index-slot_begin : count_index (slot_begin china c) ≡ some c
  count_index-slot_begin = is_index_eq _ c (both begin_facts).0

  pub count_index-slot_end : count_index (slot_end china c) ≡ some ((c + 1) % 48)
  count_index-slot_end = is_index_eq _ _ (both end_facts).0

  pub tilde_free-slot_begin : free_of b'~' (slot_begin china c) ≡ true
  tilde_free-slot_begin = (both (both begin_facts).1).0

  pub comma_free-slot_begin : free_of comma (slot_begin china c) ≡ true
  comma_free-slot_begin = (both (both begin_facts).1).1

  pub tilde_free-slot_end : free_of b'~' (slot_end china c) ≡ true
  tilde_free-slot_end = (both (both end_facts).1).0

  pub comma_free-slot_end : free_of comma (slot_end china c) ≡ true
  comma_free-slot_end = (both (both end_facts).1).1

-- In a zone `j` half hours east of UTC the label of slot `c` names slot `(c + j + 32) % 48`.
abbrev shifted : ℕ → ℕ → Bool
shifted j c = is_index (count_index (slot_begin (30 * j) c)) ((c + j + 32) % 48)

shifted_table : holds_below (λ j. holds_below (shifted j) 48) 29 ≡ true
unfolding holds_below slot_begin count_index
shifted_table = refl

-- In a zone `j` half hours east of UTC, up to 14 hours, the label of slot `c` reads as slot
-- `(c + j + 32) % 48`: as `c` itself exactly 8 hours east.
pub count_index-zone :
    (j c : ℕ) → j < 29 → c < 48 → count_index (slot_begin (30 * j) c) ≡ some ((c + j + 32) % 48)
count_index-zone j c hj hc = is_index_eq _ _ (
    of_holds_below (shifted j) 48 hc
      (of_holds_below (λ i. holds_below (shifted i) 48) 29 hj shifted_table))
