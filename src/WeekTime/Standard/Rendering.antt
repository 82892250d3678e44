-- ===== src/WeekTime/Standard/Rendering.antt =====
-- Reading periods changes marks only, also where it stops by throwing.
use next_dbm.Base.{
  ℕ, zero, suc, ◌≡◌, refl, ◌∙◌, false, List, [], ◌∷◌, Text, split, Option, none, some, arith,
}
use next_dbm.WeekTime.Label.{count_index}
use next_dbm.WeekTime.Grid.{
  Day, Period, set_checked, map_day, row_of, comma, render_periods, render_text, render_values,
  render_time_period, check_parts, check_between, check_slots, check_slot, modify, and_then, rounds,
}
use next_dbm.WeekTime.Standard.Shape.{shape, modify-view, check_slot-shape}

pub and_then-view {ℓ κ} :
    {A : Type ℓ} {B : Type κ} (v : A → B) (m : Option A) (f : A → Option A) (x : A)
    → ((y : A) → m ≡ some y → v y ≡ v x)
    → ((y z : A) → f y ≡ some z → v z ≡ v y)
    → (z : A) → and_then m f ≡ some z
    → v z ≡ v x
and_then-view v none f x h k z e = cc
and_then-view v (some y) f x h k z e = k y z e ∙ h y refl

check_slots-shape :
    (n i row : ℕ) (days days' : List Day)
    → check_slots n i row days ≡ some days'
    → shape days' ≡ shape days
unfolding check_slots
check_slots-shape zero i row days days' e = ground arith
check_slots-shape (suc n) i row days days' e =
    and_then-view shape (modify (check_slot i) row days) (check_slots n (suc i) row) days
      (λ y h.
        modify-view (map_day (set_checked false)) (check_slot i) (check_slot-shape i) row days y h)
      (λ y z h. check_slots-shape n (suc i) row y z h) days' e

check_between-shape :
    (start end : Option ℕ) (row : ℕ) (days days' : List Day)
    → check_between start end row days ≡ some days'
    → shape days' ≡ shape days
unfolding check_between
check_between-shape (some s) (some e) row days days' h =
    check_slots-shape (rounds s e) s row days days' h
check_between-shape (some s) none row days days' h = ground arith
check_between-shape none end row days days' h = ground arith

check_parts-shape :
    (row : ℕ) (parts : List Text) (days days' : List Day)
    → check_parts row parts days ≡ some days'
    → shape days' ≡ shape days
unfolding check_parts
check_parts-shape row [] days days' h = cc
check_parts-shape row (start ∷ []) days days' h = cc
check_parts-shape row (start ∷ end ∷ rest) days days' h =
    check_between-shape (count_index start) (count_index end) row days days' h

render_time_period-shape :
    (key : ℕ) (val : Text) (days days' : List Day)
    → render_time_period key val days ≡ some days'
    → shape days' ≡ shape days
unfolding render_time_period
render_time_period-shape key val days days' h =
    check_parts-shape (row_of key) (split b'~' val) days days' h

render_values-shape :
    (key : ℕ) (cv : List Text) (days days' : List Day)
    → render_values key cv days ≡ some days'
    → shape days' ≡ shape days
unfolding render_values
render_values-shape key [] days days' h = ground arith
render_values-shape key (v ∷ cv) days days' h =
    and_then-view shape (render_time_period key v days) (render_values key cv) days
      (λ y e. render_time_period-shape key v days y e) (λ y z e. render_values-shape key cv y z e)
      days' h

render_text-shape :
    (key : ℕ) (v : Text) (days days' : List Day)
    → render_text key v days ≡ some days'
    → shape days' ≡ shape days
unfolding render_text
render_text-shape key [] days days' h = ground arith
render_text-shape key (x ∷ v) days days' h =
    render_values-shape key (split comma (x ∷ v)) days days' h

pub render_periods-shape :
    (periods : List Period) (days days' : List Day)
    → render_periods periods days ≡ some days'
    → shape days' ≡ shape days
unfolding render_periods
render_periods-shape [] days days' h = ground arith
render_periods-shape (t ∷ ts) days days' h =
    and_then-view shape (render_text t.key t.value days) (render_periods ts) days
      (λ y e. render_text-shape t.key t.value days y e) (λ y z e. render_periods-shape ts y z e)
      days' h
