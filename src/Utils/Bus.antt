-- ===== src/Utils/Bus.antt =====
-- Handlers that are added to the bus and taken away.
use next_dbm.Base.{
  ℕ, ◌≡◌, refl, ap, ◌∙◌, false, List, [], ◌∷◌, ◌++◌, map, Text, text_eq, text_eq_refl, ◌==◌,
  ==_refl, if◌then◌else◌, some, get_key,
}
use next_dbm.Utils.Defs.{EventBus, handlers, handlers_of, without, called_with, on, emit, off}

handlers-at :
    (type : Text) (fns : List ℕ) (bus : EventBus)
    → handlers type (record bus { events = (type, fns) ∷ bus.events }) ≡ fns
handlers-at type fns bus =
    ap (λ b. handlers_of (if b then some fns else get_key type bus.events)) (text_eq_refl type)

without-append : (fn : ℕ) (fns : List ℕ) → without fn (fns ++ (fn ∷ [])) ≡ without fn fns
without-append fn [] = ap (λ b. if b then [] else fn ∷ []) (==_refl fn)
without-append fn (f ∷ fns) = ap (λ r. if f == fn then r else f ∷ r) (without-append fn fns)

handlers-off :
    (type : Text) (fn : ℕ) (bus : EventBus)
    → handlers type (off type fn bus) ≡ without fn (handlers type bus)
unfolding off
handlers-off type fn bus = handlers-at type (without fn (handlers type bus)) bus

handlers-on :
    (type : Text) (fn : ℕ) (bus : EventBus)
    → handlers type (on type fn bus) ≡ handlers type bus ++ (fn ∷ [])
unfolding on
handlers-on type fn bus = handlers-at type (handlers type bus ++ (fn ∷ [])) bus

-- A handler that is added is called after those that were there, with the payload. Taken away
-- again, neither it nor an earlier copy of it is called, and all others are as before; the handlers of
-- another type are not touched.
pub emit-off-on :
    (type other payload : Text) (fn : ℕ) (bus : EventBus)
    → text_eq type other ≡ false
    → ((emit type payload (on type fn bus)).calls
        ≡ bus.calls ++ map (called_with payload) (handlers type bus ++ (fn ∷ [])))
      × ((emit type payload (off type fn (on type fn bus))).calls
          ≡ bus.calls ++ map (called_with payload) (without fn (handlers type bus)))
      × (handlers other (off type fn (on type fn bus)) ≡ handlers other bus)
unfolding emit on off
emit-off-on type other payload fn bus h = (
  ap (λ fns. bus.calls ++ map (called_with payload) fns) (handlers-on type fn bus),
  ap (λ fns. bus.calls ++ map (called_with payload) fns)
      (handlers-off type fn (on type fn bus)
        ∙ ap (without fn) (handlers-on type fn bus)
        ∙ without-append fn (handlers type bus)),
  rw h refl,
)
