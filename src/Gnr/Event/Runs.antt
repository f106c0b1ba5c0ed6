-- ===== src/Gnr/Event/Runs.antt =====
-- Runs of the event handlers of gnr/core.c, and their theorem at a concrete input.
use timps.Prelude.{ℕ, ◌≡◌, refl, true, some, List, [], ◌∷◌}
use timps.Fixture.{zeros}
use timps.Gnr.Event.{Evh, event_register, evh_find, is_handler, event_throw}

abbrev first : Evh
first = record { evh_mod = 1; evh_func = 10; evh_evmask = 2 }

abbrev second : Evh
second = record { evh_mod = 1; evh_func = 11; evh_evmask = 3 }

registers : event_register zeros (first ∷ []) (some 1) (some 11) 3 ≡ (true, second ∷ first ∷ [])
unfolding event_register evh_find is_handler
registers = refl

-- An event is for the handlers whose mask has its bit.
throws : event_throw (λ f m (w : List ℕ). f ∷ w) (second ∷ first ∷ []) 1 [] ≡ 11 ∷ []
unfolding event_throw
throws = refl
