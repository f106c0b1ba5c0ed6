-- ===== src/Gnr/Event/Cycle.antt =====
-- gnr/core.c: handlers of events from their registration to their removal.
use timps.Prelude.{
  ℕ, ◌≡◌, inl, inr, refl, ap, true, false, Bool-cases, Option-cases, Option, none, some, List, [],
  ◌∷◌, arith,
}
use mathlib.Core.Path.{subst}
use timps.Gnr.Event.{
  Evh, evh_size, is_handler, evh_find, event_register, remove_all, event_unregister,
}

remove_all_absent :
    (evhs : List Evh) (m f : ℕ) → evh_find evhs m f ≡ none → remove_all evhs m f ≡ evhs
unfolding evh_find remove_all
remove_all_absent [] m f h = refl
remove_all_absent (evh ∷ evhs) m f h = elim (Bool-cases (is_handler m f evh)) [
  | inl e ↦ absurd (ground (arith, h, e))
  | inr e ↦ rw e (ap (λ l. evh ∷ l) (remove_all_absent evhs m f (ground (arith, h, e))))
]

is_handler_new :
    (m f mask : ℕ) → is_handler m f (record { evh_mod = m; evh_func = f; evh_evmask = mask }) ≡ true
unfolding is_handler
is_handler_new m f mask = ground arith

-- What gnr_event_register does where it returns 0.
event_register_lem :
    (malloc : ℕ → Option (List ℕ)) (evhs evhs' : List Evh) (m f mask : ℕ)
    → event_register malloc evhs (some m) (some f) mask ≡ (true, evhs')
    → (evh_find evhs m f ≡ none)
      × (record { evh_mod = m; evh_func = f; evh_evmask = mask } ∷ evhs ≡ evhs')
unfolding event_register
event_register_lem malloc evhs evhs' m f mask e = elim (Option-cases (evh_find evhs m f)) [
  | inr (_, a) ↦ absurd (ground (arith, e, a))
  | inl a ↦ elim (Option-cases (malloc evh_size)) [
    | inl b ↦ absurd (ground (arith, e, a, b))
    | inr (_, b) ↦ (a, ap (λ p. p.1) (rw (event_register, a, b) at e))
  ]
]

registered_lem :
    (malloc : ℕ → Option (List ℕ)) (evhs : List Evh) (m f mask again : ℕ)
    → evh_find evhs m f ≡ none
    → (event_unregister
          (record { evh_mod = m; evh_func = f; evh_evmask = mask } ∷ evhs)
          (some m)
          (some f)
        ≡ (true, evhs))
      × ((event_register malloc
            (record { evh_mod = m; evh_func = f; evh_evmask = mask } ∷ evhs)
            (some m)
            (some f)
            again).0
          ≡ false)
unfolding event_unregister event_register evh_find remove_all
registered_lem malloc evhs m f mask again absent =
    let own = is_handler_new m f mask in
    (
      rw own (ap (λ l. (true, l)) (remove_all_absent evhs m f absent)),
      rw (event_register, evh_find, own) refl,
    )

-- Where gnr_event_register returns 0, gnr_event_unregister of the same module and function gives
-- the old handlers back, and a second gnr_event_register of them, with any mask, is refused.
pub event_unregister-event_register :
    (malloc : ℕ → Option (List ℕ)) (evhs evhs' : List Evh) (m f : Option ℕ) (mask again : ℕ)
    → event_register malloc evhs m f mask ≡ (true, evhs')
    → (event_unregister evhs' m f ≡ (true, evhs))
      × ((event_register malloc evhs' m f again).0 ≡ false)
unfolding event_register
event_unregister-event_register malloc evhs evhs' none f mask again e = absurd (cc)
event_unregister-event_register malloc evhs evhs' (some m) none mask again e = absurd (cc)
event_unregister-event_register malloc evhs evhs' (some m) (some f) mask again e =
    let (absent, new) = event_register_lem malloc evhs evhs' m f mask e in
    subst
      (λ l.
        (event_unregister l (some m) (some f) ≡ (true, evhs))
        × ((event_register malloc l (some m) (some f) again).0 ≡ false))
      new (registered_lem malloc evhs m f mask again absent)
