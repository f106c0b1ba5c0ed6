-- ===== src/Gnr/Event.antt =====
-- gnr/core.c: the handlers of events that modules register with gnr.
--
-- A module or a function is its address, `none` for NULL; the list starts with the latest handler.
-- What the handlers do is a parameter. They do not change the list while an event is thrown.
pub mod Cycle
mod Runs
use timps.Prelude.{
  ℕ, Bool, true, false, not, ◌&&◌, Option, none, some, List, [], ◌∷◌, ◌==◌, if◌then◌else◌,
}
use Prim.Native.Nat.{bit_and}

pub record Evh : Type 0 where
  pub evh_mod : ℕ
  pub evh_func : ℕ
  pub evh_evmask : ℕ

-- sizeof(struct evhandler) on a 32-bit machine
abbrev pub evh_size : ℕ
evh_size = 16

unfoldable pub is_handler : ℕ → ℕ → Evh → Bool
is_handler ownermod func evh = (evh.evh_mod == ownermod) && (evh.evh_func == func)

unfoldable pub evh_find : List Evh → ℕ → ℕ → Option Evh
unfolding is_handler
evh_find [] ownermod func = none
evh_find (evh ∷ evhs) ownermod func =
    if is_handler ownermod func evh then some evh else evh_find evhs ownermod func

-- gnr_event_register: whether it returns 0, and the handlers afterwards.
unfoldable pub event_register :
    (ℕ → Option (List ℕ)) → List Evh → Option ℕ → Option ℕ → ℕ → Bool × List Evh
unfolding evh_find
event_register malloc evhs none func evmask = (false, evhs)
event_register malloc evhs (some m) none evmask = (false, evhs)
event_register malloc evhs (some m) (some f) evmask = elim (evh_find evhs m f) [
  | some _ ↦ (false, evhs)
  | none ↦ elim (malloc evh_size) [
    | none ↦ (false, evhs)
    | some _ ↦ (true, record { evh_mod = m; evh_func = f; evh_evmask = evmask } ∷ evhs)
  ]
]

-- The loop of gnr_event_unregister.
unfoldable pub remove_all : List Evh → ℕ → ℕ → List Evh
unfolding is_handler
remove_all [] m f = []
remove_all (evh ∷ evhs) m f =
    let rest = remove_all evhs m f in if is_handler m f evh then rest else evh ∷ rest

unfoldable pub event_unregister : List Evh → Option ℕ → Option ℕ → Bool × List Evh
unfolding remove_all
event_unregister evhs none func = (false, evhs)
event_unregister evhs (some m) none = (false, evhs)
event_unregister evhs (some m) (some f) = (true, remove_all evhs m f)

-- gnr_event_throw of an event that is not null, on a world of the modules.
unfoldable pub event_throw : {W : Type 0} → (ℕ → ℕ → W → W) → List Evh → ℕ → W → W
event_throw call [] event w = w
event_throw call (evh ∷ evhs) event w =
    event_throw call evhs event
      (if bit_and evh.evh_evmask event == 0 then w else call evh.evh_func evh.evh_mod w)
