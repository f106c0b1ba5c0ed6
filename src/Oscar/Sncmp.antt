-- ===== src/Oscar/Sncmp.antt =====
-- timps/oscar/oscar.c: toscar_sncmp, which compares two screen names.
--
-- A name is the memory from its first byte to the end of its block, the terminator included.
pub mod Compare
mod Runs
use timps.Prelude.{ℕ, zero, suc, Bool, true, false, ◌||◌, List, [], ◌∷◌, ◌==◌, if◌then◌else◌}
use timps.Tlv.{Outcome, done, fault, running}
use timps.Gnr.Name.{toupper, space}

-- The inner loops: the memory from the first byte on that is no space.
unfoldable pub skip_spaces : List ℕ → List ℕ
skip_spaces [] = []
skip_spaces (c ∷ cs) = let rest = skip_spaces cs in if c == space then rest else c ∷ cs

-- toscar_sncmp; `true` is the result 0. The first argument is fuel.
unfoldable pub sncmp : ℕ → List ℕ → List ℕ → Outcome Bool
unfolding skip_spaces toupper
sncmp zero p1 p2 = running
sncmp (suc fuel) [] p2 = fault
sncmp (suc fuel) (x ∷ xs) [] = fault
sncmp (suc fuel) (x ∷ xs) (y ∷ ys) =
    if x == 0 || y == 0 then done (x == y) else elim (skip_spaces (x ∷ xs)) [
      | [] ↦ fault
      | a ∷ cs ↦ elim (skip_spaces (y ∷ ys)) [
        | [] ↦ fault
        | b ∷ ds ↦ if toupper a == toupper b then sncmp fuel cs ds else done false
      ]
    ]
