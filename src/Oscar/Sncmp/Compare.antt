-- ===== src/Oscar/Sncmp/Compare.antt =====
-- timps/oscar/oscar.c: toscar_sncmp of names with and without spaces at their ends.
use timps.Prelude.{
  ℕ, zero, suc, ◌+◌, ◌<◌, ◌≡◌, ◌≢◌, refl, false, List, [], ◌∷◌, ◌++◌, ◌==◌, if◌then◌else◌, arith,
  length, All, bytes_eq, ==_refl,
}
use mathlib.Core.List.{map}
use timps.Tlv.{done, fault}
use timps.Gnr.Name.{toupper, space}
use timps.Oscar.Sncmp.{skip_spaces, sncmp}

-- Neither a space nor a terminator.
abbrev pub IsPlain : List ℕ → Type 0
IsPlain s = All (λ (c : ℕ). (c ≢ 0) × (c ≢ space)) s

-- One step where the two names begin with plain characters.
sncmp_step :
    (fuel : ℕ) (x y : ℕ) (xs ys : List ℕ)
    → x ≢ 0
    → x ≢ space
    → y ≢ 0
    → y ≢ space
    → sncmp (suc fuel) (x ∷ xs) (y ∷ ys)
      ≡ (if toupper x == toupper y then sncmp fuel xs ys else done false)
unfolding sncmp skip_spaces
sncmp_step fuel x y xs ys x0 xs0 y0 ys0 = ground arith

-- With fuel above the length of the first name, toscar_sncmp of two names without spaces ends
-- without a fault and answers whether they are equal in upper case, whatever stands behind their
-- terminators.
pub sncmp-plain :
    (fuel : ℕ) (s1 s2 rest1 rest2 : List ℕ)
    → IsPlain s1
    → IsPlain s2
    → length s1 < fuel
    → sncmp fuel (s1 ++ (0 ∷ rest1)) (s2 ++ (0 ∷ rest2))
      ≡ done (bytes_eq (map toupper s1) (map toupper s2))
sncmp-plain zero s1 s2 rest1 rest2 p1 p2 h = absurd (omega arith)
sncmp-plain (suc fuel) [] [] rest1 rest2 p1 p2 h = unfold sncmp in refl
sncmp-plain (suc fuel) [] (y ∷ ys) rest1 rest2 p1 ((y0, ys0), p2) h =
    unfold sncmp in ground (arith, y0)
sncmp-plain (suc fuel) (x ∷ xs) [] rest1 rest2 ((x0, xs0), p1) p2 h =
    unfold sncmp in ground (arith, x0)
sncmp-plain (suc fuel) (x ∷ xs) (y ∷ ys) rest1 rest2 ((x0, xs0), p1) ((y0, ys0), p2) h = ground (
  arith,
  sncmp_step fuel x y (xs ++ (0 ∷ rest1)) (ys ++ (0 ∷ rest2)) x0 xs0 y0 ys0,
  sncmp-plain fuel xs ys rest1 rest2 p1 p2 (omega arith),
)

-- If a name of plain characters with one space at its end is compared with itself, and its block
-- ends with its terminator, toscar_sncmp reads outside the block, whatever the fuel above its
-- length.
pub sncmp_overrun :
    (fuel : ℕ) (s : List ℕ)
    → IsPlain s
    → length s + 1 < fuel
    → sncmp fuel (s ++ (space ∷ 0 ∷ [])) (s ++ (space ∷ 0 ∷ [])) ≡ fault
sncmp_overrun zero s p h = absurd (omega arith)
sncmp_overrun (suc zero) s p h = absurd (omega arith)
sncmp_overrun (suc (suc fuel)) [] p h = unfold sncmp skip_spaces in refl
sncmp_overrun (suc (suc fuel)) (x ∷ xs) ((x0, xs0), p) h = ground (
  arith,
  sncmp_step (suc fuel) x x (xs ++ (space ∷ 0 ∷ [])) (xs ++ (space ∷ 0 ∷ [])) x0 xs0 x0 xs0,
  ==_refl (toupper x),
  sncmp_overrun (suc fuel) xs p (omega arith),
)
