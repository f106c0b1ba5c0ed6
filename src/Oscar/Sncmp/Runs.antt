-- ===== src/Oscar/Sncmp/Runs.antt =====
-- Runs of toscar_sncmp in timps/oscar/oscar.c, and its theorems at concrete inputs.
use timps.Prelude.{ℕ, ◌≡◌, refl, List, [], ◌∷◌, ◌++◌, arith, bytes_eq, true}
use mathlib.Core.List.{map}
use timps.Tlv.{done}
use timps.Gnr.Name.{toupper}
use timps.Oscar.Sncmp.{sncmp}
use timps.Oscar.Sncmp.Compare.{sncmp-plain}

abbrev lower : List ℕ
lower = b'b' ∷ b'o' ∷ b'b' ∷ []

abbrev upper : List ℕ
upper = b'B' ∷ b'O' ∷ b'B' ∷ []

spaces_inside : sncmp 9 (b'b' ∷ 32 ∷ b'O' ∷ 0 ∷ []) (b'B' ∷ b'o' ∷ 0 ∷ 7 ∷ []) ≡ done true
unfolding sncmp
spaces_inside = refl

sncmp-plain_example :
    sncmp 4 (lower ++ (0 ∷ [])) (upper ++ (0 ∷ 9 ∷ []))
    ≡ done (bytes_eq (map toupper lower) (map toupper upper))
sncmp-plain_example =
    sncmp-plain 4 lower upper [] (9 ∷ []) (ground arith) (ground arith) (omega arith)
