-- ===== src/Gnr/Name/Runs.antt =====
-- Runs of the comparison and the hash of names in gnr/node.c, and their theorems at concrete inputs.
use timps.Prelude.{ℕ, ◌≡◌, refl, true, false, List, [], ◌∷◌, bytes_eq}
use timps.Gnr.Name.{namecmp, getidx}
use timps.Gnr.Name.Canon.{canon, namecmp-canon}

-- "Al B", "aLb", and "alb " with a space at the end.
abbrev spaced : List ℕ
spaced = b'A' ∷ b'l' ∷ 32 ∷ b'B' ∷ []

abbrev plain : List ℕ
plain = b'a' ∷ b'L' ∷ b'b' ∷ []

abbrev padded : List ℕ
padded = b'a' ∷ b'l' ∷ b'b' ∷ 32 ∷ []

case_and_space : namecmp spaced plain ≡ true
unfolding namecmp
case_and_space = refl

space_at_end : namecmp plain padded ≡ false
unfolding namecmp
space_at_end = refl

getidx-plain : getidx plain ≡ 60
unfolding getidx
getidx-plain = refl

namecmp-canon_example : namecmp spaced plain ≡ bytes_eq (canon spaced) (canon plain)
namecmp-canon_example = namecmp-canon spaced plain
