-- ===== src/Tags/Runs.antt =====
-- Runs of naf/tags.c, and its theorems at concrete inputs.
use timps.Prelude.{
  ℕ, ◌==◌, ◌+◌, ◌≡◌, refl, true, false, none, some, List, [], ◌∷◌, arith, replicate,
  length-replicate,
}
use timps.Fixture.{zeros}
use timps.Tags.{text, word, Tag, tag_size, add, ispresent, fetch, remove, cloneall, iter, freelist}
use timps.Tags.Cycle.{IsUnique, remove-add}
use timps.Tags.Long.{IsShort, add_long}

abbrev conn_name : List ℕ
conn_name = b's' ∷ b'n' ∷ []

abbrev sn : Tag
sn = record { owner = 3; name = conn_name; type = b'S'; content = text (b'b' ∷ b'o' ∷ b'b' ∷ []) }

abbrev login : Tag
login = record { owner = 3; name = b'i' ∷ b'd' ∷ []; type = b'V'; content = word 4096 }

abbrev stored : List Tag
stored = login ∷ sn ∷ []

stored-IsUnique : IsUnique stored
unfolding ispresent
stored-IsUnique = ground arith

-- Another owner may use the name, and the wildcard finds the latest tag.
abbrev more : List Tag
more = record { owner = 4; name = conn_name; type = b'I'; content = word 9 } ∷ stored

adds : add zeros stored (some 4) conn_name b'I' (word 9) ≡ (true, more)
unfolding add ispresent
adds = refl

fetches_any : fetch more none conn_name ≡ some (b'I', word 9)
unfolding fetch
fetches_any = refl

clones :
    cloneall zeros [] more
    ≡ some (sn ∷ record { owner = 4; name = conn_name; type = b'I'; content = word 9 } ∷ [])
unfolding cloneall ispresent
clones = refl

-- A handler that counts the tags and stops at a string.
iterates : iter (λ n tag. (tag.type == b'S', n + 1)) 0 more ≡ 3
unfolding iter
iterates = refl

frees : freelist (λ owner. owner == 3) more ≡ stored
unfolding freelist
frees = refl

remove-add_example :
    (ispresent more (some 4) conn_name ≡ some true)
    × (fetch more (some 4) conn_name ≡ some (b'I', word 9))
    × (remove more (some 4) conn_name ≡ (some (b'I', word 9), stored))
remove-add_example = remove-add zeros stored more 4 conn_name b'I' (word 9) (omega arith) adds

add_long_example :
    (tags' : List Tag) × (add zeros stored (some 3) (replicate 70 b'x') b'I' (word 1)
      ≡ (true, tags'))
    × IsShort tags'
    × (ispresent tags' (some 3) (replicate 70 b'x') ≡ some false)
    × (fetch tags' (some 3) (replicate 70 b'x') ≡ none)
add_long_example =
    add_long zeros stored 3 (replicate 70 b'x') b'I' (word 1) (replicate tag_size 0)
      (omega arith, (omega arith, tt)) (omega (arith, length-replicate {A = ℕ} 70 b'x')) refl
