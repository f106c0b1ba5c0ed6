-- ===== src/Gnr/Name.antt =====
-- gnr/node.c: how names of users are compared and hashed.
--
-- A name is the list of its bytes without the terminator. `tolower` and `toupper` are those of the C
-- locale, and a byte above 127 is a positive number.
pub mod Canon
pub mod Trailing
mod Runs
use timps.Prelude.{
  ℕ, ◌+◌, ◌-◌, ◌*◌, ◌%◌, ◌^◌, Bool, true, false, ◌&&◌, List, [], ◌∷◌, leb, ◌==◌, if◌then◌else◌,
  bytes_eq,
}
use Prim.Native.Nat.{bit_xor}
use mathlib.Core.List.{map}

unfoldable pub tolower : ℕ → ℕ
tolower c = if leb b'A' c && leb c b'Z' then c + 32 else c

unfoldable pub toupper : ℕ → ℕ
toupper c = if leb b'a' c && leb c b'z' then c - 32 else c

abbrev pub space : ℕ
space = 32

-- GNR_NODE_HASH_SIZE
abbrev pub hash_size : ℕ
hash_size = 64

-- The loop of gnr_node__hash_getkey from a key on; the key is a uint16.
unfoldable pub getkey_from : ℕ → List ℕ → ℕ
unfolding tolower
getkey_from key [] = key
getkey_from key (c ∷ cs) =
    getkey_from (if c == space then key else bit_xor key (tolower c) * 2 % 2 ^ 16) cs

unfoldable pub getkey : List ℕ → ℕ
unfolding getkey_from
getkey name = getkey_from 0 name

unfoldable pub getidx : List ℕ → ℕ
unfolding getkey
getidx name = getkey name % hash_size

-- gnr_node_namecmp; `true` is the result 0.
unfoldable pub namecmp : List ℕ → List ℕ → Bool
unfolding toupper
namecmp [] [] = true
namecmp [] (y ∷ ys) = false
namecmp (x ∷ xs) [] = false
namecmp (x ∷ xs) (y ∷ ys) = elim (x == space) [
  | true ↦ elim (y == space) [ true ↦ namecmp xs ys | false ↦ namecmp xs (y ∷ ys) ]
  | false ↦ elim (y == space) [
    | true ↦ namecmp (x ∷ xs) ys
    | false ↦ elim (toupper x == toupper y) [ true ↦ namecmp xs ys | false ↦ false ]
  ]
]

-- `strcasecmp`; `true` is the result 0.
unfoldable pub strcasecmp : List ℕ → List ℕ → Bool
unfolding tolower
strcasecmp xs ys = bytes_eq (map tolower xs) (map tolower ys)
