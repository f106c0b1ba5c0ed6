-- ===== src/Gnr/Name/Trailing.antt =====
-- gnr/node.c: spaces at the end of a name.
use timps.Prelude.{
  ℕ, ◌+◌, ◌*◌, ◌%◌, ◌^◌, ◌≡◌, refl, ◌∙◌, ap, false, List, [], ◌∷◌, ◌++◌, length, ◌==◌,
  if◌then◌else◌, bytes_eq, arith, Bool-cases, bytes_eq_sound, inl, inr,
}
use Prim.Native.Nat.{bit_xor}
use timps.Gnr.Name.{tolower, toupper, space, hash_size, getkey_from, getkey, getidx, namecmp}
use timps.Gnr.Name.Canon.{is_blank, canon, namecmp-canon}

is_blank-append : (xs : List ℕ) → is_blank (xs ++ (space ∷ [])) ≡ is_blank xs
is_blank-append [] = refl
is_blank-append (x ∷ xs) = ground (arith, is_blank-append xs)

length-canon : (xs : List ℕ) → length (canon (xs ++ (space ∷ []))) ≡ length (canon xs) + 1
unfolding toupper
length-canon [] = refl
length-canon (x ∷ xs) = ground (arith, length-canon xs, is_blank-append xs)

same_key : (key : ℕ) (ys : List ℕ) → getkey_from key (ys ++ (space ∷ [])) ≡ getkey_from key ys
unfolding getkey_from
same_key key [] = refl
same_key key (y ∷ ys) =
    same_key (if y == space then key else bit_xor key (tolower y) * 2 % 2 ^ 16) ys

-- A name with a space added at its end is another name for gnr_node_namecmp, but hashes to the
-- same bucket.
pub namecmp_trailing :
    (xs : List ℕ)
    → (namecmp (xs ++ (space ∷ [])) xs ≡ false) × (getidx (xs ++ (space ∷ [])) ≡ getidx xs)
unfolding getidx getkey
namecmp_trailing xs = (
  namecmp-canon (xs ++ (space ∷ [])) xs
      ∙ differ (canon (xs ++ (space ∷ []))) (canon xs) (length-canon xs),
  ap (λ k. k % hash_size) (same_key 0 xs),
)
  where
    differ : (us vs : List ℕ) → length us ≡ length vs + 1 → bytes_eq us vs ≡ false
    differ us vs h = elim (Bool-cases (bytes_eq us vs)) [
      | inl e ↦ absurd (omega (arith, ap length (bytes_eq_sound us vs e)))
      | inr e ↦ e
    ]
