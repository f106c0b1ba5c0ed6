-- ===== src/Gnr/Name/Canon.antt =====
-- gnr/node.c: gnr_node_namecmp and the hash against canonical forms of names.
use timps.Prelude.{
  ℕ, ◌*◌, ◌%◌, ◌^◌, ◌<◌, ◌≡◌, refl, sym, ◌∙◌, ap, Bool, true, false, ◌&&◌, not, List, [], ◌∷◌, ◌==◌,
  if◌then◌else◌, bytes_eq, arith, Bool-cases, bytes_eq_sound, bytes_eq_refl, bytes_eq_comm,
  bytes_eq_trans, inl, inr,
}
use Prim.Native.Nat.{bit_xor}
use timps.Gnr.Name.{tolower, toupper, space, hash_size, getkey_from, getkey, getidx, namecmp}

-- Nothing but spaces.
abbrev pub is_blank : List ℕ → Bool
is_blank [] = true
is_blank (x ∷ xs) = (x == space) && is_blank xs

-- Upper case, without the spaces that stand before some other character. The spaces at the end stay.
abbrev pub canon : List ℕ → List ℕ
canon [] = []
canon (x ∷ xs) = if (x == space) && not (is_blank xs) then canon xs else toupper x ∷ canon xs

toupper-space : (c : ℕ) → (toupper c == space) ≡ (c == space)
unfolding toupper
toupper-space c = ground arith

tolower-toupper : (c : ℕ) → tolower (toupper c) ≡ tolower c
unfolding toupper tolower
tolower-toupper c = ground arith

is_blank-canon : (xs : List ℕ) → is_blank (canon xs) ≡ is_blank xs
is_blank-canon [] = refl
is_blank-canon (x ∷ xs) = ground (arith, is_blank-canon xs, toupper-space x)

same_blank : (xs ys : List ℕ) → bytes_eq xs ys ≡ true → is_blank xs ≡ is_blank ys
same_blank xs ys h = ap is_blank (bytes_eq_sound xs ys h)

-- One step of the comparison, by what stands at the two places.
module _ (x : ℕ) (xs : List ℕ) (y : ℕ) (ys : List ℕ) where
  both_spaces :
      (x == space) ≡ true
      → (y == space) ≡ true
      → bytes_eq (canon xs) (canon ys) ≡ bytes_eq (canon (x ∷ xs)) (canon (y ∷ ys))
  both_spaces p q = ground (
    arith,
    is_blank-canon xs,
    is_blank-canon ys,
    toupper-space x,
    toupper-space y,
    same_blank (canon xs) (canon ys),
    same_blank (canon xs) (toupper y ∷ canon ys),
    same_blank (toupper x ∷ canon xs) (canon ys),
  )

  left_space :
      (x == space) ≡ true
      → (y == space) ≡ false
      → bytes_eq (canon xs) (canon (y ∷ ys)) ≡ bytes_eq (canon (x ∷ xs)) (canon (y ∷ ys))
  left_space p q = ground (
    arith,
    is_blank-canon xs,
    toupper-space x,
    toupper-space y,
    same_blank (canon xs) (toupper y ∷ canon ys),
  )

  right_space :
      (x == space) ≡ false
      → (y == space) ≡ true
      → bytes_eq (canon (x ∷ xs)) (canon ys) ≡ bytes_eq (canon (x ∷ xs)) (canon (y ∷ ys))
  right_space p q = ground (
    arith,
    is_blank-canon ys,
    toupper-space x,
    toupper-space y,
    same_blank (toupper x ∷ canon xs) (canon ys),
  )

  namecmp_both :
      (x == space) ≡ true → (y == space) ≡ true → namecmp (x ∷ xs) (y ∷ ys) ≡ namecmp xs ys
  unfolding namecmp
  namecmp_both p q = ground arith

  namecmp_left :
      (x == space) ≡ true → (y == space) ≡ false → namecmp (x ∷ xs) (y ∷ ys) ≡ namecmp xs (y ∷ ys)
  unfolding namecmp
  namecmp_left p q = ground arith

  namecmp_right :
      (x == space) ≡ false → (y == space) ≡ true → namecmp (x ∷ xs) (y ∷ ys) ≡ namecmp (x ∷ xs) ys
  unfolding namecmp
  namecmp_right p q = ground arith

  namecmp_neither :
      (x == space) ≡ false
      → (y == space) ≡ false
      → namecmp xs ys ≡ bytes_eq (canon xs) (canon ys)
      → namecmp (x ∷ xs) (y ∷ ys) ≡ bytes_eq (canon (x ∷ xs)) (canon (y ∷ ys))
  unfolding namecmp
  namecmp_neither p q h = ground arith

  step :
      namecmp xs ys ≡ bytes_eq (canon xs) (canon ys)
      → namecmp xs (y ∷ ys) ≡ bytes_eq (canon xs) (canon (y ∷ ys))
      → namecmp (x ∷ xs) ys ≡ bytes_eq (canon (x ∷ xs)) (canon ys)
      → namecmp (x ∷ xs) (y ∷ ys) ≡ bytes_eq (canon (x ∷ xs)) (canon (y ∷ ys))
  step h1 h2 h3 = elim (Bool-cases (x == space)) [
    | inl p ↦ elim (Bool-cases (y == space)) [
      | inl q ↦ namecmp_both p q ∙ h1 ∙ both_spaces p q
      | inr q ↦ namecmp_left p q ∙ h2 ∙ left_space p q
    ]
    | inr p ↦ elim (Bool-cases (y == space)) [
      | inl q ↦ namecmp_right p q ∙ h3 ∙ right_space p q
      | inr q ↦ namecmp_neither p q h1
    ]
  ]

-- gnr_node_namecmp takes two names for equal exactly if their canonical forms are equal: upper
-- case, without the spaces that stand before some other character.
pub namecmp-canon : (xs ys : List ℕ) → namecmp xs ys ≡ bytes_eq (canon xs) (canon ys)
unfolding namecmp
namecmp-canon [] [] = refl
namecmp-canon [] (y ∷ ys) = ground (arith, same_blank [] (canon ys), is_blank-canon ys)
namecmp-canon (x ∷ xs) [] = ground (arith, same_blank (canon xs) [], is_blank-canon xs)
namecmp-canon (x ∷ xs) (y ∷ ys) =
    step x xs y ys (namecmp-canon xs ys) (namecmp-canon xs (y ∷ ys)) (namecmp-canon (x ∷ xs) ys)

getkey_from-canon : (key : ℕ) (xs : List ℕ) → getkey_from key (canon xs) ≡ getkey_from key xs
unfolding getkey_from
getkey_from-canon key [] = refl
getkey_from-canon key (x ∷ xs) = ground (
  arith,
  getkey_from-canon key xs,
  getkey_from-canon (bit_xor key (tolower x) * 2 % 2 ^ 16) xs,
  toupper-space x,
  tolower-toupper x,
)

-- Names that gnr_node_namecmp takes for equal hash to one bucket.
pub getidx-namecmp : (xs ys : List ℕ) → namecmp xs ys ≡ true → getidx xs ≡ getidx ys
unfolding getidx getkey
getidx-namecmp xs ys h =
    let e : canon xs ≡ canon ys =
      bytes_eq_sound (canon xs) (canon ys) (sym (namecmp-canon xs ys) ∙ h) in
    ap (λ k. k % hash_size)
      (sym (getkey_from-canon 0 xs) ∙ ap (getkey_from 0) e ∙ getkey_from-canon 0 ys)

-- gnr_node_namecmp is an equivalence of names.
pub namecmp_equivalence :
    (xs ys zs : List ℕ)
    → (namecmp xs xs ≡ true)
      × (namecmp xs ys ≡ namecmp ys xs)
      × (namecmp xs ys ≡ true → namecmp ys zs ≡ true → namecmp xs zs ≡ true)
namecmp_equivalence xs ys zs = (
  namecmp-canon xs xs ∙ bytes_eq_refl (canon xs),
  namecmp-canon xs ys ∙ bytes_eq_comm (canon xs) (canon ys) ∙ sym (namecmp-canon ys xs),
  λ p q.
      namecmp-canon xs zs
      ∙ bytes_eq_trans (canon xs) (canon ys) (canon zs) (sym (namecmp-canon xs ys) ∙ p)
          (sym (namecmp-canon ys zs) ∙ q),
)

getkey_from_even : (key : ℕ) (xs : List ℕ) → key % 2 ≡ 0 → getkey_from key xs % 2 ≡ 0
unfolding getkey_from
getkey_from_even key [] h = h
getkey_from_even key (c ∷ cs) h = ground (
  arith,
  getkey_from_even key cs h,
  getkey_from_even (bit_xor key (tolower c) * 2 % 2 ^ 16) cs (omega arith),
)

-- The index is one of the table, and it is even: half of the buckets are never used.
pub getidx_range : (xs : List ℕ) → (getidx xs < hash_size) × (getidx xs % 2 ≡ 0)
unfolding getidx getkey
getidx_range xs =
    let e : getkey_from 0 xs % 2 ≡ 0 = getkey_from_even 0 xs refl in (omega arith, omega arith)
