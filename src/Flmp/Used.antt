-- ===== src/Flmp/Used.antt =====
-- naf/memory.c: which blocks of a pool are in use, and what a good pool is.
use timps.Prelude.{
  ℕ, zero, suc, ◌+◌, ◌-◌, ◌*◌, ◌/◌, ◌%◌, ◌^◌, ◌<◌, ◌≡◌, inl, inr, refl, ap, ◌∙◌, Bool, true, false,
  not, ◌&&◌, ◌||◌, Bool-cases, some, List, [], ◌∷◌, ◌==◌, if◌then◌else◌, arith, length, get_or,
  get_elem?, set, All,
}
use native.Mathlib.Nat.{mul-div_left}
use timps.Flmp.{Flmp, bit, or_bit, xor_bit}
use timps.Flmp.Bits.{or_bit_lem, xor_bit_lem}

-- Whether the bitmap marks a block.
abbrev pub used : List ℕ → ℕ → Bool
used map n = not (bit (get_or map (n / 8) 0) (7 - n % 8) == 0)

abbrev pub AreBytes : List ℕ → Type 0
AreBytes map = All (λ (b : ℕ). b < 256) map

-- The bitmap has a bit for each block, and the region fits the address space.
pub record IsValid (flmp : Flmp) : Type 0 where
  pub map_len : length flmp.allocmap ≡ flmp.allocmaplen
  pub count : flmp.blkcount ≡ 8 * flmp.allocmaplen
  pub bytes : AreBytes flmp.allocmap
  pub some_len : 0 < flmp.blklen
  pub fits : flmp.blklen * flmp.blkcount < 2 ^ 32

-- The address of a block.
abbrev pub address : Flmp → ℕ → ℕ
address flmp n = flmp.region + n * flmp.blklen

pub get_or-byte : (map : List ℕ) (i : ℕ) → AreBytes map → get_or map i 0 < 256
get_or-byte [] i u = omega arith
get_or-byte (b ∷ map) zero (h, u) = h
get_or-byte (b ∷ map) (suc i) (h, u) = get_or-byte map i u

set-AreBytes : (map : List ℕ) (i b : ℕ) → AreBytes map → b < 256 → AreBytes (set map i b)
set-AreBytes [] i b u h = tt
set-AreBytes (c ∷ map) zero b (h', u) h = (h, u)
set-AreBytes (c ∷ map) (suc i) b (h', u) h = (h', set-AreBytes map i b u h)

length-set : (map : List ℕ) (i b : ℕ) → length (set map i b) ≡ length map
length-set [] i b = refl
length-set (c ∷ map) zero b = refl
length-set (c ∷ map) (suc i) b = ap suc (length-set map i b)

get_or-set :
    (map : List ℕ) (i k b : ℕ)
    → i < length map
    → get_or (set map i b) k 0 ≡ (if k == i then b else get_or map k 0)
get_or-set [] i k b h = absurd (omega arith)
get_or-set (c ∷ map) zero zero b h = refl
get_or-set (c ∷ map) zero (suc k) b h = ground arith
get_or-set (c ∷ map) (suc i) zero b h = ground arith
get_or-set (c ∷ map) (suc i) (suc k) b h = ground (arith, get_or-set map i k b (omega arith))

pub get_elem?-get_or :
    (map : List ℕ) (i : ℕ) → i < length map → get_elem? map i ≡ some (get_or map i 0)
get_elem?-get_or [] i h = absurd (omega arith)
get_elem?-get_or (c ∷ map) zero h = refl
get_elem?-get_or (c ∷ map) (suc i) h = get_elem?-get_or map i (omega arith)

-- A pool whose bitmap has one byte changed to another byte is good too.
pub set-IsValid :
    (flmp : Flmp) (i b : ℕ)
    → IsValid flmp
    → b < 256
    → IsValid (record flmp { allocmap = set flmp.allocmap i b })
set-IsValid flmp i b v h = record {
  map_len = length-set flmp.allocmap i b ∙ v.map_len;
  count = v.count;
  bytes = set-AreBytes flmp.allocmap i b v.bytes h;
  some_len = v.some_len;
  fits = v.fits;
}

module _ (map : List ℕ) (u : AreBytes map) (n : ℕ) (inside : n / 8 < length map) where
  -- Marking a block that is not in use changes just that block.
  pub used-or :
      used map n ≡ false
      → (or_bit (get_or map (n / 8) 0) (7 - n % 8) < 256)
        × ((m : ℕ)
            → used (set map (n / 8) (or_bit (get_or map (n / 8) 0) (7 - n % 8))) m
              ≡ (m == n) || used map m)
  used-or clear =
      let b : ℕ = get_or map (n / 8) 0 in
      let j : ℕ = 7 - n % 8 in
      let (small, f) =
        or_bit_lem b j (get_or-byte map (n / 8) u) (omega arith) (ground (arith, clear)) in
      (
        small,
        λ m. elim (Bool-cases (m / 8 == n / 8)) [
          | inl here ↦ ground (
            arith,
            here,
            get_or-set map (n / 8) (m / 8) (or_bit b j) inside,
            f (7 - m % 8) (omega arith),
            ap (λ k. get_or map k 0) (same_byte m here),
          )
          | inr there ↦ ground (arith, there, get_or-set map (n / 8) (m / 8) (or_bit b j) inside)
        ],
      )
    where
      same_byte : (m : ℕ) → (m / 8 == n / 8) ≡ true → m / 8 ≡ n / 8
      same_byte m h = ground (arith, h)

  -- Clearing a block that is in use changes just that block.
  pub used-xor :
      used map n ≡ true
      → (xor_bit (get_or map (n / 8) 0) (7 - n % 8) < 256)
        × ((m : ℕ)
            → used (set map (n / 8) (xor_bit (get_or map (n / 8) 0) (7 - n % 8))) m
              ≡ not (m == n) && used map m)
  used-xor marked =
      let b : ℕ = get_or map (n / 8) 0 in
      let j : ℕ = 7 - n % 8 in
      let (small, f) =
        xor_bit_lem b j (get_or-byte map (n / 8) u) (omega arith) (ground (arith, marked)) in
      (
        small,
        λ m. elim (Bool-cases (m / 8 == n / 8)) [
          | inl here ↦ ground (
            arith,
            here,
            get_or-set map (n / 8) (m / 8) (xor_bit b j) inside,
            f (7 - m % 8) (omega arith),
            ap (λ k. get_or map k 0) (same_quotient m here),
          )
          | inr there ↦ ground (arith, there, get_or-set map (n / 8) (m / 8) (xor_bit b j) inside)
        ],
      )
    where
      same_quotient : (m : ℕ) → (m / 8 == n / 8) ≡ true → m / 8 ≡ n / 8
      same_quotient m h = ground (arith, h)

-- The number of a block is read off its address.
pub number-address :
    (flmp : Flmp) (n : ℕ) → IsValid flmp → (address flmp n - flmp.region) / flmp.blklen ≡ n
number-address flmp n v =
    ap (λ d. d / flmp.blklen) (off (n * flmp.blklen)) ∙ mul-div_left n v.some_len
  where
    off : (d : ℕ) → flmp.region + d - flmp.region ≡ d
    off d = omega arith
