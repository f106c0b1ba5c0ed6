-- ===== src/Flmp/Bits.antt =====
-- naf/memory.c: the bits of one byte of a bitmap.
use timps.Prelude.{
  ◌∙◌, ap, Bool-cases, ℕ, zero, suc, ◌+◌, ◌-◌, ◌^◌, ◌<◌, ◌≤◌, ◌≡◌, ◌≢◌, ◌⊎◌, inl, inr, refl, none,
  some, ◌==◌, if◌then◌else◌, arith,
}
use timps.Flmp.{bit, or_bit, xor_bit, open_bit}

-- What holds of the eight bits holds of each.
pub eight : (P : ℕ → Type 0) → P 0 → P 1 → P 2 → P 3 → P 4 → P 5 → P 6 → P 7 → (j : ℕ) → j < 8 → P j
eight P p0 p1 p2 p3 p4 p5 p6 p7 zero h = p0
eight P p0 p1 p2 p3 p4 p5 p6 p7 (suc zero) h = p1
eight P p0 p1 p2 p3 p4 p5 p6 p7 (suc (suc zero)) h = p2
eight P p0 p1 p2 p3 p4 p5 p6 p7 (suc (suc (suc zero))) h = p3
eight P p0 p1 p2 p3 p4 p5 p6 p7 (suc (suc (suc (suc zero)))) h = p4
eight P p0 p1 p2 p3 p4 p5 p6 p7 (suc (suc (suc (suc (suc zero))))) h = p5
eight P p0 p1 p2 p3 p4 p5 p6 p7 (suc (suc (suc (suc (suc (suc zero)))))) h = p6
eight P p0 p1 p2 p3 p4 p5 p6 p7 (suc (suc (suc (suc (suc (suc (suc zero))))))) h = p7
eight P p0 p1 p2 p3 p4 p5 p6 p7 (suc (suc (suc (suc (suc (suc (suc (suc j)))))))) h =
    absurd (omega arith)

-- Setting a clear bit changes just that bit, and the byte stays one.
module _ (b : ℕ) (small : b < 256) where
  abbrev Raised : ℕ → ℕ → Type 0
  Raised j k = bit b j ≡ 0 → bit (b + 2 ^ j) k ≡ (if k == j then 1 else bit b k)

  pub raise : (j : ℕ) → j < 8 → (k : ℕ) → k < 8 → Raised j k
  raise =
      eight (λ j. (k : ℕ) → k < 8 → Raised j k)
        (eight (Raised 0) (λ z. omega arith) (λ z. omega arith) (λ z. omega arith)
          (λ z. omega arith) (λ z. omega arith) (λ z. omega arith) (λ z. omega arith)
          (λ z. omega arith))
        (eight (Raised 1) (λ z. omega arith) (λ z. omega arith) (λ z. omega arith)
          (λ z. omega arith) (λ z. omega arith) (λ z. omega arith) (λ z. omega arith)
          (λ z. omega arith))
        (eight (Raised 2) (λ z. omega arith) (λ z. omega arith) (λ z. omega arith)
          (λ z. omega arith) (λ z. omega arith) (λ z. omega arith) (λ z. omega arith)
          (λ z. omega arith))
        (eight (Raised 3) (λ z. omega arith) (λ z. omega arith) (λ z. omega arith)
          (λ z. omega arith) (λ z. omega arith) (λ z. omega arith) (λ z. omega arith)
          (λ z. omega arith))
        (eight (Raised 4) (λ z. omega arith) (λ z. omega arith) (λ z. omega arith)
          (λ z. omega arith) (λ z. omega arith) (λ z. omega arith) (λ z. omega arith)
          (λ z. omega arith))
        (eight (Raised 5) (λ z. omega arith) (λ z. omega arith) (λ z. omega arith)
          (λ z. omega arith) (λ z. omega arith) (λ z. omega arith) (λ z. omega arith)
          (λ z. omega arith))
        (eight (Raised 6) (λ z. omega arith) (λ z. omega arith) (λ z. omega arith)
          (λ z. omega arith) (λ z. omega arith) (λ z. omega arith) (λ z. omega arith)
          (λ z. omega arith))
        (eight (Raised 7) (λ z. omega arith) (λ z. omega arith) (λ z. omega arith)
          (λ z. omega arith) (λ z. omega arith) (λ z. omega arith) (λ z. omega arith)
          (λ z. omega arith))

  -- Where the byte has the bit, or has not, the byte without it, or with it, is a byte too.
  abbrev Bounded : ℕ → Type 0
  Bounded j =
      (bit b j ≡ 0 → b + 2 ^ j < 256) × ((bit b j ≢ 0) → (2 ^ j ≤ b) × (bit (b - 2 ^ j) j ≡ 0))

  bounded : (j : ℕ) → j < 8 → Bounded j
  bounded =
      eight Bounded (λ z. omega arith, λ z. (omega arith, omega arith))
        (λ z. omega arith, λ z. (omega arith, omega arith))
        (λ z. omega arith, λ z. (omega arith, omega arith))
        (λ z. omega arith, λ z. (omega arith, omega arith))
        (λ z. omega arith, λ z. (omega arith, omega arith))
        (λ z. omega arith, λ z. (omega arith, omega arith))
        (λ z. omega arith, λ z. (omega arith, omega arith))
        (λ z. omega arith, λ z. (omega arith, omega arith))

-- Where `|=` is used on a clear bit, that bit becomes set and the others stay.
pub or_bit_lem :
    (b j : ℕ)
    → b < 256
    → j < 8
    → bit b j ≡ 0
    → (or_bit b j < 256) × ((k : ℕ) → k < 8 → bit (or_bit b j) k ≡ (if k == j then 1 else bit b k))
unfolding or_bit
or_bit_lem b j small h z =
    let e : or_bit b j ≡ b + 2 ^ j = ground (arith, z) in
    (
      omega (arith, e, (bounded b small j h).0 z),
      λ k hk. ap (λ c. bit c k) e ∙ raise b small j h k hk z,
    )

-- Where `^=` is used on a set bit, that bit becomes clear and the others stay.
pub xor_bit_lem :
    (b j : ℕ)
    → b < 256
    → j < 8
    → bit b j ≢ 0
    → (xor_bit b j < 256)
      × ((k : ℕ) → k < 8 → bit (xor_bit b j) k ≡ (if k == j then 0 else bit b k))
unfolding xor_bit
xor_bit_lem b j small h z =
    let e : xor_bit b j ≡ b - 2 ^ j = ground (arith, z) in
    let (part, clear) = (bounded b small j h).1 z in
    let less : b - 2 ^ j < 256 = omega arith in
    let back : b - 2 ^ j + 2 ^ j ≡ b = omega (arith, part) in
    (
      omega (arith, e, less),
      λ k hk.
          let r = raise (b - 2 ^ j) less j h k hk clear in
          ap (λ c. bit c k) e ∙ lowered k j r back clear,
    )
  where
    lowered :
        (k j' : ℕ)
        → bit (b - 2 ^ j' + 2 ^ j') k ≡ (if k == j' then 1 else bit (b - 2 ^ j') k)
        → b - 2 ^ j' + 2 ^ j' ≡ b
        → bit (b - 2 ^ j') j' ≡ 0
        → bit (b - 2 ^ j') k ≡ (if k == j' then 0 else bit b k)
    lowered k j' r back clear = elim (Bool-cases (k == j')) [
      | inl same ↦
          let e : k ≡ j' = ground (arith, same) in
          ground (arith, same, ap (bit (b - 2 ^ j')) e ∙ clear)
      | inr other ↦ ground (arith, other, r, ap (λ c. bit c k) back)
    ]

-- The second loop of naf_flmp_blkalloc stops at the highest clear bit.
pub open_bit_lem :
    (b n : ℕ)
    → ((open_bit b n ≡ none) × ((k : ℕ) → k < n → bit b k ≢ 0))
      ⊎ ((j : ℕ) × (open_bit b n ≡ some j)
          × (j < n)
          × (bit b j ≡ 0)
          × ((k : ℕ) → j < k → k < n → bit b k ≢ 0))
unfolding open_bit
open_bit_lem b zero = inl (refl, λ k h. absurd (omega arith))
open_bit_lem b (suc n) = elim (Bool-cases (bit b n == 0)) [
  | inl clear ↦
      inr (
        n,
        ground (arith, clear),
        omega arith,
        ground (arith, clear),
        λ k l h. absurd (omega arith),
      )
  | inr full ↦ elim (open_bit_lem b n) [
    | inl (e, others) ↦ inl (
      ground (arith, full, e),
      λ k h. elim (Bool-cases (k == n)) [
        | inl same ↦ ground (arith, full, same)
        | inr less ↦ others k (ground (arith, less, h))
      ],
    )
    | inr (j, e, l, z, others) ↦ inr (
      j,
      ground (arith, full, e),
      omega arith,
      z,
      λ k l' h. elim (Bool-cases (k == n)) [
        | inl same ↦ ground (arith, full, same)
        | inr less ↦ others k l' (ground (arith, less, h))
      ],
    )
  ]
]

-- A byte below 255 has a clear bit.
pub open_bit_some : (b : ℕ) → b < 255 → open_bit b 8 ≢ none
open_bit_some b h e = elim (open_bit_lem b 8) [
  | inl (_, f) ↦ omega (
    arith,
    f 0 (omega arith),
    f 1 (omega arith),
    f 2 (omega arith),
    f 3 (omega arith),
    f 4 (omega arith),
    f 5 (omega arith),
    f 6 (omega arith),
    f 7 (omega arith),
  )
  | inr (j, e', _, _, _) ↦ ground (arith, e, e')
]
