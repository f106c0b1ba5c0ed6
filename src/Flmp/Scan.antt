-- ===== src/Flmp/Scan.antt =====
-- naf/memory.c: the first loop of naf_flmp_blkalloc, over the bytes of a bitmap.
use timps.Prelude.{
  ℕ, zero, suc, ◌<◌, ◌≡◌, ◌⊎◌, inl, inr, refl, Bool-cases, none, some, List, [], ◌∷◌, ltb, arith,
  length, get_or, All,
}
use timps.Flmp.{open_byte}

-- It finds the first byte that is not full, or all are.
pub open_byte_lem :
    (map : List ℕ)
    → All (λ (b : ℕ). b < 256) map
    → ((open_byte (length map) map ≡ some none) × ((k : ℕ) → k < length map → get_or map k 0 ≡ 255))
      ⊎ ((i : ℕ) × (open_byte (length map) map ≡ some (some i))
          × (i < length map)
          × (get_or map i 0 < 255)
          × ((k : ℕ) → k < i → get_or map k 0 ≡ 255))
unfolding open_byte
open_byte_lem [] u = inl (refl, λ k h. absurd (omega arith))
open_byte_lem (b ∷ map) (small, u) = elim (Bool-cases (ltb b 255)) [
  | inl free ↦
      inr (0, ground (arith, free), omega arith, ground (arith, free), λ k h. absurd (omega arith))
  | inr full ↦
      let top : b ≡ 255 = ground (arith, full, small) in
      elim (open_byte_lem map u) [
        | inl (e, all_full) ↦ inl (ground (arith, full, e), further top (length map) all_full)
        | inr (i, e, inside, free, before) ↦
            inr (suc i, ground (arith, full, e), omega arith, free, further top i before)
      ]
]
  where
    further :
        b ≡ 255
        → (n : ℕ) → ((k : ℕ) → k < n → get_or map k 0 ≡ 255)
        → (k : ℕ) → k < suc n
        → get_or (b ∷ map) k 0 ≡ 255
    further top n f zero h = top
    further top n f (suc k) h = f k (omega arith)
