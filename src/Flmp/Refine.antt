-- ===== src/Flmp/Refine.antt =====
-- naf/memory.c: a pool against the set of its blocks that are in use.
use timps.Prelude.{
  ℕ, ◌+◌, ◌-◌, ◌*◌, ◌/◌, ◌%◌, ◌^◌, ◌<◌, ◌≤◌, ◌≡◌, ◌≢◌, ◌⊎◌, inl, inr, refl, ap, sym, ◌∙◌, true,
  false, not, ◌&&◌, ◌||◌, Bool-cases, none, some, List, ltb, ◌==◌, arith, length, get_or, set,
}
use native.Mathlib.Nat.{mul-le-mul_right, mul_comm}
use timps.Flmp.{Flmp, bit, or_bit, xor_bit, blkalloc, blkfree}
use timps.Flmp.Bits.{eight, open_bit_lem, open_bit_some}
use timps.Flmp.Scan.{open_byte_lem}
use timps.Flmp.Used.{
  used, IsValid, address, get_elem?-get_or, set-IsValid, used-or, used-xor, number-address,
}

-- What naf_flmp_blkalloc has done with a pool.
pub record Taken (flmp : Flmp) (n : ℕ) (flmp' : Flmp) : Type 0 where
  pub inside : n < flmp.blkcount
  pub was_free : used flmp.allocmap n ≡ false
  pub lowest : (m : ℕ) → m < n → used flmp.allocmap m ≡ true
  pub marks : (m : ℕ) → used flmp'.allocmap m ≡ (m == n) || used flmp.allocmap m
  pub valid : IsValid flmp'
  pub same_place : (m : ℕ) → address flmp' m ≡ address flmp m
  pub same_count : flmp'.blkcount ≡ flmp.blkcount

-- A full byte marks its blocks.
full_byte : (map : List ℕ) (m : ℕ) → get_or map (m / 8) 0 ≡ 255 → used map m ≡ true
full_byte map m e =
    ap (λ c. not (bit c (7 - m % 8) == 0)) e
    ∙ eight (λ r. not (bit 255 (7 - r) == 0) ≡ true) refl refl refl refl refl refl refl refl (m % 8)
        (omega arith)

-- The block at the first clear bit is the lowest that is free, and marking it takes it.
take_at :
    (flmp : Flmp) (n : ℕ)
    → IsValid flmp
    → n / 8 < length flmp.allocmap
    → bit (get_or flmp.allocmap (n / 8) 0) (7 - n % 8) ≡ 0
    → ((k : ℕ) → 7 - n % 8 < k → k < 8 → bit (get_or flmp.allocmap (n / 8) 0) k ≢ 0)
    → ((k : ℕ) → k < n / 8 → get_or flmp.allocmap k 0 ≡ 255)
    → Taken flmp n (record flmp {
      allocmap = set flmp.allocmap (n / 8) (or_bit (get_or flmp.allocmap (n / 8) 0) (7 - n % 8));
    })
take_at flmp n v inside clear above before =
    let free : used flmp.allocmap n ≡ false = ground (arith, clear) in
    let (small, marks) = used-or flmp.allocmap v.bytes n inside free in
    record {
      inside = omega (arith, v.map_len, v.count);
      was_free = free;
      lowest = λ m h. elim (Bool-cases (m / 8 == n / 8)) [
        | inl here ↦ low m h (ground (arith, here))
        | inr there ↦ full_byte flmp.allocmap m (before (m / 8) (ground (arith, there, h)))
      ];
      marks = marks;
      valid =
          set-IsValid flmp (n / 8) (or_bit (get_or flmp.allocmap (n / 8) 0) (7 - n % 8)) v small;
      same_place = λ m. refl;
      same_count = refl;
    }
  where
    low : (m : ℕ) → m < n → m / 8 ≡ n / 8 → used flmp.allocmap m ≡ true
    low m h e =
        let set_bit = above (7 - m % 8) (omega arith) (omega arith) in
        ground (arith, set_bit, ap (λ k. get_or flmp.allocmap k 0) e)

pub blkalloc_lem :
    (flmp : Flmp)
    → IsValid flmp
    → ((blkalloc flmp ≡ some (none, flmp))
        × ((m : ℕ) → m < flmp.blkcount → used flmp.allocmap m ≡ true))
      ⊎ ((n : ℕ) × (flmp' : Flmp) × (blkalloc flmp ≡ some (some (address flmp n), flmp'))
          × Taken flmp n flmp')
unfolding blkalloc
blkalloc_lem flmp v = elim (open_byte_lem flmp.allocmap v.bytes) [
  | inl (e, full) ↦ inl (
    ground (arith, e, v.map_len),
    λ m h. full_byte flmp.allocmap m (full (m / 8) (omega (arith, v.map_len, v.count))),
  )
  | inr (i, e, inside, open_i, before) ↦
      let b : ℕ = get_or flmp.allocmap i 0 in
      elim (open_bit_lem b 8) [
        | inl (e', _) ↦ absurd (open_bit_some b open_i e')
        | inr (j, e', small, clear, above) ↦
            let n : ℕ = i * 8 + (7 - j) in
            let ei : n / 8 ≡ i = omega arith in
            let ej : 7 - n % 8 ≡ j = omega arith in
            let eb : get_or flmp.allocmap (n / 8) 0 ≡ b = ap (λ k. get_or flmp.allocmap k 0) ei in
            let at_bit : n / 8 < length flmp.allocmap = omega (arith, inside, ei) in
            let is_clear : bit (get_or flmp.allocmap (n / 8) 0) (7 - n % 8) ≡ 0 =
              ap (λ c. bit c (7 - n % 8)) eb ∙ ap (λ k. bit b k) ej ∙ clear in
            inr (
              n,
              record flmp {
                allocmap =
                    set flmp.allocmap (n / 8) (or_bit (get_or flmp.allocmap (n / 8) 0) (7 - n % 8));
              },
              ground (
                arith,
                v.map_len,
                e,
                e',
                ei,
                ej,
                eb,
                no_wrap n (omega (arith, v.map_len, v.count)),
              ),
              take_at flmp n v at_bit is_clear
                  (λ k l h z. above k (omega arith) h (ap (λ c. bit c k) (sym eb) ∙ z))
                  (λ k h. before k (omega arith)),
            )
      ]
]
  where
    no_wrap : (n : ℕ) → n < flmp.blkcount → n * flmp.blklen % 2 ^ 32 ≡ n * flmp.blklen
    no_wrap n h =
        let le : n * flmp.blklen ≤ flmp.blkcount * flmp.blklen =
          mul-le-mul_right flmp.blklen (omega arith) in
        omega (arith, le, mul_comm flmp.blklen flmp.blkcount, v.fits)

pub blkfree_lem :
    (flmp : Flmp) (n : ℕ)
    → IsValid flmp
    → n < flmp.blkcount
    → used flmp.allocmap n ≡ true
    → (flmp' : Flmp) × (blkfree flmp (address flmp n) ≡ some flmp')
      × ((m : ℕ) → used flmp'.allocmap m ≡ not (m == n) && used flmp.allocmap m)
      × IsValid flmp'
      × ((m : ℕ) → address flmp' m ≡ address flmp m)
      × (flmp'.blkcount ≡ flmp.blkcount)
unfolding blkfree
blkfree_lem flmp n v h marked =
    let inside : n / 8 < length flmp.allocmap = omega (arith, v.map_len, v.count) in
    let (small, marks) = used-xor flmp.allocmap v.bytes n inside marked in
    let b : ℕ = get_or flmp.allocmap (n / 8) 0 in
    (
      record flmp { allocmap = set flmp.allocmap (n / 8) (xor_bit b (7 - n % 8)) },
      rw (number-address flmp n v) (
          ground (
            arith,
            get_elem?-get_or flmp.allocmap (n / 8) inside,
            marked,
            below (n * flmp.blklen),
          )),
      marks,
      set-IsValid flmp (n / 8) (xor_bit b (7 - n % 8)) v small,
      λ m. refl,
      refl,
    )
  where
    below : (d : ℕ) → ltb (flmp.region + d) flmp.region ≡ false
    below d = ground arith
