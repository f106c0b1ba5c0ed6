-- ===== src/Flmp/Fresh.antt =====
-- naf/memory.c: the pool that naf_flmp_alloc makes.
use timps.Prelude.{
  ℕ, zero, suc, ◌-◌, ◌*◌, ◌/◌, ◌%◌, ◌^◌, ◌<◌, ◌≡◌, inl, inr, refl, ap, sym, ◌∙◌, false, not, ◌||◌,
  Bool-cases, Option-cases, Option, some, List, ◌==◌, arith, length, replicate, length-replicate,
  get_or,
}
use mathlib.Core.Path.{subst}
use timps.Flmp.{Flmp, flmp_alloc, flmp_size, bit}
use Prim.Native.Nat.{bit_and}
use timps.Flmp.Used.{IsValid, AreBytes}
use native.Mathlib.Nat.{zero-div}
use timps.Flmp.Client.{Marks}

get_or-zeros : (n i : ℕ) → get_or {A = ℕ} (replicate n 0) i 0 ≡ 0
get_or-zeros zero i = refl
get_or-zeros (suc n) zero = refl
get_or-zeros (suc n) (suc i) = get_or-zeros n i

zeros-AreBytes : (n : ℕ) → AreBytes (replicate {A = ℕ} n 0)
zeros-AreBytes zero = tt
zeros-AreBytes (suc n) = (omega arith, zeros-AreBytes n)

abbrev fresh : (ℕ → ℕ) → ℕ → ℕ → Flmp
fresh region blklen blkcount = record {
  blklen = blklen;
  blkcount = blkcount;
  region = region (blklen * blkcount % 2 ^ 32);
  regionlen = blklen * blkcount % 2 ^ 32;
  allocmap = replicate (blkcount / 8) 0;
  allocmaplen = blkcount / 8;
}

-- What naf_flmp_alloc makes.
flmp_alloc_lem :
    (malloc : ℕ → Option (List ℕ)) (region : ℕ → ℕ) (blklen blkcount : ℕ) (flmp : Flmp)
    → flmp_alloc malloc region blklen blkcount ≡ some flmp
    → (0 < blklen)
      × (blkcount % 8 ≡ 0)
      × (flmp.blklen ≡ blklen)
      × (flmp.blkcount ≡ blkcount)
      × (flmp.allocmap ≡ replicate (blkcount / 8) 0)
      × (flmp.allocmaplen ≡ blkcount / 8)
unfolding flmp_alloc
flmp_alloc_lem malloc region blklen blkcount flmp e =
    elim (Bool-cases (
      blklen == 0
      || not (bit_and blklen (blklen - 1) == 0)
      || blkcount == 0
      || not (blkcount % 8 == 0))) [
        | inl bad ↦ absurd (ground (arith, e, bad))
        | inr good ↦ elim (Option-cases (malloc flmp_size)) [
          | inl a ↦ absurd (ground (arith, e, good, a))
          | inr (_, a) ↦ elim (Option-cases (malloc (blkcount / 8))) [
            | inl b ↦ absurd (ground (arith, e, good, a, b))
            | inr (_, b) ↦ elim (Bool-cases (region (blklen * blkcount % 2 ^ 32) == 0)) [
              | inl c ↦ absurd (ground (arith, e, good, a, b, c))
              | inr c ↦
                  let made : some (fresh region blklen blkcount) ≡ some flmp =
                    rw (good, a, b, c) at e in
                  let same : fresh region blklen blkcount ≡ flmp = cc in
                  (
                    ground (arith, good),
                    ground (arith, good),
                    sym (ap (λ p. p.blklen) same),
                    sym (ap (λ p. p.blkcount) same),
                    sym (ap (λ p. p.allocmap) same),
                    sym (ap (λ p. p.allocmaplen) same),
                  )
            ]
          ]
        ]
      ]

-- A pool that naf_flmp_alloc makes with a region below 2 ^ 32 bytes is good and has every block
-- free.
pub flmp_alloc-IsValid :
    (malloc : ℕ → Option (List ℕ)) (region : ℕ → ℕ) (blklen blkcount : ℕ) (flmp : Flmp)
    → blklen * blkcount < 2 ^ 32
    → flmp_alloc malloc region blklen blkcount ≡ some flmp
    → IsValid flmp × Marks flmp (λ m. false)
flmp_alloc-IsValid malloc region blklen blkcount flmp fits e =
    let (pos_len, eights, el, ec, em, en) = flmp_alloc_lem malloc region blklen blkcount flmp e in
    (
      record {
        map_len = ap length em ∙ length-replicate (blkcount / 8) 0 ∙ sym en;
        count = omega (arith, ec, en, eights);
        bytes = subst AreBytes (sym em) (zeros-AreBytes (blkcount / 8));
        some_len = omega (arith, pos_len, el);
        fits =
            subst (λ l. l * flmp.blkcount < 2 ^ 32) (sym el)
              (subst (λ c. blklen * c < 2 ^ 32) (sym ec) fits);
      },
      λ m h.
          ap (λ b. not (bit b (7 - m % 8) == 0))
            (ap (λ l. get_or l (m / 8) 0) em ∙ get_or-zeros (blkcount / 8) (m / 8))
          ∙ no_bit (7 - m % 8),
    )
  where
    no_bit : (j : ℕ) → not (bit 0 j == 0) ≡ false
    no_bit j = rw (zero-div (2 ^ j)) refl
