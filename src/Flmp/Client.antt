-- ===== src/Flmp/Client.antt =====
-- naf/memory.c: any sequence of calls on a pool against the same calls on a set of block numbers.
use timps.Prelude.{
  ℕ, zero, suc, ◌+◌, ◌/◌, ◌<◌, ◌≤◌, ◌≡◌, ◌⊎◌, inl, inr, refl, ap, sym, ◌∙◌, Bool, true, false, not,
  ◌&&◌, ◌||◌, Bool-cases, Option, none, some, List, [], ◌∷◌, ◌==◌, if◌then◌else◌, ◌>>=◌, arith,
}
use mathlib.Core.Path.{subst}
use mathlib.Core.List.{map}
use timps.Flmp.{Flmp, blkalloc, blkfree}
use timps.Flmp.Used.{used, IsValid, address, number-address, get_elem?-get_or}
use timps.Flmp.Refine.{blkalloc_lem, blkfree_lem}

-- A call on a pool; a block is given back by its number.
pub data Op : Type 0 where
  take_block : Op
  give_block : ℕ → Op

-- The calls on a pool: the addresses that were handed out, and the pool afterwards.
unfoldable pub run : List Op → Flmp → Option (List (Option ℕ) × Flmp)
run [] flmp = some ([], flmp)
run (take_block ∷ ops) flmp = (blkalloc flmp) >>= λ (block, flmp').
    (run ops flmp') >>= λ (blocks, flmp''). some (block ∷ blocks, flmp'')
run (give_block n ∷ ops) flmp = (blkfree flmp (address flmp n)) >>= λ flmp'. run ops flmp'

-- The lowest number that is not in a set, from `n` on, with `left` numbers to look at.
abbrev pub lowest_free : ℕ → ℕ → (ℕ → Bool) → Option ℕ
lowest_free zero n f = none
lowest_free (suc left) n f = if f n then lowest_free left (suc n) f else some n

-- The same calls on a set of numbers below `count`; giving back what is not there is a fault.
unfoldable pub replay : ℕ → List Op → (ℕ → Bool) → Option (List (Option ℕ) × (ℕ → Bool))
replay count [] f = some ([], f)
replay count (take_block ∷ ops) f =
    let n : Option ℕ = lowest_free count 0 f in
    let f' : ℕ → Bool = elim n [ none ↦ f | some k ↦ λ m. (m == k) || f m ] in
    (replay count ops f') >>= λ (numbers, f''). some (n ∷ numbers, f'')
replay count (give_block n ∷ ops) f =
    let rest : Option (List (Option ℕ) × (ℕ → Bool)) =
      replay count ops (λ m. not (m == n) && f m) in
    if f n then rest else none

-- The calls give back blocks of the pool only.
abbrev pub AreInside : ℕ → List Op → Type 0
AreInside count [] = Unit
AreInside count (take_block ∷ ops) = AreInside count ops
AreInside count (give_block n ∷ ops) = (n < count) × AreInside count ops

-- The pool marks the numbers of the set.
abbrev pub Marks : Flmp → (ℕ → Bool) → Type 0
Marks flmp f = (m : ℕ) → m < flmp.blkcount → used flmp.allocmap m ≡ f m

-- The addresses of numbers.
abbrev pub addresses : Flmp → List (Option ℕ) → List (Option ℕ)
addresses flmp = map (λ (o : Option ℕ). elim o [ none ↦ none | some n ↦ some (address flmp n) ])

lowest_free-none :
    (left n : ℕ) (f : ℕ → Bool)
    → ((m : ℕ) → m < n + left → f m ≡ true)
    → lowest_free left n f ≡ none
lowest_free-none zero n f h = refl
lowest_free-none (suc left) n f h =
    ground (arith, h n (omega arith), lowest_free-none left (suc n) f (λ m l. h m (omega arith)))

lowest_free-some :
    (left n k : ℕ) (f : ℕ → Bool)
    → n ≤ k
    → k < n + left
    → f k ≡ false
    → ((m : ℕ) → m < k → f m ≡ true)
    → lowest_free left n f ≡ some k
lowest_free-some zero n k f lo hi free h = absurd (omega arith)
lowest_free-some (suc left) n k f lo hi free h = elim (Bool-cases (n == k)) [
  | inl here ↦ let e : n ≡ k = ground (arith, here) in ground (arith, e, ap f e, free)
  | inr there ↦
      let more : n < k = ground (arith, there, lo) in
      ground (arith, h n more, lowest_free-some left (suc n) k f (omega arith) (omega arith) free h)
]

-- A pool that does not move keeps the addresses of its blocks.
addresses_eq :
    (flmp flmp' : Flmp) (numbers : List (Option ℕ))
    → ((m : ℕ) → address flmp' m ≡ address flmp m)
    → addresses flmp' numbers ≡ addresses flmp numbers
addresses_eq flmp flmp' [] h = refl
addresses_eq flmp flmp' (none ∷ ns) h = ap (λ l. none ∷ l) (addresses_eq flmp flmp' ns h)
addresses_eq flmp flmp' (some n ∷ ns) h = cc (h n, addresses_eq flmp flmp' ns h)

-- Giving back a block that is not in use is caught.
pub blkfree_unused :
    (flmp : Flmp) (n : ℕ)
    → IsValid flmp
    → n < flmp.blkcount
    → used flmp.allocmap n ≡ false
    → blkfree flmp (address flmp n) ≡ none
unfolding blkfree
blkfree_unused flmp n v h clear = rw (number-address flmp n v) (
    ground
      (arith, get_elem?-get_or flmp.allocmap (n / 8) (omega (arith, v.map_len, v.count)), clear))

-- How two runs end: both in a fault, or with the same blocks and sets that agree.
abbrev pub Same :
    Flmp → Option (List (Option ℕ) × Flmp) → Option (List (Option ℕ) × (ℕ → Bool)) → Type 0
Same flmp r s =
    ((r ≡ none) × (s ≡ none))
    ⊎ ((numbers : List (Option ℕ)) × (flmp' : Flmp) × (f' : ℕ → Bool) × (r
          ≡ some (addresses flmp numbers, flmp'))
        × (s ≡ some (numbers, f'))
        × IsValid flmp'
        × Marks flmp' f')

-- The runs of a pool are also those of a pool at the same place.
Same-place :
    (flmp flmp' : Flmp) (r : Option (List (Option ℕ) × Flmp))
    (s : Option (List (Option ℕ) × (ℕ → Bool)))
    → ((m : ℕ) → address flmp' m ≡ address flmp m)
    → Same flmp' r s
    → Same flmp r s
Same-place flmp flmp' r s h same = elim same [
  | inl faults ↦ inl faults
  | inr (ns, p, f, er, es, v, agree) ↦
      inr (ns, p, f, er ∙ ap (λ l. some (l, p)) (addresses_eq flmp flmp' ns h), es, v, agree)
]

-- One more block in front of both results.
Same-cons :
    (flmp : Flmp) (o : Option ℕ) (r : Option (List (Option ℕ) × Flmp))
    (s : Option (List (Option ℕ) × (ℕ → Bool)))
    → Same flmp r s
    → Same flmp
        (r >>= λ (blocks, p).
          some (
            elim o as (λ _. Option ℕ) [ none ↦ none | some n ↦ some (address flmp n) ] ∷ blocks,
            p,
          ))
        (s >>= λ (ns, f). some (o ∷ ns, f))
Same-cons flmp o r s same = elim same [
  | inl (er, es) ↦ inl (rw er refl, rw es refl)
  | inr (ns, p, f, er, es, v, agree) ↦ inr (o ∷ ns, p, f, rw er refl, rw es refl, v, agree)
]

run-take :
    (ops : List Op) (flmp flmp' : Flmp) (f f' : ℕ → Bool) (o : Option ℕ)
    → blkalloc flmp
      ≡ some (elim o as (λ _. Option ℕ) [ none ↦ none | some n ↦ some (address flmp n) ], flmp')
    → lowest_free flmp.blkcount 0 f ≡ o
    → (elim o as (λ _. ℕ → Bool) [ none ↦ f | some k ↦ λ m. (m == k) || f m ]) ≡ f'
    → Same flmp (run ops flmp') (replay flmp.blkcount ops f')
    → Same flmp (run (take_block ∷ ops) flmp) (replay flmp.blkcount (take_block ∷ ops) f)
unfolding run replay
run-take ops flmp flmp' f f' o e l ef same =
    rw (e, l, ef) (Same-cons flmp o (run ops flmp') (replay flmp.blkcount ops f') same)

-- Any sequence of naf_flmp_blkalloc, and of naf_flmp_blkfree of the addresses of blocks of the
-- pool, does on a good pool what it does on the set of the block numbers in use, where a block
-- taken is the lowest that is free and giving back a block that is not in use is a fault: either
-- both runs fault, or the same blocks are handed out and the pool is good and marks the set
-- afterwards.
pub run_refines :
    (ops : List Op) (flmp : Flmp) (f : ℕ → Bool)
    → IsValid flmp
    → Marks flmp f
    → AreInside flmp.blkcount ops
    → Same flmp (run ops flmp) (replay flmp.blkcount ops f)
unfolding run replay
run_refines [] flmp f v agree inside = inr ([], flmp, f, refl, refl, v, agree)
run_refines (take_block ∷ ops) flmp f v agree inside = elim (blkalloc_lem flmp v) [
  | inl (e, full) ↦
      run-take ops flmp flmp f f none e
        (lowest_free-none flmp.blkcount 0 f
          (λ m h. sym (agree m (omega arith)) ∙ full m (omega arith)))
        refl (run_refines ops flmp f v agree inside)
  | inr (n, flmp', e, t) ↦
      let f' : ℕ → Bool = λ m. (m == n) || f m in
      run-take ops flmp flmp' f f' (some n) e
        (lowest_free-some flmp.blkcount 0 n f (omega arith) (omega (arith, t.inside))
          (sym (agree n t.inside) ∙ t.was_free)
          (λ m h. sym (agree m (omega (arith, t.inside))) ∙ t.lowest m h))
        refl
        (Same-place flmp flmp' (run ops flmp') (replay flmp.blkcount ops f') t.same_place (
          subst (λ c. Same flmp' (run ops flmp') (replay c ops f')) t.same_count
            (run_refines ops flmp' f' t.valid
              (λ m h. t.marks m ∙ ap (λ b. (m == n) || b) (agree m (omega (arith, t.same_count))))
              (subst (λ c. AreInside c ops) (sym t.same_count) inside))))
]
run_refines (give_block n ∷ ops) flmp f v agree (below, inside) =
    elim (Bool-cases (used flmp.allocmap n)) [
      | inr clear ↦
          inl (rw (blkfree_unused flmp n v below clear) refl, rw (sym (agree n below) ∙ clear) refl)
      | inl marked ↦
          let (flmp', e, marks, v', place, cnt) = blkfree_lem flmp n v below marked in
          let f' : ℕ → Bool = λ m. not (m == n) && f m in
          rw (e, sym (agree n below) ∙ marked)
            (Same-place flmp flmp' (run ops flmp') (replay flmp.blkcount ops f') place (
              subst (λ c. Same flmp' (run ops flmp') (replay c ops f')) cnt
                (run_refines ops flmp' f' v'
                  (λ m h. marks m ∙ ap (λ b. not (m == n) && b) (agree m (omega (arith, cnt))))
                  (subst (λ c. AreInside c ops) (sym cnt) inside))))
    ]
