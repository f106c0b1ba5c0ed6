-- ===== src/Flmp/Runs.antt =====
-- Runs of the memory pools of naf/memory.c, and its theorems at concrete inputs.
use timps.Prelude.{ℕ, ◌≡◌, ◌<◌, ◌⊎◌, refl, true, false, none, some, List, [], ◌∷◌, arith}
use timps.Fixture.{zeros}
use timps.Flmp.{Flmp, flmp_alloc, open_byte, open_bit, or_bit, xor_bit, blkalloc, blkfree}
use timps.Flmp.Used.{IsValid, used, address}
use timps.Flmp.Refine.{Taken, blkalloc_lem}
use timps.Flmp.Client.{Op, take_block, give_block, run, replay, Same, blkfree_unused, run_refines}
use timps.Flmp.Fresh.{flmp_alloc-IsValid}

abbrev pool : Flmp
pool = record {
  blklen = 16;
  blkcount = 8;
  region = 4096;
  regionlen = 128;
  allocmap = 0 ∷ [];
  allocmaplen = 1;
}

makes_pool : flmp_alloc zeros (λ n. 4096) 16 8 ≡ some pool
unfolding flmp_alloc
makes_pool = refl

odd_length : flmp_alloc zeros (λ n. 4096) 24 8 ≡ none
unfolding flmp_alloc
odd_length = refl

pool-IsValid : IsValid pool
pool-IsValid = record {
  map_len = refl;
  count = refl;
  bytes = omega arith;
  some_len = omega arith;
  fits = omega arith;
}

abbrev calls : List Op
calls = take_block ∷ take_block ∷ give_block 0 ∷ take_block ∷ []

runs_calls :
    run calls pool
    ≡ some (some 4096 ∷ some 4112 ∷ some 4096 ∷ [], record pool { allocmap = 192 ∷ [] })
unfolding run blkalloc open_byte open_bit or_bit blkfree xor_bit
runs_calls = refl

no_block : (m : ℕ) → m < 8 → used (0 ∷ []) m ≡ false
no_block m h = (flmp_alloc-IsValid zeros (λ n. 4096) 16 8 pool (omega arith) makes_pool).1 m h

run_refines_example : Same pool (run calls pool) (replay 8 calls (λ m. false))
run_refines_example = run_refines calls pool (λ m. false) pool-IsValid no_block (omega arith)

abbrev taken : Flmp
taken = record pool { allocmap = 160 ∷ [] }

taken-IsValid : IsValid taken
taken-IsValid = record {
  map_len = refl;
  count = refl;
  bytes = omega arith;
  some_len = omega arith;
  fits = omega arith;
}

blkalloc_lem_example :
    ((blkalloc taken ≡ some (none, taken)) × ((m : ℕ) → m < 8 → used (160 ∷ []) m ≡ true))
    ⊎ ((n : ℕ) × (flmp' : Flmp) × (blkalloc taken ≡ some (some (address taken n), flmp'))
        × Taken taken n flmp')
blkalloc_lem_example = blkalloc_lem taken taken-IsValid

blkfree_unused_example : blkfree taken 4112 ≡ none
blkfree_unused_example = blkfree_unused taken 1 taken-IsValid (omega arith) refl
