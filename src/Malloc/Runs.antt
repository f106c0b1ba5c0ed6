-- ===== src/Malloc/Runs.antt =====
-- Runs of the accounting of naf/memory.c, and its theorems at concrete inputs.
use timps.Prelude.{
  ℕ, ◌-◌, ◌^◌, ◌≡◌, ◌==◌, ◌>>=◌, if◌then◌else◌, refl, Bool-cases, inl, inr, Option, none, some, [],
  ◌∷◌, store, replicate, arith,
}
use mathlib.Core.Path.{subst}
use timps.Fixture.{zeros, zeros-IsMalloc}
use timps.Malloc.{
  ModuleStats, Block, Heap, no_stats, count_in, count_out, count_type, put_stats, account,
  module_init, naf_malloc, naf_free, find_block, drop_block,
}
use timps.Malloc.Count.{CountedFor, IsCounted}
use timps.Malloc.Balance.{Allocated, fresh, naf_malloc-Allocated, naf_free-IsCounted}

abbrev empty : Heap
empty = record { blocks = []; memorystats = λ m. none; next_id = 100 }

empty-IsCounted : IsCounted empty
empty-IsCounted = record { lens = tt; counts = λ m. refl }

-- Module 7 allocates 10 bytes for the network.
abbrev stats : ModuleStats
stats = record {
  totals = record { regions = 1; current = 10; maximum = 10 };
  type_generic = record { regions = 0; current = 0; maximum = 0 };
  type_netbuf = record { regions = 1; current = 10; maximum = 10 };
}

abbrev answer : Option (Option ℕ × Heap) → Option (Option ModuleStats)
answer none = none
answer (some (ptr, h)) = some (h.memorystats 7)

counts_netbuf : answer (naf_malloc zeros empty (some 7) 1 10) ≡ some (some stats)
unfolding naf_malloc module_init account count_type count_in store
counts_netbuf = refl

abbrev block : Block
block = fresh empty (some 7) 1 10

-- The counters of a block that was allocated while they could not be: freeing it takes them below 0.
abbrev late : Heap
late = record {
  blocks = block ∷ [];
  memorystats = λ m. if m == 7 then some no_stats else none;
  next_id = 101;
}

uncounted :
    (naf_free late (some 100) >>= λ h. h.memorystats 7) >>= (λ pms. some pms.totals.regions)
    ≡ some (2 ^ 32 - 1)
unfolding naf_free find_block drop_block account count_type count_out
uncounted = refl

naf_malloc-Allocated_example : Allocated zeros empty (some 7) 1 10
naf_malloc-Allocated_example =
    naf_malloc-Allocated zeros (replicate 36 0) empty (some 7) 1 10 zeros-IsMalloc refl
      (omega arith) (omega arith) nothing_at empty-IsCounted
  where
    nothing_at : find_block [] 100 ≡ none
    nothing_at = unfold find_block in refl

abbrev one : Heap
one = record {
  blocks = block ∷ [];
  memorystats = put_stats (λ m. none) 7 (some stats);
  next_id = 101;
}

one-CountedFor : (m : ℕ) → CountedFor (one.memorystats m) m one.blocks
one-CountedFor m = elim (Bool-cases (m == 7)) [
  | inr other ↦ rw other (ground (arith, other))
  | inl mine ↦
      let same : 7 ≡ m = ground (arith, mine) in
      subst (λ k. CountedFor (one.memorystats k) k one.blocks) same
        (record {
          totals = record { regions = refl; current = refl };
          generic = record { regions = refl; current = refl };
          netbuf = record { regions = refl; current = refl };
        })
]

abbrev after_one : Heap
after_one = record {
  blocks = [];
  memorystats = put_stats (put_stats (λ m. none) 7 (some stats)) 7 (
      some (record {
        totals = record { regions = 0; current = 0; maximum = 10 };
        type_generic = record { regions = 0; current = 0; maximum = 0 };
        type_netbuf = record { regions = 0; current = 0; maximum = 10 };
      }));
  next_id = 101;
}

frees_one : naf_free one (some 100) ≡ some after_one
unfolding naf_free find_block drop_block account count_type count_out
frees_one = refl

naf_free-IsCounted_example : IsCounted after_one
naf_free-IsCounted_example =
    naf_free-IsCounted one after_one (some 100)
      (record { lens = omega arith; counts = one-CountedFor }) frees_one
