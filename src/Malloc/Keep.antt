-- ===== src/Malloc/Keep.antt =====
-- naf/memory.c: naf_malloc_real and naf_free_real keep the counters of every module right.
use timps.Prelude.{
  ℕ, ◌+◌, ◌%◌, ◌^◌, ◌<◌, ◌≡◌, refl, ap, sym, ◌∙◌, Bool, true, false, Bool-cases, Option-cases, inl,
  inr, Option, none, some, List, ◌∷◌, ◌==◌, arith,
}
use mathlib.Core.Path.{subst}
use timps.Malloc.{
  Stats, ModuleStats, Block, type_of_generic, type_of_netbuf, stats_size, no_stats, count_in,
  count_out, count_type, account, module_init, find_block, drop_block,
}
use timps.Malloc.Count.{
  number, owned, of_type, Counts, Counted, CountedFor, Counts-in, Counts-other, Counts-out,
  Counts-stay, drop_lem, no_stats-Counted,
}

-- What a step does to the counters of one property: those that it counts are right afterwards, and so
-- are the others.
pub record Moves (f : Stats → Stats) (b : Block) (bs bs' : List Block) : Type 0 where
  pub counted : (s : Stats) (p : Block → Bool) → p b ≡ true → Counts s p bs → Counts (f s) p bs'
  pub other : (s : Stats) (p : Block → Bool) → p b ≡ false → Counts s p bs → Counts s p bs'
  pub absent : (m : ℕ) → owned m b ≡ false → number (owned m) bs ≡ 0 → number (owned m) bs' ≡ 0

-- The counters of the module that owns the block.
count_type-Counted :
    (f : Stats → Stats) (b : Block) (bs bs' : List Block) (pms : ModuleStats) (m : ℕ)
    → Moves f b bs bs'
    → owned m b ≡ true
    → Counted pms m bs
    → Counted (count_type f b.type pms) m bs'
unfolding count_type
count_type-Counted f b bs bs' pms m v mine c = elim (Bool-cases (b.type == type_of_generic)) [
  | inl generic ↦
      let differ : of_type m type_of_netbuf b ≡ false = ground (arith, mine, generic) in
      rw generic (record {
        totals = v.counted pms.totals (owned m) mine c.totals;
        generic =
            v.counted pms.type_generic (of_type m type_of_generic) (rw (mine, generic) refl)
              c.generic;
        netbuf = v.other pms.type_netbuf (of_type m type_of_netbuf) differ c.netbuf;
      })
  | inr not_generic ↦ elim (Bool-cases (b.type == type_of_netbuf)) [
    | inl netbuf ↦
        rw (not_generic, netbuf)
          (record {
            totals = v.counted pms.totals (owned m) mine c.totals;
            generic =
                v.other pms.type_generic (of_type m type_of_generic) (rw (mine, not_generic) refl)
                  c.generic;
            netbuf =
                v.counted pms.type_netbuf (of_type m type_of_netbuf) (rw (mine, netbuf) refl)
                  c.netbuf;
          })
    | inr not_netbuf ↦
        rw (not_generic, not_netbuf)
          (record {
            totals = v.counted pms.totals (owned m) mine c.totals;
            generic =
                v.other pms.type_generic (of_type m type_of_generic) (rw (mine, not_generic) refl)
                  c.generic;
            netbuf =
                v.other pms.type_netbuf (of_type m type_of_netbuf) (rw (mine, not_netbuf) refl)
                  c.netbuf;
          })
  ]
]

-- The counters of another module.
other-Counted :
    (f : Stats → Stats) (b : Block) (bs bs' : List Block) (pms : ModuleStats) (m : ℕ)
    → Moves f b bs bs'
    → owned m b ≡ false
    → Counted pms m bs
    → Counted pms m bs'
other-Counted f b bs bs' pms m v other c = record {
  totals = v.other pms.totals (owned m) other c.totals;
  generic = v.other pms.type_generic (of_type m type_of_generic) (rw other refl) c.generic;
  netbuf = v.other pms.type_netbuf (of_type m type_of_netbuf) (rw other refl) c.netbuf;
}

other-CountedFor :
    (f : Stats → Stats) (b : Block) (bs bs' : List Block) (x : Option ModuleStats) (m : ℕ)
    → Moves f b bs bs'
    → owned m b ≡ false
    → CountedFor x m bs
    → CountedFor x m bs'
other-CountedFor f b bs bs' none m v other c = v.absent m other c
other-CountedFor f b bs bs' (some pms) m v other c = other-Counted f b bs bs' pms m v other c

-- The block's module has counters.
abbrev pub Present : Option ℕ → (ℕ → Option ModuleStats) → Type 0
Present none stats = Unit
Present (some k) stats = (pms : ModuleStats) × (stats k ≡ some pms)

-- Counting a step keeps the counters of every module right.
pub account-CountedFor :
    (f : Stats → Stats) (b : Block) (bs bs' : List Block) (stats : ℕ → Option ModuleStats)
    (o : Option ℕ) (m : ℕ)
    → Moves f b bs bs'
    → b.owner ≡ o
    → Present o stats
    → CountedFor (stats m) m bs
    → CountedFor (account f o b.type stats m) m bs'
unfolding account
account-CountedFor f b bs bs' stats none m v eo there c =
    other-CountedFor f b bs bs' (stats m) m v (rw eo refl) c
account-CountedFor f b bs bs' stats (some k) m v eo (pms, there) c = elim (Bool-cases (m == k)) [
  | inl mine ↦
      let same : k ≡ m = ground (arith, mine) in
      let own : owned m b ≡ true = rw (eo, same) (ground arith) in
      let ours : CountedFor (some pms) m bs =
        subst (λ x. CountedFor x m bs) (ap stats (sym same) ∙ there) c in
      rw (account, there, mine) (count_type-Counted f b bs bs' pms m v own ours)
  | inr not_mine ↦
      let own : owned m b ≡ false = rw eo (ground (arith, not_mine)) in
      rw (account, there, not_mine) (other-CountedFor f b bs bs' (stats m) m v own c)
]

pub in-Moves :
    (b : Block) (bs : List Block) (n : ℕ) → b.buflen ≡ n % 2 ^ 32 → Moves (count_in n) b bs (b ∷ bs)
in-Moves b bs n len = record {
  counted = λ s p here c. Counts-in s p b bs n len here c;
  other = λ s p there c. Counts-other s p b bs there c;
  absent = λ m there z. rw there (omega (arith, z));
}

pub out-Moves :
    (b : Block) (bs : List Block) (id : ℕ)
    → b.buflen < 2 ^ 32
    → find_block bs id ≡ some b
    → Moves (count_out b.buflen) b bs (drop_block bs id)
out-Moves b bs id small found = record {
  counted = λ s p here c. Counts-out s p bs id b small found here c;
  other = λ s p there c. Counts-stay s p bs id b found there c;
  absent = λ m there z.
      let n : number (owned m) bs ≡ 0 + number (owned m) (drop_block bs id) =
        rw there at (drop_lem (owned m) bs id b found).0 in
      omega (arith, n, z);
}

-- A module's counters start at 0, and are there afterwards.
pub module_init_lem :
    (malloc : ℕ → Option (List ℕ)) (block : List ℕ) (o : Option ℕ) (stats : ℕ → Option ModuleStats)
    (bs : List Block)
    → malloc stats_size ≡ some block
    → ((m : ℕ) → CountedFor (stats m) m bs)
    → Present o (module_init malloc o stats)
      × ((m : ℕ) → CountedFor (module_init malloc o stats m) m bs)
unfolding module_init
module_init_lem malloc block none stats bs got c = (tt, c)
module_init_lem malloc block (some k) stats bs got c = elim (Option-cases (stats k)) [
  | inr (pms, there) ↦ rw (module_init, there) ((pms, there), c)
  | inl absent ↦
      rw (module_init, absent, got)
        (
          (no_stats, ground arith),
          λ m. elim (Bool-cases (m == k)) [
            | inr other ↦ rw other (c m)
            | inl mine ↦
                let same : k ≡ m = ground (arith, mine) in
                let zero_blocks : CountedFor none m bs =
                  subst (λ x. CountedFor x m bs) (ap stats (sym same) ∙ absent) (c m) in
                rw mine (no_stats-Counted m bs zero_blocks)
          ],
        )
]
