-- ===== src/Malloc/Count.antt =====
-- naf/memory.c: the counters of a module against the blocks that are allocated.
use timps.Prelude.{
  ℕ, ◌+◌, ◌%◌, ◌^◌, ◌<◌, ◌≡◌, refl, ap, Bool, true, false, ◌&&◌, Bool-cases, inl, inr, Option, none,
  some, List, [], ◌∷◌, ◌==◌, if◌then◌else◌, arith, All,
}
use timps.Malloc.{
  Stats, ModuleStats, Block, Heap, type_of_generic, type_of_netbuf, no_stats, count_in, count_out,
  find_block, drop_block,
}

-- How many of the blocks have a property, and how many bytes they have.
abbrev pub number : (Block → Bool) → List Block → ℕ
number p [] = 0
number p (b ∷ bs) = (if p b then 1 else 0) + number p bs

abbrev pub bytes : (Block → Bool) → List Block → ℕ
bytes p [] = 0
bytes p (b ∷ bs) = (if p b then b.buflen else 0) + bytes p bs

abbrev pub owned : ℕ → Block → Bool
owned m b = elim b.owner [ none ↦ false | some k ↦ k == m ]

abbrev pub of_type : ℕ → ℕ → Block → Bool
of_type m t b = owned m b && (b.type == t)

-- Counters are right for the blocks with a property, in 32 bits.
pub record Counts (s : Stats) (p : Block → Bool) (bs : List Block) : Type 0 where
  pub regions : s.regions ≡ number p bs % 2 ^ 32
  pub current : s.current ≡ bytes p bs % 2 ^ 32

-- The counters of a module are right.
pub record Counted (pms : ModuleStats) (m : ℕ) (bs : List Block) : Type 0 where
  pub totals : Counts pms.totals (owned m) bs
  pub generic : Counts pms.type_generic (of_type m type_of_generic) bs
  pub netbuf : Counts pms.type_netbuf (of_type m type_of_netbuf) bs

-- A module without counters has no blocks.
abbrev pub CountedFor : Option ModuleStats → ℕ → List Block → Type 0
CountedFor none m bs = number (owned m) bs ≡ 0
CountedFor (some pms) m bs = Counted pms m bs

pub record IsCounted (h : Heap) : Type 0 where
  pub lens : All (λ (b : Block). b.buflen < 2 ^ 32) h.blocks
  pub counts : (m : ℕ) → CountedFor (h.memorystats m) m h.blocks

pub Counts-in :
    (s : Stats) (p : Block → Bool) (b : Block) (bs : List Block) (n : ℕ)
    → b.buflen ≡ n % 2 ^ 32
    → p b ≡ true
    → Counts s p bs
    → Counts (count_in n s) p (b ∷ bs)
unfolding count_in
Counts-in s p b bs n len here c = record {
  regions = rw here (omega (arith, c.regions));
  current = rw here (omega (arith, c.current, len));
}

pub Counts-other :
    (s : Stats) (p : Block → Bool) (b : Block) (bs : List Block)
    → p b ≡ false
    → Counts s p bs
    → Counts s p (b ∷ bs)
Counts-other s p b bs there c = record {
  regions = rw there (omega (arith, c.regions));
  current = rw there (omega (arith, c.current));
}

pub drop_lem :
    (p : Block → Bool) (bs : List Block) (id : ℕ) (b : Block)
    → find_block bs id ≡ some b
    → (number p bs ≡ (if p b then 1 else 0) + number p (drop_block bs id))
      × (bytes p bs ≡ (if p b then b.buflen else 0) + bytes p (drop_block bs id))
unfolding find_block drop_block
drop_lem p [] id b e = absurd (cc)
drop_lem p (x ∷ bs) id b e = elim (Bool-cases (x.id == id)) [
  | inl here ↦
      let same : x ≡ b = ground (arith, e, here) in
      rw here (
        ap (λ y. (if p y then 1 else 0) + number p bs) same,
        ap (λ y. (if p y then y.buflen else 0) + bytes p bs) same,
      )
  | inr there ↦
      let (n, k) = drop_lem p bs id b (ground (arith, e, there)) in
      rw there (omega (arith, n), omega (arith, k))
]

pub Counts-out :
    (s : Stats) (p : Block → Bool) (bs : List Block) (id : ℕ) (b : Block)
    → b.buflen < 2 ^ 32
    → find_block bs id ≡ some b
    → p b ≡ true
    → Counts s p bs
    → Counts (count_out b.buflen s) p (drop_block bs id)
unfolding count_out
Counts-out s p bs id b small found here c =
    let (n, k) = drop_lem p bs id b found in
    let n' : number p bs ≡ 1 + number p (drop_block bs id) = rw here at n in
    let k' : bytes p bs ≡ b.buflen + bytes p (drop_block bs id) = rw here at k in
    record { regions = omega (arith, c.regions, n'); current = omega (arith, c.current, k', small) }

pub Counts-stay :
    (s : Stats) (p : Block → Bool) (bs : List Block) (id : ℕ) (b : Block)
    → find_block bs id ≡ some b
    → p b ≡ false
    → Counts s p bs
    → Counts s p (drop_block bs id)
Counts-stay s p bs id b found there c =
    let (n, k) = drop_lem p bs id b found in
    let n' : number p bs ≡ 0 + number p (drop_block bs id) = rw there at n in
    let k' : bytes p bs ≡ 0 + bytes p (drop_block bs id) = rw there at k in
    record { regions = omega (arith, c.regions, n'); current = omega (arith, c.current, k') }

-- Nothing is counted for a module without blocks.
nothing_lem :
    (m : ℕ) (p : Block → Bool) (bs : List Block)
    → ((b : Block) → owned m b ≡ false → p b ≡ false)
    → number (owned m) bs ≡ 0
    → (number p bs ≡ 0) × (bytes p bs ≡ 0)
nothing_lem m p [] h e = (refl, refl)
nothing_lem m p (b ∷ bs) h e = elim (Bool-cases (owned m b)) [
  | inl mine ↦ let e' : 1 + number (owned m) bs ≡ 0 = rw mine at e in absurd (omega (arith, e'))
  | inr other ↦
      let e' : 0 + number (owned m) bs ≡ 0 = rw other at e in
      let (n, k) = nothing_lem m p bs h (omega (arith, e')) in
      rw (h b other) (omega (arith, n), omega (arith, k))
]

pub no_stats-Counted : (m : ℕ) (bs : List Block) → number (owned m) bs ≡ 0 → Counted no_stats m bs
no_stats-Counted m bs e = record {
  totals = zeros (owned m) (λ b h. h);
  generic = zeros (of_type m type_of_generic) (λ b h. rw h refl);
  netbuf = zeros (of_type m type_of_netbuf) (λ b h. rw h refl);
}
  where
    zeros :
        (p : Block → Bool)
        → ((b : Block) → owned m b ≡ false → p b ≡ false)
        → Counts (record { regions = 0; current = 0; maximum = 0 }) p bs
    zeros p h =
        let (n, k) = nothing_lem m p bs h e in
        record { regions = omega (arith, n); current = omega (arith, k) }
