-- ===== src/Malloc/Balance.antt =====
-- naf/memory.c: the heap from one call of naf_malloc_real or naf_free_real to the next.
use timps.Prelude.{
  ℕ, ◌+◌, ◌%◌, ◌^◌, ◌<◌, ◌≡◌, ◌⊎◌, refl, ap, true, not, ◌||◌, Bool-cases, Option-cases, inl, inr,
  Option, none, some, List, [], ◌∷◌, ◌==◌, arith, All, store-in, bytes_eq, length,
}
use mathlib.Core.Path.{subst}
use timps.Sbuf.Valid.{IsMalloc}
use timps.Malloc.{
  Block, Heap, magic_start, magic_end, magic_footer, stats_size, count_in, count_out, account,
  module_init, naf_malloc, naf_free, find_block, drop_block,
}
use timps.Malloc.Count.{number, owned, drop_lem, CountedFor, IsCounted}
use timps.Malloc.Keep.{Present, account-CountedFor, in-Moves, out-Moves, module_init_lem}

find_block-small :
    (bs : List Block) (id : ℕ) (b : Block)
    → All (λ (x : Block). x.buflen < 2 ^ 32) bs
    → find_block bs id ≡ some b
    → b.buflen < 2 ^ 32
unfolding find_block
find_block-small [] id b u e = absurd (cc)
find_block-small (x ∷ bs) id b (h, u) e = elim (Bool-cases (x.id == id)) [
  | inl here ↦
      let same : x ≡ b = ground (arith, e, here) in omega (arith, h, ap (λ y. y.buflen) same)
  | inr there ↦ find_block-small bs id b u (ground (arith, e, there))
]

drop_block-small :
    (bs : List Block) (id : ℕ)
    → All (λ (x : Block). x.buflen < 2 ^ 32) bs
    → All (λ (x : Block). x.buflen < 2 ^ 32) (drop_block bs id)
unfolding drop_block
drop_block-small [] id u = tt
drop_block-small (x ∷ bs) id (h, u) = elim (Bool-cases (x.id == id)) [
  | inl here ↦ rw here u
  | inr there ↦ rw there (h, drop_block-small bs id u)
]

-- Every block's module has counters, where the counters are right.
owner-Present :
    (h : Heap) (b : Block) (id : ℕ) (o : Option ℕ)
    → IsCounted h
    → find_block h.blocks id ≡ some b
    → b.owner ≡ o
    → Present o h.memorystats
owner-Present h b id none c found e = tt
owner-Present h b id (some k) c found e = elim (Option-cases (h.memorystats k)) [
  | inr there ↦ there
  | inl absent ↦
      let own : owned k b ≡ true = rw e (ground arith) in
      let zero_blocks : CountedFor none k h.blocks =
        subst (λ x. CountedFor x k h.blocks) absent (c.counts k) in
      let some_block : number (owned k) h.blocks ≡ 1 + number (owned k) (drop_block h.blocks id) =
        rw own at (drop_lem (owned k) h.blocks id b found).0 in
      absurd (omega (arith, zero_blocks, some_block))
]

-- The heap without a block.
abbrev freed : Heap → ℕ → Block → Heap
freed h ptr b = record h {
  blocks = drop_block h.blocks ptr;
  memorystats = account (count_out b.buflen) b.owner b.type h.memorystats;
}

freed_lem :
    (h h' : Heap) (ptr : ℕ) (b : Block)
    → find_block h.blocks ptr ≡ some b
    → naf_free h (some ptr) ≡ some h'
    → freed h ptr b ≡ h'
unfolding naf_free
freed_lem h h' ptr b found e =
    elim (Bool-cases (not (b.hdrmagic2 == magic_end) || not (b.hdrmagic1 == magic_start))) [
      | inl bad ↦ absurd (ground (arith, e, found, bad))
      | inr good ↦ elim (Bool-cases (bytes_eq b.footer magic_footer)) [
        | inr overrun ↦ absurd (ground (arith, e, found, good, overrun))
        | inl whole ↦
            let made : some (freed h ptr b) ≡ some h' = rw (naf_free, found, good, whole) at e in cc
      ]
    ]

-- Where naf_free_real neither aborts nor faults, it keeps the counters right: for each module,
-- the regions and bytes in all, of the generic type and of network buffers are those of its
-- allocated blocks, in 32 bits, and a module without counters has no blocks.
pub naf_free-IsCounted :
    (h h' : Heap) (ptr : Option ℕ) → IsCounted h → naf_free h ptr ≡ some h' → IsCounted h'
unfolding naf_free
naf_free-IsCounted h h' none c e = let same : h ≡ h' = cc in subst IsCounted same c
naf_free-IsCounted h h' (some ptr) c e = elim (Option-cases (find_block h.blocks ptr)) [
  | inl lost ↦ absurd (ground (arith, e, lost))
  | inr (b, found) ↦
      let same : freed h ptr b ≡ h' = freed_lem h h' ptr b found e in
      let small = find_block-small h.blocks ptr b c.lens found in
      let good : IsCounted (freed h ptr b) = record {
        lens = drop_block-small h.blocks ptr c.lens;
        counts = λ m.
            account-CountedFor (count_out b.buflen) b h.blocks (drop_block h.blocks ptr)
              h.memorystats b.owner m (out-Moves b h.blocks ptr small found) refl
              (owner-Present h b ptr b.owner c found refl) (c.counts m);
      } in
      subst IsCounted same good
]

-- The block that naf_malloc_real makes.
abbrev pub fresh : Heap → Option ℕ → ℕ → ℕ → Block
fresh h owner type reqsize = record {
  id = h.next_id;
  hdrmagic1 = magic_start;
  type = type % 2 ^ 16;
  owner = owner;
  buflen = reqsize % 2 ^ 32;
  hdrmagic2 = magic_end;
  footer = magic_footer;
}

-- A block that was not overrun is freed.
free_fresh :
    (heap : Heap) (b : Block) (bs : List Block)
    → heap.blocks ≡ b ∷ bs
    → b.hdrmagic1 ≡ magic_start
    → b.hdrmagic2 ≡ magic_end
    → b.footer ≡ magic_footer
    → (naf_free heap (some b.id) ≡ some (freed heap b.id b)) × (drop_block heap.blocks b.id ≡ bs)
unfolding naf_free find_block drop_block
free_fresh heap b bs e m1 m2 f =
    let self : (b.id == b.id) ≡ true = ground arith in
    (rw (e, self, m1, m2, f) refl, rw (e, self) refl)

-- What naf_malloc_real has done: nothing but start counters, or there is a new block, which
-- naf_free_real takes away again.
pub record Allocated (malloc : ℕ → Option (List ℕ)) (h : Heap) (owner : Option ℕ) (type reqsize : ℕ)
    : Type 0 where
  pub heap : Heap
  pub good : IsCounted heap
  pub after : Heap
  pub result :
      ((naf_malloc malloc h owner type reqsize ≡ some (none, heap)) × (heap.blocks ≡ h.blocks))
      ⊎ ((naf_malloc malloc h owner type reqsize ≡ some (some h.next_id, heap))
          × (find_block h.blocks h.next_id ≡ none)
          × (naf_free heap (some h.next_id) ≡ some after)
          × (after.blocks ≡ h.blocks)
          × IsCounted after)

-- Where libc's malloc gives blocks of the size asked for, grants the counters of a module and
-- returns an address that is not in use, and with a type below 2 ^ 16 and a size below 2 ^ 32 -
-- 24, naf_malloc_real on a heap whose counters are right writes inside its block only and leaves
-- the counters right: for each module, the regions and bytes in all, of the generic type and of
-- network buffers are those of its allocated blocks, in 32 bits. It returns null and no block is
-- new, or it returns a new block, and naf_free_real then takes that one away, and the old blocks
-- and right counters are left.
pub naf_malloc-Allocated :
    (malloc : ℕ → Option (List ℕ)) (block : List ℕ) (h : Heap) (owner : Option ℕ) (type reqsize : ℕ)
    → IsMalloc malloc
    → malloc stats_size ≡ some block
    → type < 2 ^ 16
    → 24 + reqsize < 2 ^ 32
    → find_block h.blocks h.next_id ≡ none
    → IsCounted h
    → Allocated malloc h owner type reqsize
unfolding naf_malloc
naf_malloc-Allocated malloc block h owner type reqsize sound got small room fresh_id c =
    let (there, counts) = module_init_lem malloc block owner h.memorystats h.blocks got c.counts in
    let stats = module_init malloc owner h.memorystats in
    let fits : (20 + reqsize + 4) % 2 ^ 32 ≡ 24 + reqsize = omega (arith, room) in
    elim (Option-cases (malloc (24 + reqsize))) [
      | inl refused ↦ record {
        heap = record h { memorystats = stats };
        good = record { lens = c.lens; counts = counts };
        after = h;
        result = inl (rw (naf_malloc, fits, refused) refl, refl);
      }
      | inr (buf, granted) ↦
          let size : length buf ≡ 24 + reqsize = sound (24 + reqsize) buf granted in
          let stored = store-in buf (20 + reqsize) magic_footer (omega (arith, size)) in
          let b : Block = fresh h owner type reqsize in
          let low : type % 2 ^ 16 ≡ type = omega (arith, small) in
          let heap : Heap = record {
            blocks = b ∷ h.blocks;
            memorystats = account (count_in reqsize) owner type stats;
            next_id = h.next_id + 1;
          } in
          let good : IsCounted heap = record {
            lens = (omega arith, c.lens);
            counts = λ m.
                subst
                  (λ t. CountedFor (account (count_in reqsize) owner t stats m) m (b ∷ h.blocks))
                  low
                  (account-CountedFor (count_in reqsize) b h.blocks (b ∷ h.blocks) stats owner m
                    (in-Moves b h.blocks reqsize refl) refl there (counts m));
          } in
          let (e, same) = free_fresh heap b h.blocks refl refl refl refl in
          record {
            heap = heap;
            good = good;
            after = freed heap h.next_id b;
            result = inr (
              rw (naf_malloc, fits, granted, stored) refl,
              fresh_id,
              e,
              same,
              naf_free-IsCounted heap (freed heap h.next_id b) (some h.next_id) good e,
            );
          }
    ]
