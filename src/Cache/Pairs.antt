-- ===== src/Cache/Pairs.antt =====
-- naf/cache.c: adding, finding and removing pairs of a list.
use timps.Prelude.{
  ℕ, ◌≡◌, refl, inl, inr, Bool, true, Bool-cases, none, some, List, [], ◌∷◌, ◌==◌, arith,
}
use timps.Cache.{
  CachePair, CacheList, Cache, lists, missing, cp_free, ctd_findlist, put_pairs, find_loop,
  findpair, drop_pairs, rempairs,
}

pub ctd_findlist-put_pairs :
    (cls : List CacheList) (lid : ℕ) (ps : List CachePair) (cl : CacheList)
    → ctd_findlist cls lid ≡ some cl
    → ctd_findlist (put_pairs cls lid ps) lid ≡ some (record cl { pairs = ps })
unfolding ctd_findlist put_pairs
ctd_findlist-put_pairs [] lid ps cl e = absurd (ground (arith, e))
ctd_findlist-put_pairs (c ∷ cls) lid ps cl e = elim (Bool-cases (c.lid == lid)) [
  | inl here ↦ ground (arith, e, here)
  | inr there ↦ ground (arith, e, there, ctd_findlist-put_pairs cls lid ps cl)
]

-- Nothing is found among the pairs that a matcher left.
find_loop-drop_pairs :
    (matcher : ℕ → ℕ → Bool) (hit : Bool) (now : ℕ) (cl : CacheList) (cps freed : List CachePair)
    → (find_loop matcher hit now (drop_pairs (λ cp. matcher cp.key cp.value) cl cps freed).0).0
      ≡ none
unfolding find_loop drop_pairs
find_loop-drop_pairs matcher hit now cl [] freed = refl
find_loop-drop_pairs matcher hit now cl (cp ∷ cps) freed =
    elim (Bool-cases (matcher cp.key cp.value)) [
      | inl e ↦
          rw (drop_pairs, e) (find_loop-drop_pairs matcher hit now cl cps (cp_free cl cp freed))
      | inr e ↦
          rw (drop_pairs, e) (rw (find_loop, e) (find_loop-drop_pairs matcher hit now cl cps freed))
    ]

-- Of registered lists with one of the id, naf_cache_rempairs returns 0, and then naf_cache_findpair with
-- the same matcher finds no pair.
pub findpair-rempairs :
    (matcher : ℕ → ℕ → ℕ → Bool) (hit : Bool) (now lid : ℕ) (cls : List CacheList)
    (freed : List CachePair) (cl : CacheList)
    → ctd_findlist cls lid ≡ some cl
    → (c' c'' : Cache) × (rempairs matcher lid (record { tag = lists cls; freed = freed })
        ≡ some (true, c'))
      × (findpair matcher hit now lid c' ≡ some (missing, c''))
unfolding findpair rempairs
findpair-rempairs matcher hit now lid cls freed cl e =
    let out = drop_pairs (λ cp. matcher lid cp.key cp.value) cl cl.pairs freed in
    let left = find_loop (matcher lid) hit now out.0 in
    let nothing : left.0 ≡ none = find_loop-drop_pairs (matcher lid) hit now cl cl.pairs freed in
    (
      record { tag = lists (put_pairs cls lid out.0); freed = out.1 },
      record { tag = lists (put_pairs (put_pairs cls lid out.0) lid left.1); freed = out.1 },
      rw (rempairs, e) refl,
      rw (findpair, ctd_findlist-put_pairs cls lid out.0 cl e, nothing) refl,
    )
