-- ===== src/Cache/Expire.antt =====
-- naf/cache.c: pairs that are hit, and the timer.
use timps.Prelude.{
  ℕ, ◌+◌, ◌≡◌, ◌⊎◌, ◌<◌, refl, sym, ◌∙◌, ap, inl, inr, Bool, true, not, Bool-cases, Option, none,
  some, List, [], ◌∷◌, ltb, ◌==◌, arith,
}
use timps.Cache.{
  CachePair, CacheList, Cache, lists, Found, found, missing, cp_free, ctd_findlist, put_pairs,
  find_loop, findpair, drop_pairs, expire, timer,
}
use timps.Cache.Pairs.{ctd_findlist-put_pairs}

-- Whether the timer drops a pair.
abbrev old : ℕ → CacheList → CachePair → Bool
old now cl cp = not (ltb now (cp.addtime + cl.timeout))

find_loop-hit :
    (matcher : ℕ → ℕ → Bool) (cl : CacheList) (now later : ℕ) (hit : Bool) (again : ℕ) (k v : ℕ)
    (cps freed : List CachePair)
    → later < now + cl.timeout
    → (find_loop matcher true now cps).0 ≡ some (k, v)
    → ((find_loop matcher hit again (find_loop matcher true now cps).1).0 ≡ some (k, v))
      × ((find_loop matcher hit again
            (drop_pairs (old later cl) cl (find_loop matcher true now cps).1 freed).0).0
          ≡ some (k, v))
unfolding find_loop drop_pairs
find_loop-hit matcher cl now later hit again k v [] freed h e = absurd (ground (arith, e))
find_loop-hit matcher cl now later hit again k v (cp ∷ cps) freed h e =
    elim (Bool-cases (matcher cp.key cp.value)) [
      | inl m ↦ (ground (arith, m, e), ground (arith, m, e, h))
      | inr m ↦ elim (Bool-cases (old later cl cp)) [
        | inl o ↦
            let (p, q) =
              find_loop-hit matcher cl now later hit again k v cps (cp_free cl cp freed) h
                (ground (arith, m, e)) in
            (ground (arith, m, p), ground (arith, m, o, q))
        | inr o ↦
            let (p, q) =
              find_loop-hit matcher cl now later hit again k v cps freed h (ground (arith, m, e)) in
            (ground (arith, m, p), ground (arith, m, o, q))
      ]
    ]

-- The timer's run over a list of the cache: none if it is not due, or old pairs are dropped.
findlist-expire :
    (now : ℕ) (cls : List CacheList) (lid : ℕ) (cl : CacheList) (freed : List CachePair)
    → ctd_findlist cls lid ≡ some cl
    → (cl' : CacheList) × (ctd_findlist (expire now cls freed).0 lid ≡ some cl')
      × ((cl'.pairs ≡ cl.pairs)
          ⊎ ((seen : List CachePair) × (cl'.pairs ≡ (drop_pairs (old now cl) cl cl.pairs seen).0)))
unfolding ctd_findlist expire
findlist-expire now [] lid cl freed e = absurd (ground (arith, e))
findlist-expire now (c ∷ cls) lid cl freed e =
    let due : Bool = not (ltb now (c.lastrun + c.timeout)) in
    let dropped = drop_pairs (old now c) c c.pairs freed in
    elim (Bool-cases (c.lid == lid)) [
      | inl here ↦
          let same : c ≡ cl = ground (arith, e, here) in
          elim (Bool-cases due) [
            | inl d ↦ (
              record c { lastrun = now; pairs = dropped.0 },
              rw (d, ctd_findlist, here) refl,
              inr (freed, ap (λ x. (drop_pairs (old now x) x x.pairs freed).0) same),
            )
            | inr d ↦ (c, rw (d, ctd_findlist, here) refl, inl (ap (λ x. x.pairs) same))
          ]
      | inr there ↦ elim (Bool-cases due) [
        | inl d ↦
            let (cl', e', how) =
              findlist-expire now cls lid cl dropped.1 (ground (arith, e, there)) in
            (cl', rw (d, ctd_findlist, there) e', how)
        | inr d ↦
            let (cl', e', how) = findlist-expire now cls lid cl freed (ground (arith, e, there)) in
            (cl', rw (d, ctd_findlist, there) e', how)
      ]
    ]

-- A pair of registered lists that naf_cache_findpair finds with its time set is found again after
-- a run of the timer less than the timeout later: that run ends, and naf_cache_findpair with the
-- same matcher answers the same key and value.
pub findpair-timer :
    (matcher : ℕ → ℕ → ℕ → Bool) (hit : Bool) (now later again lid k v : ℕ) (cls : List CacheList)
    (freed : List CachePair) (cl : CacheList) (c' : Cache)
    → ctd_findlist cls lid ≡ some cl
    → later < now + cl.timeout
    → findpair matcher true now lid (record { tag = lists cls; freed = freed })
      ≡ some (found k v, c')
    → (c1 c2 : Cache) × (timer later c' ≡ some c1)
      × (findpair matcher hit again lid c1 ≡ some (found k v, c2))
unfolding findpair timer
findpair-timer matcher hit now later again lid k v cls freed cl c' here soon e =
    let out = find_loop (matcher lid) true now cl.pairs in
    let cl1 : CacheList = record cl { pairs = out.1 } in
    let first : out.0 ≡ some (k, v) = hit_of out.0 (ground (arith, here, e)) in
    let state : record { tag = lists (put_pairs cls lid out.1); freed = freed } ≡ c' =
      ground (arith, here, e) in
    let after = expire later (put_pairs cls lid out.1) freed in
    let (cl2, e2, how) =
      findlist-expire later (put_pairs cls lid out.1) lid cl1 freed
        (ctd_findlist-put_pairs cls lid out.1 cl here) in
    let again_out = find_loop (matcher lid) hit again cl2.pairs in
    let second : again_out.0 ≡ some (k, v) = elim how [
      | inl same ↦
          ap (λ ps. (find_loop (matcher lid) hit again ps).0) same
          ∙ (find_loop-hit (matcher lid) cl1 now later hit again k v cl.pairs freed soon first).0
      | inr (seen, same) ↦
          ap (λ ps. (find_loop (matcher lid) hit again ps).0) same
          ∙ (find_loop-hit (matcher lid) cl1 now later hit again k v cl.pairs seen soon first).1
    ] in
    (
      record { tag = lists after.0; freed = after.1 },
      record { tag = lists (put_pairs after.0 lid again_out.1); freed = after.1 },
      ap (timer later) (sym state),
      rw (findpair, e2, second) refl,
    )
  where
    hit_of :
        (o : Option (ℕ × ℕ))
        → (elim o as (λ _. Found) [ none ↦ missing | some (k', v') ↦ found k' v' ]) ≡ found k v
        → o ≡ some (k, v)
    hit_of none h = absurd (ground (arith, h))
    hit_of (some (k', v')) h = ground (arith, h)
