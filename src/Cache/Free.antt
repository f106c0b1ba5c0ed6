-- ===== src/Cache/Free.antt =====
-- naf/cache.c: how much cl_free and ctd_free free.
use timps.Prelude.{◌%◌, ◌≡◌, refl, none, List, [], ◌∷◌, Option-cases, inl, inr, arith, length}
use timps.Cache.{CachePair, CacheList, lists, cl_free, ctd_free, unregister}

ctd_free_odd :
    (cls : List CacheList) (freed : List CachePair) → length cls % 2 ≡ 1 → ctd_free cls freed ≡ none
unfolding ctd_free
ctd_free_odd [] freed h = absurd (omega (arith, h))
ctd_free_odd (cl ∷ []) freed h = elim (Option-cases (cl_free cl freed)) [
  | inl e ↦ rw (ctd_free, e) refl
  | inr (_, e) ↦ rw (ctd_free, e) refl
]
ctd_free_odd (cl ∷ next ∷ cls) freed h = elim (Option-cases (cl_free cl freed)) [
  | inl e ↦ rw (ctd_free, e) refl
  | inr (freed', e) ↦ rw (ctd_free, e) (ctd_free_odd cls freed' (omega (arith, h)))
]

-- naf_cache_unregister of a module with an odd number of lists goes through a null pointer.
pub unregister_odd :
    (cls : List CacheList) (freed : List CachePair)
    → length cls % 2 ≡ 1
    → unregister (record { tag = lists cls; freed = freed }) ≡ none
unfolding unregister
unregister_odd cls freed h = rw (ctd_free_odd cls freed h) refl
