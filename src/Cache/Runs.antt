-- ===== src/Cache/Runs.antt =====
-- Runs of the caches of naf/cache.c, and their theorems at concrete inputs.
use timps.Prelude.{ℕ, ◌≡◌, refl, Bool, true, false, none, some, [], ◌∷◌, ◌==◌, arith}
use timps.Cache.{CachePair, CacheList, Cache, lists, found, cl_free, unregister, findpair, timer}
use timps.Cache.Expire.{findpair-timer}

abbrev young : CachePair
young = record { key = 1; value = 11; addtime = 90 }

abbrev aged : CachePair
aged = record { key = 2; value = 22; addtime = 10 }

abbrev cached : CacheList
cached = record {
  lid = 5;
  lastrun = 0;
  timeout = 60;
  has_freepair = true;
  pairs = young ∷ aged ∷ [];
}

abbrev registered : Cache
registered = record { tag = lists (cached ∷ []); freed = [] }

abbrev has_key : ℕ → ℕ → ℕ → ℕ → Bool
has_key k lid key value = key == k

-- At 100 the pair of 10 goes.
expires :
    timer 100 registered
    ≡ some (record {
      tag = lists (record cached { lastrun = 100; pairs = young ∷ [] } ∷ []);
      freed = aged ∷ [];
    })
unfolding timer
expires = refl

-- A module with one list cannot unregister.
crashes : unregister registered ≡ none
unfolding unregister
crashes = refl

three_pairs : cl_free (record cached { pairs = young ∷ young ∷ aged ∷ [] }) [] ≡ none
unfolding cl_free
three_pairs = refl

abbrev hit_at_50 : Cache
hit_at_50 = record {
  tag = lists (record cached { pairs = young ∷ record aged { addtime = 50 } ∷ [] } ∷ []);
  freed = [];
}

findpair-timer_example :
    (c1 c2 : Cache) × (timer 100 hit_at_50 ≡ some c1)
    × (findpair (has_key 2) false 101 5 c1 ≡ some (found 2 22, c2))
unfolding findpair
findpair-timer_example =
    findpair-timer (has_key 2) false 50 100 101 5 2 22 (cached ∷ []) [] cached hit_at_50 refl
      (omega arith) refl
