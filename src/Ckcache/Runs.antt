-- ===== src/Ckcache/Runs.antt =====
-- Runs of timps/oscar/ckcache.c, and its theorems at concrete inputs.
use timps.Prelude.{ap, arith, get_or, ℕ, ◌≡◌, ◌≢◌, refl, true, some, List, [], ◌∷◌}
use timps.Fixture.{zeros}
use timps.Ckcache.{Entry, Cache, find, rem, alloc, add}
use timps.Ckcache.Find.{IsUnique, entry}
use timps.Ckcache.Cycle.{rem-add}

abbrev old : Entry
old = entry (1 ∷ 2 ∷ []) (49 ∷ []) (97 ∷ []) 100

abbrev young : Entry
young = entry (3 ∷ 4 ∷ []) (50 ∷ []) (98 ∷ []) 150

abbrev both : Cache
both = young ∷ old ∷ []

both-IsUnique : IsUnique both
unfolding find
both-IsUnique = (refl, (refl, tt))

abbrev third : Entry
third = entry (5 ∷ []) (51 ∷ []) (99 ∷ []) 160

adds_third :
    add zeros both (5 ∷ []) (some (51 ∷ [])) (some (99 ∷ [])) 9 160 ≡ some (true, third ∷ both)
unfolding add alloc find
adds_third = refl

rem-add_example : rem (third ∷ both) (5 ∷ []) ≡ (some (51 ∷ [], 99 ∷ [], 0), both)
rem-add_example = rem-add zeros both (5 ∷ []) (51 ∷ []) (99 ∷ []) 9 160 (third ∷ both) adds_third

others_differ : ◌≢◌ {A = List ℕ} (1 ∷ 2 ∷ []) (3 ∷ 4 ∷ [])
others_differ e = absurd (omega (arith, ap (λ l. get_or l 0 0) e))
