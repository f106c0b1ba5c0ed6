-- ===== src/Ckcache/Cycle.antt =====
-- timps/oscar/ckcache.c: a cookie from its adding to its redeeming or its end.
use timps.Prelude.{
  ℕ, ◌+◌, ◌≡◌, ◌≢◌, refl, sym, ap, inl, inr, true, Bool-cases, Option, none, some, List, [], ◌∷◌,
  arith, ltb, if◌then◌else◌, ◌∙◌,
}
use timps.Ckcache.{Entry, Cache, same_key, find, remove, rem, timer, timeout, add}
use timps.Ckcache.Find.{IsUnique, entry, add_cases, same_key_self, same_key-eq}

-- Redeeming a cookie that was just added gives back the address and the name that it was added
-- with, and leaves the cache as it was before. The service type is 0, whatever was added.
pub rem-add :
    (malloc : ℕ → Option (List ℕ)) (cache : Cache) (ck addr name : List ℕ) (servtype now : ℕ)
    (cache' : Cache)
    → add malloc cache ck (some addr) (some name) servtype now ≡ some (true, cache')
    → rem cache' ck ≡ (some (addr, name, 0), cache)
unfolding rem remove
rem-add malloc cache ck addr name servtype now cache' e =
    elim (add_cases malloc cache ck (some addr) (some name) servtype now true cache' e) [
      | inl (no_way, _) ↦ cc
      | inr (a, n, _, front, at, named, fresh, _) ↦ ground (arith, same_key_self (entry ck a n now))
    ]

-- Behind an entry with that cookie there is no other.
none_behind :
    (e : Entry) (es : Cache) (ck : List ℕ)
    → find es e.ck ≡ none
    → same_key e ck ≡ true
    → find es ck ≡ none
none_behind e es ck fresh h = ap (find es) (sym (same_key-eq e ck h)) ∙ fresh

remove_once :
    (cache : Cache) (ck other : List ℕ)
    → IsUnique cache
    → (find (remove cache ck).1 ck ≡ none)
      × (ck ≢ other → find (remove cache ck).1 other ≡ find cache other)
unfolding remove find
remove_once [] ck other u = (refl, λ _. refl)
remove_once (e ∷ es) ck other (fresh, u) =
    let (gone, kept) = remove_once es ck other u in
    elim (Bool-cases (same_key e ck)) [
      | inl same ↦ (
        ground (arith, none_behind e es ck fresh),
        λ ne. ground (arith, same_key-eq e ck, same_key-eq e other),
      )
      | inr other_key ↦ (ground (arith, gone), λ ne. ground (arith, kept ne))
    ]

-- In a cache without double cookies, a cookie that was redeemed is not found again, and another
-- cookie is found as before.
pub rem_once :
    (cache : Cache) (ck other : List ℕ)
    → IsUnique cache
    → ck ≢ other
    → (find (rem cache ck).1 ck ≡ none) × (find (rem cache ck).1 other ≡ find cache other)
unfolding rem
rem_once cache ck other u ne = let (gone, kept) = remove_once cache ck other u in (gone, kept ne)

-- In a cache without double cookies, after the timer has run a cookie is found just if it was
-- found before and is not older than a minute, and then with its entry.
pub find-timer :
    (cache : Cache) (now : ℕ) (ck : List ℕ)
    → IsUnique cache
    → find (timer cache now) ck ≡ elim (find cache ck) as (λ _. Option Entry) [
      | none ↦ none
      | some e ↦ if ltb (e.addtime + timeout) now then none else some e
    ]
unfolding timer find
find-timer [] now ck u = refl
find-timer (e ∷ es) now ck (fresh, u) =
    ground (arith, find-timer es now ck u, none_behind e es ck fresh)
