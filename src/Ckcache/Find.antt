-- ===== src/Ckcache/Find.antt =====
-- timps/oscar/ckcache.c: lookups, and how often a cookie stands in the cache.
use timps.Prelude.{
  ℕ, ◌<◌, ◌≡◌, refl, sym, ◌⊎◌, inl, inr, Bool, true, false, Bool-cases, Option-cases, Option, none,
  some, List, [], ◌∷◌, arith, bytes_eq_sound, bytes_eq_refl, ◌==◌, ==_refl, length,
}
use mathlib.Core.Path.{subst}
use timps.Ckcache.{Entry, Cache, same_key, find, remove, timer, alloc, add}

pub same_key_self : (e : Entry) → same_key e e.ck ≡ true
unfolding same_key
same_key_self e = ground (arith, ==_refl (length e.ck), bytes_eq_refl e.ck)

pub same_key-eq : (e : Entry) (ck : List ℕ) → same_key e ck ≡ true → e.ck ≡ ck
unfolding same_key
same_key-eq e ck h = bytes_eq_sound e.ck ck (ground arith)

-- Each entry's cookie is in none of the entries behind it.
abbrev pub IsUnique : Cache → Type 0
IsUnique [] = Unit
IsUnique (e ∷ es) = (find es e.ck ≡ none) × IsUnique es

-- What is found is what is removed.
pub find-remove : (cache : Cache) (ck : List ℕ) → (remove cache ck).0 ≡ find cache ck
unfolding find remove
find-remove [] ck = refl
find-remove (e ∷ es) ck = ground (arith, find-remove es ck)

-- A lookup that fails also fails once an entry is removed, or once the timer has run.
pub find-remove-none :
    (cache : Cache) (ck other : List ℕ)
    → find cache other ≡ none
    → find (remove cache ck).1 other ≡ none
unfolding find remove
find-remove-none [] ck other h = refl
find-remove-none (e ∷ es) ck other h = ground (arith, find-remove-none es ck other)

pub find-timer-none :
    (cache : Cache) (now : ℕ) (other : List ℕ)
    → find cache other ≡ none
    → find (timer cache now) other ≡ none
unfolding find timer
find-timer-none [] now other h = refl
find-timer-none (e ∷ es) now other h = ground (arith, find-timer-none es now other)

pub remove-IsUnique : (cache : Cache) (ck : List ℕ) → IsUnique cache → IsUnique (remove cache ck).1
unfolding remove
remove-IsUnique [] ck u = tt
remove-IsUnique (e ∷ es) ck u = ground (arith, remove-IsUnique es ck, find-remove-none es ck e.ck)

-- The timer keeps cookies unique.
pub timer-IsUnique : (cache : Cache) (now : ℕ) → IsUnique cache → IsUnique (timer cache now)
unfolding timer
timer-IsUnique [] now u = tt
timer-IsUnique (e ∷ es) now u = ground (arith, timer-IsUnique es now, find-timer-none es now e.ck)

abbrev pub entry : List ℕ → List ℕ → List ℕ → ℕ → Entry
entry ck ip sn now = record { ck = ck; ip = ip; sn = sn; servtype = 0; addtime = now }

alloc_cases :
    (malloc : ℕ → Option (List ℕ)) (ck ip : List ℕ) (sn : Option (List ℕ)) (servtype : ℕ)
    (made : Option Entry)
    → alloc malloc ck ip sn servtype ≡ some made
    → (made ≡ none) ⊎ ((name : List ℕ) × (sn ≡ some name) × (made ≡ some (entry ck ip name 0)))
unfolding alloc
alloc_cases malloc ck ip none servtype made e = inl (ground arith)
alloc_cases malloc ck ip (some name) servtype none e = inl refl
alloc_cases malloc ck ip (some name) servtype (some x) e = inr (name, refl, ground arith)

-- Adding a cookie, where it does not fault, either fails and changes nothing, or puts one entry
-- in front with the address and name given: under a cookie that is not empty and was not there,
-- stamped with the time.
pub add_cases :
    (malloc : ℕ → Option (List ℕ)) (cache : Cache) (ck : List ℕ) (ip sn : Option (List ℕ))
    (servtype now : ℕ) (done : Bool) (cache' : Cache)
    → add malloc cache ck ip sn servtype now ≡ some (done, cache')
    → ((done ≡ false) × (cache' ≡ cache))
      ⊎ ((addr name : List ℕ) × (done ≡ true)
          × (cache' ≡ entry ck addr name now ∷ cache)
          × (ip ≡ some addr)
          × (sn ≡ some name)
          × (find cache ck ≡ none)
          × (0 < length ck))
unfolding add
add_cases malloc cache ck none sn servtype now done cache' e = inl (ground arith, ground arith)
add_cases malloc cache ck (some addr) sn servtype now done cache' e =
    elim (Bool-cases (length ck == 0)) [
      | inl empty ↦ inl (ground arith, ground arith)
      | inr some_ck ↦ elim (Option-cases (find cache ck)) [
        | inr (x, there) ↦ inl (ground arith, ground arith)
        | inl fresh ↦ elim (Option-cases (alloc malloc ck addr sn servtype)) [
          | inl crash ↦ absurd (ground arith)
          | inr (made, m) ↦ elim (alloc_cases malloc ck addr sn servtype made m) [
            | inl refused ↦ inl (ground arith, ground arith)
            | inr (name, named, got) ↦
                inr (addr, name, ground arith, ground arith, refl, named, fresh, ground arith)
          ]
        ]
      ]
    ]

-- So does adding, whether or not it succeeds.
pub add-IsUnique :
    (malloc : ℕ → Option (List ℕ)) (cache : Cache) (ck : List ℕ) (ip sn : Option (List ℕ))
    (servtype now : ℕ) (done : Bool) (cache' : Cache)
    → IsUnique cache
    → add malloc cache ck ip sn servtype now ≡ some (done, cache')
    → IsUnique cache'
add-IsUnique malloc cache ck ip sn servtype now done cache' u e =
    elim (add_cases malloc cache ck ip sn servtype now done cache' e) [
      | inl (_, same) ↦ subst IsUnique (sym same) u
      | inr (addr, name, _, front, _, _, fresh, _) ↦ subst IsUnique (sym front) (fresh, u)
    ]
