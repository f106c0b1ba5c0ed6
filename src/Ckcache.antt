-- ===== src/Ckcache.antt =====
-- timps/oscar/ckcache.c: the login cookies that were handed out, each with what the client is to
-- find when it comes back with it.
--
-- The static list `timps_oscar__ckcache` goes in and out of each function. A cookie is the list of its
-- `cklen` bytes. A string is the list of its bytes without the terminator, or null. The debug
-- messages are left out.
pub mod Find
pub mod Cycle
mod Runs
use timps.Prelude.{
  ℕ, ◌+◌, ◌≤◌, ◌<◌, ◌≡◌, Bool, true, false, ◌&&◌, Option, none, some, List, [], ◌∷◌, ltb, ◌==◌,
  if◌then◌else◌, ◌>>=◌, length, bytes_eq,
}

pub record Entry : Type 0 where
  pub ck : List ℕ
  pub ip : List ℕ
  pub sn : List ℕ
  pub servtype : ℕ
  pub addtime : ℕ

abbrev pub Cache : Type 0
Cache = List Entry

-- CKCACHE_TIMEOUT, in seconds
abbrev pub timeout : ℕ
timeout = 60

-- sizeof(struct ckcache) on a 32-bit machine
abbrev pub entry_size : ℕ
entry_size = 28

unfoldable pub same_key : Entry → List ℕ → Bool
same_key e ck = (length e.ck == length ck) && bytes_eq e.ck ck

-- toscar_ckcache__find
unfoldable pub find : Cache → List ℕ → Option Entry
unfolding same_key
find [] ck = none
find (e ∷ es) ck = if same_key e ck then some e else find es ck

-- toscar_ckcache__remove: the entry that is taken out, and the list that stays.
unfoldable pub remove : Cache → List ℕ → Option Entry × Cache
unfolding same_key
remove [] ck = (none, [])
remove (e ∷ es) ck =
    let (found, rest) = remove es ck in if same_key e ck then (some e, es) else (found, e ∷ rest)

-- toscar_ckcache_rem: address, name and service type of the entry, or nothing for -1.
unfoldable pub rem : Cache → List ℕ → Option (List ℕ × List ℕ × ℕ) × Cache
unfolding remove
rem cache ck =
    let (found, rest) = remove cache ck in
    (elim found [ none ↦ none | some e ↦ some (e.ip, e.sn, e.servtype) ], rest)

-- toscar_ckcache_timer
unfoldable pub timer : Cache → ℕ → Cache
timer [] now = []
timer (e ∷ es) now =
    let rest = timer es now in if ltb (e.addtime + timeout) now then rest else e ∷ rest

module _ (malloc : ℕ → Option (List ℕ)) where
  -- ckc__alloc, with `strlen` of a null name as a fault. The service type is an argument that no
  -- statement of it uses: the field keeps the 0 that `memset` wrote, and so does the time.
  unfoldable pub alloc : List ℕ → List ℕ → Option (List ℕ) → ℕ → Option (Option Entry)
  alloc ck ip sn servtype = elim (malloc entry_size) [
    | none ↦ some none
    | some _ ↦ elim (malloc (length ck)) [
      | none ↦ some none
      | some _ ↦ elim (malloc (length ip + 1)) [
        | none ↦ some none
        | some _ ↦ elim sn [
          | none ↦ none
          | some name ↦ elim (malloc (length name + 1)) [
            | none ↦ some none
            | some _ ↦
                some (some (record { ck = ck; ip = ip; sn = name; servtype = 0; addtime = 0 }))
          ]
        ]
      ]
    ]
  ]

  -- toscar_ckcache_add of a module and a cookie that are not null; `now` is what `time` returns.
  unfoldable pub add :
      Cache → List ℕ → Option (List ℕ) → Option (List ℕ) → ℕ → ℕ → Option (Bool × Cache)
  add cache ck ip sn servtype now =
      let enter : List ℕ → Option (Bool × Cache) = λ addr. (alloc ck addr sn servtype) >>= λ made.
      some (elim made [
        | none ↦ (false, cache)
        | some e ↦ (true, record e { addtime = now } ∷ cache)
      ]) in
      if length ck == 0 then some (false, cache) else elim ip [
        | none ↦ some (false, cache)
        | some addr ↦ elim (find cache ck) [ some _ ↦ some (false, cache) | none ↦ enter addr ]
      ]
