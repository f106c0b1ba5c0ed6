-- ===== src/Cache.antt =====
-- naf/cache.c: the lists of pairs that a module keeps with naf, and their timeouts.
--
-- The lists of a module are what its tag "module.cachetagdata" points at. A key or a value is its
-- address. `freed` are the pairs that were handed to the freepair function of their list, the latest
-- first. A matcher does not change the lists, and a timeout is not negative. `malloc` is what naf_malloc
-- returns and `tagged` whether naf_module_tag_add of the tag succeeds; `now` is what time returns.
-- `none` is an access through a null pointer or to freed lists.
pub mod Free
pub mod Pairs
pub mod Expire
mod Runs
use timps.Prelude.{
  ℕ, ◌+◌, Bool, true, false, not, Option, none, some, List, [], ◌∷◌, ltb, ◌==◌, if◌then◌else◌,
  ◌>>=◌,
}

pub record CachePair : Type 0 where
  pub key : ℕ
  pub value : ℕ
  pub addtime : ℕ

-- `has_freepair` says whether the freepair function is not null.
pub record CacheList : Type 0 where
  pub lid : ℕ
  pub lastrun : ℕ
  pub timeout : ℕ
  pub has_freepair : Bool
  pub pairs : List CachePair

-- The tag of a module: there is none, it points at lists, or at lists that were freed.
pub data CacheTag : Type 0 where
  untagged : CacheTag
  lists : List CacheList → CacheTag
  dangling : CacheTag

pub record Cache : Type 0 where
  pub tag : CacheTag
  pub freed : List CachePair

-- sizeof of the three structures on a 32-bit machine
abbrev pub pair_size : ℕ
pair_size = 16

abbrev pub list_size : ℕ
list_size = 24

abbrev pub tagdata_size : ℕ
tagdata_size = 4

unfoldable pub cp_free : CacheList → CachePair → List CachePair → List CachePair
cp_free cl cp freed = if cl.has_freepair then cp ∷ freed else freed

-- cl_free: the loop steps to the next pair by itself and by its own step.
unfoldable pub cl_free_loop : CacheList → List CachePair → List CachePair → Option (List CachePair)
unfolding cp_free
cl_free_loop cl [] freed = some freed
cl_free_loop cl (cp ∷ []) freed = none
cl_free_loop cl (cp ∷ next ∷ cps) freed = cl_free_loop cl cps (cp_free cl cp freed)

unfoldable pub cl_free : CacheList → List CachePair → Option (List CachePair)
unfolding cl_free_loop
cl_free cl freed = cl_free_loop cl cl.pairs freed

-- ctd_free, whose loop is of the same form.
unfoldable pub ctd_free : List CacheList → List CachePair → Option (List CachePair)
unfolding cl_free
ctd_free [] freed = some freed
ctd_free (cl ∷ []) freed = (cl_free cl freed) >>= λ _. none
ctd_free (cl ∷ next ∷ cls) freed = (cl_free cl freed) >>= λ freed'. ctd_free cls freed'

unfoldable pub ctd_findlist : List CacheList → ℕ → Option CacheList
ctd_findlist [] lid = none
ctd_findlist (cl ∷ cls) lid = if cl.lid == lid then some cl else ctd_findlist cls lid

-- A write to the first list of an id.
unfoldable pub put_pairs : List CacheList → ℕ → List CachePair → List CacheList
put_pairs [] lid ps = []
put_pairs (cl ∷ cls) lid ps =
    let rest = put_pairs cls lid ps in
    if cl.lid == lid then record cl { pairs = ps } ∷ cls else cl ∷ rest

-- Whether naf_cache_register returns 0, and the cache afterwards.
unfoldable pub register : (ℕ → Option (List ℕ)) → Bool → Cache → Option (Bool × Cache)
unfolding ctd_free
register malloc tagged c = elim c.tag [
  | lists cls ↦ some (true, c)
  | dangling ↦ some (true, c)
  | untagged ↦ elim (malloc tagdata_size) [
    | none ↦ some (false, c)
    | some _ ↦
        if tagged
        then some (true, record c { tag = lists [] })
        else ((ctd_free [] c.freed) >>= λ freed. some (false, record c { freed = freed }))
  ]
]

-- The tag stays.
unfoldable pub unregister : Cache → Option Cache
unfolding ctd_free
unregister c = elim c.tag [
  | untagged ↦ some c
  | dangling ↦ none
  | lists cls ↦ (ctd_free cls c.freed) >>= λ freed. some (record { tag = dangling; freed = freed })
]

unfoldable pub addlist : (ℕ → Option (List ℕ)) → ℕ → ℕ → ℕ → Bool → Cache → Option (Bool × Cache)
unfolding ctd_findlist
addlist malloc now lid timeout has_freepair c = elim c.tag [
  | untagged ↦ some (false, c)
  | dangling ↦ none
  | lists cls ↦ elim (ctd_findlist cls lid) [
    | some _ ↦ some (false, c)
    | none ↦ elim (malloc list_size) [
      | none ↦ some (false, c)
      | some _ ↦ some (
        true,
        record c {
          tag = lists (
              record {
                lid = lid;
                lastrun = now;
                timeout = timeout;
                has_freepair = has_freepair;
                pairs = [];
              }
              ∷ cls);
        },
      )
    ]
  ]
]

-- The loop of naf_cache_remlist: the lists that stay, and the pairs freed.
unfoldable pub remlist_loop :
    List CacheList → ℕ → List CachePair → Option (List CacheList × List CachePair)
unfolding cl_free
remlist_loop [] lid freed = some ([], freed)
remlist_loop (cl ∷ cls) lid freed =
    let gone = (cl_free cl freed) >>= λ freed'. remlist_loop cls lid freed' in
    let kept = (remlist_loop cls lid freed) >>= λ (rest, freed'). some (cl ∷ rest, freed') in
    if cl.lid == lid then gone else kept

unfoldable pub remlist : ℕ → Cache → Option (Bool × Cache)
unfolding remlist_loop
remlist lid c = elim c.tag [
  | untagged ↦ some (false, c)
  | dangling ↦ none
  | lists cls ↦ (remlist_loop cls lid c.freed) >>= λ (rest, freed).
      some (true, record { tag = lists rest; freed = freed })
]

unfoldable pub addpair : (ℕ → Option (List ℕ)) → ℕ → ℕ → ℕ → ℕ → Cache → Option (Bool × Cache)
unfolding ctd_findlist put_pairs
addpair malloc now lid key value c = elim c.tag [
  | untagged ↦ some (false, c)
  | dangling ↦ none
  | lists cls ↦ elim (ctd_findlist cls lid) [
    | none ↦ some (false, c)
    | some cl ↦ elim (malloc pair_size) [
      | none ↦ some (false, c)
      | some _ ↦ some (
        true,
        record c {
          tag =
              lists
                (put_pairs cls lid (record { key = key; value = value; addtime = now } ∷ cl.pairs));
        },
      )
    ]
  ]
]

-- The first pair that matches, and the pairs afterwards; a hit sets its time.
unfoldable pub find_loop :
    (ℕ → ℕ → Bool) → Bool → ℕ → List CachePair → Option (ℕ × ℕ) × List CachePair
find_loop matcher hit now [] = (none, [])
find_loop matcher hit now (cp ∷ cps) =
    let (found, rest) = find_loop matcher hit now cps in
    if matcher cp.key cp.value
    then (some (cp.key, cp.value), (if hit then record cp { addtime = now } else cp) ∷ cps)
    else (found, cp ∷ rest)

-- What naf_cache_findpair answers: -1, 0, or 1 with the key and the value.
pub data Found : Type 0 where
  refused : Found
  missing : Found
  found : ℕ → ℕ → Found

unfoldable pub findpair : (ℕ → ℕ → ℕ → Bool) → Bool → ℕ → ℕ → Cache → Option (Found × Cache)
unfolding ctd_findlist put_pairs find_loop
findpair matcher hit now lid c = elim c.tag [
  | untagged ↦ some (refused, c)
  | dangling ↦ none
  | lists cls ↦ elim (ctd_findlist cls lid) [
    | none ↦ some (refused, c)
    | some cl ↦
        let (hits, ps) = find_loop (matcher lid) hit now cl.pairs in
        let c' : Cache = record c { tag = lists (put_pairs cls lid ps) } in
        some (elim hits [ none ↦ missing | some (k, v) ↦ found k v ], c')
  ]
]

-- The loop of naf_cache_rempairs, and that of the timer.
unfoldable pub drop_pairs :
    (CachePair → Bool)
    → CacheList
    → List CachePair
    → List CachePair
    → List CachePair × List CachePair
unfolding cp_free
drop_pairs test cl [] freed = ([], freed)
drop_pairs test cl (cp ∷ cps) freed =
    let (rest, freed') = drop_pairs test cl cps (if test cp then cp_free cl cp freed else freed) in
    (if test cp then rest else cp ∷ rest, freed')

unfoldable pub rempairs : (ℕ → ℕ → ℕ → Bool) → ℕ → Cache → Option (Bool × Cache)
unfolding ctd_findlist put_pairs drop_pairs
rempairs matcher lid c = elim c.tag [
  | untagged ↦ some (false, c)
  | dangling ↦ none
  | lists cls ↦ elim (ctd_findlist cls lid) [
    | none ↦ some (false, c)
    | some cl ↦
        let (ps, freed) = drop_pairs (λ cp. matcher lid cp.key cp.value) cl cl.pairs c.freed in
        some (true, record { tag = lists (put_pairs cls lid ps); freed = freed })
  ]
]

-- timerhandler_iter on the lists of a module.
unfoldable pub expire : ℕ → List CacheList → List CachePair → List CacheList × List CachePair
unfolding drop_pairs
expire now [] freed = ([], freed)
expire now (cl ∷ cls) freed =
    let due : Bool = not (ltb now (cl.lastrun + cl.timeout)) in
    let (ps, freed1) =
      drop_pairs (λ cp. not (ltb now (cp.addtime + cl.timeout))) cl cl.pairs freed in
    let (rest, freed2) = expire now cls (if due then freed1 else freed) in
    ((if due then record cl { lastrun = now; pairs = ps } else cl) ∷ rest, freed2)

unfoldable pub timer : ℕ → Cache → Option Cache
unfolding expire
timer now c = elim c.tag [
  | untagged ↦ some c
  | dangling ↦ none
  | lists cls ↦
      let (cls', freed) = expire now cls c.freed in
      some (record { tag = lists cls'; freed = freed })
]

-- freetag of the tag, which leaves the module.
unfoldable pub freetag : Cache → Option Cache
unfolding ctd_free
freetag c = elim c.tag [
  | untagged ↦ some c
  | dangling ↦ none
  | lists cls ↦ (ctd_free cls c.freed) >>= λ freed. some (record { tag = untagged; freed = freed })
]
