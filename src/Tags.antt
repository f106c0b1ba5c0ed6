-- ===== src/Tags.antt =====
-- naf/tags.c: the lists of tags that modules hang on connections and nodes.
--
-- A `struct nafmodule *` is its address, `none` for NULL. A name is the list of its bytes without the
-- terminator; every function takes a null name as it takes the empty one. A tag's data is a string that
-- it points to or any other word. `malloc` is the allocator of libc.
pub mod Cycle
pub mod Long
mod Runs
use timps.Prelude.{
  ℕ, ◌+◌, Bool, true, false, not, ◌&&◌, ◌||◌, Option, none, some, List, [], ◌∷◌, ◌==◌,
  if◌then◌else◌, ◌>>=◌, length, take, bytes_eq,
}

pub data Data : Type 0 where
  text : List ℕ → Data
  word : ℕ → Data

pub record Tag : Type 0 where
  pub owner : ℕ
  pub name : List ℕ
  pub type : ℕ
  pub content : Data

-- MAXTAGNAMELEN
abbrev pub max_name : ℕ
max_name = 64

-- sizeof(naf_tag_t) on a 32-bit machine
abbrev pub tag_size : ℕ
tag_size = 80

-- The test of the loops, for a given owner.
unfoldable pub owns : ℕ → List ℕ → Tag → Bool
owns who name tag = (tag.owner == who) && bytes_eq tag.name name

unfoldable pub present : List Tag → ℕ → List ℕ → Bool
unfolding owns
present [] who name = false
present (tag ∷ tags) who name = owns who name tag || present tags who name

abbrev pub is_empty : List ℕ → Bool
is_empty [] = true
is_empty (c ∷ cs) = false

-- naf_tag_ispresent; `none` is -1.
unfoldable pub ispresent : List Tag → Option ℕ → List ℕ → Option Bool
unfolding present
ispresent tags who name = elim who [
  | none ↦ none
  | some m ↦ if is_empty name then none else some (present tags m name)
]

-- The loop of naf_tag_remove.
unfoldable pub unlink : List Tag → ℕ → List ℕ → Option (ℕ × Data) × List Tag
unfolding owns
unlink [] who name = (none, [])
unlink (tag ∷ tags) who name =
    let (found, rest) = unlink tags who name in
    if owns who name tag then (some (tag.type, tag.content), tags) else (found, tag ∷ rest)

-- naf_tag_remove: the type and the data that it returns, or `none` for -1, and the list afterwards.
unfoldable pub remove : List Tag → Option ℕ → List ℕ → Option (ℕ × Data) × List Tag
unfolding unlink
remove tags who name = elim who [
  | none ↦ (none, tags)
  | some m ↦ if is_empty name then (none, tags) else unlink tags m name
]

-- The loop of naf_tag_fetch; without a module each owner will do.
unfoldable pub fetch_from : List Tag → Option ℕ → List ℕ → Option (ℕ × Data)
fetch_from [] who name = none
fetch_from (tag ∷ tags) who name =
    let rest = fetch_from tags who name in
    let skipped : Bool = elim who [ none ↦ false | some m ↦ not (tag.owner == m) ] in
    if not skipped && bytes_eq tag.name name then some (tag.type, tag.content) else rest

unfoldable pub fetch : List Tag → Option ℕ → List ℕ → Option (ℕ × Data)
unfolding fetch_from
fetch tags who name = if is_empty name then none else fetch_from tags who name

-- naf_tag_iter: the handler's state after it has seen the tags up to the first it stops at. The
-- tags of every owner are seen.
unfoldable pub iter : {S : Type 0} → (S → Tag → Bool × S) → S → List Tag → S
iter uf ud [] = ud
iter uf ud (tag ∷ tags) = let (stop, ud') = uf ud tag in if stop then ud' else iter uf ud' tags

-- naf_tag_freelist: the tags that are handed to the `freetag` of their owners, in order. The
-- pointer of the caller is not cleared.
unfoldable pub freelist : (ℕ → Bool) → List Tag → List Tag
freelist has_freetag [] = []
freelist has_freetag (tag ∷ tags) =
    let rest = freelist has_freetag tags in if has_freetag tag.owner then tag ∷ rest else rest

module _ (malloc : ℕ → Option (List ℕ)) where
  -- naf_tag_add: whether it succeeds, and the list afterwards. `strncpy` cuts the name.
  unfoldable pub add : List Tag → Option ℕ → List ℕ → ℕ → Data → Bool × List Tag
  add tags who name type content = elim who [
    | none ↦ (false, tags)
    | some m ↦ elim (ispresent tags (some m) name) [
      | none ↦ (false, tags)
      | some there ↦ if there then (false, tags) else elim (malloc tag_size) [
        | none ↦ (false, tags)
        | some _ ↦ (
          true,
          record { owner = m; name = take max_name name; type = type; content = content } ∷ tags,
        )
      ]
    ]
  ]

  -- naf_tag_cloneall: strings are copied, integers taken over, and other tags left out. A tag of
  -- type 'S' whose data is no string is a fault.
  unfoldable pub cloneall : List Tag → List Tag → Option (List Tag)
  unfolding add
  cloneall dest [] = some dest
  cloneall dest (tag ∷ src) =
      let added : List Tag = (add dest (some tag.owner) tag.name tag.type tag.content).1 in
      let step : Option (List Tag) =
        if tag.type == b'S'
        then elim tag.content [
          | word _ ↦ none
          | text s ↦ elim (malloc (length s + 1)) [ none ↦ some dest | some _ ↦ some added ]
        ]
        else if tag.type == b'I'
        then some added
        else some dest in
      step >>= λ dest'. cloneall dest' src
