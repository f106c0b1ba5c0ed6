-- ===== src/Gnr/Node/Runs.antt =====
-- Runs of the table of gnr/node.c, and its theorems at concrete inputs.
use timps.Prelude.{ℕ, ◌≡◌, ◌⊎◌, refl, true, none, some, List, [], ◌∷◌, All, arith}
use timps.Prelude.Int.{pos}
use timps.Fixture.{zeros}
use timps.Gnr.Name.{getidx, namecmp}
use timps.Gnr.Node.{find}
use timps.Gnr.Node.Edit.{has_id}
use timps.Gnr.Node.{
  Node, Table, matches, findbyname, hash_init, offline, offline_many, is_expired, hash_timeout,
}
use timps.Gnr.Node.Find.{NoneIn, findbyname_complete}
use timps.Gnr.Node.Count.{IsValid, hash_init-IsValid}
use timps.Gnr.Node.Edit.{enter, online, usehit, remetric}
use timps.Gnr.Node.Online.{enter-IsValid, offline-IsValid, online_lem}
use timps.Gnr.Node.Sweep.{offline_many-IsValid}
use timps.Gnr.Node.Metric.{remetric-IsValid}
use timps.Gnr.Node.Unique.{IsUnique, online-IsUnique}

abbrev empty : Table
empty = record {
  buckets = hash_init;
  ledger = record {
    stats = record { total = 0; local = 0; peered = 0; external = 0 };
    events = [];
  };
  next_id = 0;
}

-- A peered user who was last seen at 100.
abbrev bob : Node
bob = record {
  id = 0;
  name = b'B' ∷ b'o' ∷ b'b' ∷ [];
  service = b'A' ∷ [];
  flags = 0;
  metric = 1;
  owner = 7;
  refcount = pos 0;
  createtime = 100;
  lastuse = 100;
  ttl = some 30;
}

abbrev one : Table
one = enter empty bob

one-IsValid : IsValid one
one-IsValid = enter-IsValid empty bob hash_init-IsValid

abbrev query : List ℕ
query = b'b' ∷ 32 ∷ b'O' ∷ b'b' ∷ []

findbyname_runs : findbyname one.buckets query none ≡ some bob
unfolding enter hash_init findbyname getidx namecmp
findbyname_runs = refl

timeout_runs : (hash_timeout one 130).buckets ≡ hash_init
unfolding hash_timeout enter hash_init getidx
timeout_runs = refl

online_runs : online zeros empty 7 (b'B' ∷ b'o' ∷ b'b' ∷ []) (b'A' ∷ []) 0 1 100 ≡ (some bob, one)
unfolding online hash_init findbyname getidx
online_runs = refl

findbyname_complete_example :
    ((findbyname one.buckets query none ≡ none) × All (NoneIn (matches query none)) one.buckets)
    ⊎ ((gn : Node) × (findbyname one.buckets query none ≡ some gn) × (matches query none gn ≡ true))
findbyname_complete_example = findbyname_complete one.buckets query none one-IsValid.placed

online_lem_example :
    (online zeros one 7 query (b'A' ∷ []) 0 0 120 ≡ (none, one))
    ⊎ ((gn : Node) × (t' : Table) × (online zeros one 7 query (b'A' ∷ []) 0 0 120 ≡ (some gn, t'))
        × IsValid t'
        × (findbyname t'.buckets query (some (b'A' ∷ [])) ≡ some gn))
online_lem_example = online_lem zeros one 7 query (b'A' ∷ []) 0 0 120 one-IsValid

offline-IsValid_example : IsValid (offline one bob 1).1
offline-IsValid_example = offline-IsValid one bob 1 one-IsValid

offline_many-IsValid_example : IsValid (offline_many one (is_expired 130) 1)
offline_many-IsValid_example = offline_many-IsValid one (is_expired 130) 1 one-IsValid

abbrev one_closer : Table
one_closer = elim (remetric 0 110 one 0) [ some t ↦ t | none ↦ one ]

abbrev one_used : Table
one_used = elim (usehit 110 one 0) [ some t ↦ t | none ↦ one ]

remetric-IsValid_example : IsValid one_closer
unfolding remetric enter hash_init find getidx has_id
remetric-IsValid_example = remetric-IsValid 0 110 one one_closer 0 one-IsValid refl

one-IsUnique : IsUnique one.buckets
unfolding enter hash_init
one-IsUnique = ground arith

online-IsUnique_example : IsUnique (online zeros one 7 query (b'A' ∷ []) 0 0 120).1.buckets
online-IsUnique_example = online-IsUnique zeros one 7 query (b'A' ∷ []) 0 0 120 one-IsUnique
