-- ===== src/Gnr/Node/Edit.antt =====
-- gnr/node.c: making a node, and the functions that change one through its pointer.
use timps.Prelude.{
  ℕ, ◌+◌, Bool, Option, none, some, List, [], ◌∷◌, ltb, ◌==◌, if◌then◌else◌, ◌>>=◌, length,
}
use timps.Prelude.Int.{pos, increment, decrement}
use timps.Gnr.Node.{
  Node, Stats, Table, node_up, metric_local, ttl_default, node_size, up, enter_metric, leave_metric,
  findbyname, hash_add, scan, find,
}

-- The node as gnr_node_online fills it in.
abbrev pub fresh_node : Table → ℕ → List ℕ → List ℕ → ℕ → ℕ → ℕ → Node
fresh_node t owner name service flags metric now = record {
  id = t.next_id;
  name = name;
  service = service;
  flags = flags;
  metric = metric;
  owner = owner;
  refcount = pos 0;
  createtime = now;
  lastuse = now;
  ttl = if ltb metric_local metric then some ttl_default else none;
}

-- The table with a node entered.
unfoldable pub enter : Table → Node → Table
unfolding enter_metric hash_add
enter t gn = record {
  buckets = hash_add t.buckets gn;
  ledger = record {
    stats = enter_metric gn.metric (record t.ledger.stats { total = up t.ledger.stats.total });
    events = node_up gn.id ∷ t.ledger.events;
  };
  next_id = t.next_id + 1;
}

module _ (malloc : ℕ → Option (List ℕ)) where
  -- gnr_node_online; the result is the node that stands for the user, or null.
  unfoldable pub online : Table → ℕ → List ℕ → List ℕ → ℕ → ℕ → ℕ → Option Node × Table
  online t owner name service flags metric now =
      let gn : Node = fresh_node t owner name service flags metric now in
      elim (findbyname t.buckets name (some service)) [
        | some old ↦ (some old, t)
        | none ↦ elim (malloc node_size) [
          | none ↦ (none, t)
          | some _ ↦ elim (malloc (length name + 1)) [
            | none ↦ (none, t)
            | some _ ↦ elim (malloc (length service + 1)) [
              | none ↦ (none, t)
              | some _ ↦ (some gn, enter t gn)
            ]
          ]
        ]
      ]

-- A write through a pointer: the first node of the bucket with that address is changed.
unfoldable pub poke : ℕ → (Node → Node) → List Node → List Node
poke id f [] = []
poke id f (gn ∷ gns) = let rest = poke id f gns in if gn.id == id then f gn ∷ gns else gn ∷ rest

unfoldable pub has_id : ℕ → Node → Bool
has_id id gn = gn.id == id

-- The same in a table: in the first bucket that holds the address.
unfoldable pub poke_buckets : ℕ → (Node → Node) → List (List Node) → List (List Node)
poke_buckets id f [] = []
poke_buckets id f (b ∷ bs) =
    let rest = poke_buckets id f bs in
    elim (scan (has_id id) b) [ some _ ↦ poke id f b ∷ bs | none ↦ b ∷ rest ]

-- A function of the node at an address; a dangling pointer is a fault.
unfoldable pub at_node : (Node → Node) → Table → ℕ → Option Table
at_node f t id =
    (find (has_id id) t.buckets) >>= λ gn. some (record t { buckets = poke_buckets id f t.buckets })

unfoldable pub usehit : ℕ → Table → ℕ → Option Table
unfolding at_node
usehit now = at_node (λ gn. record gn { lastuse = now })

unfoldable pub ref : Table → ℕ → Option Table
unfolding at_node
ref = at_node (λ gn. record gn { refcount = increment gn.refcount })

unfoldable pub unref : Table → ℕ → Option Table
unfolding at_node
unref = at_node (λ gn. record gn { refcount = decrement gn.refcount })

-- gnr_node_setttl; -1 is `none`.
unfoldable pub setttl : Option ℕ → Table → ℕ → Option Table
unfolding at_node
setttl newttl = at_node (λ gn.
    if gn.metric == metric_local
    then gn
    else record gn { ttl = elim newttl [ none ↦ some ttl_default | some n ↦ some n ] })

abbrev pub remetered : ℕ → ℕ → Node → Node
remetered metric now gn = record gn {
  metric = metric;
  ttl = if metric == metric_local then none else some ttl_default;
  lastuse = now;
}

-- gnr_node_remetric; the warning in the log is left out.
unfoldable pub remetric : ℕ → ℕ → Table → ℕ → Option Table
unfolding at_node enter_metric leave_metric
remetric newmetric now t id = (find (has_id id) t.buckets) >>= λ gn.
    let stats : Stats = enter_metric newmetric (leave_metric gn.metric t.ledger.stats) in
    at_node (remetered newmetric now) (record t { ledger = record t.ledger { stats = stats } }) id
