-- ===== src/Gnr/Node.antt =====
-- gnr/node.c: the table of users that are online (`struct gnrnode` of include/gnr/gnrnode.h).
--
-- `gnr__nodehash` is a list of 64 buckets, each the list of its nodes. A `struct gnrnode *` is the
-- node's `id`, its address. `gnr__nodestats` are four uint32 counters. Each event that is thrown is
-- added to a log; what the handlers of other modules do is not modelled. `ttl` is `none` for -1.
-- The tag list of a node is left to naf/tags.c.
pub mod Find
pub mod Count
pub mod Edit
pub mod Online
pub mod Sweep
pub mod Metric
pub mod Unique
mod Runs
use timps.Prelude.{
  ℕ, ◌+◌, ◌-◌, ◌%◌, ◌^◌, Bool, true, false, not, ◌&&◌, ◌||◌, Option, none, some, List, [], ◌∷◌, ltb,
  ◌==◌, if◌then◌else◌, length, get_or, set, replicate,
}
use timps.Prelude.Int.{ℤ, pos, increment, decrement, is_positive}
use timps.Gnr.Name.{hash_size, getidx, namecmp, strcasecmp}

pub record Node : Type 0 where
  pub id : ℕ
  pub name : List ℕ
  pub service : List ℕ
  pub flags : ℕ
  pub metric : ℕ
  pub owner : ℕ
  pub refcount : ℤ
  pub createtime : ℕ
  pub lastuse : ℕ
  pub ttl : Option ℕ

pub record Stats : Type 0 where
  pub total : ℕ
  pub local : ℕ
  pub peered : ℕ
  pub external : ℕ

-- Events GNR_EVENT_NODEUP, and GNR_EVENT_NODEDOWN with its reason.
pub data Event : Type 0 where
  node_up : ℕ → Event
  node_down : ℕ → ℕ → Event

-- What freeing a node changes besides the table; the latest event comes first.
pub record Ledger : Type 0 where
  pub stats : Stats
  pub events : List Event

pub record Table : Type 0 where
  pub buckets : List (List Node)
  pub ledger : Ledger
  pub next_id : ℕ

abbrev pub metric_local : ℕ
metric_local = 0

abbrev pub metric_max : ℕ
metric_max = 65535

abbrev pub ttl_default : ℕ
ttl_default = 30

abbrev pub reason_unknown : ℕ
reason_unknown = 0

abbrev pub reason_timeout : ℕ
reason_timeout = 1

-- sizeof(struct gnrnode) on a 32-bit machine
abbrev pub node_size : ℕ
node_size = 44

unfoldable pub hash_init : List (List Node)
hash_init = replicate hash_size []

-- `++` and `--` of a naf_longstat_t
abbrev pub up : ℕ → ℕ
up n = (n + 1) % 2 ^ 32

abbrev pub down : ℕ → ℕ
down n = (n + 2 ^ 32 - 1) % 2 ^ 32

-- The three counters by metric, as the `if` ladders change them.
unfoldable pub enter_metric : ℕ → Stats → Stats
enter_metric m s =
    if m == metric_local
    then record s { local = up s.local }
    else if m == metric_max
    then record s { external = up s.external }
    else record s { peered = up s.peered }

unfoldable pub leave_metric : ℕ → Stats → Stats
leave_metric m s =
    if m == metric_local
    then record s { local = down s.local }
    else if m == metric_max
    then record s { external = down s.external }
    else record s { peered = down s.peered }

unfoldable pub freenode : Ledger → Node → ℕ → Ledger
unfolding leave_metric
freenode l gn reason = record {
  stats = leave_metric gn.metric (record l.stats { total = down l.stats.total });
  events = node_down gn.id reason ∷ l.events;
}

-- Whether a lookup by name, and by service if it is given, stops at a node.
unfoldable pub matches : List ℕ → Option (List ℕ) → Node → Bool
matches name service gn =
    namecmp gn.name name && elim service [ none ↦ true | some s ↦ strcasecmp gn.service s ]

unfoldable pub scan : (Node → Bool) → List Node → Option Node
scan p [] = none
scan p (gn ∷ gns) = if p gn then some gn else scan p gns

-- gnr_node_findbyname; its callers' null name has no counterpart.
unfoldable pub findbyname : List (List Node) → List ℕ → Option (List ℕ) → Option Node
unfolding scan matches
findbyname buckets name service = scan (matches name service) (get_or buckets (getidx name) [])

-- gnr_node_find, over all buckets
unfoldable pub find : (Node → Bool) → List (List Node) → Option Node
unfolding scan
find p [] = none
find p (b ∷ bs) = elim (scan p b) [ some gn ↦ some gn | none ↦ find p bs ]

unfoldable pub hash_add : List (List Node) → Node → List (List Node)
hash_add buckets gn = let idx = getidx gn.name in set buckets idx (gn ∷ get_or buckets idx [])

-- gnr_node__hash_remove, on one bucket: the node with that address, and the bucket without it.
unfoldable pub unlink : ℕ → List Node → Option Node × List Node
unlink id [] = (none, [])
unlink id (gn ∷ gns) =
    let (found, rest) = unlink id gns in if gn.id == id then (some gn, gns) else (found, gn ∷ rest)

-- gnr_node_offline of the node at `gn.id`, whose name is read through the pointer.
unfoldable pub offline : Table → Node → ℕ → Bool × Table
unfolding unlink freenode
offline t gn reason =
    let idx = getidx gn.name in
    let (found, rest) = unlink gn.id (get_or t.buckets idx []) in
    elim found [
      | none ↦ (false, t)
      | some cur ↦ (
        true,
        record t { buckets = set t.buckets idx rest; ledger = freenode t.ledger cur reason },
      )
    ]

-- The loops that walk the table and free some of the nodes. First one bucket.
unfoldable pub sweep_bucket : (Node → Bool) → ℕ → List Node → Ledger → List Node × Ledger
unfolding freenode
sweep_bucket p reason [] l = ([], l)
sweep_bucket p reason (gn ∷ gns) l =
    let (rest, l') = sweep_bucket p reason gns (if p gn then freenode l gn reason else l) in
    (if p gn then rest else gn ∷ rest, l')

unfoldable pub sweep_buckets :
    (Node → Bool) → ℕ → List (List Node) → Ledger → List (List Node) × Ledger
unfolding sweep_bucket
sweep_buckets p reason [] l = ([], l)
sweep_buckets p reason (b ∷ bs) l =
    let (b', l1) = sweep_bucket p reason b l in
    let (bs', l2) = sweep_buckets p reason bs l1 in (b' ∷ bs', l2)

-- gnr_node_offline_many
unfoldable pub offline_many : Table → (Node → Bool) → ℕ → Table
unfolding sweep_buckets
offline_many t p reason =
    let (bs, l) = sweep_buckets p reason t.buckets t.ledger in record t { buckets = bs; ledger = l }

-- The nodes that gnr_node__hash_timeout frees at the time `now`.
unfoldable pub is_expired : ℕ → Node → Bool
is_expired now gn = not (gn.metric == metric_local) && elim gn.ttl [
  | none ↦ false
  | some ttl ↦ not (is_positive gn.refcount || ltb now (gn.lastuse + ttl))
]

unfoldable pub hash_timeout : Table → ℕ → Table
unfolding offline_many is_expired
hash_timeout t now = offline_many t (is_expired now) reason_timeout

unfoldable pub hash_free : Table → Table
unfolding offline_many
hash_free t = offline_many t (λ _. true) reason_unknown
