-- ===== src/Gnr/Node/Sweep.antt =====
-- gnr/node.c: the walks that free nodes: gnr_node__hash_timeout, gnr_node_offline_many and
-- gnr_node__hash_free.
use timps.Prelude.{
  ℕ, suc, ◌+◌, ◌≤◌, ◌≡◌, ◌≢◌, refl, sym, ◌∙◌, ap, Bool, true, false, Bool-cases, Option-cases, some,
  List, [], ◌∷◌, if◌then◌else◌, arith, inl, inr, length,
}
use mathlib.Core.Path.{subst}
use mathlib.Core.Logic.{◌↔◌}
use timps.Prelude.Int.{is_positive}
use timps.Gnr.Node.{
  Node, Ledger, Table, Event, node_down, freenode, sweep_bucket, sweep_buckets, offline_many,
  is_expired,
}
use timps.Gnr.Node.Find.{IsPlaced, InBucket}
use timps.Gnr.Node.Count.{IsValid, Counts, Counts-eq, number, number_all, one_if, freenode-Counts}

-- The nodes that do not pass the test, in order.
abbrev pub keep : (Node → Bool) → List Node → List Node
keep p [] = []
keep p (gn ∷ gns) = if p gn then keep p gns else gn ∷ keep p gns

abbrev pub keep_all : (Node → Bool) → List (List Node) → List (List Node)
keep_all p [] = []
keep_all p (b ∷ bs) = keep p b ∷ keep_all p bs

-- The log after the nodes that pass the test went down, one after the other.
abbrev pub downs : (Node → Bool) → ℕ → List Node → List Event → List Event
downs p r [] log = log
downs p r (gn ∷ gns) log = downs p r gns (if p gn then node_down gn.id r ∷ log else log)

abbrev pub downs_all : (Node → Bool) → ℕ → List (List Node) → List Event → List Event
downs_all p r [] log = log
downs_all p r (b ∷ bs) log = downs_all p r bs (downs p r b log)

sweep_bucket_lem :
    (p : Node → Bool) (r : ℕ) (b : List Node) (l : Ledger)
    → ((sweep_bucket p r b l).0 ≡ keep p b)
      × ((sweep_bucket p r b l).1.events ≡ downs p r b l.events)
unfolding sweep_bucket freenode
sweep_bucket_lem p r [] l = (refl, refl)
sweep_bucket_lem p r (gn ∷ gns) l =
    ground (arith, sweep_bucket_lem p r gns (if p gn then freenode l gn r else l))

sweep_buckets_lem :
    (p : Node → Bool) (r : ℕ) (bs : List (List Node)) (l : Ledger)
    → ((sweep_buckets p r bs l).0 ≡ keep_all p bs)
      × ((sweep_buckets p r bs l).1.events ≡ downs_all p r bs l.events)
unfolding sweep_buckets
sweep_buckets_lem p r [] l = (refl, refl)
sweep_buckets_lem p r (b ∷ bs) l =
    let (here, log) = sweep_bucket_lem p r b l in
    let (there, logs) = sweep_buckets_lem p r bs (sweep_bucket p r b l).1 in
    (cc (here, there), logs ∙ ap (downs_all p r bs) log)

-- A walk that frees the nodes that pass a test keeps just the others, in their places, and throws
-- one event for each that it frees, in the order of the walk.
pub offline_many_lem :
    (t : Table) (p : Node → Bool) (r : ℕ)
    → ((offline_many t p r).buckets ≡ keep_all p t.buckets)
      × ((offline_many t p r).ledger.events ≡ downs_all p r t.buckets t.ledger.events)
unfolding offline_many
offline_many_lem t p r = sweep_buckets_lem p r t.buckets t.ledger

sweep_bucket-Counts :
    (p : Node → Bool) (r : ℕ) (b : List Node) (l : Ledger) (f : (Node → Bool) → ℕ)
    → Counts l.stats (λ q. number q b + f q)
    → Counts (sweep_bucket p r b l).1.stats (λ q. number q (sweep_bucket p r b l).0 + f q)
unfolding sweep_bucket
sweep_bucket-Counts p r [] l f c = c
sweep_bucket-Counts p r (gn ∷ gns) l f c = elim (Bool-cases (p gn)) [
  | inl gone ↦ rw gone (
      sweep_bucket-Counts p r gns (freenode l gn r) f (
        freenode-Counts l gn r (λ q. number q gns + f q)
          (Counts-eq l.stats (λ q. one_if (q gn) + number q gns + f q)
            (λ q. one_if (q gn) + (number q gns + f q)) (λ q. omega arith) c)))
  | inr stays ↦ rw stays (
      Counts-eq _ (λ q. number q (sweep_bucket p r gns l).0 + (one_if (q gn) + f q))
        (λ q. one_if (q gn) + number q (sweep_bucket p r gns l).0 + f q) (λ q. omega arith)
        (sweep_bucket-Counts p r gns l (λ q. one_if (q gn) + f q)
          (Counts-eq l.stats (λ q. one_if (q gn) + number q gns + f q)
            (λ q. number q gns + (one_if (q gn) + f q)) (λ q. omega arith) c)))
]

sweep_buckets-Counts :
    (p : Node → Bool) (r : ℕ) (bs : List (List Node)) (l : Ledger) (f : (Node → Bool) → ℕ)
    → Counts l.stats (λ q. number_all q bs + f q)
    → Counts (sweep_buckets p r bs l).1.stats (λ q. number_all q (sweep_buckets p r bs l).0 + f q)
unfolding sweep_buckets
sweep_buckets-Counts p r [] l f c = c
sweep_buckets-Counts p r (b ∷ bs) l f c =
    let l1 : Ledger = (sweep_bucket p r b l).1 in
    let b' : List Node = (sweep_bucket p r b l).0 in
    let bs' : List (List Node) = (sweep_buckets p r bs l1).0 in
    Counts-eq _ (λ q. number_all q bs' + (number q b' + f q))
      (λ q. number q b' + number_all q bs' + f q) (λ q. omega arith)
      (sweep_buckets-Counts p r bs l1 (λ q. number q b' + f q)
        (Counts-eq _ (λ q. number q b' + (number_all q bs + f q))
          (λ q. number_all q bs + (number q b' + f q)) (λ q. omega arith)
          (sweep_bucket-Counts p r b l (λ q. number_all q bs + f q)
            (Counts-eq _ (λ q. number q b + number_all q bs + f q)
              (λ q. number q b + (number_all q bs + f q)) (λ q. omega arith) c))))

keep-InBucket : (p : Node → Bool) (i : ℕ) (b : List Node) → InBucket i b → InBucket i (keep p b)
keep-InBucket p i [] u = tt
keep-InBucket p i (gn ∷ gns) (here, u) = elim (Bool-cases (p gn)) [
  | inl gone ↦ rw gone (keep-InBucket p i gns u)
  | inr stays ↦ rw stays (here, keep-InBucket p i gns u)
]

keep_all-IsPlaced :
    (p : Node → Bool) (i : ℕ) (bs : List (List Node)) → IsPlaced i bs → IsPlaced i (keep_all p bs)
keep_all-IsPlaced p i [] u = tt
keep_all-IsPlaced p i (b ∷ bs) (here, u) =
    (keep-InBucket p i b here, keep_all-IsPlaced p (suc i) bs u)

length-keep_all : (p : Node → Bool) (bs : List (List Node)) → length (keep_all p bs) ≡ length bs
length-keep_all p [] = refl
length-keep_all p (b ∷ bs) = ap suc (length-keep_all p bs)

-- A walk that frees the nodes that pass a test keeps the table good: the nodes that stay are in
-- the buckets of their names, and the four statistics count them.
pub offline_many-IsValid :
    (t : Table) (p : Node → Bool) (r : ℕ) → IsValid t → IsValid (offline_many t p r)
unfolding offline_many
offline_many-IsValid t p r v =
    let (kept, _) = sweep_buckets_lem p r t.buckets t.ledger in
    record {
      size = ap length kept ∙ length-keep_all p t.buckets ∙ v.size;
      placed = subst (IsPlaced 0) (sym kept) (keep_all-IsPlaced p 0 t.buckets v.placed);
      counted =
          Counts-eq _ (λ q. number_all q (sweep_buckets p r t.buckets t.ledger).0 + 0)
            (λ q. number_all q (sweep_buckets p r t.buckets t.ledger).0) (λ q. omega arith)
            (sweep_buckets-Counts p r t.buckets t.ledger (λ q. 0)
              (Counts-eq _ (λ q. number_all q t.buckets) (λ q. number_all q t.buckets + 0)
                (λ q. omega arith) v.counted));
    }

-- The timeout frees a node just if it is not local, has a time to live, was not used for that
-- long, and has no positive reference count.
pub is_expired_lem :
    (now : ℕ) (gn : Node)
    → (is_expired now gn ≡ true) ↔ (
        (gn.metric ≢ 0)
        × ((ttl : ℕ) × (gn.ttl ≡ some ttl) × (gn.lastuse + ttl ≤ now))
        × (is_positive gn.refcount ≡ false))
unfolding is_expired
is_expired_lem now gn = elim (Option-cases gn.ttl) [
  | inl never ↦ (λ h. absurd (ground (arith, h, never)), λ h. ground (arith, never))
  | inr (ttl, e) ↦ (
    λ h. (ground (arith, h, e), (ttl, e, ground (arith, h, e)), ground (arith, h, e)),
    λ (m, (x, e', late), free). ground (arith, e),
  )
]
