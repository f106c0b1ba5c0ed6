-- ===== src/Gnr/Node/Count.antt =====
-- gnr/node.c: what a good table is: each node in the bucket of its name, and `gnr__nodestats` right.
use timps.Prelude.{
  ℕ, zero, suc, ◌+◌, ◌%◌, ◌^◌, ◌<◌, ◌≡◌, ◌∙◌, ap, Bool, true, false, not, ◌&&◌, List, [], ◌∷◌, ◌==◌,
  arith, length, get_or, set,
}
use mathlib.Core.Path.{subst}
use timps.Gnr.Name.{hash_size}
use timps.Gnr.Node.{
  Node, Stats, Ledger, Table, metric_local, metric_max, up, enter_metric, leave_metric, freenode,
  hash_init,
}
use timps.Gnr.Node.Find.{IsPlaced, InBucket}

abbrev pub one_if : Bool → ℕ
one_if true = 1
one_if false = 0

-- How many nodes pass a test.
abbrev pub number : (Node → Bool) → List Node → ℕ
number p [] = 0
number p (gn ∷ gns) = one_if (p gn) + number p gns

abbrev pub number_all : (Node → Bool) → List (List Node) → ℕ
number_all p [] = 0
number_all p (b ∷ bs) = number p b + number_all p bs

abbrev pub any_node : Node → Bool
any_node gn = true

abbrev pub is_local : Node → Bool
is_local gn = gn.metric == metric_local

abbrev pub is_external : Node → Bool
is_external gn = not (gn.metric == metric_local) && (gn.metric == metric_max)

abbrev pub is_peered : Node → Bool
is_peered gn = not (gn.metric == metric_local) && not (gn.metric == metric_max)

-- The counters are the four numbers, in uint32 arithmetic.
pub record Counts (s : Stats) (f : (Node → Bool) → ℕ) : Type 0 where
  pub totals : s.total ≡ f any_node % 2 ^ 32
  pub locals : s.local ≡ f is_local % 2 ^ 32
  pub peers : s.peered ≡ f is_peered % 2 ^ 32
  pub externals : s.external ≡ f is_external % 2 ^ 32

pub record IsValid (t : Table) : Type 0 where
  pub size : length t.buckets ≡ hash_size
  pub placed : IsPlaced 0 t.buckets
  pub counted : Counts t.ledger.stats (λ p. number_all p t.buckets)

pub freenode-Counts :
    (l : Ledger) (gn : Node) (reason : ℕ) (f : (Node → Bool) → ℕ)
    → Counts l.stats (λ p. one_if (p gn) + f p)
    → Counts (freenode l gn reason).stats f
unfolding freenode leave_metric
freenode-Counts l gn reason f c = ground arith

pub enter-Counts :
    (s : Stats) (gn : Node) (f : (Node → Bool) → ℕ)
    → Counts s f
    → Counts (enter_metric gn.metric (record s { total = up s.total })) (λ p. one_if (p gn) + f p)
unfolding enter_metric
enter-Counts s gn f c = ground arith

-- The same counters for numbers that are equal.
pub Counts-eq :
    (s : Stats) (f g : (Node → Bool) → ℕ)
    → ((p : Node → Bool) → f p ≡ g p)
    → Counts s f
    → Counts s g
Counts-eq s f g e c = record {
  totals = c.totals ∙ ap (λ n. n % 2 ^ 32) (e any_node);
  locals = c.locals ∙ ap (λ n. n % 2 ^ 32) (e is_local);
  peers = c.peers ∙ ap (λ n. n % 2 ^ 32) (e is_peered);
  externals = c.externals ∙ ap (λ n. n % 2 ^ 32) (e is_external);
}

-- One bucket of a table is put in place of another.
pub number_all-set :
    (p : Node → Bool) (bs : List (List Node)) (i : ℕ) (b : List Node)
    → i < length bs
    → number_all p (set bs i b) + number p (get_or bs i []) ≡ number p b + number_all p bs
number_all-set p [] i b h = absurd (omega arith)
number_all-set p (x ∷ bs) zero b h = omega arith
number_all-set p (x ∷ bs) (suc i) b h = omega (arith, number_all-set p bs i b (omega arith))

pub set-IsPlaced :
    (i k : ℕ) (bs : List (List Node)) (b : List Node)
    → IsPlaced i bs
    → InBucket (i + k) b
    → IsPlaced i (set bs k b)
set-IsPlaced i k [] b pl h = tt
set-IsPlaced i zero (x ∷ bs) b (here, pl) h = (subst (λ n. InBucket n b) (omega arith) h, pl)
set-IsPlaced i (suc k) (x ∷ bs) b (here, pl) h =
    (here, set-IsPlaced (suc i) k bs b pl (subst (λ n. InBucket n b) (omega arith) h))

pub get_or-InBucket :
    (i k : ℕ) (bs : List (List Node)) → IsPlaced i bs → InBucket (i + k) (get_or bs k [])
get_or-InBucket i k [] pl = tt
get_or-InBucket i zero (x ∷ bs) (here, pl) = subst (λ n. InBucket n x) (omega arith) here
get_or-InBucket i (suc k) (x ∷ bs) (here, pl) =
    subst (λ n. InBucket n (get_or bs k [])) (omega arith) (get_or-InBucket (suc i) k bs pl)

-- The empty table that gnr_node__hash_init leaves is good.
pub hash_init-IsValid : IsValid (record {
  buckets = hash_init;
  ledger = record {
    stats = record { total = 0; local = 0; peered = 0; external = 0 };
    events = [];
  };
  next_id = 0;
})
unfolding hash_init
hash_init-IsValid = ground arith
