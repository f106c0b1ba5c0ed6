-- ===== src/Gnr/Node/Metric.antt =====
-- gnr/node.c: the functions that change a node in place, and the invariant of the table.
use timps.Prelude.{
  ℕ, suc, ◌+◌, ◌≡◌, refl, sym, ◌∙◌, ap, Bool, Bool-cases, Option-cases, ◌⊎◌, Option, none, some,
  List, [], ◌∷◌, ◌==◌, arith, inl, inr, length,
}
use mathlib.Core.Path.{subst}
use timps.Gnr.Name.{getidx}
use timps.Gnr.Node.{Node, Stats, Table, scan, find, enter_metric, leave_metric}
use timps.Gnr.Node.Find.{IsPlaced, InBucket}
use timps.Gnr.Node.Count.{
  IsValid, Counts, number, number_all, one_if, any_node, is_local, is_external, is_peered,
}
use timps.Gnr.Node.Edit.{
  poke, poke_buckets, has_id, at_node, usehit, ref, unref, setttl, remetric, remetered,
}

module _ (id : ℕ) (f : Node → Node) where
  number-poke :
      (p : Node → Bool) (b : List Node) (gn : Node)
      → scan (has_id id) b ≡ some gn
      → number p (poke id f b) + one_if (p gn) ≡ number p b + one_if (p (f gn))
  unfolding poke scan has_id
  number-poke p [] gn h = absurd (cc)
  number-poke p (x ∷ gns) gn h = elim (Bool-cases (x.id == id)) [
    | inl same ↦
        let e : x ≡ gn = ground (arith, h, same) in
        rw same (omega (arith, ap (λ y. one_if (p y)) e, ap (λ y. one_if (p (f y))) e))
    | inr other ↦ rw other (omega (arith, number-poke p gns gn (ground (arith, h, other))))
  ]

  poke_absent :
      (b : List Node) (bs : List (List Node))
      → scan (has_id id) b ≡ none
      → poke_buckets id f (b ∷ bs) ≡ b ∷ poke_buckets id f bs
  unfolding poke_buckets
  poke_absent b bs h = rw (h, poke_buckets)

  poke_here :
      (b : List Node) (bs : List (List Node)) (x : Node)
      → scan (has_id id) b ≡ some x
      → poke_buckets id f (b ∷ bs) ≡ poke id f b ∷ bs
  unfolding poke_buckets
  poke_here b bs x h = rw (h, poke_buckets)

  find_absent :
      (b : List Node) (bs : List (List Node))
      → scan (has_id id) b ≡ none
      → find (has_id id) (b ∷ bs) ≡ find (has_id id) bs
  unfolding find
  find_absent b bs h = rw (h, find)

  find_here :
      (b : List Node) (bs : List (List Node)) (x : Node)
      → scan (has_id id) b ≡ some x
      → find (has_id id) (b ∷ bs) ≡ some x
  unfolding find
  find_here b bs x h = rw (h, find)

  number_all-poke_buckets :
      (p : Node → Bool) (bs : List (List Node)) (gn : Node)
      → find (has_id id) bs ≡ some gn
      → number_all p (poke_buckets id f bs) + one_if (p gn) ≡ number_all p bs + one_if (p (f gn))
  number_all-poke_buckets p [] gn h = absurd (unfold find in cc)
  number_all-poke_buckets p (b ∷ bs) gn h = elim (Option-cases (scan (has_id id) b)) [
    | inl absent ↦ omega (
      arith,
      ap (number_all p) (poke_absent b bs absent),
      number_all-poke_buckets p bs gn (sym (find_absent b bs absent) ∙ h),
    )
    | inr (x, e) ↦ omega (
      arith,
      ap (number_all p) (poke_here b bs x e),
      number-poke p b gn (cc (e, find_here b bs x e, h)),
    )
  ]

  module _ (same_name : (gn : Node) → (f gn).name ≡ gn.name) where
    poke-InBucket : (i : ℕ) (b : List Node) → InBucket i b → InBucket i (poke id f b)
    unfolding poke
    poke-InBucket i [] u = tt
    poke-InBucket i (x ∷ gns) (here, u) = elim (Bool-cases (x.id == id)) [
      | inl same ↦ rw same (ap getidx (same_name x) ∙ here, u)
      | inr other ↦ rw other (here, poke-InBucket i gns u)
    ]

    poke_buckets-IsPlaced :
        (i : ℕ) (bs : List (List Node)) → IsPlaced i bs → IsPlaced i (poke_buckets id f bs)
    poke_buckets-IsPlaced i [] u = unfold poke_buckets in tt
    poke_buckets-IsPlaced i (b ∷ bs) (here, u) = elim (Option-cases (scan (has_id id) b)) [
      | inl absent ↦
          subst (IsPlaced i) (sym (poke_absent b bs absent))
            (here, poke_buckets-IsPlaced (suc i) bs u)
      | inr (x, e) ↦ subst (IsPlaced i) (sym (poke_here b bs x e)) (poke-InBucket i b here, u)
    ]

  length-poke_buckets : (bs : List (List Node)) → length (poke_buckets id f bs) ≡ length bs
  length-poke_buckets [] = unfold poke_buckets in refl
  length-poke_buckets (b ∷ bs) = elim (Option-cases (scan (has_id id) b)) [
    | inl absent ↦ ap length (poke_absent b bs absent) ∙ ap suc (length-poke_buckets bs)
    | inr (x, e) ↦ ap length (poke_here b bs x e)
  ]

-- A table after a change in place, if the statistics follow the change.
poked-IsValid :
    (f : Node → Node) (t : Table) (id : ℕ) (gn : Node) (stats : Stats)
    → ((x : Node) → (f x).name ≡ x.name)
    → IsValid t
    → find (has_id id) t.buckets ≡ some gn
    → (((p : Node → Bool)
          → number_all p (poke_buckets id f t.buckets) + one_if (p gn)
            ≡ number_all p t.buckets + one_if (p (f gn)))
        → Counts stats (λ p. number_all p (poke_buckets id f t.buckets)))
    → IsValid (record t {
      buckets = poke_buckets id f t.buckets;
      ledger = record t.ledger { stats = stats };
    })
poked-IsValid f t id gn stats name v e c = record {
  size = length-poke_buckets id f t.buckets ∙ v.size;
  placed = poke_buckets-IsPlaced id f name 0 t.buckets v.placed;
  counted = c (λ p. number_all-poke_buckets id f p t.buckets gn e);
}

-- A change in place that keeps name and metric keeps the table good.
at_node-IsValid :
    (f : Node → Node) (t t' : Table) (id : ℕ)
    → ((gn : Node) → (f gn).name ≡ gn.name)
    → ((gn : Node) → (f gn).metric ≡ gn.metric)
    → IsValid t
    → at_node f t id ≡ some t'
    → IsValid t'
unfolding at_node
at_node-IsValid f t t' id name metric v e = elim (Option-cases (find (has_id id) t.buckets)) [
  | inl dangling ↦ absurd (ground (arith, e, dangling))
  | inr (gn, h) ↦ subst IsValid (ground (arith, e, h)) (
      poked-IsValid f t id gn t.ledger.stats name v h (λ n. record {
        totals = ground (arith, n any_node);
        locals = ground (arith, n is_local, metric gn);
        peers = ground (arith, n is_peered, metric gn);
        externals = ground (arith, n is_external, metric gn);
      }))
]

moved :
    (newmetric now : ℕ) (t : Table) (id : ℕ) (gn : Node)
    → IsValid t
    → ((p : Node → Bool)
        → number_all p (poke_buckets id (remetered newmetric now) t.buckets) + one_if (p gn)
          ≡ number_all p t.buckets + one_if (p (remetered newmetric now gn)))
    → Counts
        (enter_metric newmetric (leave_metric gn.metric t.ledger.stats))
        (λ p. number_all p (poke_buckets id (remetered newmetric now) t.buckets))
unfolding enter_metric leave_metric
moved newmetric now t id gn v n = record {
  totals = ground (arith, n any_node);
  locals = ground (arith, n is_local);
  peers = ground (arith, n is_peered);
  externals = ground (arith, n is_external);
}

-- gnr_node_remetric, where it does not fault, keeps a table good: the statistics follow the node
-- to its new class.
pub remetric-IsValid :
    (newmetric now : ℕ) (t t' : Table) (id : ℕ)
    → IsValid t
    → remetric newmetric now t id ≡ some t'
    → IsValid t'
unfolding remetric at_node
remetric-IsValid newmetric now t t' id v e = elim (Option-cases (find (has_id id) t.buckets)) [
  | inl dangling ↦ absurd (ground (arith, e, dangling))
  | inr (gn, h) ↦ subst IsValid (ground (arith, e, h)) (
      poked-IsValid (remetered newmetric now) t id gn
        (enter_metric newmetric (leave_metric gn.metric t.ledger.stats)) (λ x. refl) v h
        (λ n. moved newmetric now t id gn v n))
]

-- Marking a use of a node, taking or dropping a reference to it and setting its time to live,
-- where they do not fault, keep a table good.
pub touch-IsValid :
    (t t' : Table) (id now : ℕ) (ttl : Option ℕ)
    → IsValid t
    → (usehit now t id ≡ some t')
      ⊎ (ref t id ≡ some t')
      ⊎ (unref t id ≡ some t')
      ⊎ (setttl ttl t id ≡ some t')
    → IsValid t'
unfolding usehit ref unref setttl
touch-IsValid t t' id now ttl v e = elim e [
  | inl h ↦ at_node-IsValid _ t t' id (λ x. refl) (λ x. refl) v h
  | inr (inl h) ↦ at_node-IsValid _ t t' id (λ x. refl) (λ x. refl) v h
  | inr (inr (inl h)) ↦ at_node-IsValid _ t t' id (λ x. refl) (λ x. refl) v h
  | inr (inr (inr h)) ↦ at_node-IsValid _ t t' id (λ x. ground arith) (λ x. ground arith) v h
]
