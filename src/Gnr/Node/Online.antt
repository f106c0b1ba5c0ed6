-- ===== src/Gnr/Node/Online.antt =====
-- gnr/node.c: gnr_node_online and gnr_node_offline.
use timps.Prelude.{
  ℕ, zero, suc, ◌+◌, ◌<◌, ◌≡◌, refl, ◌∙◌, ap, Bool, Bool-cases, Option-cases, ◌⊎◌, Option, none,
  some, List, [], ◌∷◌, ◌==◌, arith, inl, inr, length, get_or, set, bytes_eq_refl,
}
use mathlib.Core.List.{map}
use timps.Gnr.Node.{node_size}
use timps.Gnr.Name.{tolower, getidx, strcasecmp}
use timps.Gnr.Name.Canon.{getidx_range, namecmp_equivalence}
use timps.Gnr.Node.{Node, Table, matches, findbyname, hash_add, unlink, offline}
use timps.Gnr.Node.Find.{InBucket}
use timps.Gnr.Node.Count.{
  IsValid, Counts-eq, number, number_all, one_if, freenode-Counts, enter-Counts, number_all-set,
  set-IsPlaced, get_or-InBucket,
}
use timps.Gnr.Node.Edit.{fresh_node, enter, online}

length-set : (bs : List (List Node)) (i : ℕ) (b : List Node) → length (set bs i b) ≡ length bs
length-set [] i b = refl
length-set (x ∷ bs) zero b = refl
length-set (x ∷ bs) (suc i) b = ap suc (length-set bs i b)

get_or-set :
    (bs : List (List Node)) (i : ℕ) (b : List Node) → i < length bs → get_or (set bs i b) i [] ≡ b
get_or-set [] i b h = absurd (omega arith)
get_or-set (x ∷ bs) zero b h = refl
get_or-set (x ∷ bs) (suc i) b h = get_or-set bs i b (omega arith)

-- Entering a node keeps the table good.
pub enter-IsValid : (t : Table) (gn : Node) → IsValid t → IsValid (enter t gn)
unfolding enter hash_add
enter-IsValid t gn v =
    let i : ℕ = getidx gn.name in
    let b : List Node = get_or t.buckets i [] in
    let inside : i < length t.buckets = omega (arith, getidx_range gn.name, v.size) in
    record {
      size = length-set t.buckets i (gn ∷ b) ∙ v.size;
      placed =
          set-IsPlaced 0 i t.buckets (gn ∷ b) v.placed
            (omega arith, get_or-InBucket 0 i t.buckets v.placed);
      counted =
          Counts-eq _ (λ p. one_if (p gn) + number_all p t.buckets)
            (λ p. number_all p (set t.buckets i (gn ∷ b)))
            (λ p. omega (arith, number_all-set p t.buckets i (gn ∷ b) inside))
            (enter-Counts t.ledger.stats gn (λ p. number_all p t.buckets) v.counted);
    }

number-unlink :
    (p : Node → Bool) (id : ℕ) (b : List Node) (gn : Node)
    → (unlink id b).0 ≡ some gn
    → number p b ≡ one_if (p gn) + number p (unlink id b).1
unfolding unlink
number-unlink p id [] gn h = absurd (cc)
number-unlink p id (x ∷ gns) gn h = elim (Bool-cases (x.id == id)) [
  | inl same ↦
      let e : x ≡ gn = ground (arith, h, same) in rw same (ap (λ y. one_if (p y) + number p gns) e)
  | inr other ↦ rw other (omega (arith, number-unlink p id gns gn (ground (arith, h, other))))
]

unlink-InBucket : (i id : ℕ) (b : List Node) → InBucket i b → InBucket i (unlink id b).1
unfolding unlink
unlink-InBucket i id [] u = tt
unlink-InBucket i id (x ∷ gns) (here, u) = elim (Bool-cases (x.id == id)) [
  | inl same ↦ rw same u
  | inr other ↦ rw other (here, unlink-InBucket i id gns u)
]

-- gnr_node_offline keeps a table good, also where the node is not in it: nodes stand in the
-- buckets of their names, and the four statistics count them.
pub offline-IsValid :
    (t : Table) (gn : Node) (reason : ℕ) → IsValid t → IsValid (offline t gn reason).1
unfolding offline
offline-IsValid t gn reason v =
    let i : ℕ = getidx gn.name in
    let b : List Node = get_or t.buckets i [] in
    let rest : List Node = (unlink gn.id b).1 in
    let inside : i < length t.buckets = omega (arith, getidx_range gn.name, v.size) in
    elim (Option-cases (unlink gn.id b).0) [
      | inl absent ↦ rw (absent, offline) v
      | inr (cur, found) ↦
          rw (found, offline)
            (record {
              size = length-set t.buckets i rest ∙ v.size;
              placed =
                  set-IsPlaced 0 i t.buckets rest v.placed
                    (unlink-InBucket (0 + i) gn.id b (get_or-InBucket 0 i t.buckets v.placed));
              counted =
                  freenode-Counts t.ledger cur reason (λ p. number_all p (set t.buckets i rest))
                    (Counts-eq _ (λ p. number_all p t.buckets)
                      (λ p. one_if (p cur) + number_all p (set t.buckets i rest))
                      (λ p. omega (
                        arith,
                        number_all-set p t.buckets i rest inside,
                        number-unlink p gn.id b cur found,
                      ))
                      v.counted);
            })
    ]

-- A node that was just entered is the first that its name and service find.
find_entered :
    (t : Table) (gn : Node)
    → IsValid t
    → findbyname (enter t gn).buckets gn.name (some gn.service) ≡ some gn
unfolding enter hash_add findbyname matches strcasecmp
find_entered t gn v =
    let i : ℕ = getidx gn.name in
    let inside : i < length t.buckets = omega (arith, getidx_range gn.name, v.size) in
    rw (get_or-set t.buckets i (gn ∷ get_or t.buckets i []) inside) (
      ground (
        arith,
        (namecmp_equivalence gn.name gn.name gn.name).0,
        bytes_eq_refl (map tolower gn.service),
      ))

-- In a good table gnr_node_online either answers null and changes nothing, or answers the node
-- that the name and service find from then on, and the table stays good.
pub online_lem :
    (malloc : ℕ → Option (List ℕ)) (t : Table) (owner : ℕ) (name service : List ℕ)
    (flags metric now : ℕ)
    → IsValid t
    → (online malloc t owner name service flags metric now ≡ (none, t))
      ⊎ ((gn : Node) × (t' : Table) × (online malloc t owner name service flags metric now
            ≡ (some gn, t'))
          × IsValid t'
          × (findbyname t'.buckets name (some service) ≡ some gn))
unfolding online
online_lem malloc t owner name service flags metric now v =
    let gn : Node = fresh_node t owner name service flags metric now in
    elim (Option-cases (findbyname t.buckets name (some service))) [
      | inr (old, e) ↦ inr (old, t, ground (arith, e), v, e)
      | inl e ↦ elim (Option-cases (malloc node_size)) [
        | inl a ↦ inl (ground (arith, e, a))
        | inr (_, a) ↦ elim (Option-cases (malloc (length name + 1))) [
          | inl b ↦ inl (ground (arith, e, a, b))
          | inr (_, b) ↦ elim (Option-cases (malloc (length service + 1))) [
            | inl c ↦ inl (ground (arith, e, a, b, c))
            | inr (_, c) ↦ inr (
              gn,
              enter t gn,
              ground (arith, e, a, b, c),
              enter-IsValid t gn v,
              find_entered t gn v,
            )
          ]
        ]
      ]
    ]
