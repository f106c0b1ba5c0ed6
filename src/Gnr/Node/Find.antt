-- ===== src/Gnr/Node/Find.antt =====
-- gnr/node.c: gnr_node_findbyname against the whole table.
use timps.Prelude.{
  ℕ, zero, suc, ◌+◌, ◌<◌, ◌≡◌, ◌≢◌, sym, ◌∙◌, ap, Bool, true, false, Bool-cases, Option-cases, ◌⊎◌,
  Option, none, some, List, [], ◌∷◌, arith, inl, inr, get_or, All,
}
use timps.Gnr.Name.{getidx}
use timps.Gnr.Name.Canon.{getidx-namecmp}
use timps.Gnr.Node.{Node, matches, scan, findbyname}

-- Each node of a bucket hashes to that bucket; the buckets are counted from `i` on.
abbrev pub InBucket : ℕ → List Node → Type 0
InBucket i b = All (λ (gn : Node). getidx gn.name ≡ i) b

abbrev pub IsPlaced : ℕ → List (List Node) → Type 0
IsPlaced i [] = Unit
IsPlaced i (b ∷ bs) = InBucket i b × IsPlaced (suc i) bs

-- No node of a list passes a test.
abbrev pub NoneIn : (Node → Bool) → List Node → Type 0
NoneIn p b = All (λ (gn : Node). p gn ≡ false) b

pub scan-NoneIn : (p : Node → Bool) (b : List Node) → scan p b ≡ none → NoneIn p b
unfolding scan
scan-NoneIn p [] h = tt
scan-NoneIn p (gn ∷ gns) h = elim (Bool-cases (p gn)) [
  | inl yes_p ↦ absurd (ground (arith, h, yes_p))
  | inr no_p ↦ (no_p, scan-NoneIn p gns (ground (arith, h, no_p)))
]

pub scan-matches : (p : Node → Bool) (b : List Node) (gn : Node) → scan p b ≡ some gn → p gn ≡ true
unfolding scan
scan-matches p [] gn h = absurd (cc)
scan-matches p (x ∷ gns) gn h = elim (Bool-cases (p x)) [
  | inl yes_p ↦ let e : x ≡ gn = ground (arith, h, yes_p) in ap p (sym e) ∙ yes_p
  | inr no_p ↦ scan-matches p gns gn (ground (arith, h, no_p))
]

matches-getidx :
    (name : List ℕ) (service : Option (List ℕ)) (gn : Node)
    → matches name service gn ≡ true
    → getidx gn.name ≡ getidx name
unfolding matches
matches-getidx name service gn h = getidx-namecmp gn.name name (ground (arith, h))

-- In another bucket nothing matches.
elsewhere :
    (name : List ℕ) (service : Option (List ℕ)) (i : ℕ) (b : List Node)
    → getidx name ≢ i
    → InBucket i b
    → NoneIn (matches name service) b
elsewhere name service i [] ne u = tt
elsewhere name service i (gn ∷ gns) ne (here, u) = (
  elim (Bool-cases (matches name service gn)) [
    | inl m ↦ absurd (ne (sym (matches-getidx name service gn m) ∙ here))
    | inr m ↦ m
  ],
  elsewhere name service i gns ne u,
)

later_buckets :
    (name : List ℕ) (service : Option (List ℕ)) (i : ℕ) (bs : List (List Node))
    → IsPlaced i bs
    → getidx name < i
    → All (NoneIn (matches name service)) bs
later_buckets name service i [] pl h = tt
later_buckets name service i (b ∷ bs) (here, pl) h = (
  elsewhere name service i b (λ e. omega arith) here,
  later_buckets name service (suc i) bs pl (omega arith),
)

All-buckets :
    (name : List ℕ) (service : Option (List ℕ)) (i k : ℕ) (bs : List (List Node))
    → IsPlaced i bs
    → getidx name ≡ i + k
    → scan (matches name service) (get_or bs k []) ≡ none
    → All (NoneIn (matches name service)) bs
All-buckets name service i k [] pl e h = tt
All-buckets name service i zero (b ∷ bs) (here, pl) e h =
    (scan-NoneIn (matches name service) b h, later_buckets name service (suc i) bs pl (omega arith))
All-buckets name service i (suc k) (b ∷ bs) (here, pl) e h = (
  elsewhere name service i b (λ e'. omega arith) here,
  All-buckets name service (suc i) k bs pl (omega arith) h,
)

-- In a table whose nodes stand in the buckets of their names, gnr_node_findbyname, which reads
-- one bucket, either finds nothing, and then no node of any bucket has that name and service, or
-- finds a node that has them.
pub findbyname_complete :
    (buckets : List (List Node)) (name : List ℕ) (service : Option (List ℕ))
    → IsPlaced 0 buckets
    → ((findbyname buckets name service ≡ none) × All (NoneIn (matches name service)) buckets)
      ⊎ ((gn : Node) × (findbyname buckets name service ≡ some gn)
          × (matches name service gn ≡ true))
unfolding findbyname
findbyname_complete buckets name service pl =
    elim (Option-cases (scan (matches name service) (get_or buckets (getidx name) []))) [
      | inl e ↦ inl (e, All-buckets name service 0 (getidx name) buckets pl (omega arith) e)
      | inr (gn, e) ↦ inr (gn, e, scan-matches (matches name service) _ gn e)
    ]
