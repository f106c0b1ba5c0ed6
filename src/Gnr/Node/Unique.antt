-- ===== src/Gnr/Node/Unique.antt =====
-- gnr/node.c: how often a user stands in the table.
use timps.Prelude.{
  ℕ, zero, suc, ◌+◌, ◌≡◌, sym, Bool, Bool-cases, Option-cases, Option, none, some, List, [], ◌∷◌,
  ◌==◌, arith, inl, inr, length, All, get_or, set,
}
use mathlib.Core.Path.{subst}
use timps.Gnr.Name.{getidx}
use timps.Gnr.Node.{node_size}
use timps.Gnr.Node.{Node, Table, matches, findbyname, hash_add, unlink, offline, offline_many}
use timps.Gnr.Node.Find.{NoneIn, scan-NoneIn}
use timps.Gnr.Node.Edit.{fresh_node, enter, online}
use timps.Gnr.Node.Sweep.{keep, keep_all, offline_many_lem}

-- Two nodes stand for one user.
abbrev pub same_user : Node → Node → Bool
same_user a b = matches a.name (some a.service) b

-- No user stands in a bucket twice. Across buckets the names differ, since their indices do.
abbrev pub UniqueIn : List Node → Type 0
UniqueIn [] = Unit
UniqueIn (gn ∷ gns) = NoneIn (same_user gn) gns × UniqueIn gns

abbrev pub IsUnique : List (List Node) → Type 0
IsUnique bs = All UniqueIn bs

keep-NoneIn : (p q : Node → Bool) (b : List Node) → NoneIn q b → NoneIn q (keep p b)
keep-NoneIn p q [] u = tt
keep-NoneIn p q (gn ∷ gns) (here, u) = elim (Bool-cases (p gn)) [
  | inl gone ↦ rw gone (keep-NoneIn p q gns u)
  | inr stays ↦ rw stays (here, keep-NoneIn p q gns u)
]

keep-UniqueIn : (p : Node → Bool) (b : List Node) → UniqueIn b → UniqueIn (keep p b)
keep-UniqueIn p [] u = tt
keep-UniqueIn p (gn ∷ gns) (here, u) = elim (Bool-cases (p gn)) [
  | inl gone ↦ rw gone (keep-UniqueIn p gns u)
  | inr stays ↦ rw stays (keep-NoneIn p (same_user gn) gns here, keep-UniqueIn p gns u)
]

keep_all-IsUnique :
    (p : Node → Bool) (bs : List (List Node)) → IsUnique bs → IsUnique (keep_all p bs)
keep_all-IsUnique p [] u = tt
keep_all-IsUnique p (b ∷ bs) (here, u) = (keep-UniqueIn p b here, keep_all-IsUnique p bs u)

unlink-NoneIn : (id : ℕ) (q : Node → Bool) (b : List Node) → NoneIn q b → NoneIn q (unlink id b).1
unfolding unlink
unlink-NoneIn id q [] u = tt
unlink-NoneIn id q (gn ∷ gns) (here, u) = elim (Bool-cases (gn.id == id)) [
  | inl same ↦ rw same u
  | inr other ↦ rw other (here, unlink-NoneIn id q gns u)
]

unlink-UniqueIn : (id : ℕ) (b : List Node) → UniqueIn b → UniqueIn (unlink id b).1
unfolding unlink
unlink-UniqueIn id [] u = tt
unlink-UniqueIn id (gn ∷ gns) (here, u) = elim (Bool-cases (gn.id == id)) [
  | inl same ↦ rw same u
  | inr other ↦ rw other (unlink-NoneIn id (same_user gn) gns here, unlink-UniqueIn id gns u)
]

set-IsUnique :
    (bs : List (List Node)) (i : ℕ) (b : List Node)
    → IsUnique bs
    → UniqueIn b
    → IsUnique (set bs i b)
set-IsUnique [] i b u v = tt
set-IsUnique (x ∷ bs) zero b (here, u) v = (v, u)
set-IsUnique (x ∷ bs) (suc i) b (here, u) v = (here, set-IsUnique bs i b u v)

get_or-UniqueIn : (bs : List (List Node)) (i : ℕ) → IsUnique bs → UniqueIn (get_or bs i [])
get_or-UniqueIn [] i u = tt
get_or-UniqueIn (x ∷ bs) zero (here, u) = here
get_or-UniqueIn (x ∷ bs) (suc i) (here, u) = get_or-UniqueIn bs i u

-- A node whose user is not there yet may be entered.
enter-IsUnique :
    (t : Table) (gn : Node)
    → findbyname t.buckets gn.name (some gn.service) ≡ none
    → IsUnique t.buckets
    → IsUnique (enter t gn).buckets
unfolding enter hash_add findbyname
enter-IsUnique t gn e u =
    let b : List Node = get_or t.buckets (getidx gn.name) [] in
    set-IsUnique t.buckets (getidx gn.name) (gn ∷ b) u
      (scan-NoneIn (same_user gn) b e, get_or-UniqueIn t.buckets (getidx gn.name) u)

-- If no bucket holds two nodes of one user, none does after gnr_node_online.
pub online-IsUnique :
    (malloc : ℕ → Option (List ℕ)) (t : Table) (owner : ℕ) (name service : List ℕ)
    (flags metric now : ℕ)
    → IsUnique t.buckets
    → IsUnique (online malloc t owner name service flags metric now).1.buckets
unfolding online
online-IsUnique malloc t owner name service flags metric now u =
    elim (Option-cases (findbyname t.buckets name (some service))) [
      | inr (old, e) ↦ subst IsUnique (ground (arith, e)) u
      | inl e ↦ elim (Option-cases (malloc node_size)) [
        | inl a ↦ subst IsUnique (ground (arith, e, a)) u
        | inr (_, a) ↦ elim (Option-cases (malloc (length name + 1))) [
          | inl b ↦ subst IsUnique (ground (arith, e, a, b)) u
          | inr (_, b) ↦ elim (Option-cases (malloc (length service + 1))) [
            | inl c ↦ subst IsUnique (ground (arith, e, a, b, c)) u
            | inr (_, c) ↦
                subst IsUnique (ground (arith, e, a, b, c))
                  (enter-IsUnique t (fresh_node t owner name service flags metric now) e u)
          ]
        ]
      ]
    ]

pub offline-IsUnique :
    (t : Table) (gn : Node) (reason : ℕ)
    → IsUnique t.buckets
    → IsUnique (offline t gn reason).1.buckets
unfolding offline
offline-IsUnique t gn reason u =
    let i : ℕ = getidx gn.name in
    let b : List Node = get_or t.buckets i [] in
    elim (Option-cases (unlink gn.id b).0) [
      | inl absent ↦ rw (absent, offline) u
      | inr (cur, found) ↦
          rw (found, offline)
            (set-IsUnique t.buckets i (unlink gn.id b).1 u
              (unlink-UniqueIn gn.id b (get_or-UniqueIn t.buckets i u)))
    ]

pub offline_many-IsUnique :
    (t : Table) (p : Node → Bool) (reason : ℕ)
    → IsUnique t.buckets
    → IsUnique (offline_many t p reason).buckets
offline_many-IsUnique t p reason u =
    subst IsUnique (sym (offline_many_lem t p reason).0) (keep_all-IsUnique p t.buckets u)
