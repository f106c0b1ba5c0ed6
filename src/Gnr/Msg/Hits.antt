-- ===== src/Gnr/Msg/Hits.antt =====
-- gnr/node.c: the handler that marks the nodes of a routed message as used (gnr_node__msg_postrouting).
use timps.Prelude.{
  ℕ, zero, suc, ◌≡◌, ◌≢◌, ◌⊎◌, inl, inr, refl, ap, sym, Bool, Bool-cases, Option-cases, Option,
  none, some, List, [], ◌∷◌, ◌==◌, if◌then◌else◌, ◌>>=◌, arith, get_or,
}
use Prim.Native.Nat.{bit_and}
use mathlib.Core.Path.{subst}
use timps.Gnr.Name.{getidx}
use timps.Gnr.Node.{Node, Table, scan, find, findbyname, matches}
use timps.Gnr.Node.Count.{IsValid}
use timps.Gnr.Node.Edit.{usehit, poke, poke_buckets, has_id, at_node}
use timps.Gnr.Node.Metric.{touch-IsValid}
use timps.Gnr.Msg.{GnrMsg, HandlerInfo, node_id}

-- GNR_MSG_ROUTEFLAG_ROUTED
abbrev pub routed_mask : ℕ
routed_mask = 15

abbrev pub hit : ℕ → Option ℕ → Table → Option Table
hit now none t = some t
hit now (some id) t = usehit now t id

unfoldable pub msg_postrouting : ℕ → GnrMsg → HandlerInfo → Table → Option Table
msg_postrouting now gm hinfo t =
    if bit_and gm.routeflags routed_mask == 0
    then some t
    else (hit now hinfo.srcnode t) >>= λ t'. hit now hinfo.destnode t'

-- An address that is in the table.
abbrev IsThere : List (List Node) → Option ℕ → Type 0
IsThere bs none = Unit
IsThere bs (some id) = find (has_id id) bs ≢ none

scan-id :
    (p : Node → Bool) (b : List Node) (gn : Node)
    → scan p b ≡ some gn
    → scan (has_id gn.id) b ≢ none
unfolding scan has_id
scan-id p [] gn e = absurd (cc)
scan-id p (x ∷ b) gn e = elim (Bool-cases (p x)) [
  | inl yes_p ↦
      let same : x ≡ gn = ground (arith, e, yes_p) in
      let same_id : x.id ≡ gn.id = ap (λ n. n.id) same in λ h. ground (arith, h, same_id)
  | inr no_p ↦ let ih = scan-id p b gn (ground (arith, e, no_p)) in λ h. ih (ground (arith, h))
]

find-get_or :
    (p : Node → Bool) (bs : List (List Node)) (i : ℕ)
    → scan p (get_or bs i []) ≢ none
    → find p bs ≢ none
unfolding find scan
find-get_or p [] i h = h
find-get_or p (b ∷ bs) zero h = λ e. h (ground (arith, e))
find-get_or p (b ∷ bs) (suc i) h = let ih = find-get_or p bs i h in λ e. ih (ground (arith, e))

module _ (f : Node → Node) (keeps : (gn : Node) → (f gn).id ≡ gn.id) where
  scan-poke :
      (id j : ℕ) (b : List Node) → scan (has_id j) b ≢ none → scan (has_id j) (poke id f b) ≢ none
  unfolding scan has_id poke
  scan-poke id j [] h = h
  scan-poke id j (gn ∷ b) h = elim (Bool-cases (gn.id == id)) [
    | inl here ↦ λ e. h (ground (arith, e, here, keeps gn))
    | inr there ↦ elim (Bool-cases (gn.id == j)) [
      | inl same ↦ λ e. absurd (ground (arith, e, there, same))
      | inr other ↦
          let ih = scan-poke id j b (λ e. h (ground (arith, e, other))) in
          λ e. ih (ground (arith, e, there, other))
    ]
  ]

  find-poke_buckets :
      (id j : ℕ) (bs : List (List Node))
      → find (has_id j) bs ≢ none
      → find (has_id j) (poke_buckets id f bs) ≢ none
  unfolding find poke_buckets
  find-poke_buckets id j [] h = h
  find-poke_buckets id j (b ∷ bs) h = elim (Option-cases (scan (has_id id) b)) [
    | inr (_, here) ↦ elim (Option-cases (scan (has_id j) (poke id f b))) [
      | inr (_, found) ↦ λ e. absurd (ground (arith, e, here, found))
      | inl lost ↦ elim (Option-cases (scan (has_id j) b)) [
        | inr (_, was) ↦ absurd (scan-poke id j b (λ e. absurd (ground (arith, e, was))) lost)
        | inl wasnt ↦ λ e. h (ground (arith, e, here, lost, wasnt))
      ]
    ]
    | inl there ↦ elim (Option-cases (scan (has_id j) b)) [
      | inr (_, found) ↦ λ e. absurd (ground (arith, e, there, found))
      | inl not_here ↦
          let ih = find-poke_buckets id j bs (λ e. h (ground (arith, e, not_here))) in
          λ e. ih (ground (arith, e, there, not_here))
    ]
  ]

-- Looking a node up gives the address of a node of the table, or none.
findbyname-IsThere :
    (bs : List (List Node)) (name : List ℕ) (service : Option (List ℕ))
    → IsThere bs (node_id (findbyname bs name service))
unfolding findbyname
findbyname-IsThere bs name service =
    let b : List Node = get_or bs (getidx name) [] in
    elim (Option-cases (scan (matches name service) b)) [
      | inl e ↦ rw e tt
      | inr (gn, e) ↦
          rw e (find-get_or (has_id gn.id) bs (getidx name) (scan-id (matches name service) b gn e))
    ]

abbrev marked : ℕ → Table → ℕ → Table
marked now t id = record t {
  buckets = poke_buckets id (λ gn. record gn { lastuse = now }) t.buckets;
}

usehit-some :
    (now : ℕ) (t : Table) (id : ℕ)
    → find (has_id id) t.buckets ≢ none
    → usehit now t id ≡ some (marked now t id)
unfolding usehit at_node
usehit-some now t id h = elim (Option-cases (find (has_id id) t.buckets)) [
  | inl e ↦ absurd (h e)
  | inr (gn, e) ↦ rw e refl
]

-- Marking an address of the table does not fault, keeps the table good, and loses no address.
hit_lem :
    (now : ℕ) (t : Table) (id other : Option ℕ)
    → IsValid t
    → IsThere t.buckets id
    → IsThere t.buckets other
    → (t' : Table) × (hit now id t ≡ some t') × IsValid t' × IsThere t'.buckets other
hit_lem now t none other v h h' = (t, refl, v, h')
hit_lem now t (some id) other v h h' =
    let e = usehit-some now t id h in
    (marked now t id, e, touch-IsValid t (marked now t id) id now none v (inl e), kept other h')
  where
    kept : (o : Option ℕ) → IsThere t.buckets o → IsThere (marked now t id).buckets o
    kept none k = tt
    kept (some j) k =
        find-poke_buckets (λ gn. record gn { lastuse = now }) (λ gn. refl) id j t.buckets k

-- On a good table in which the names of a message were looked up, gnr_node__msg_postrouting meets
-- no dangling node and leaves the table good, and it leaves the table as it is unless the message
-- has a flag of routed messages.
pub msg_postrouting_lem :
    (now : ℕ) (gm : GnrMsg) (hinfo : HandlerInfo) (t : Table) (src dest : List ℕ)
    (src_service dest_service : Option (List ℕ))
    → IsValid t
    → hinfo.srcnode ≡ node_id (findbyname t.buckets src src_service)
    → hinfo.destnode ≡ node_id (findbyname t.buckets dest dest_service)
    → (t' : Table) × (msg_postrouting now gm hinfo t ≡ some t')
      × IsValid t'
      × ((bit_and gm.routeflags routed_mask ≢ 0) ⊎ (t' ≡ t))
unfolding msg_postrouting
msg_postrouting_lem now gm hinfo t src dest src_service dest_service v es ed =
    elim (Bool-cases (bit_and gm.routeflags routed_mask == 0)) [
      | inl e ↦ (t, rw e refl, v, inr refl)
      | inr e ↦
          let there =
            subst (IsThere t.buckets) (sym es) (findbyname-IsThere t.buckets src src_service) in
          let there' =
            subst (IsThere t.buckets) (sym ed) (findbyname-IsThere t.buckets dest dest_service) in
          let (t1, e1, v1, k1) = hit_lem now t hinfo.srcnode hinfo.destnode v there there' in
          let (t2, e2, v2, _) = hit_lem now t1 hinfo.destnode none v1 k1 tt in
          (t2, rw (e, e1) e2, v2, inl (ground (arith, e)))
    ]
