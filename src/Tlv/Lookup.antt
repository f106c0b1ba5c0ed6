-- ===== src/Tlv/Lookup.antt =====
-- naf/tlv.c: finding, removing and appending nodes.
use timps.Prelude.{
  ℕ, ◌≡◌, ◌≢◌, refl, ap, ◌⊎◌, inl, inr, Bool-cases, Option, none, some, List, [], ◌∷◌, ◌++◌, arith,
  ◌==◌, if◌then◌else◌, length, All,
}
use timps.Tlv.{Tlv, get, remove, link, gettotallength}

-- naf_tlv_gettotallength counts the nodes.
pub gettotallength_lem : (tlvs : List Tlv) → gettotallength tlvs ≡ length tlvs
unfolding gettotallength
gettotallength_lem [] = refl
gettotallength_lem (tlv ∷ tlvs) = omega (arith, gettotallength_lem tlvs)

pub link_lem : (tlvs : List Tlv) (tlv : Tlv) → link tlvs tlv ≡ tlvs ++ (tlv ∷ [])
unfolding link
link_lem [] tlv = refl
link_lem (x ∷ tlvs) tlv = ap (λ t. x ∷ t) (link_lem tlvs tlv)

-- Appending hides no node: the first of a type is found as before, and the new one only if there
-- was none of its type.
pub get-link :
    (tlvs : List Tlv) (tlv : Tlv) (type : ℕ)
    → get (link tlvs tlv) type ≡ elim (get tlvs type) as (λ _. Option Tlv) [
      | none ↦ if tlv.type == type then some tlv else none
      | some found ↦ some found
    ]
unfolding get link
get-link [] tlv type = refl
get-link (x ∷ tlvs) tlv type = ground (arith, get-link tlvs tlv type)

-- What naf_tlv_remove has done with a list of nodes.
pub record Removed (tlvs : List Tlv) (type : ℕ) (tlv : Tlv) (rest : List Tlv) : Type 0 where
  pub before : List Tlv
  pub after : List Tlv
  pub here : tlvs ≡ before ++ (tlv ∷ after)
  pub joined : rest ≡ before ++ after
  pub typed : tlv.type ≡ type
  pub first : All (λ (x : Tlv). x.type ≢ type) before

-- naf_tlv_remove takes out the first node of the type and joins the nodes before and behind it;
-- if there is none, the list stays and every node has another type.
pub remove_lem :
    (tlvs : List Tlv) (type : ℕ)
    → ((remove tlvs type ≡ (none, tlvs)) × All (λ (x : Tlv). x.type ≢ type) tlvs)
      ⊎ ((tlv : Tlv) × (rest : List Tlv) × (remove tlvs type ≡ (some tlv, rest))
          × Removed tlvs type tlv rest)
unfolding remove
remove_lem [] type = inl (refl, tt)
remove_lem (x ∷ tlvs) type = elim (Bool-cases (x.type == type)) [
  | inl same ↦ inr (
    x,
    tlvs,
    ground (arith, same),
    record {
      before = [];
      after = tlvs;
      here = refl;
      joined = refl;
      typed = ground (arith, same);
      first = tt;
    },
  )
  | inr other ↦ elim (remove_lem tlvs type) [
    | inl (e, all) ↦ inl (ground (arith, other, e), (ground (arith, other), all))
    | inr (tlv, rest, e, r) ↦ inr (
      tlv,
      x ∷ rest,
      ground (arith, other, e),
      record {
        before = x ∷ r.before;
        after = r.after;
        here = ap (λ t. x ∷ t) r.here;
        joined = ap (λ t. x ∷ t) r.joined;
        typed = r.typed;
        first = (ground (arith, other), r.first);
      },
    )
  ]
]

-- naf_tlv_remove returns what naf_tlv_get finds, and lookups of other types see no change.
pub get-remove :
    (tlvs : List Tlv) (type other : ℕ)
    → ((remove tlvs type).0 ≡ get tlvs type)
      × (other ≢ type → get (remove tlvs type).1 other ≡ get tlvs other)
unfolding remove get
get-remove [] type other = (refl, λ _. refl)
get-remove (x ∷ tlvs) type other =
    let (same, kept) = get-remove tlvs type other in
    (ground (arith, same), λ ne. ground (arith, kept ne))
