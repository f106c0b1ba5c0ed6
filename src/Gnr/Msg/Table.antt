-- ===== src/Gnr/Msg/Table.antt =====
-- gnr/msg.c: the lists of handlers over any sequence of registrations and removals.
use timps.Prelude.{
  ℕ, zero, suc, ◌+◌, ◌<◌, ◌≤◌, ◌≡◌, ◌⊎◌, inl, inr, refl, ap, sym, ◌∙◌, true, false, Bool-cases,
  Option-cases, Option, none, some, List, [], ◌∷◌, ltb, arith, All, length, get_or, set,
}
use mathlib.Core.Path.{subst}
use timps.Prelude.Int.{ℤ, pos, negsuc}
use timps.Gnr.Msg.{
  Mh, mh_insert, mh_remove, mh_size, stage_max, pos_max, addmsghandler, remmsghandler,
}
use timps.Gnr.Msg.Order.{
  IsSorted, Placed, mh_insert-Placed, mh_insert-IsSorted, mh_remove-IsSorted, mh_remove-mh_insert,
  mh_insert-bounded, mh_remove-bounded,
}

-- A list of handlers by position, with positions in their range.
abbrev pub IsStage : List Mh → Type 0
IsStage mhs = IsSorted mhs × All (λ (k : Mh). k.position ≤ pos_max) mhs

-- Three such lists.
abbrev pub IsTable : List (List Mh) → Type 0
IsTable stages = (length stages ≡ 3) × All IsStage stages

-- A call of another module; memory may be refused at any of them.
pub data Step : List (List Mh) → List (List Mh) → Type 0 where
  add :
      (malloc : ℕ → Option (List ℕ)) (stages : List (List Mh)) (owner stage : ℕ) (position : ℤ)
      (handlerfunc : ℕ) (desc : List ℕ)
      → Step stages (addmsghandler malloc stages owner stage position handlerfunc desc).1
  rem :
      (stages : List (List Mh)) (stage handlerfunc : ℕ)
      → Step stages (remmsghandler stages stage handlerfunc).1

-- From the empty lists of gnr_msg__register.
pub data Reach : List (List Mh) → Type 0 where
  start : Reach ([] ∷ [] ∷ [] ∷ [])
  next : {s t : List (List Mh)} → Reach s → Step s t → Reach t

length-set :
    (stages : List (List Mh)) (i : ℕ) (l : List Mh) → length (set stages i l) ≡ length stages
length-set [] i l = refl
length-set (s ∷ stages) zero l = refl
length-set (s ∷ stages) (suc i) l = ap suc (length-set stages i l)

set-IsTable :
    (stages : List (List Mh)) (i : ℕ) (l : List Mh)
    → All IsStage stages
    → IsStage l
    → All IsStage (set stages i l)
set-IsTable [] i l u h = tt
set-IsTable (s ∷ stages) zero l (hs, u) h = (h, u)
set-IsTable (s ∷ stages) (suc i) l (hs, u) h = (hs, set-IsTable stages i l u h)

get_or-IsStage :
    (stages : List (List Mh)) (i : ℕ) → All IsStage stages → IsStage (get_or stages i [])
get_or-IsStage [] i u = (tt, tt)
get_or-IsStage (s ∷ stages) zero (h, u) = h
get_or-IsStage (s ∷ stages) (suc i) (h, u) = get_or-IsStage stages i u

get_or-set :
    (stages : List (List Mh)) (i : ℕ) (l : List Mh)
    → i < length stages
    → get_or (set stages i l) i [] ≡ l
get_or-set [] i l h = absurd (omega arith)
get_or-set (s ∷ stages) zero l h = refl
get_or-set (s ∷ stages) (suc i) l h = get_or-set stages i l (omega arith)

set-set :
    (stages : List (List Mh)) (i : ℕ) (l : List Mh)
    → set (set stages i l) i (get_or stages i []) ≡ stages
set-set [] i l = refl
set-set (s ∷ stages) zero l = refl
set-set (s ∷ stages) (suc i) l = ap (λ t. s ∷ t) (set-set stages i l)

-- What gnr_msg_addmsghandler does: nothing, or the handler is put into its stage.
pub addmsghandler_lem :
    (malloc : ℕ → Option (List ℕ)) (stages : List (List Mh)) (owner stage : ℕ) (position : ℤ)
    (handlerfunc : ℕ) (desc : List ℕ)
    → (addmsghandler malloc stages owner stage position handlerfunc desc ≡ (false, stages))
      ⊎ ((mh : Mh) × (addmsghandler malloc stages owner stage position handlerfunc desc
            ≡ (true, set stages stage (mh_insert (get_or stages stage []) mh)))
          × (mh.handlerfunc ≡ handlerfunc)
          × (mh.owner ≡ owner)
          × (pos mh.position ≡ position)
          × (mh.position ≤ pos_max)
          × (stage ≤ stage_max))
unfolding addmsghandler
addmsghandler_lem malloc stages owner stage (negsuc n) f desc =
    inl (elim (Bool-cases (ltb stage_max stage)) [ inl e ↦ rw e refl | inr e ↦ rw e refl ])
addmsghandler_lem malloc stages owner stage (pos p) f desc =
    elim (Bool-cases (ltb stage_max stage)) [
      | inl e ↦ inl (rw e refl)
      | inr e ↦ elim (Bool-cases (ltb pos_max p)) [
        | inl e' ↦ inl (rw (e, e') refl)
        | inr e' ↦ elim (Option-cases (malloc mh_size)) [
          | inl a ↦ inl (rw (e, e', a) refl)
          | inr (_, a) ↦ elim (Option-cases (malloc (length desc + 1))) [
            | inl b ↦ inl (rw (e, e', a, b) refl)
            | inr (_, b) ↦ inr (
              record { position = p; owner = owner; handlerfunc = f; description = desc },
              rw (e, e', a, b) refl,
              refl,
              refl,
              refl,
              ground (arith, e'),
              ground (arith, e),
            )
          ]
        ]
      ]
    ]

pub remmsghandler_lem :
    (stages : List (List Mh)) (stage f : ℕ)
    → ((remmsghandler stages stage f).1 ≡ stages)
      ⊎ ((remmsghandler stages stage f).1
          ≡ set stages stage (mh_remove (get_or stages stage []) f).1)
unfolding remmsghandler
remmsghandler_lem stages stage f = elim (Bool-cases (ltb stage_max stage)) [
  | inl e ↦ inl (rw e refl)
  | inr e ↦ elim (Option-cases (mh_remove (get_or stages stage []) f).0) [
    | inl a ↦ inl (rw (e, a) refl)
    | inr (_, a) ↦ inr (rw (e, a) refl)
  ]
]

Step-IsTable : {s t : List (List Mh)} → Step s t → IsTable s → IsTable t
Step-IsTable (add malloc s owner stage position f desc) (n, u) =
    elim (addmsghandler_lem malloc s owner stage position f desc) [
      | inl e ↦ rw e (n, u)
      | inr (mh, e, _, _, _, inside, _) ↦
          let (sorted, small) = get_or-IsStage s stage u in
          rw e (
            length-set s stage (mh_insert (get_or s stage []) mh) ∙ n,
            set-IsTable s stage (mh_insert (get_or s stage []) mh) u (
              mh_insert-IsSorted (get_or s stage []) mh sorted,
              mh_insert-bounded pos_max (get_or s stage []) mh small inside,
            ),
          )
    ]
Step-IsTable (rem s stage f) (n, u) = elim (remmsghandler_lem s stage f) [
  | inl e ↦ rw e (n, u)
  | inr e ↦
      let (sorted, small) = get_or-IsStage s stage u in
      let l : List Mh = (mh_remove (get_or s stage []) f).1 in
      rw e (
        length-set s stage l ∙ n,
        set-IsTable s stage l u (
          mh_remove-IsSorted (get_or s stage []) f sorted,
          mh_remove-bounded pos_max (get_or s stage []) f small,
        ),
      )
]

-- After any calls of gnr_msg_addmsghandler and gnr_msg_remmsghandler on the empty lists, with
-- memory granted or refused at each, there are three lists of handlers, each ordered by position,
-- with no position above 100.
pub Reach-IsTable : {t : List (List Mh)} → Reach t → IsTable t
Reach-IsTable start = (refl, ((tt, tt), ((tt, tt), ((tt, tt), tt))))
Reach-IsTable (next r st) = Step-IsTable st (Reach-IsTable r)

-- Where gnr_msg_addmsghandler returns 0 on good lists, the new handler stands in its stage behind
-- all handlers of lower positions and before all handlers of its own position or a higher one,
-- and those keep their order.
pub addmsghandler-Placed :
    (malloc : ℕ → Option (List ℕ)) (stages stages' : List (List Mh)) (owner stage position f : ℕ)
    (desc : List ℕ)
    → IsTable stages
    → addmsghandler malloc stages owner stage (pos position) f desc ≡ (true, stages')
    → (mh : Mh) × (mh.handlerfunc ≡ f)
      × (mh.owner ≡ owner)
      × (mh.position ≡ position)
      × Placed (get_or stages stage []) mh (get_or stages' stage [])
addmsghandler-Placed malloc stages stages' owner stage position f desc (n, u) e =
    elim (addmsghandler_lem malloc stages owner stage (pos position) f desc) [
      | inl e' ↦ absurd (cc (e, e'))
      | inr (mh, e', ef, eo, ep, _, inside) ↦
          let l : List Mh = mh_insert (get_or stages stage []) mh in
          let new : set stages stage l ≡ stages' = ap (λ p. p.1) (sym e' ∙ e) in
          (
            mh,
            ef,
            eo,
            ap (λ p. elim p [ pos k ↦ k | negsuc k ↦ 0 ]) ep,
            subst (Placed (get_or stages stage []) mh)
                (sym (get_or-set stages stage l (omega (arith, n, inside)))
                  ∙ ap (λ t. get_or t stage []) new)
                (mh_insert-Placed (get_or stages stage []) mh (get_or-IsStage stages stage u).0),
          )
    ]

remmsghandler_found :
    (stages : List (List Mh)) (stage f : ℕ) (mh : Mh) (rest : List Mh)
    → stage ≤ stage_max
    → mh_remove (get_or stages stage []) f ≡ (some mh, rest)
    → remmsghandler stages stage f ≡ (true, set stages stage rest)
unfolding remmsghandler
remmsghandler_found stages stage f mh rest inside e =
    let ok : ltb stage_max stage ≡ false = ground (arith, inside) in
    let e1 : (mh_remove (get_or stages stage []) f).0 ≡ some mh = ap (λ p. p.0) e in
    let e2 : (mh_remove (get_or stages stage []) f).1 ≡ rest = ap (λ p. p.1) e in
    rw (ok, e1, e2) refl

-- If good lists have no handler with a function in a stage, and gnr_msg_addmsghandler adds one,
-- then gnr_msg_remmsghandler of that function and stage returns 0 and gives the old lists back.
pub remmsghandler-addmsghandler :
    (malloc : ℕ → Option (List ℕ)) (stages stages' : List (List Mh)) (owner stage : ℕ)
    (position : ℤ) (f : ℕ) (desc : List ℕ)
    → IsTable stages
    → (remmsghandler stages stage f).0 ≡ false
    → addmsghandler malloc stages owner stage position f desc ≡ (true, stages')
    → remmsghandler stages' stage f ≡ (true, stages)
unfolding remmsghandler
remmsghandler-addmsghandler malloc stages stages' owner stage position f desc (n, _) absent e =
    elim (addmsghandler_lem malloc stages owner stage position f desc) [
      | inl e' ↦ absurd (cc (e, e'))
      | inr (mh, e', ef, _, _, _, inside) ↦
          let old : List Mh = get_or stages stage [] in
          let l : List Mh = mh_insert old mh in
          let ok : ltb stage_max stage ≡ false = ground (arith, inside) in
          let new : set stages stage l ≡ stages' = ap (λ p. p.1) (sym e' ∙ e) in
          let none_there : (mh_remove old f).0 ≡ none = not_there ok in
          let found : mh_remove l f ≡ (some mh, old) =
            ap (mh_remove l) (sym ef)
            ∙ mh_remove-mh_insert old mh (ap (λ k. (mh_remove old k).0) ef ∙ none_there) in
          ap (λ t. remmsghandler t stage f) (sym new)
          ∙ remmsghandler_found (set stages stage l) stage f mh old inside (
              ap (λ k. mh_remove k f) (get_or-set stages stage l (omega (arith, n, inside)))
              ∙ found)
          ∙ ap (λ t. (true, t)) (set-set stages stage l)
    ]
  where
    not_there : ltb stage_max stage ≡ false → (mh_remove (get_or stages stage []) f).0 ≡ none
    not_there ok = elim (Option-cases (mh_remove (get_or stages stage []) f).0) [
      | inl a ↦ a
      | inr (_, a) ↦ absurd (ground (arith, absent, ok, a))
    ]
