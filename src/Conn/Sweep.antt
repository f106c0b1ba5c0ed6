-- ===== src/Conn/Sweep.antt =====
-- naf/conn.c: the loops of remchildren and remendpoint, over whatever frees a single connection.
use timps.Prelude.{
  ℕ, ◌≤◌, ◌≡◌, ◌⊎◌, inl, inr, refl, ap, true, false, ◌||◌, Bool-cases, Option-cases, Option, none,
  some, List, [], ◌∷◌, ◌==◌, arith, length,
}
use timps.Conn.{Conn, Conns, lookup, adjust, points, stays, cut_round, cut_links}
use timps.Conn.Store.{
  is_open, elem, lookup-adjust, length-adjust, Target, IsLinked, Kept, Shrinks, Shrinks-refl,
  Shrinks-trans, points-Kept,
}

-- Links stay good where what was open still is, or is dying now.
pub IsLinked-Shrinks :
    (dying dying' : List ℕ) (l l' : List Conn)
    → Shrinks l l'
    → ((t : ℕ) → (is_open l t || elem t dying) ≡ true → (is_open l' t || elem t dying') ≡ true)
    → IsLinked dying l
    → IsLinked dying' l'
IsLinked-Shrinks dying dying' l l' sh keep k = record {
  endpoint_open = λ id c' e.
      let (c, ec, ke, kp) = sh.from id c' e in
      move c.endpoint c'.endpoint ke (k.endpoint_open id c ec);
  parent_open = λ id c' e.
      let (c, ec, ke, kp) = sh.from id c' e in move c.parent c'.parent kp (k.parent_open id c ec);
}
  where
    kept : (o : Option ℕ) → Target dying l o → Target dying' l' o
    kept none h = tt
    kept (some t) h = keep t h

    move : (old now : Option ℕ) → Kept old now → Target dying l old → Target dying' l' now
    move old now (inl e) h = rw e tt
    move old now (inr e) h = rw e (kept old h)

-- How a loop cuts a link.
pub record IsCut (link : Conn → Option ℕ) (cut : Conn → Conn) : Type 0 where
  pub keeps_id : (c : Conn) → (cut c).id ≡ c.id
  pub cuts : (c : Conn) → link (cut c) ≡ none
  pub keeps_endpoint : (c : Conn) → Kept c.endpoint (cut c).endpoint
  pub keeps_parent : (c : Conn) → Kept c.parent (cut c).parent
  pub follows :
      (c c' : Conn)
      → Kept c.endpoint c'.endpoint
      → Kept c.parent c'.parent
      → Kept (link c) (link c')

pub is_open-adjust :
    (l : List Conn) (k t : ℕ) (f : Conn → Conn)
    → ((c : Conn) → (f c).id ≡ c.id)
    → is_open (adjust l k f) t ≡ is_open l t
is_open-adjust l k t f keeps = elim (Option-cases (lookup l t)) [
  | inl e ↦ ground (arith, lookup-adjust l k t f keeps, e)
  | inr (c, e) ↦ ground (arith, lookup-adjust l k t f keeps, e)
]

-- What freeing a connection does, on lists of at most `n` connections.
abbrev pub Frees : ℕ → (ℕ → Conns → Option Conns) → Type 0
Frees n free =
    (id : ℕ) (dying : List ℕ) (s : Conns)
    → length s.conns ≤ n
    → is_open s.conns id ≡ true
    → IsLinked dying s.conns
    → (s' : Conns) × (free id s ≡ some s')
      × Shrinks s.conns s'.conns
      × IsLinked dying s'.conns
      × (is_open s'.conns id ≡ false)

module _ (link : Conn → Option ℕ) (cut : Conn → Conn) (ok : IsCut link cut) (dead : ℕ) where
  adjust_at :
      (l : List Conn) (k id : ℕ) (c' : Conn)
      → lookup (adjust l k cut) id ≡ some c'
      → (c : Conn) × (lookup l id ≡ some c) × ((c' ≡ c) ⊎ (c' ≡ cut c))
  adjust_at l k id c' e = elim (Option-cases (lookup l id)) [
    | inl n ↦ absurd (ground (arith, lookup-adjust l k id cut ok.keeps_id, n, e))
    | inr (c, n) ↦ elim (Bool-cases (id == k)) [
      | inl here ↦ (c, n, inr (ground (arith, lookup-adjust l k id cut ok.keeps_id, n, e, here)))
      | inr there ↦ (c, n, inl (ground (arith, lookup-adjust l k id cut ok.keeps_id, n, e, there)))
    ]
  ]

  Kept-cut :
      (c c' : Conn)
      → (c' ≡ c) ⊎ (c' ≡ cut c)
      → Kept c.endpoint c'.endpoint × Kept c.parent c'.parent
  Kept-cut c c' (inl e) = (inr (ap (λ x. x.endpoint) e), inr (ap (λ x. x.parent) e))
  Kept-cut c c' (inr e) = rw e (ok.keeps_endpoint c, ok.keeps_parent c)

  Shrinks-adjust : (l : List Conn) (k : ℕ) → Shrinks l (adjust l k cut)
  Shrinks-adjust l k = record {
    shorter = omega (arith, length-adjust l k cut);
    from = λ id c' e.
        let (c, ec, how) = adjust_at l k id c' e in
        let (ke, kp) = Kept-cut c c' how in (c, ec, ke, kp);
  }

  module _ (n : ℕ) (free : ℕ → Conns → Option Conns) (frees : Frees n free) (dying : List ℕ) where
    cut_round_lem :
        (id : ℕ) (s : Conns)
        → length s.conns ≤ n
        → IsLinked dying s.conns
        → (s' : Conns) × (cut_round free link cut dead id s ≡ some s')
          × Shrinks s.conns s'.conns
          × IsLinked dying s'.conns
          × ((c : Conn) → lookup s'.conns id ≡ some c → points (link c) dead ≡ false)
    unfolding cut_round
    cut_round_lem id s small k = elim (Option-cases (lookup s.conns id)) [
      | inl e ↦ (
        s,
        rw (cut_round, e) refl,
        Shrinks-refl s.conns,
        k,
        λ c ec. absurd (ground (arith, e, ec)),
      )
      | inr (conn, e) ↦ elim (Bool-cases (points (link conn) dead)) [
        | inr away ↦ (
          s,
          rw (cut_round, e, away) refl,
          Shrinks-refl s.conns,
          k,
          λ c ec. let same : conn ≡ c = ground (arith, e, ec) in rw (← same) away,
        )
        | inl at ↦
            let s1 : Conns = record s { conns = adjust s.conns id cut } in
            let sh : Shrinks s.conns s1.conns = Shrinks-adjust s.conns id in
            let k1 : IsLinked dying s1.conns =
              IsLinked-Shrinks dying dying s.conns s1.conns sh
                (λ t h. rw (is_open-adjust s.conns id t cut ok.keeps_id) h) k in
            let own : lookup s1.conns id ≡ some (cut conn) =
              ground (arith, lookup-adjust s.conns id id cut ok.keeps_id, e) in
            elim (Bool-cases (stays conn.type)) [
              | inl stay ↦ (
                s1,
                rw (cut_round, e, at, stay) refl,
                sh,
                k1,
                λ c ec.
                    let same : cut conn ≡ c = ground (arith, own, ec) in
                    rw (← same, ok.cuts conn) refl,
              )
              | inr go ↦
                  let (s', r, sh', k', shut) =
                    frees id dying s1 (omega (arith, small, sh.shorter)) (ground (arith, own)) k1 in
                  (
                    s',
                    rw (cut_round, e, at, go) r,
                    Shrinks-trans s.conns s1.conns s'.conns sh sh',
                    k',
                    λ c ec. absurd (ground (arith, shut, ec)),
                  )
            ]
      ]
    ]

    -- The whole loop: what it passes does not point at the dead connection any more.
    pub cut_links_lem :
        (ids : List ℕ) (s : Conns)
        → length s.conns ≤ n
        → IsLinked dying s.conns
        → (s' : Conns) × (cut_links free link cut dead ids s ≡ some s')
          × Shrinks s.conns s'.conns
          × IsLinked dying s'.conns
          × ((id : ℕ) (c : Conn)
              → elem id ids ≡ true
              → lookup s'.conns id ≡ some c
              → points (link c) dead ≡ false)
    unfolding cut_links
    cut_links_lem [] s small k = (s, refl, Shrinks-refl s.conns, k, λ id c h e. absurd (cc))
    cut_links_lem (x ∷ ids) s small k =
        let (s1, r1, sh1, k1, p1) = cut_round_lem x s small k in
        let (s2, r2, sh2, k2, p2) = cut_links_lem ids s1 (omega (arith, small, sh1.shorter)) k1 in
        (
          s2,
          rw r1 r2,
          Shrinks-trans s.conns s1.conns s2.conns sh1 sh2,
          k2,
          λ id c h e. elim (Bool-cases (x == id)) [
            | inr there ↦ p2 id c (ground (arith, h, there)) e
            | inl here ↦
                let (c1, e1, ke, kp) = sh2.from id c e in
                let at_x : lookup s1.conns x ≡ some c1 = ground (arith, e1, here) in
                points-Kept (link c1) (link c) dead (ok.follows c1 c ke kp) (p1 c1 at_x)
          ],
        )
