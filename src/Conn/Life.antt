-- ===== src/Conn/Life.antt =====
-- naf/conn.c: connections from their making to their end, by any sequence of accepted connections,
-- connects and deaths.
use timps.Prelude.{
  ℕ, ◌+◌, ◌%◌, ◌^◌, ◌≡◌, inl, inr, sym, ◌∙◌, ap, true, false, Bool-cases, Option-cases, Option,
  none, some, List, [], ◌∷◌, ◌++◌, ◌==◌, if◌then◌else◌, arith, length, length-append,
}
use mathlib.Core.Path.{subst}
use timps.Conn.{Conn, Conns, lookup, adjust}
use timps.Conn.Store.{is_open, lookup-adjust, length-adjust, Target, IsLinked}
use timps.Conn.Sweep.{is_open-adjust}
use timps.Conn.Count.{Distinct, IsCounted, Distinct-adjust}

pub record IsSound (s : Conns) : Type 0 where
  pub linked : IsLinked [] s.conns
  pub right : IsCounted s

abbrev pub no_conns : Conns
no_conns = record { conns = []; nextcid = 0; openconns = 0; killed = [] }

-- nbio_addfd puts a descriptor somewhere into its list and leaves the others as they are.
abbrev pub IsAddfd : (List Conn → Conn → Option (List Conn)) → Type 0
IsAddfd addfd =
    (l : List Conn) (c : Conn) (l' : List Conn)
    → addfd l c ≡ some l'
    → (front back : List Conn) × (l ≡ front ++ back) × (l' ≡ front ++ (c ∷ back))

-- An owner's takeconn changes neither the address nor the parent of a connection.
abbrev pub IsTakeconn : (Conn → Conn) → Type 0
IsTakeconn takeconn = (c : Conn) → ((takeconn c).id ≡ c.id) × ((takeconn c).parent ≡ c.parent)

pub lookup-insert :
    (front back : List Conn) (c : Conn) (t : ℕ)
    → is_open (front ++ back) c.id ≡ false
    → lookup (front ++ (c ∷ back)) t ≡ (if t == c.id then some c else lookup (front ++ back) t)
unfolding lookup
lookup-insert [] back c t h = ground arith
lookup-insert (x ∷ front) back c t h =
    ground (arith, h, lookup-insert front back c t (ground (arith, h)))

Distinct-insert :
    (front back : List Conn) (c : Conn)
    → is_open (front ++ back) c.id ≡ false
    → Distinct (front ++ back)
    → Distinct (front ++ (c ∷ back))
unfolding lookup
Distinct-insert [] back c h u = (h, u)
Distinct-insert (x ∷ front) back c h (fresh, u) =
    let away : is_open (front ++ back) c.id ≡ false = ground (arith, h) in
    (
      ground (arith, h, fresh, lookup-insert front back c x.id away),
      Distinct-insert front back c away u,
    )

is_open-insert :
    (front back : List Conn) (c : Conn) (t : ℕ)
    → is_open (front ++ back) c.id ≡ false
    → is_open (front ++ back) t ≡ true
    → is_open (front ++ (c ∷ back)) t ≡ true
is_open-insert front back c t h o = elim (Bool-cases (t == c.id)) [
  | inl e ↦ ground (arith, lookup-insert front back c t h, e)
  | inr e ↦ elim (Option-cases (lookup (front ++ back) t)) [
    | inl n ↦ absurd (ground (arith, n, o))
    | inr (x, n) ↦ ground (arith, lookup-insert front back c t h, e, n)
  ]
]

-- A connection without links comes in.
pub insert-IsSound :
    (s : Conns) (front back : List Conn) (c : Conn) (k : ℕ)
    → s.conns ≡ front ++ back
    → is_open s.conns c.id ≡ false
    → (c.endpoint ≡ none) × (c.parent ≡ none)
    → IsSound s
    → IsSound (record s {
      conns = front ++ (c ∷ back);
      nextcid = k;
      openconns = (s.openconns + 1) % 2 ^ 32;
    })
insert-IsSound s front back c k parts new (no_e, no_p) v = record {
  linked = record {
    endpoint_open =
        λ t x e. look t x e (λ y. y.endpoint) no_e (λ old. v.linked.endpoint_open t x old);
    parent_open = λ t x e. look t x e (λ y. y.parent) no_p (λ old. v.linked.parent_open t x old);
  };
  right = record {
    distinct = Distinct-insert front back c new' (subst Distinct parts v.right.distinct);
    counted = omega (
      arith,
      v.right.counted,
      ap length parts,
      length-append front back,
      length-append front (c ∷ back),
    );
  };
}
  where
    new' : is_open (front ++ back) c.id ≡ false
    new' = subst (λ l. is_open l c.id ≡ false) parts new

    grow : (o : Option ℕ) → Target [] s.conns o → Target [] (front ++ (c ∷ back)) o
    grow none h = tt
    grow (some t) h =
        ground (
          arith,
          is_open-insert front back c t new' (ground (arith, ap (λ l. is_open l t) parts, h)),
        )

    look :
        (t : ℕ) (x : Conn)
        → lookup (front ++ (c ∷ back)) t ≡ some x
        → (link : Conn → Option ℕ) → link c ≡ none
        → (lookup s.conns t ≡ some x → Target [] s.conns (link x))
        → Target [] (front ++ (c ∷ back)) (link x)
    look t x e link unlinked old = elim (Bool-cases (t == c.id)) [
      | inl here ↦
          let same : c ≡ x = ground (arith, lookup-insert front back c t new', e, here) in
          subst (λ o. Target [] (front ++ (c ∷ back)) o) (sym unlinked ∙ ap link same) tt
      | inr there ↦ grow (link x) (
          old (
            ground
              (arith, lookup-insert front back c t new', e, there, ap (λ l. lookup l t) parts)))
    ]

-- A write leaves links that point at open connections.
pub adjust-IsSound :
    (s : Conns) (k : ℕ) (f : Conn → Conn)
    → ((c : Conn) → (f c).id ≡ c.id)
    → ((c : Conn)
        → lookup s.conns k ≡ some c
        → Target [] s.conns (f c).endpoint × Target [] s.conns (f c).parent)
    → IsSound s
    → IsSound (record s { conns = adjust s.conns k f })
adjust-IsSound s k f same ok v = record {
  linked = record {
    endpoint_open = λ t x e.
        look t x e (λ y. y.endpoint) (λ c ec. (ok c ec).0) (λ old. v.linked.endpoint_open t x old);
    parent_open = λ t x e.
        look t x e (λ y. y.parent) (λ c ec. (ok c ec).1) (λ old. v.linked.parent_open t x old);
  };
  right = record {
    distinct = Distinct-adjust s.conns k f same v.right.distinct;
    counted = v.right.counted ∙ ap (λ m. m % 2 ^ 32) (sym (length-adjust s.conns k f));
  };
}
  where
    stay : (o : Option ℕ) → Target [] s.conns o → Target [] (adjust s.conns k f) o
    stay none h = tt
    stay (some t) h = rw (is_open-adjust s.conns k t f same) h

    look :
        (t : ℕ) (x : Conn)
        → lookup (adjust s.conns k f) t ≡ some x
        → (link : Conn → Option ℕ)
        → ((c : Conn) → lookup s.conns k ≡ some c → Target [] s.conns (link (f c)))
        → (lookup s.conns t ≡ some x → Target [] s.conns (link x))
        → Target [] (adjust s.conns k f) (link x)
    look t x e link at old = stay (link x) (elim (Bool-cases (t == k)) [
      | inr there ↦ old (ground (arith, lookup-adjust s.conns k t f same, e, there))
      | inl here ↦ elim (Option-cases (lookup s.conns t)) [
        | inl n ↦ absurd (ground (arith, lookup-adjust s.conns k t f same, e, here, n))
        | inr (c, n) ↦
            let fx : f c ≡ x = ground (arith, lookup-adjust s.conns k t f same, e, here, n) in
            subst (λ y. Target [] s.conns (link y)) fx (at c (ground (arith, n, here)))
      ]
    ])
