-- ===== src/Conn/Count.antt =====
-- naf/conn.c: what naf_conn_free keeps, and naf_conn__openconns against the open connections.
use timps.Prelude.{
  ℕ, zero, suc, ◌+◌, ◌-◌, ◌%◌, ◌^◌, ◌≡◌, inl, inr, refl, sym, ◌∙◌, ap, Bool, true, false,
  Bool-cases, Option-cases, Option, none, some, List, [], ◌∷◌, ◌==◌, if◌then◌else◌, arith, length,
}
use mathlib.Core.Path.{subst}
use timps.Conn.{
  Conn, Conns, lookup, adjust, closefdt, addresses, points, stays, cut_round, cut_links, tell,
  naf_conn_free,
}
use timps.Conn.Store.{is_open, lookup-closefdt, length-adjust}
use timps.Conn.Sweep.{is_open-adjust}

-- A property that survives a cut link and a closed descriptor survives naf_conn_free.
module _ (P : Conns → Type 0)
    (cut_keeps : (s : Conns) (id : ℕ) (cut : Conn → Conn)
      → ((c : Conn) → (cut c).id ≡ c.id)
      → P s
      → P (record s { conns = adjust s.conns id cut }))
    (close_keeps : (s : Conns) (id : ℕ) (conn : Conn)
      → lookup s.conns id ≡ some conn
      → P s
      → P (record s {
        conns = closefdt s.conns id;
        openconns = (s.openconns + (2 ^ 32 - 1)) % 2 ^ 32;
        killed = tell conn s.killed;
      })) where
  abbrev Keeps : (ℕ → Conns → Option Conns) → Type 0
  Keeps free = (id : ℕ) (s s' : Conns) → free id s ≡ some s' → P s → P s'

  cut_round-Keeps :
      (free : ℕ → Conns → Option Conns) (link : Conn → Option ℕ) (cut : Conn → Conn) (dead : ℕ)
      → Keeps free
      → ((c : Conn) → (cut c).id ≡ c.id)
      → (id : ℕ) (s s' : Conns) → cut_round free link cut dead id s ≡ some s'
      → P s
      → P s'
  unfolding cut_round
  cut_round-Keeps free link cut dead keeps same id s s' e p =
      elim (Option-cases (lookup s.conns id)) [
        | inl n ↦ subst P (ground (arith, e, n)) p
        | inr (conn, n) ↦ elim (Bool-cases (points (link conn) dead)) [
          | inr away ↦ subst P (ground (arith, e, n, away)) p
          | inl at ↦ elim (Bool-cases (stays conn.type)) [
            | inl stay ↦ subst P (ground (arith, e, n, at, stay)) (cut_keeps s id cut same p)
            | inr go ↦
                keeps id (record s { conns = adjust s.conns id cut }) s'
                  (ground (arith, e, n, at, go)) (cut_keeps s id cut same p)
          ]
        ]
      ]

  cut_links-Keeps :
      (free : ℕ → Conns → Option Conns) (link : Conn → Option ℕ) (cut : Conn → Conn) (dead : ℕ)
      → Keeps free
      → ((c : Conn) → (cut c).id ≡ c.id)
      → (ids : List ℕ) (s s' : Conns) → cut_links free link cut dead ids s ≡ some s'
      → P s
      → P s'
  unfolding cut_links
  cut_links-Keeps free link cut dead keeps same [] s s' e p = subst P (ground (arith, e)) p
  cut_links-Keeps free link cut dead keeps same (id ∷ ids) s s' e p =
      elim (Option-cases (cut_round free link cut dead id s)) [
        | inl n ↦ absurd (ground (arith, e, n))
        | inr (s1, n) ↦
            cut_links-Keeps free link cut dead keeps same ids s1 s' (ground (arith, e, n))
              (cut_round-Keeps free link cut dead keeps same id s s1 n p)
      ]

  pub naf_conn_free-Keeps : (n : ℕ) → Keeps (naf_conn_free n)
  unfolding naf_conn_free
  naf_conn_free-Keeps zero id s s' e p = absurd (ground (arith, e))
  naf_conn_free-Keeps (suc n) id s s' e p = elim (Option-cases (lookup s.conns id)) [
    | inl m ↦ absurd (ground (arith, e, m))
    | inr (conn, m) ↦
        let s1 : Conns = record s {
          conns = closefdt s.conns id;
          openconns = (s.openconns + (2 ^ 32 - 1)) % 2 ^ 32;
          killed = tell conn s.killed;
        } in
        elim (Option-cases (
          cut_links (naf_conn_free n) (λ c. c.parent) (λ c. record c { parent = none }) id
            (addresses s1.conns) s1)) [
              | inl m2 ↦ absurd (ground (arith, rw (naf_conn_free, m, m2) at e))
              | inr (s2, m2) ↦
                  let p2 =
                    cut_links-Keeps (naf_conn_free n) (λ c. c.parent)
                      (λ c. record c { parent = none }) id (naf_conn_free-Keeps n) (λ c. refl)
                      (addresses s1.conns) s1 s2 m2 (close_keeps s id conn m p) in
                  cut_links-Keeps (naf_conn_free n) (λ c. c.endpoint)
                    (λ c. record c { endpoint = none }) id (naf_conn_free-Keeps n) (λ c. refl)
                    (addresses s2.conns) s2 s' (rw (naf_conn_free, m, m2) at e) p2
            ]
  ]

-- No address is in use twice.
abbrev pub Distinct : List Conn → Type 0
Distinct [] = Unit {0}
Distinct (c ∷ cs) = (is_open cs c.id ≡ false) × Distinct cs

pub record IsCounted (s : Conns) : Type 0 where
  pub distinct : Distinct s.conns
  pub counted : s.openconns ≡ length s.conns % 2 ^ 32

pub Distinct-adjust :
    (l : List Conn) (k : ℕ) (f : Conn → Conn)
    → ((c : Conn) → (f c).id ≡ c.id)
    → Distinct l
    → Distinct (adjust l k f)
unfolding adjust
Distinct-adjust [] k f same d = tt
Distinct-adjust (c ∷ cs) k f same (fresh, d) = (
  ap (is_open (adjust cs k f)) (own (c.id == k)) ∙ is_open-adjust cs k c.id f same ∙ fresh,
  Distinct-adjust cs k f same d,
)
  where
    own : (b : Bool) → (if b then f c else c).id ≡ c.id
    own true = same c
    own false = refl

shut-closefdt : (l : List Conn) (d t : ℕ) → is_open l t ≡ false → is_open (closefdt l d) t ≡ false
shut-closefdt l d t h = elim (Bool-cases (t == d)) [
  | inl e ↦ ground (arith, lookup-closefdt l d t, e)
  | inr e ↦
      ap (λ o. elim o as (λ _. Bool) [ none ↦ false | some _ ↦ true ])
        (lookup-closefdt l d t ∙ rw e refl)
      ∙ h
]

Distinct-closefdt : (l : List Conn) (d : ℕ) → Distinct l → Distinct (closefdt l d)
unfolding closefdt
Distinct-closefdt [] d u = tt
Distinct-closefdt (c ∷ cs) d (fresh, u) = elim (Bool-cases (c.id == d)) [
  | inl e ↦ rw e (Distinct-closefdt cs d u)
  | inr e ↦ rw e (shut-closefdt cs d c.id fresh, Distinct-closefdt cs d u)
]

closefdt_absent : (l : List Conn) (d : ℕ) → is_open l d ≡ false → closefdt l d ≡ l
unfolding closefdt lookup
closefdt_absent [] d h = refl
closefdt_absent (c ∷ cs) d h = elim (Bool-cases (c.id == d)) [
  | inl e ↦ absurd (ground (arith, h, e))
  | inr e ↦ rw e (ap (λ l. c ∷ l) (closefdt_absent cs d (rw (e, is_open, lookup) at h)))
]

length-closefdt :
    (l : List Conn) (d : ℕ)
    → Distinct l
    → is_open l d ≡ true
    → suc (length (closefdt l d)) ≡ length l
unfolding closefdt lookup
length-closefdt [] d u h = absurd (ground arith)
length-closefdt (c ∷ cs) d (fresh, u) h = elim (Bool-cases (c.id == d)) [
  | inl e ↦
      let id_d : c.id ≡ d = ground (arith, e) in
      rw e (ap (λ l. suc (length l)) (closefdt_absent cs d (ap (is_open cs) (sym id_d) ∙ fresh)))
  | inr e ↦ rw e (ap suc (length-closefdt cs d u (ground (arith, h, e))))
]

pub naf_conn_free-IsCounted :
    (n id : ℕ) (s s' : Conns) → naf_conn_free n id s ≡ some s' → IsCounted s → IsCounted s'
naf_conn_free-IsCounted n =
    naf_conn_free-Keeps IsCounted
      (λ s id cut same k. record {
        distinct = Distinct-adjust s.conns id cut same k.distinct;
        counted = k.counted ∙ ap (λ m. m % 2 ^ 32) (sym (length-adjust s.conns id cut));
      })
      (λ s id conn e k. record {
        distinct = Distinct-closefdt s.conns id k.distinct;
        counted =
            omega (arith, k.counted, length-closefdt s.conns id k.distinct (ground (arith, e)));
      })
      n
