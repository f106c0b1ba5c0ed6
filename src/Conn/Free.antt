-- ===== src/Conn/Free.antt =====
-- naf/conn.c: naf_conn_free with all that it frees in turn.
use timps.Prelude.{
  ℕ, zero, suc, ◌+◌, ◌-◌, ◌%◌, ◌^◌, ◌≤◌, ◌≡◌, inl, inr, refl, true, false, ◌||◌, Bool-cases,
  Option-cases, Option, none, some, List, ◌∷◌, ◌==◌, arith, length,
}
use timps.Conn.{Conn, Conns, lookup, closefdt, addresses, points, tell, naf_conn_free}
use timps.Conn.Store.{
  is_open, elem, lookup-closefdt, lookup-addresses, length-closefdt_lt, Target, IsLinked, Shrinks,
  Shrinks-trans, Shrinks-closefdt, Free, points-Kept,
}
use timps.Conn.Sweep.{IsCut, IsLinked-Shrinks, Frees, cut_links_lem}

parent-IsCut : IsCut (λ c. c.parent) (λ c. record c { parent = none })
parent-IsCut = record {
  keeps_id = λ c. refl;
  cuts = λ c. refl;
  keeps_endpoint = λ c. inr refl;
  keeps_parent = λ c. inl refl;
  follows = λ c c' ke kp. kp;
}

endpoint-IsCut : IsCut (λ c. c.endpoint) (λ c. record c { endpoint = none })
endpoint-IsCut = record {
  keeps_id = λ c. refl;
  cuts = λ c. refl;
  keeps_endpoint = λ c. inl refl;
  keeps_parent = λ c. inr refl;
  follows = λ c c' ke kp. ke;
}

pub Shrinks-shut :
    (l l' : List Conn) (t : ℕ) → Shrinks l l' → is_open l t ≡ false → is_open l' t ≡ false
Shrinks-shut l l' t sh h = elim (Option-cases (lookup l' t)) [
  | inl e ↦ ground (arith, e)
  | inr (c, e) ↦ let (c1, e1, _, _) = sh.from t c e in absurd (ground (arith, e1, h))
]

is_open-some : (l : List Conn) (t : ℕ) (c : Conn) → lookup l t ≡ some c → is_open l t ≡ true
is_open-some l t c e = ground (arith, e)

closing :
    (l : List Conn) (d : ℕ) (dying : List ℕ) (t : ℕ)
    → (is_open l t || elem t dying) ≡ true
    → (is_open (closefdt l d) t || elem t (d ∷ dying)) ≡ true
closing l d dying t h = elim (Bool-cases (t == d)) [
  | inl e ↦ ground (arith, lookup-closefdt l d t, e)
  | inr e ↦ elim (Option-cases (lookup l t)) [
    | inl n ↦ ground (arith, lookup-closefdt l d t, e, n, h)
    | inr (c, n) ↦ ground (arith, lookup-closefdt l d t, e, n)
  ]
]

-- With no link left at the dead connection, it need not count as dying.
buried :
    (l : List Conn) (d : ℕ) (dying : List ℕ) (o : Option ℕ)
    → Target (d ∷ dying) l o
    → points o d ≡ false
    → Target dying l o
buried l d dying none h p = tt
buried l d dying (some t) h p = elim (Bool-cases (is_open l t)) [
  | inl e ↦ rw e refl
  | inr e ↦ ground (arith, h, p, e)
]

pub naf_conn_free-Frees : (n : ℕ) → Frees n (naf_conn_free n)
unfolding naf_conn_free
naf_conn_free-Frees zero id dying s small op k =
    absurd (omega (arith, small, length-closefdt_lt s.conns id op))
naf_conn_free-Frees (suc n) id dying s small op k = elim (Option-cases (lookup s.conns id)) [
  | inl e ↦ absurd (ground (arith, op, e))
  | inr (conn, e) ↦
      let s1 : Conns = record s {
        conns = closefdt s.conns id;
        openconns = (s.openconns + (2 ^ 32 - 1)) % 2 ^ 32;
        killed = tell conn s.killed;
      } in
      let sh1 : Shrinks s.conns s1.conns = Shrinks-closefdt s.conns id in
      let fewer : length s1.conns ≤ n = omega (arith, small, length-closefdt_lt s.conns id op) in
      let k1 : IsLinked (id ∷ dying) s1.conns =
        IsLinked-Shrinks dying (id ∷ dying) s.conns s1.conns sh1 (closing s.conns id dying) k in
      let (s2, r2, sh2, k2, p2) =
        cut_links_lem (λ c. c.parent) (λ c. record c { parent = none }) parent-IsCut id n
          (naf_conn_free n) (naf_conn_free-Frees n) (id ∷ dying) (addresses s1.conns) s1 fewer k1 in
      let (s3, r3, sh3, k3, p3) =
        cut_links_lem (λ c. c.endpoint) (λ c. record c { endpoint = none }) endpoint-IsCut id n
          (naf_conn_free n) (naf_conn_free-Frees n) (id ∷ dying) (addresses s2.conns) s2
          (omega (arith, fewer, sh2.shorter)) k2 in
      let orphaned : Free (λ c. c.parent) id s3.conns = λ t c ec.
        let (c2, e2, _, kp) = sh3.from t c ec in
        let (c1, e1, _, _) = sh2.from t c2 e2 in
        let passed = lookup-addresses s1.conns t (is_open-some s1.conns t c1 e1) in
        points-Kept c2.parent c.parent id kp (p2 t c2 passed e2) in
      let alone : Free (λ c. c.endpoint) id s3.conns = λ t c ec.
        let (c2, e2, _, _) = sh3.from t c ec in
        p3 t c (lookup-addresses s2.conns t (is_open-some s2.conns t c2 e2)) ec in
      let sh : Shrinks s1.conns s3.conns = Shrinks-trans s1.conns s2.conns s3.conns sh2 sh3 in
      (
        s3,
        rw (naf_conn_free, e, r2) r3,
        Shrinks-trans s.conns s1.conns s3.conns sh1 sh,
        record {
          endpoint_open = λ t c ec.
              buried s3.conns id dying c.endpoint (k3.endpoint_open t c ec) (alone t c ec);
          parent_open =
              λ t c ec. buried s3.conns id dying c.parent (k3.parent_open t c ec) (orphaned t c ec);
        },
        Shrinks-shut s1.conns s3.conns id sh (ground (arith, lookup-closefdt s.conns id id)),
      )
]
