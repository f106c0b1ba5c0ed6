-- ===== src/Conn/Reach.antt =====
-- naf/conn.c: naf_conn_addconn and naf_conn_startconnect on good connections, and what holds after any
-- sequence of these and of deaths.
use timps.Prelude.{
  ℕ, ◌+◌, ◌%◌, ◌^◌, ◌≡◌, ◌⊎◌, inl, inr, refl, sym, ◌∙◌, ap, Bool, true, false, ◌||◌, Option-cases,
  Option, none, some, List, [], ◌==◌, if◌then◌else◌, arith, length,
}
use mathlib.Core.Path.{subst}
use Prim.Native.Nat.{bit_or, bit_xor}
use timps.Conn.{
  Conn, Conns, lookup, adjust, type_rawwaiting, type_client, type_server, type_connecting, has_flag,
  calm, near_end, link_up, far_end, naf_conn_free, naf_conn_addconn, naf_conn_startconnect,
}
use timps.Conn.Store.{is_open, lookup-adjust, Target}
use timps.Conn.Sweep.{is_open-adjust}
use timps.Conn.Free.{naf_conn_free-Frees}
use timps.Conn.Count.{naf_conn_free-IsCounted}
use timps.Conn.Life.{IsSound, IsAddfd, IsTakeconn, lookup-insert, insert-IsSound, adjust-IsSound}

-- naf_conn_free of an open connection of good connections, with fuel of their number.
pub naf_conn_free-IsSound :
    (id : ℕ) (s : Conns)
    → IsSound s
    → is_open s.conns id ≡ true
    → (s' : Conns) × (naf_conn_free (length s.conns) id s ≡ some s')
      × IsSound s'
      × (is_open s'.conns id ≡ false)
naf_conn_free-IsSound id s v op =
    let (s', e, sh, k, shut) =
      naf_conn_free-Frees (length s.conns) id [] s (omega arith) op v.linked in
    (
      s',
      e,
      record { linked = k; right = naf_conn_free-IsCounted (length s.conns) id s s' e v.right },
      shut,
    )

calm_keeps :
    (w : Bool) (c : Conn)
    → ((calm w c).id ≡ c.id) × ((calm w c).parent ≡ c.parent) × ((calm w c).endpoint ≡ c.endpoint)
unfolding calm
calm_keeps true c = (refl, refl, refl)
calm_keeps false c = (refl, refl, refl)

far_end_keeps :
    (takeconn : Conn → Conn) (owner : Option ℕ) (w : Bool) (local_id : ℕ)
    → IsTakeconn takeconn
    → (c : Conn)
    → ((far_end takeconn owner w local_id c).id ≡ c.id)
      × ((far_end takeconn owner w local_id c).parent ≡ c.parent)
far_end_keeps takeconn none w local_id ok c = let (a, b, _) = calm_keeps w c in (a, b)
far_end_keeps takeconn (some o) w local_id ok c =
    let (a, b, _) = calm_keeps w (takeconn c) in (a ∙ (ok c).0, b ∙ (ok c).1)

-- The two writes that pair an open connection with a new one.
paired_lem :
    (takeconn : Conn → Conn) (owner : Option ℕ) (w : Bool) (id local_id : ℕ) (s : Conns)
    (conn fresh : Conn)
    → IsTakeconn takeconn
    → (local_id == id) ≡ false
    → lookup s.conns local_id ≡ some conn
    → lookup s.conns id ≡ some fresh
    → IsSound s
    → (s' : Conns) × (s' ≡ record s {
      conns =
          adjust (adjust s.conns local_id (near_end w id)) id (far_end takeconn owner w local_id);
    })
      × IsSound s'
      × (near far : Conn) × (lookup s'.conns local_id ≡ some near)
      × (lookup s'.conns id ≡ some far)
      × (near.endpoint ≡ some id)
      × (far.endpoint ≡ some local_id)
      × (far.owner ≡ owner)
      × ((t : ℕ) → ((t == id) || (t == local_id)) ≡ false → lookup s'.conns t ≡ lookup s.conns t)
paired_lem takeconn owner w id local_id s conn fresh ok apart here new v =
    let near : Conn → Conn = near_end w id in
    let far : Conn → Conn = far_end takeconn owner w local_id in
    let near_id : (c : Conn) → (near c).id ≡ c.id =
      λ c. (calm_keeps w (record c { endpoint = some id })).0 in
    let far_id : (c : Conn) → (far c).id ≡ c.id =
      λ c. (far_end_keeps takeconn owner w local_id ok c).0 in
    let s2 : Conns = record s { conns = adjust s.conns local_id near } in
    let s3 : Conns = record s2 { conns = adjust s2.conns id far } in
    let open_id : is_open s.conns id ≡ true = ground (arith, new) in
    let open_local : is_open s2.conns local_id ≡ true =
      is_open-adjust s.conns local_id local_id near near_id ∙ ground (arith, here) in
    let v2 : IsSound s2 =
      adjust-IsSound s local_id near near_id
        (λ c ec.
          let (_, same_p, same_e) = calm_keeps w (record c { endpoint = some id }) in
          (
            subst (Target [] s.conns) (sym same_e) (ground (arith, open_id)),
            subst (Target [] s.conns) (sym same_p) (v.linked.parent_open local_id c ec),
          ))
        v in
    let v3 : IsSound s3 =
      adjust-IsSound s2 id far far_id
        (λ c ec.
          let (_, same_p) = far_end_keeps takeconn owner w local_id ok c in
          (
            ground (arith, open_local),
            subst (Target [] s2.conns) (sym same_p) (v2.linked.parent_open id c ec),
          ))
        v2 in
    let look2 = λ (t : ℕ). lookup-adjust s.conns local_id t near near_id in
    let look3 = λ (t : ℕ). lookup-adjust s2.conns id t far far_id in
    (
      s3,
      refl,
      v3,
      near conn,
      far fresh,
      ground (arith, look3 local_id, look2 local_id, here, apart),
      ground (arith, look3 id, look2 id, new, apart),
      (calm_keeps w (record conn { endpoint = some id })).2,
      refl,
      refl,
      λ t h. ground (arith, look3 t, look2 t, h),
    )

module _ (addfd : List Conn → Conn → Option (List Conn)) (good : IsAddfd addfd) where
  -- What naf_conn_addconn makes, before it has links.
  abbrev made_conn : ℕ → ℕ → ℕ → Option ℕ → Conn
  made_conn id cid type owner = record {
    id = id;
    cid = cid;
    type = type;
    endpoint = none;
    parent = none;
    servtype = 0;
    taglist = [];
    owner = owner;
  }

  pub addconn_lem :
      (id : ℕ) (owner : Option ℕ) (type : ℕ) (s : Conns)
      → is_open s.conns id ≡ false
      → IsSound s
      → (s' : Conns) × IsSound s'
        × (((naf_conn_addconn addfd (some id) owner type s ≡ (none, s')) × (s'.conns ≡ s.conns))
            ⊎ ((naf_conn_addconn addfd (some id) owner type s ≡ (some id, s'))
                × ((t : ℕ)
                    → lookup s'.conns t ≡ (
                        if t == id
                        then some (made_conn id s.nextcid type owner)
                        else lookup s.conns t))))
  unfolding naf_conn_addconn
  addconn_lem id owner type s new v =
      let c : Conn = made_conn id s.nextcid type owner in
      let next : ℕ = (s.nextcid + 1) % 2 ^ 32 in
      elim (Option-cases (addfd s.conns c)) [
        | inl e ↦ (
          record s { nextcid = next },
          record {
            linked = v.linked;
            right = record { distinct = v.right.distinct; counted = v.right.counted };
          },
          inl (rw (naf_conn_addconn, e) refl, refl),
        )
        | inr (l', e) ↦
            let (front, back, parts, whole) = good s.conns c l' e in
            let s' : Conns = record s {
              conns = l';
              nextcid = next;
              openconns = (s.openconns + 1) % 2 ^ 32;
            } in
            let w : IsSound s' =
              subst (λ l. IsSound (record s' { conns = l })) (sym whole)
                (insert-IsSound s front back c next parts new (refl, refl) v) in
            (
              s',
              w,
              inr (
                rw (naf_conn_addconn, e) refl,
                λ t.
                    ap (λ l. lookup l t) whole
                    ∙ lookup-insert front back c t (subst (λ l. is_open l id ≡ false) parts new)
                    ∙ ap (λ l. if t == id then some c else lookup l t) (sym parts),
              ),
            )
      ]

  -- With good connections, naf_conn_startconnect from an open connection to a new one of a
  -- block that is not in use leaves them good. Where it returns 0, each of the two is the
  -- other's endpoint, the new one has the owner of the old one, and the other connections are
  -- as they were. A new connection comes somewhere into the list of libnbio, and an owner's
  -- takeconn keeps addresses and parents.
  pub startconnect_lem :
      (takeconn : Conn → Conn) (inprogress : Bool) (id local_id : ℕ) (s : Conns) (conn : Conn)
      → IsTakeconn takeconn
      → is_open s.conns id ≡ false
      → lookup s.conns local_id ≡ some conn
      → IsSound s
      → (made : Bool) × (s' : Conns) × (naf_conn_startconnect addfd takeconn
            (some inprogress)
            (some id)
            local_id
            s
          ≡ some (made, s'))
        × IsSound s'
        × ((made ≡ false)
            ⊎ ((near far : Conn) × (lookup s'.conns local_id ≡ some near)
                × (lookup s'.conns id ≡ some far)
                × (near.endpoint ≡ some id)
                × (far.endpoint ≡ some local_id)
                × (far.owner ≡ conn.owner)
                × ((t : ℕ)
                    → ((t == id) || (t == local_id)) ≡ false
                    → lookup s'.conns t ≡ lookup s.conns t)))
  unfolding naf_conn_startconnect link_up
  startconnect_lem takeconn inprogress id local_id s conn ok new here v =
      let type : ℕ =
        bit_or (bit_or (bit_xor conn.type type_client) type_server)
          (if inprogress then type_connecting else 0) in
      let (s1, v1, how) = addconn_lem id none type s new v in
      elim how [
        | inl (e, same) ↦ (
          false,
          record s1 { conns = adjust s1.conns local_id (λ c. record c { endpoint = none }) },
          rw here (ap (λ x. some (link_up takeconn conn local_id x)) e),
          adjust-IsSound s1 local_id (λ c. record c { endpoint = none }) (λ c. refl)
              (λ c ec. (tt, v1.linked.parent_open local_id c ec)) v1,
          inl refl,
        )
        | inr (e, at) ↦
            let apart : (local_id == id) ≡ false =
              ground (arith, ap (λ t. is_open s.conns t), new, here) in
            let (s', whole, v', near, far, en, ef, ne, fe, fo, rest) =
              paired_lem takeconn conn.owner (has_flag conn.type type_rawwaiting) id local_id s1
                conn (made_conn id s.nextcid type none) ok apart
                (ground (arith, at local_id, apart, here)) (ground (arith, at id)) v1 in
            (
              true,
              s',
              rw here (
                  ap (λ x. some (link_up takeconn conn local_id x)) e
                  ∙ ap (λ x. some (true, x)) (sym whole)),
              v',
              inr (near, far, en, ef, ne, fe, fo, λ t h. rest t h ∙ ground (arith, at t, h)),
            )
      ]
