-- ===== src/Conn/Steps.antt =====
-- naf/conn.c: connections under any sequence of naf_conn_addconn, naf_conn_startconnect and naf_conn_free.
use timps.Prelude.{
  ℕ, ◌%◌, ◌^◌, ◌≡◌, inl, inr, sym, ◌∙◌, ap, Bool, true, false, Option, some, List, [], arith,
  length,
}
use mathlib.Core.Path.{subst}
use timps.Conn.{Conn, Conns, lookup, naf_conn_free, naf_conn_addconn, naf_conn_startconnect}
use timps.Conn.Store.{is_open, Target}
use timps.Conn.Life.{IsSound, no_conns, IsAddfd, IsTakeconn}
use timps.Conn.Reach.{naf_conn_free-IsSound, addconn_lem, startconnect_lem}

-- A new connection has the address of a block that is not in use.
pub data Step (addfd : List Conn → Conn → Option (List Conn)) (takeconn : Conn → Conn)
    : Conns → Conns → Type 0 where
  adds :
      {s s' : Conns} (owner : Option ℕ) (type id : ℕ)
      → is_open s.conns id ≡ false
      → (naf_conn_addconn addfd (some id) owner type s).1 ≡ s'
      → Step addfd takeconn s s'
  connects :
      {s s' : Conns} (inprogress : Bool) (id local_id : ℕ) (conn : Conn) (made : Bool)
      → is_open s.conns id ≡ false
      → lookup s.conns local_id ≡ some conn
      → naf_conn_startconnect addfd takeconn (some inprogress) (some id) local_id s
        ≡ some (made, s')
      → Step addfd takeconn s s'
  dies :
      {s s' : Conns} (id : ℕ)
      → is_open s.conns id ≡ true
      → naf_conn_free (length s.conns) id s ≡ some s'
      → Step addfd takeconn s s'

pub data Reach (addfd : List Conn → Conn → Option (List Conn)) (takeconn : Conn → Conn)
    : Conns → Type 0 where
  start : Reach addfd takeconn no_conns
  next :
      {s s' : Conns} → Reach addfd takeconn s → Step addfd takeconn s s' → Reach addfd takeconn s'

module _ (addfd : List Conn → Conn → Option (List Conn)) (takeconn : Conn → Conn)
    (good : IsAddfd addfd) (tame : IsTakeconn takeconn) where
  Step-IsSound : {s s' : Conns} → Step addfd takeconn s s' → IsSound s → IsSound s'
  Step-IsSound {s} {s'} (adds owner type id new e) v =
      let (s1, v1, how) = addconn_lem addfd good id owner type s new v in
      elim how [
        | inl (e1, _) ↦ subst IsSound (ap (λ p. p.1) (sym e1) ∙ e) v1
        | inr (e1, _) ↦ subst IsSound (ap (λ p. p.1) (sym e1) ∙ e) v1
      ]
  Step-IsSound {s} {s'} (connects inprogress id local_id conn made new here e) v =
      let (made1, s1, e1, v1, _) =
        startconnect_lem addfd good takeconn inprogress id local_id s conn tame new here v in
      subst IsSound (ground (arith, e, e1)) v1
  Step-IsSound {s} {s'} (dies id op e) v =
      let (s1, e1, v1, _) = naf_conn_free-IsSound id s v op in
      subst IsSound (ground (arith, e, e1)) v1

  nothing : (id : ℕ) (c : Conn) → ¬ (lookup [] id ≡ some c)
  unfolding lookup
  nothing id c e = cc

  pub Reach-IsSound : {s : Conns} → Reach addfd takeconn s → IsSound s
  Reach-IsSound start = record {
    linked = record {
      endpoint_open = λ id c e. absurd (nothing id c e);
      parent_open = λ id c e. absurd (nothing id c e);
    };
    right = record { distinct = tt; counted = omega arith };
  }
  Reach-IsSound (next r st) = Step-IsSound st (Reach-IsSound r)

  -- After any sequence of new connections, connects and deaths, naf_conn_free of an open
  -- connection ends within fuel of the number of open connections, with no access to one that
  -- is not open. It closes the connection, and each endpoint and parent of a connection that
  -- stays open is open. naf_conn__openconns is the number of open connections up to its 32
  -- bits. A new connection comes somewhere into the list of libnbio, which is otherwise kept,
  -- at an address that is not in use, and an owner's takeconn keeps addresses and parents.
  pub naf_conn_free_safe :
      (s : Conns) (id : ℕ)
      → Reach addfd takeconn s
      → is_open s.conns id ≡ true
      → (s' : Conns) × (naf_conn_free (length s.conns) id s ≡ some s')
        × (is_open s'.conns id ≡ false)
        × ((t : ℕ) (c : Conn)
            → lookup s'.conns t ≡ some c
            → Target [] s'.conns c.endpoint × Target [] s'.conns c.parent)
        × (s'.openconns ≡ length s'.conns % 2 ^ 32)
  naf_conn_free_safe s id r op =
      let (s', e, v, shut) = naf_conn_free-IsSound id s (Reach-IsSound r) op in
      (
        s',
        e,
        shut,
        λ t c ec. (v.linked.endpoint_open t c ec, v.linked.parent_open t c ec),
        v.right.counted,
      )
