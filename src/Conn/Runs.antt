-- ===== src/Conn/Runs.antt =====
-- Runs of the connections of naf/conn.c, and their theorems at concrete inputs.
use timps.Prelude.{
  ℕ, ◌+◌, ◌%◌, ◌^◌, ◌≡◌, ◌⊎◌, refl, Bool, true, false, ◌||◌, Option, none, some, List, [], ◌∷◌,
  ◌==◌, arith, length,
}
use timps.Conn.{
  Conn, Conns, type_client, type_server, type_proroguedeath, lookup, adjust, stays, calm,
  naf_conn_free, naf_conn_addconn, naf_conn_startconnect,
}
use timps.Conn.Store.{is_open, Target}
use timps.Conn.Life.{IsSound, IsAddfd, IsTakeconn}
use timps.Conn.Reach.{startconnect_lem}
use timps.Conn.Steps.{adds, connects, Reach, start, next, Reach-IsSound, naf_conn_free_safe}

abbrev in_front : List Conn → Conn → Option (List Conn)
in_front l c = some (c ∷ l)

in_front-IsAddfd : IsAddfd in_front
in_front-IsAddfd l c l' e = ([], l, refl, ground (arith, e))

abbrev takes : Conn → Conn
takes c = record c { type = c.type + 2 }

takes-IsTakeconn : IsTakeconn takes
takes-IsTakeconn c = (refl, refl)

-- A client of module 9, and then its server too, with NAF_CONN_TYPE_FLAP set by takeconn.
abbrev client : Conn
client = record {
  id = 1;
  cid = 0;
  type = type_client;
  endpoint = none;
  parent = none;
  servtype = 0;
  taglist = [];
  owner = some 9;
}

abbrev alone : Conns
alone = record { conns = client ∷ []; nextcid = 1; openconns = 1; killed = [] }

abbrev server : Conn
server = record {
  id = 2;
  cid = 1;
  type = type_server + 2;
  endpoint = some 1;
  parent = none;
  servtype = 0;
  taglist = [];
  owner = some 9;
}

abbrev paired : Conns
paired = record {
  conns = server ∷ record client { endpoint = some 2 } ∷ [];
  nextcid = 2;
  openconns = 2;
  killed = [];
}

alone-Reach : Reach in_front takes alone
unfolding naf_conn_addconn lookup
alone-Reach = next start (adds (some 9) type_client 1 refl refl)

paired-Reach : Reach in_front takes paired
unfolding naf_conn_startconnect naf_conn_addconn lookup calm
paired-Reach = next alone-Reach (connects false 2 1 client true refl refl refl)

-- The server goes with its client, and module 9 is told of both.
dies_together :
    naf_conn_free 2 1 paired
    ≡ some (record { conns = []; nextcid = 2; openconns = 0; killed = 2 ∷ 1 ∷ [] })
unfolding naf_conn_free stays lookup adjust
dies_together = refl

-- A connection with NAF_CONN_TYPE_PROROGUEDEATH stays.
outlives :
    naf_conn_free 2 1 (record paired {
      conns =
          record server { type = type_proroguedeath } ∷ record client { endpoint = some 2 } ∷ [];
    })
    ≡ some (record {
      conns = record server { type = type_proroguedeath; endpoint = none } ∷ [];
      nextcid = 2;
      openconns = 1;
      killed = 1 ∷ [];
    })
unfolding naf_conn_free stays lookup adjust
outlives = refl

naf_conn_free_safe_example :
    (s' : Conns) × (naf_conn_free 2 1 paired ≡ some s')
    × (is_open s'.conns 1 ≡ false)
    × ((t : ℕ) (c : Conn)
        → lookup s'.conns t ≡ some c
        → Target [] s'.conns c.endpoint × Target [] s'.conns c.parent)
    × (s'.openconns ≡ length s'.conns % 2 ^ 32)
unfolding lookup
naf_conn_free_safe_example =
    naf_conn_free_safe in_front takes in_front-IsAddfd takes-IsTakeconn paired 1 paired-Reach refl

startconnect_lem_example :
    (made : Bool) × (s' : Conns) × (naf_conn_startconnect in_front takes
        (some false)
        (some 2)
        1
        alone
      ≡ some (made, s'))
    × IsSound s'
    × ((made ≡ false)
        ⊎ ((near far : Conn) × (lookup s'.conns 1 ≡ some near)
            × (lookup s'.conns 2 ≡ some far)
            × (near.endpoint ≡ some 2)
            × (far.endpoint ≡ some 1)
            × (far.owner ≡ client.owner)
            × ((t : ℕ)
                → ((t == 2) || (t == 1)) ≡ false
                → lookup s'.conns t ≡ lookup alone.conns t)))
unfolding lookup
startconnect_lem_example =
    startconnect_lem in_front in_front-IsAddfd takes false 2 1 alone client takes-IsTakeconn refl
      refl (Reach-IsSound in_front takes in_front-IsAddfd takes-IsTakeconn alone-Reach)
