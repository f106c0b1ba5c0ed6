-- ===== src/Conn.antt =====
-- naf/conn.c: the connections (`struct nafconn` of include/naf/nafconn.h), their links to one another,
-- how they are made, looked up and freed.
--
-- `conns` are the connections of the open descriptors in the order of libnbio's list, and the address of
-- a connection is its `id`. `killed` are the connections whose owner was told of their death, the latest
-- first. The owners' connkill, the tags' freetag and naf_childproc_cleanconn, which the code of other
-- modules implements, do not change the connections here. Sockets, their addresses, raw mode and times
-- are left out. `none` is an access to a connection that is not open, or that the fuel ran out.
pub mod Store
pub mod Sweep
pub mod Free
pub mod Count
pub mod Life
pub mod Reach
pub mod Steps
mod Runs
use timps.Prelude.{
  ℕ, zero, suc, ◌+◌, ◌-◌, ◌%◌, ◌^◌, Bool, true, false, not, ◌&&◌, ◌||◌, Option, none, some, List,
  [], ◌∷◌, ◌==◌, if◌then◌else◌, ◌>>=◌,
}
use Prim.Native.Nat.{bit_and, bit_or, bit_xor}
use timps.Tags.{Tag}

pub record Conn : Type 0 where
  pub id : ℕ
  pub cid : ℕ
  pub type : ℕ
  pub endpoint : Option ℕ
  pub parent : Option ℕ
  pub servtype : ℕ
  pub taglist : List Tag
  pub owner : Option ℕ

-- The list of connections, naf_conn__nextcid and naf_conn__openconns.
pub record Conns : Type 0 where
  pub conns : List Conn
  pub nextcid : ℕ
  pub openconns : ℕ
  pub killed : List ℕ

-- NAF_CONN_TYPE_DETECTING and the others
abbrev pub type_detecting : ℕ
type_detecting = 0x00000001

abbrev pub type_local : ℕ
type_local = 0x00040000

abbrev pub type_client : ℕ
type_client = 0x00100000

abbrev pub type_server : ℕ
type_server = 0x00200000

abbrev pub type_connecting : ℕ
type_connecting = 0x01000000

abbrev pub type_rawwaiting : ℕ
type_rawwaiting = 0x02000000

abbrev pub type_proroguedeath : ℕ
type_proroguedeath = 0x08000000

abbrev pub has_flag : ℕ → ℕ → Bool
has_flag type flag = not (bit_and type flag == 0)

-- `type &= ~flag`
abbrev pub without : ℕ → ℕ → ℕ
without type flag = if has_flag type flag then type - flag else type

-- An open connection by its address.
unfoldable pub lookup : List Conn → ℕ → Option Conn
lookup [] id = none
lookup (c ∷ cs) id = if c.id == id then some c else lookup cs id

-- A write to a connection.
unfoldable pub adjust : List Conn → ℕ → (Conn → Conn) → List Conn
adjust [] id f = []
adjust (c ∷ cs) id f = (if c.id == id then f c else c) ∷ adjust cs id f

-- closefdt: the descriptor is no longer open.
unfoldable pub closefdt : List Conn → ℕ → List Conn
closefdt [] id = []
closefdt (c ∷ cs) id = let rest = closefdt cs id in if c.id == id then rest else c ∷ rest

abbrev pub addresses : List Conn → List ℕ
addresses [] = []
addresses (c ∷ cs) = c.id ∷ addresses cs

abbrev pub points : Option ℕ → ℕ → Bool
points none id = false
points (some t) id = t == id

-- A connection that outlives what it is linked to.
unfoldable pub stays : ℕ → Bool
stays type = has_flag type type_proroguedeath || has_flag type type_local

-- One round of the loop of remendpoint or remchildren, which cuts the link of a connection to the dead
-- one and frees the connection.
unfoldable pub cut_round :
    (ℕ → Conns → Option Conns) → (Conn → Option ℕ) → (Conn → Conn) → ℕ → ℕ → Conns → Option Conns
cut_round free link cut dead id s = elim (lookup s.conns id) [
  | none ↦ some s
  | some conn ↦
      let s1 : Conns = record s { conns = adjust s.conns id cut } in
      if points (link conn) dead then (if stays conn.type then some s1 else free id s1) else some s
]

unfoldable pub cut_links :
    (ℕ → Conns → Option Conns)
    → (Conn → Option ℕ)
    → (Conn → Conn)
    → ℕ
    → List ℕ
    → Conns
    → Option Conns
cut_links free link cut dead [] s = some s
cut_links free link cut dead (id ∷ ids) s =
    (cut_round free link cut dead id s) >>= λ s'. cut_links free link cut dead ids s'

-- remchildren and remendpoint
abbrev pub remchildren : (ℕ → Conns → Option Conns) → ℕ → Conns → Option Conns
remchildren free dead s =
    cut_links free (λ c. c.parent) (λ c. record c { parent = none }) dead (addresses s.conns) s

abbrev pub remendpoint : (ℕ → Conns → Option Conns) → ℕ → Conns → Option Conns
remendpoint free dead s =
    cut_links free (λ c. c.endpoint) (λ c. record c { endpoint = none }) dead (addresses s.conns) s

abbrev pub tell : Conn → List ℕ → List ℕ
tell conn killed = elim conn.owner [ none ↦ killed | some _ ↦ conn.id ∷ killed ]

-- naf_conn_free; the first argument is fuel.
unfoldable pub naf_conn_free : ℕ → ℕ → Conns → Option Conns
unfolding closefdt cut_links cut_round
naf_conn_free zero dead s = none
naf_conn_free (suc fuel) dead s = (lookup s.conns dead) >>= λ conn.
    (remchildren (naf_conn_free fuel) dead (record s {
      conns = closefdt s.conns dead;
      openconns = (s.openconns + (2 ^ 32 - 1)) % 2 ^ 32;
      killed = tell conn s.killed;
    }))
    >>= λ s'. remendpoint (naf_conn_free fuel) dead s'

-- naf_conn_find with a matcher that changes nothing.
unfoldable pub naf_conn_find : (Conn → Bool) → List Conn → Option Conn
naf_conn_find matcher [] = none
naf_conn_find matcher (c ∷ cs) = if matcher c then some c else naf_conn_find matcher cs

unfoldable pub naf_conn_findbycid : List Conn → ℕ → Option Conn
unfolding naf_conn_find
naf_conn_findbycid cs cid = naf_conn_find (λ c. c.cid == cid) cs

-- naf_conn_getparent of an open connection: its parent, or its endpoint's.
unfoldable pub naf_conn_getparent : List Conn → Conn → Option (Option ℕ)
naf_conn_getparent cs conn = elim conn.parent [
  | some p ↦ some (some p)
  | none ↦ elim conn.endpoint [
    | none ↦ some none
    | some e ↦ (lookup cs e) >>= λ other. some other.parent
  ]
]

-- `type &= ~NAF_CONN_TYPE_RAWWAITING`
unfoldable pub calm : Bool → Conn → Conn
calm waiting c = if waiting then record c { type = without c.type type_rawwaiting } else c

-- What naf_conn_startconnect writes to the connection and to its new endpoint.
abbrev pub near_end : Bool → ℕ → Conn → Conn
near_end waiting e c = calm waiting (record c { endpoint = some e })

abbrev pub far_end : (Conn → Conn) → Option ℕ → Bool → ℕ → Conn → Conn
far_end takeconn owner waiting local_id c =
    record (calm waiting (elim owner [ none ↦ c | some _ ↦ takeconn c ])) {
      owner = owner;
      endpoint = some local_id;
    }

-- What naf_conn_startconnect does with what naf_conn_addconn answers.
unfoldable pub link_up : (Conn → Conn) → Conn → ℕ → Option ℕ × Conns → Bool × Conns
unfolding adjust
link_up takeconn conn local_id (none, s) =
    (false, record s { conns = adjust s.conns local_id (λ c. record c { endpoint = none }) })
link_up takeconn conn local_id (some e, s) =
    let waiting : Bool = has_flag conn.type type_rawwaiting in
    let s' : Conns = record s { conns = adjust s.conns local_id (near_end waiting e) } in
    (true, record s' { conns = adjust s'.conns e (far_end takeconn conn.owner waiting local_id) })

-- `addfd` is where nbio_addfd of libnbio puts a descriptor, `none` where it fails.
module _ (addfd : List Conn → Conn → Option (List Conn)) where
  -- naf_conn_addconn; `alloc` is the block for the connection, `none` for NULL. Where nbio_addfd fails,
  -- naf_conn_free undoes what naf_conn_alloc counted.
  unfoldable pub naf_conn_addconn : Option ℕ → Option ℕ → ℕ → Conns → Option ℕ × Conns
  naf_conn_addconn none owner type s = (none, s)
  naf_conn_addconn (some id) owner type s =
      let conn : Conn = record {
        id = id;
        cid = s.nextcid;
        type = type;
        endpoint = none;
        parent = none;
        servtype = 0;
        taglist = [];
        owner = owner;
      } in
      let next : ℕ = (s.nextcid + 1) % 2 ^ 32 in
      elim (addfd s.conns conn) [
        | none ↦ (none, record s { nextcid = next })
        | some cs ↦ (
          some id,
          record s { conns = cs; nextcid = next; openconns = (s.openconns + 1) % 2 ^ 32 },
        )
      ]

  -- naf_conn_startconnect of an open connection, with a module and a host that are not null; `socket`
  -- says whether a socket could be made and connected, and whether it is still connecting, and
  -- `takeconn` is what the owner's takeconn does to the new connection.
  unfoldable pub naf_conn_startconnect :
      (Conn → Conn) → Option Bool → Option ℕ → ℕ → Conns → Option (Bool × Conns)
  unfolding naf_conn_addconn link_up lookup
  naf_conn_startconnect takeconn none alloc local_id s = some (false, s)
  naf_conn_startconnect takeconn (some inprogress) alloc local_id s =
      (lookup s.conns local_id) >>= λ conn.
      let type : ℕ =
        bit_or (bit_or (bit_xor conn.type type_client) type_server)
          (if inprogress then type_connecting else 0) in
      some (link_up takeconn conn local_id (naf_conn_addconn alloc none type s))
