-- ===== src/Gnr/Msg.antt =====
-- gnr/msg.c: the handlers of messages, by stage and position, and the routing of a message through them
-- (`struct gnrmsg` and `struct gnrmsg_handler_info` of include/gnr/gnrmsg.h).
--
-- `gnr__msghandlers` is the list of its three lists. A function, a module, a connection or a node is its
-- address. A stage is not negative. `malloc` is what naf_malloc returns. The message buffer of a service
-- and its two functions, which the code here does not touch, are left out.
--
-- What the handlers and the output functions of modules do is a parameter: `handle` for a handler and
-- `output` for an output function, on the message, the routing information and a world of their own,
-- from which `nodes` reads the node table and `module_tags` the tags of a module. They do not change the
-- lists of handlers while a message is routed.
pub mod Order
pub mod Table
pub mod Route
pub mod Hits
pub mod Register
mod Runs
use timps.Prelude.{
  ℕ, ◌+◌, Bool, true, false, Option, none, some, List, [], ◌∷◌, ltb, leb, ◌==◌, if◌then◌else◌,
  ◌>>=◌, length, get_or, set,
}
use timps.Prelude.Int.{ℤ, pos, negsuc}
use timps.Tags.{Tag, Data, fetch}
use timps.Gnr.Node.{Node, findbyname}

pub record Mh : Type 0 where
  pub position : ℕ
  pub owner : ℕ
  pub handlerfunc : ℕ
  pub description : List ℕ

-- GNR_MSG_MSGHANDLER_STAGE_MAX and GNR_MSG_MSGHANDLER_POS_MAX
abbrev pub stage_max : ℕ
stage_max = 2

abbrev pub pos_max : ℕ
pos_max = 100

-- sizeof(struct mhlist) on a 32-bit machine
abbrev pub mh_size : ℕ
mh_size = 20

unfoldable pub mh_insert : List Mh → Mh → List Mh
mh_insert [] mh = mh ∷ []
mh_insert (cur ∷ rest) mh =
    let more = mh_insert rest mh in
    if leb mh.position cur.position then mh ∷ cur ∷ rest else cur ∷ more

unfoldable pub mh_remove : List Mh → ℕ → Option Mh × List Mh
mh_remove [] handlerfunc = (none, [])
mh_remove (cur ∷ rest) handlerfunc =
    let (found, more) = mh_remove rest handlerfunc in
    if cur.handlerfunc == handlerfunc then (some cur, rest) else (found, cur ∷ more)

-- gnr_msg_addmsghandler: whether it returns 0, and the handlers afterwards.
unfoldable pub addmsghandler :
    (ℕ → Option (List ℕ)) → List (List Mh) → ℕ → ℕ → ℤ → ℕ → List ℕ → Bool × List (List Mh)
addmsghandler malloc stages owner stage position handlerfunc desc =
    let refused : Bool × List (List Mh) = (false, stages) in
    if ltb stage_max stage then refused else elim position [
      | negsuc n ↦ refused
      | pos p ↦ if ltb pos_max p then refused else elim (malloc mh_size) [
        | none ↦ refused
        | some _ ↦ elim (malloc (length desc + 1)) [
          | none ↦ refused
          | some _ ↦ (
            true,
            set stages stage (
                mh_insert (get_or stages stage []) (record {
                  position = p;
                  owner = owner;
                  handlerfunc = handlerfunc;
                  description = desc;
                })),
          )
        ]
      ]
    ]

-- gnr_msg_remmsghandler
unfoldable pub remmsghandler : List (List Mh) → ℕ → ℕ → Bool × List (List Mh)
unfolding mh_remove
remmsghandler stages stage handlerfunc =
    let (found, rest) = mh_remove (get_or stages stage []) handlerfunc in
    if ltb stage_max stage
    then (false, stages)
    else elim found [ none ↦ (false, stages) | some mh ↦ (true, set stages stage rest) ]

pub record GnrMsg : Type 0 where
  pub srcname : Option (List ℕ)
  pub srcnameservice : Option (List ℕ)
  pub destname : Option (List ℕ)
  pub destnameservice : Option (List ℕ)
  pub type : ℕ
  pub msgtexttype : Option (List ℕ)
  pub msgtext : Option (List ℕ)
  pub msgflags : ℕ
  pub routeflags : ℕ
  pub groupname : Option (List ℕ)
  pub srcconn : Option ℕ
  pub taglist : List Tag

pub record HandlerInfo : Type 0 where
  pub srcmod : Option ℕ
  pub destconn : Option ℕ
  pub targetmod : Option ℕ
  pub srcnode : Option ℕ
  pub destnode : Option ℕ

-- GNR_MSG_MSGHANDLER_STAGE_PREROUTING and the next two
abbrev pub prerouting : ℕ
prerouting = 0

abbrev pub routing : ℕ
routing = 1

abbrev pub postrouting : ℕ
postrouting = 2

-- "module.gnrmsg_outputfunc"
abbrev pub outputfunc_tag : List ℕ
outputfunc_tag =
    109 ∷ 111 ∷ 100 ∷ 117 ∷ 108 ∷ 101 ∷ 46 ∷ 103 ∷ 110 ∷ 114 ∷ 109 ∷ 115 ∷ 103 ∷ 95 ∷ 111 ∷ 117
    ∷ 116 ∷ 112 ∷ 117 ∷ 116 ∷ 102 ∷ 117 ∷ 110 ∷ 99 ∷ []

-- A message on its way, with the world of the modules.
pub record Routing (W : Type 0) : Type 0 where
  pub gm : GnrMsg
  pub gmhi : HandlerInfo
  pub world : W

abbrev pub node_id : Option Node → Option ℕ
node_id none = none
node_id (some gn) = some gn.id

-- The names that a message must have.
unfoldable pub names : GnrMsg → Option (List ℕ × List ℕ × List ℕ × List ℕ)
names gm = gm.srcname >>= λ src. gm.srcnameservice >>= λ src_service. gm.destname >>= λ dest.
    gm.destnameservice >>= λ dest_service. some (src, src_service, dest, dest_service)

module _ {W : Type 0} (handle : ℕ → ℕ → ℕ → Routing W → Bool × Routing W) where
  -- The loops of the first and the last stage.
  unfoldable pub run_all : ℕ → List Mh → Routing W → Routing W
  run_all stage [] r = r
  run_all stage (mh ∷ mhs) r = run_all stage mhs (handle mh.handlerfunc mh.owner stage r).1

  -- The loop of the routing stage.
  unfoldable pub offer : List Mh → Routing W → Routing W
  offer [] r = r
  offer (mh ∷ mhs) r =
      let (handled, r') = handle mh.handlerfunc mh.owner routing r in
      let rest = offer mhs r' in
      if handled then record r' { gmhi = record r'.gmhi { targetmod = some mh.owner } } else rest

  module _ (output : ℕ → ℕ → Routing W → Routing W) (nodes : W → List (List Node))
      (module_tags : W → ℕ → List Tag) (gnr_module : ℕ) where
    -- The output stage; `none` is a call of what is not a function.
    unfoldable pub emit : Routing W → Option (Routing W)
    emit r = elim r.gmhi.targetmod [
      | none ↦ some r
      | some target ↦ elim (fetch (module_tags r.world target) (some gnr_module) outputfunc_tag) [
        | none ↦ some r
        | some (_, Data.text _) ↦ none
        | some (_, Data.word outf) ↦ some (if outf == 0 then r else output outf target r)
      ]
    ]

    -- The stages of gnr_msg_route.
    unfoldable pub stages_of_route : List (List Mh) → Routing W → Option (Routing W)
    unfolding run_all offer emit
    stages_of_route stages r =
        let r1 = run_all prerouting (get_or stages prerouting []) r in
        let r2 = offer (get_or stages routing []) r1 in
        emit (run_all postrouting (get_or stages postrouting []) r2)

    -- gnr_msg_route of a message that is not null; an inner `none` is -1.
    unfoldable pub route : Option ℕ → List (List Mh) → GnrMsg → W → Option (Option (Routing W))
    unfolding stages_of_route
    route srcmod stages gm w = elim (names gm) [
      | none ↦ some none
      | some (src, src_service, dest, dest_service) ↦
          (stages_of_route stages (record {
            gm = gm;
            gmhi = record {
              srcmod = srcmod;
              destconn = none;
              targetmod = none;
              srcnode = node_id (findbyname (nodes w) src (some src_service));
              destnode = node_id (findbyname (nodes w) dest (some dest_service));
            };
            world = w;
          }))
          >>= λ r. some (some r)
    ]
