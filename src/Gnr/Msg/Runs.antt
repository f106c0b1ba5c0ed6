-- ===== src/Gnr/Msg/Runs.antt =====
-- Runs of gnr/msg.c, and its theorems at concrete inputs.
use timps.Prelude.{
  ℕ, ◌≡◌, ◌≢◌, ◌⊎◌, refl, Bool, true, false, Option, none, some, List, [], ◌∷◌, ◌==◌, ◌>>=◌, arith,
}
use Prim.Native.Nat.{bit_and}
use timps.Prelude.Int.{pos, negsuc}
use timps.Fixture.{zeros}
use timps.Tags.{Tag, Data, fetch, fetch_from}
use timps.Gnr.Name.{getidx, namecmp}
use timps.Gnr.Node.{Node, Table, findbyname, hash_init}
use timps.Gnr.Node.Count.{IsValid, hash_init-IsValid}
use timps.Gnr.Node.Edit.{enter}
use timps.Gnr.Node.Online.{enter-IsValid}
use timps.Gnr.Msg.{
  Mh, GnrMsg, HandlerInfo, Routing, names, node_id, mh_insert, mh_remove, addmsghandler,
  remmsghandler, prerouting, routing, postrouting, outputfunc_tag, run_all, offer, emit,
  stages_of_route, route,
}
use timps.Gnr.Msg.Order.{Placed}
use timps.Gnr.Msg.Table.{IsTable, add, start, next, Reach-IsTable, addmsghandler-Placed}
use timps.Gnr.Msg.Route.{Decline, Taken, begins, route_lem}
use timps.Gnr.Msg.Hits.{msg_postrouting, msg_postrouting_lem, routed_mask}

abbrev handler : ℕ → ℕ → ℕ → Mh
handler position owner f = record {
  position = position;
  owner = owner;
  handlerfunc = f;
  description = 100 ∷ [];
}

-- The routing handlers of the program: the OTR module at 30, timps and its OSCAR module at 75.
abbrev two : List (List Mh)
two = [] ∷ (handler 30 1 11 ∷ handler 75 2 12 ∷ []) ∷ [] ∷ []

abbrev three : List (List Mh)
three = [] ∷ (handler 30 1 11 ∷ handler 75 3 13 ∷ handler 75 2 12 ∷ []) ∷ [] ∷ []

two-IsTable : IsTable two
two-IsTable = ground arith

adds_third : addmsghandler zeros two 3 1 (pos 75) 13 (100 ∷ []) ≡ (true, three)
unfolding addmsghandler mh_insert
adds_third = refl

refuses_position : addmsghandler zeros two 3 1 (negsuc 0) 13 (100 ∷ []) ≡ (false, two)
unfolding addmsghandler
refuses_position = refl

not_yet : (remmsghandler two 1 13).0 ≡ false
unfolding remmsghandler mh_remove
not_yet = refl

addmsghandler-Placed_example :
    (mh : Mh) × (mh.handlerfunc ≡ 13)
    × (mh.owner ≡ 3)
    × (mh.position ≡ 75)
    × Placed
        (handler 30 1 11 ∷ handler 75 2 12 ∷ [])
        mh
        (handler 30 1 11 ∷ handler 75 3 13 ∷ handler 75 2 12 ∷ [])
addmsghandler-Placed_example =
    addmsghandler-Placed zeros two three 3 1 75 13 (100 ∷ []) two-IsTable adds_third

Reach-IsTable_example :
    IsTable (addmsghandler zeros ([] ∷ [] ∷ [] ∷ []) 1 1 (pos 30) 11 (100 ∷ [])).1
Reach-IsTable_example =
    Reach-IsTable (next start (add zeros ([] ∷ [] ∷ [] ∷ []) 1 1 (pos 30) 11 (100 ∷ [])))

-- Each handler leaves its address in a log, and 12 takes every message.
abbrev handle : ℕ → ℕ → ℕ → Routing (List ℕ) → Bool × Routing (List ℕ)
handle f owner stage r = (f == 12, record r { world = f ∷ r.world })

abbrev output : ℕ → ℕ → Routing (List ℕ) → Routing (List ℕ)
output f owner r = record r { world = f ∷ owner ∷ r.world }

abbrev nodes : List ℕ → List (List Node)
nodes w = hash_init

abbrev tags : List ℕ → ℕ → List Tag
tags w m = record { owner = 9; name = outputfunc_tag; type = 86; content = Data.word 99 } ∷ []

abbrev hello : GnrMsg
hello = record {
  srcname = some (b'a' ∷ []);
  srcnameservice = some (b'A' ∷ []);
  destname = some (b'b' ∷ []);
  destnameservice = some (b'A' ∷ []);
  type = 0;
  msgtexttype = none;
  msgtext = some (b'h' ∷ b'i' ∷ []);
  msgflags = 0;
  routeflags = 1;
  groupname = none;
  srcconn = none;
  taglist = [];
}

abbrev log : Option (Option (Routing (List ℕ))) → List ℕ
log none = []
log (some none) = []
log (some (some r)) = r.world

-- 13 stands before 12, which takes the message for module 2, whose output function is at 99.
routes_hello :
    log (route handle output nodes tags 9 (some 1) three hello []) ≡ 99 ∷ 2 ∷ 12 ∷ 13 ∷ 11 ∷ []
unfolding route stages_of_route names run_all offer emit fetch fetch_from findbyname hash_init
routes_hello = refl

abbrev mid : List Mh
mid = handler 30 1 11 ∷ handler 75 3 13 ∷ handler 75 2 12 ∷ []

route_lem_example :
    ((names hello ≡ none) × (route handle output nodes tags 9 (some 1) three hello [] ≡ some none))
    ⊎ ((ns : List ℕ × List ℕ × List ℕ × List ℕ) × (r : Routing (List ℕ)) × (names hello ≡ some ns)
        × (((r
                ≡ run_all handle routing mid (
                    run_all handle prerouting []
                      (begins handle output nodes tags 9 (some 1) hello [] ns)))
              × Decline handle mid (
                  run_all handle prerouting []
                    (begins handle output nodes tags 9 (some 1) hello [] ns)))
            ⊎ Taken handle mid
                (run_all handle prerouting []
                  (begins handle output nodes tags 9 (some 1) hello [] ns))
                r)
        × (route handle output nodes tags 9 (some 1) three hello [] ≡ (
            emit handle output nodes tags 9 (run_all handle postrouting [] r) >>= λ r'.
            some (some r'))))
route_lem_example = route_lem handle output nodes tags 9 (some 1) [] mid [] hello []

abbrev empty : Table
empty = record {
  buckets = hash_init;
  ledger = record {
    stats = record { total = 0; local = 0; peered = 0; external = 0 };
    events = [];
  };
  next_id = 0;
}

abbrev bob : Node
bob = record {
  id = 5;
  name = b'b' ∷ [];
  service = b'A' ∷ [];
  flags = 0;
  metric = 1;
  owner = 7;
  refcount = pos 0;
  createtime = 100;
  lastuse = 100;
  ttl = some 30;
}

abbrev hinfo : HandlerInfo
hinfo = record {
  srcmod = some 1;
  destconn = none;
  targetmod = some 2;
  srcnode = none;
  destnode = some 5;
}

finds_none : none ≡ node_id (findbyname (enter empty bob).buckets (b'a' ∷ []) none)
unfolding enter hash_init findbyname getidx namecmp
finds_none = refl

finds_bob : some 5 ≡ node_id (findbyname (enter empty bob).buckets (b'b' ∷ []) none)
unfolding enter hash_init findbyname getidx namecmp
finds_bob = refl

msg_postrouting_lem_example :
    (t' : Table) × (msg_postrouting 200 hello hinfo (enter empty bob) ≡ some t')
    × IsValid t'
    × ((bit_and 1 routed_mask ≢ 0) ⊎ (t' ≡ enter empty bob))
msg_postrouting_lem_example =
    msg_postrouting_lem 200 hello hinfo (enter empty bob) (b'a' ∷ []) (b'b' ∷ []) none none
      (enter-IsValid empty bob hash_init-IsValid) finds_none finds_bob
