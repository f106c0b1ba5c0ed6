-- ===== src/Gnr/Msg/Route.antt =====
-- gnr/msg.c: which handlers gnr_msg_route calls, and in which order.
use timps.Prelude.{
  ℕ, ◌≡◌, ◌⊎◌, inl, inr, refl, ap, Bool, true, false, Bool-cases, Option-cases, Option, none, some,
  List, [], ◌∷◌, ◌++◌, ◌>>=◌,
}
use timps.Tags.{Tag}
use timps.Gnr.Node.{Node, findbyname}
use timps.Gnr.Msg.{
  Mh, GnrMsg, Routing, names, node_id, prerouting, routing, postrouting, run_all, offer, emit,
  stages_of_route, route,
}

module _ {W : Type 0} (handle : ℕ → ℕ → ℕ → Routing W → Bool × Routing W) where
  -- A routing handler's answer.
  abbrev pub answer : Mh → Routing W → Bool × Routing W
  answer mh r = handle mh.handlerfunc mh.owner routing r

  -- Each handler, called on what those before it leave, declines the message.
  abbrev pub Decline : List Mh → Routing W → Type 0
  Decline [] r = Unit
  Decline (mh ∷ mhs) r = ((answer mh r).0 ≡ false) × Decline mhs (answer mh r).1

  -- The first handler that takes the message: those before it have declined, and its module becomes the
  -- target.
  pub record Taken (mhs : List Mh) (r r' : Routing W) : Type 0 where
    pub before : List Mh
    pub taker : Mh
    pub after : List Mh
    pub split : mhs ≡ before ++ (taker ∷ after)
    pub declined : Decline before r
    pub handled : (answer taker (run_all handle routing before r)).0 ≡ true
    pub message : r'.gm ≡ (answer taker (run_all handle routing before r)).1.gm
    pub world : r'.world ≡ (answer taker (run_all handle routing before r)).1.world
    pub target : r'.gmhi.targetmod ≡ some taker.owner

  pub offer_lem :
      (mhs : List Mh) (r : Routing W)
      → ((offer handle mhs r ≡ run_all handle routing mhs r) × Decline mhs r)
        ⊎ Taken mhs r (offer handle mhs r)
  unfolding offer run_all
  offer_lem [] r = inl (refl, tt)
  offer_lem (mh ∷ mhs) r = elim (Bool-cases (answer mh r).0) [
    | inl e ↦ inr (record {
      before = [];
      taker = mh;
      after = mhs;
      split = refl;
      declined = tt;
      handled = e;
      message = rw e refl;
      world = rw e refl;
      target = rw e refl;
    })
    | inr e ↦ elim (offer_lem mhs (answer mh r).1) [
      | inl (same, ds) ↦ inl (rw e same, (e, ds))
      | inr t ↦ inr (record {
        before = mh ∷ t.before;
        taker = t.taker;
        after = t.after;
        split = ap (λ l. mh ∷ l) t.split;
        declined = (e, t.declined);
        handled = t.handled;
        message = rw e t.message;
        world = rw e t.world;
        target = rw e t.target;
      })
    ]
  ]

  module _ (output : ℕ → ℕ → Routing W → Routing W) (nodes : W → List (List Node))
      (module_tags : W → ℕ → List Tag) (gnr_module : ℕ) where
    -- The routing information that a message starts with.
    abbrev pub begins : Option ℕ → GnrMsg → W → List ℕ × List ℕ × List ℕ × List ℕ → Routing W
    begins srcmod gm w (src, src_service, dest, dest_service) = record {
      gm = gm;
      gmhi = record {
        srcmod = srcmod;
        destconn = none;
        targetmod = none;
        srcnode = node_id (findbyname (nodes w) src (some src_service));
        destnode = node_id (findbyname (nodes w) dest (some dest_service));
      };
      world = w;
    }

    -- With three lists of handlers, gnr_msg_route returns -1 and calls nobody if a name or a
    -- service of the message is null. Otherwise it starts with the nodes that the names find
    -- and no target, calls every prerouting handler in order, then the routing handlers in
    -- order: all of them if each declines, else those that decline up to the first that takes
    -- the message, whose module becomes the target. Then it calls every postrouting handler
    -- in order and at last the output stage.
    pub route_lem :
        (srcmod : Option ℕ) (pre mid post : List Mh) (gm : GnrMsg) (w : W)
        → ((names gm ≡ none)
            × (route handle output nodes module_tags gnr_module srcmod (pre ∷ mid ∷ post ∷ []) gm w
                ≡ some none))
          ⊎ ((ns : List ℕ × List ℕ × List ℕ × List ℕ) × (r : Routing W) × (names gm ≡ some ns)
              × (((r
                      ≡ run_all handle routing mid
                          (run_all handle prerouting pre (begins srcmod gm w ns)))
                    × Decline mid (run_all handle prerouting pre (begins srcmod gm w ns)))
                  ⊎ Taken mid (run_all handle prerouting pre (begins srcmod gm w ns)) r)
              × (route handle output nodes module_tags gnr_module srcmod
                    (pre ∷ mid ∷ post ∷ [])
                    gm
                    w
                  ≡ (emit handle output nodes module_tags gnr_module
                        (run_all handle postrouting post r)
                      >>= λ r'. some (some r'))))
    unfolding route stages_of_route
    route_lem srcmod pre mid post gm w = elim (Option-cases (names gm)) [
      | inl e ↦ inl (e, rw (route, e) refl)
      | inr (ns, e) ↦
          let r1 = run_all handle prerouting pre (begins srcmod gm w ns) in
          inr (ns, offer handle mid r1, e, offer_lem mid r1, rw (route, e) refl)
    ]
