-- ===== src/Oscar/Im/Handlers.antt =====
-- timps/oscar/im.c: toscar_snachandler_0004_0006 and toscar_snachandler_0004_0007, which read an
-- instant message out of a packet and have it routed.
--
-- A connection is given by its tags, and `none` is a null connection. `places` are the addresses of what a
-- tag points to. A world `W` has the node table; `table` and `put_table` read and write it, and
-- the other parameters are those of gnr_msg_route. `now` is what time returns. The messages and strings
-- that a handler frees at its end are left out, but for a null message, whose tags it then reads.
use timps.Prelude.{
  ℕ, Bool, true, false, Option, none, some, List, [], ◌∷◌, ◌==◌, if◌then◌else◌, ◌>>=◌,
}
use timps.Sbuf.{Sbuf, get8, get16}
use timps.Sbuf.Strings.{getraw, getstr}
use timps.Tlv.{Tlv, Outcome, done, fault, running, parse}
use timps.Tags.{Tag, Data, add, fetch}
use timps.Gnr.Node.{Table, findbyname, metric_max}
use timps.Gnr.Node.Edit.{online}
use timps.Gnr.Msg.{GnrMsg, Mh, Routing, route}
use timps.Oscar.Userinfo.{Userinfo, cstr, extract}
use timps.Oscar.Snac.{Snac}
use timps.Oscar.Im.Channel.{extratlvs_tag, parsechan1}

-- HRET_ERROR, HRET_FORWARD and HRET_DIGESTED
pub data Hret : Type 0 where
  error forward digested : Hret

pub record Places : Type 0 where
  pub of_tlv : Tlv → ℕ
  pub of_tlvs : List Tlv → ℕ
  pub of_cookie : List ℕ → ℕ
  pub of_info : Userinfo → ℕ

-- MSGCOOKIELEN
abbrev pub cookie_len : ℕ
cookie_len = 8

-- OSCARSERVICE, "AIM"
abbrev pub service : List ℕ
service = b'A' ∷ b'I' ∷ b'M' ∷ []

-- "conn.screenname", "gnrmsg.snacid", "gnrmsg.oscarmsgcookie" and "gnrmsg.srcuserinfo"
abbrev pub screenname_tag : List ℕ
screenname_tag =
    b'c' ∷ b'o' ∷ b'n' ∷ b'n' ∷ b'.' ∷ b's' ∷ b'c' ∷ b'r' ∷ b'e' ∷ b'e' ∷ b'n' ∷ b'n' ∷ b'a' ∷ b'm'
    ∷ b'e' ∷ []

abbrev pub snacid_tag : List ℕ
snacid_tag =
    b'g' ∷ b'n' ∷ b'r' ∷ b'm' ∷ b's' ∷ b'g' ∷ b'.' ∷ b's' ∷ b'n' ∷ b'a' ∷ b'c' ∷ b'i' ∷ b'd' ∷ []

abbrev pub cookie_tag : List ℕ
cookie_tag =
    b'g' ∷ b'n' ∷ b'r' ∷ b'm' ∷ b's' ∷ b'g' ∷ b'.' ∷ b'o' ∷ b's' ∷ b'c' ∷ b'a' ∷ b'r' ∷ b'm' ∷ b's'
    ∷ b'g' ∷ b'c' ∷ b'o' ∷ b'o' ∷ b'k' ∷ b'i' ∷ b'e' ∷ []

abbrev pub srcuserinfo_tag : List ℕ
srcuserinfo_tag =
    b'g' ∷ b'n' ∷ b'r' ∷ b'm' ∷ b's' ∷ b'g' ∷ b'.' ∷ b's' ∷ b'r' ∷ b'c' ∷ b'u' ∷ b's' ∷ b'e' ∷ b'r'
    ∷ b'i' ∷ b'n' ∷ b'f' ∷ b'o' ∷ []

-- sizeof(struct gnrmsg) on a 32-bit machine
abbrev pub msg_size : ℕ
msg_size = 64

-- gnr_msg_new
abbrev pub blank_msg : GnrMsg
blank_msg = record {
  srcname = none;
  srcnameservice = none;
  destname = none;
  destnameservice = none;
  type = 0;
  msgtexttype = none;
  msgtext = none;
  msgflags = 0;
  routeflags = 0;
  groupname = none;
  srcconn = none;
  taglist = [];
}

-- The string of a tag, if there is one that is not null; an outer `none` is a pointer to no string.
unfoldable pub screenname : Option (List Tag) → Option ℕ → Option (Option (List ℕ))
screenname none mod_ = some none
screenname (some tags) mod_ = elim (fetch tags mod_ screenname_tag) [
  | none ↦ some none
  | some (_, Data.text s) ↦ some (some s)
  | some (_, Data.word w) ↦ if w == 0 then some none else none
]

module _ (malloc : ℕ → Option (List ℕ)) (mod_ : Option ℕ) (places : Places) where
  unfoldable pub gnr_msg_new : Option GnrMsg
  gnr_msg_new = elim (malloc msg_size) [ none ↦ none | some _ ↦ some blank_msg ]

  -- The channel and the destination of an outgoing message.
  unfoldable pub read_dest : Sbuf → Option (ℕ × Option (List ℕ) × Sbuf)
  read_dest sb = (get16 sb) >>= λ (msgchan, sb1). (get8 sb1) >>= λ (destsnlen, sb2).
      (getstr malloc sb2 destsnlen) >>= λ (destsn, sb3). some (msgchan, destsn, sb3)

  -- The hints of a message with its names; whether both tags could be added.
  unfoldable pub hinted : ℕ → List ℕ → List ℕ → List ℕ → GnrMsg → Bool × GnrMsg
  hinted snacid ck src dest gm =
      let (ok1, tags1) = add malloc gm.taglist mod_ snacid_tag b'I' (Data.word snacid) in
      let (ok2, tags2) = add malloc tags1 mod_ cookie_tag b'V' (Data.word (places.of_cookie ck)) in
      (
        if ok1 then ok2 else false,
        record gm {
          taglist = tags2;
          srcname = some src;
          srcnameservice = some service;
          destname = some dest;
          destnameservice = some service;
        },
      )

  module _ {W : Type 0} (handle : ℕ → ℕ → ℕ → Routing W → Bool × Routing W)
      (output : ℕ → ℕ → Routing W → Routing W) (table : W → Table) (put_table : Table → W → W)
      (module_tags : W → ℕ → List Tag) (gnr_module owner now : ℕ) (stages : List (List Mh)) where
    -- The user of a message is made known, as far away, and the message is routed.
    unfoldable pub send_on : List ℕ → GnrMsg → List Tlv → W → Outcome (Hret × W)
    send_on user gm tlvh w =
        let (_, tags) =
          add malloc gm.taglist mod_ extratlvs_tag b'V' (Data.word (places.of_tlvs tlvh)) in
        let known : W = elim (findbyname (table w).buckets user (some service)) [
          | some _ ↦ w
          | none ↦ put_table (online malloc (table w) owner user service 0 metric_max now).1 w
        ] in
        elim (route handle output (λ v. (table v).buckets) module_tags gnr_module mod_ stages
          (record gm { taglist = tags }) known) [
            | none ↦ fault
            | some none ↦ done (digested, known)
            | some (some r) ↦ done (digested, r.world)
          ]

    -- What both handlers do with the nodes of a message that has its hints, or could not be given them.
    unfoldable pub read_chan :
        ℕ
        → ℕ
        → List Tlv
        → (GnrMsg → List Tlv → Outcome (Hret × W))
        → W
        → Bool × GnrMsg
        → Outcome (Hret × W)
    read_chan fuel msgchan tlvh use_msg w (false, gm) = done (error, w)
    read_chan fuel msgchan tlvh use_msg w (true, gm) =
        let read : Outcome (Hret × W) = elim (parsechan1 malloc mod_ places.of_tlv fuel gm tlvh) [
          | fault ↦ fault
          | running ↦ running
          | done (gm', rest) ↦ use_msg gm' rest
        ] in
        if msgchan == 1 then read else done (forward, w)

    -- toscar_snachandler_0004_0006; the first argument is the fuel of its loops.
    unfoldable pub handler_0006 : ℕ → Option (List Tag) → Snac → W → Outcome (Hret × W)
    handler_0006 fuel endpoint_tags snac w = elim (screenname endpoint_tags mod_) [
      | none ↦ fault
      | some none ↦ done (error, w)
      | some (some srcsn) ↦ elim (getraw malloc snac.payload cookie_len) [
        | none ↦ fault
        | some (none, _) ↦ done (error, w)
        | some (some msgck, sb1) ↦ elim (read_dest sb1) [
          | none ↦ fault
          | some (msgchan, none, sb4) ↦ done (error, w)
          | some (msgchan, some block, sb4) ↦ elim (parse malloc fuel sb4) [
            | fault ↦ fault
            | running ↦ running
            | done (tlvh, _) ↦ elim gnr_msg_new [
              | none ↦ done (error, w)
              | some fresh ↦
                  read_chan fuel msgchan tlvh (λ gm rest. send_on (cstr block) gm rest w) w
                    (hinted snac.id msgck srcsn (cstr block) fresh)
            ]
          ]
        ]
      ]
    ]

    -- An incoming message is given what its packet tells of the sender.
    unfoldable pub told_of : Userinfo → GnrMsg → List Tlv → W → Outcome (Hret × W)
    told_of srcinfo gm rest w =
        let (told, tags) =
          add malloc gm.taglist mod_ srcuserinfo_tag b'V' (Data.word (places.of_info srcinfo)) in
        if told then send_on srcinfo.sn (record gm { taglist = tags }) rest w else done (error, w)

    -- toscar_snachandler_0004_0007; gnr_msg_free of a null message is a fault.
    unfoldable pub handler_0007 : ℕ → Option (List Tag) → Snac → W → Outcome (Hret × W)
    handler_0007 fuel conn_tags snac w = elim (screenname conn_tags mod_) [
      | none ↦ fault
      | some none ↦ fault
      | some (some destsn) ↦ elim (getraw malloc snac.payload cookie_len) [
        | none ↦ fault
        | some (none, _) ↦ fault
        | some (some msgck, sb1) ↦ elim (get16 sb1) [
          | none ↦ fault
          | some (msgchan, sb2) ↦ elim (extract malloc fuel sb2) [
            | fault ↦ fault
            | running ↦ running
            | done (none, _) ↦ fault
            | done (some srcinfo, sb3) ↦ elim (parse malloc fuel sb3) [
              | fault ↦ fault
              | running ↦ running
              | done (tlvh, _) ↦ elim gnr_msg_new [
                | none ↦ fault
                | some fresh ↦
                    read_chan fuel msgchan tlvh (λ gm rest. told_of srcinfo gm rest w) w
                      (hinted snac.id msgck srcinfo.sn destsn fresh)
              ]
            ]
          ]
        ]
      ]
    ]
