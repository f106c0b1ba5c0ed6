-- ===== src/Oscar/Im/Incoming.antt =====
-- timps/oscar/im.c: the frame that toscar_icbm_sendincoming queues, and what toscar_snachandler_0004_0007
-- makes of its bytes.
use timps.Prelude.{
  ℕ, ◌+◌, ◌%◌, ◌^◌, ◌≤◌, ◌<◌, ◌≡◌, ◌≢◌, refl, ◌∙◌, ap, Bool, true, Option, none, some, List, [],
  ◌++◌, append_assoc, if◌then◌else◌, arith, length, length-append, All,
}
use mathlib.Core.Path.{subst}
use timps.Bytes.{byte_put8, byte_put16, byte_put32, byte_get16}
use timps.Sbuf.{Sbuf, get16}
use timps.Sbuf.Valid.{IsValid, IsMalloc, pending}
use timps.Sbuf.Read.{skip, consume, get_int_lem}
use timps.Sbuf.Strings.{getraw, getraw_lem}
use timps.Tlv.{Tlv, done, getrenderedsize}
use timps.Tlv.Wire.{wires, length-wires}
use timps.Tlv.Parse.{Grants}
use timps.Tlv.Render.{Put, Put-trans}
use timps.Tlv.RoundTrip.{parse-wires}
use timps.Tags.{Tag, fetch}
use timps.Gnr.Node.{Table}
use timps.Gnr.Msg.{GnrMsg, Mh, Routing}
use timps.Oscar.Userinfo.{Userinfo}
use timps.Oscar.Userinfo.RoundTrip.{
  IsWellFormedInfo, userinfo_wire, userinfo_wire_size, render_userinfo-Put, extract-wire,
}
use timps.Oscar.Flap.{Conn}
use timps.Oscar.Flap.Send.{frame, blank_header, sent, sendsbuf_lem}
use timps.Oscar.Flap.Packets.{fresh}
use timps.Oscar.Snac.{Snac}
use timps.Oscar.Snac.Header.{snac_header}
use timps.Oscar.Im.Channel.{html, pointer, msgtlv_tag, extratlvs_tag}
use timps.Oscar.Im.ChannelTrip.{
  nodes_of, renderchan1-Put, parsechan1-nodes, length-nodes_of, block_node-IsWellFormed,
  flags-IsWellFormed,
}
use timps.Oscar.Im.Handlers.{
  error, Places, snacid_tag, cookie_tag, srcuserinfo_tag, screenname, msg_size, blank_msg,
  gnr_msg_new, hinted, told_of, handler_0007,
}
use timps.Oscar.Im.Arrival.{hinted_clear, read_chan_lem}
use timps.Oscar.Im.Senders.{id_of, server_id, clear_ack, icbm_channel, put_info, sendincoming}
use timps.Oscar.Im.Sent.{begin_icbm-Put}

-- The bytes of an incoming message on channel 1: its cookie, the channel, the sender and the nodes.
abbrev pub incoming_wire : List ℕ → Userinfo → List ℕ → ℕ → List ℕ
incoming_wire ck toui s flags =
    ck ++ (byte_put16 1 ++ (userinfo_wire toui ++ wires (nodes_of s flags)))

-- The same with its header.
abbrev pub incoming_snac : ℕ → List ℕ → Userinfo → List ℕ → ℕ → List ℕ
incoming_snac id ck toui s flags = snac_header 4 7 0 id ++ incoming_wire ck toui s flags

pub length-userinfo_wire :
    (toui : Userinfo)
    → IsWellFormedInfo toui
    → length (userinfo_wire toui) ≡ userinfo_wire_size toui
unfolding byte_put8 byte_put16
length-userinfo_wire toui w = omega (
  arith,
  length-append toui.sn
      (byte_put16 toui.evillevel ++ (byte_put16 (length toui.tlvh) ++ wires toui.tlvh)),
  length-wires toui.tlvh w.nodes,
)

module _ (malloc : ℕ → Option (List ℕ)) (sound : IsMalloc malloc) (grants : Grants malloc)
    (m : ℕ) where
  -- toscar_icbm_sendincoming of a message with user information, like toscar_icbm_sendoutgoing: the id has
  -- its highest bit set, and the flag for an acknowledgement is cleared in the message and its nodes.
  pub sendincoming_lem :
      (addtx : List ℕ → Bool) (cookie_at : ℕ → List ℕ) (tlvs_at : ℕ → List Tlv) (rands : ℕ → ℕ)
      (info_at : ℕ → Userinfo) (conn : Conn) (gm : GnrMsg) (snacid msgck info : ℕ) (s : List ℕ)
      → gm.type ≡ 0
      → gm.msgtext ≡ some s
      → fetch gm.taglist (some m) msgtlv_tag ≡ none
      → fetch gm.taglist (some m) extratlvs_tag ≡ none
      → id_of (fetch gm.taglist (some m) snacid_tag) ≡ some snacid
      → pointer (fetch gm.taglist (some m) cookie_tag) ≡ some msgck
      → pointer (fetch gm.taglist (some m) srcuserinfo_tag) ≡ some info
      → 0 < msgck
      → 0 < info
      → length (cookie_at msgck) ≡ 8
      → IsWellFormedInfo (info_at info)
      → 16 + length s < 2 ^ 16
      → 26
          + userinfo_wire_size (info_at info)
          + getrenderedsize (nodes_of s (clear_ack gm.msgflags))
        ≤ 512
      → addtx (
          frame 2 conn.nextseqnum (
            incoming_snac
              (server_id snacid)
              (cookie_at msgck)
              (info_at info)
              s
              (clear_ack gm.msgflags)))
        ≡ true
      → sendincoming addtx malloc (some m) cookie_at tlvs_at rands info_at conn gm
        ≡ some (
          true,
          sent conn 2 (
              incoming_snac
                (server_id snacid)
                (cookie_at msgck)
                (info_at info)
                s
                (clear_ack gm.msgflags)),
          record gm { msgflags = clear_ack gm.msgflags },
        )
  unfolding sendincoming icbm_channel put_info byte_put16 byte_put32
  sendincoming_lem addtx cookie_at tlvs_at rands info_at conn gm snacid msgck info s im has untexted
        unextra id ck at_info some_ck some_info eight w small fits taken =
      let (block, g) = grants 512 in
      let toui : Userinfo = info_at info in
      let quiet : GnrMsg = record gm { msgflags = clear_ack gm.msgflags } in
      let hdr : List ℕ = snac_header 4 7 0 (server_id snacid) in
      let front : List ℕ = cookie_at msgck ++ byte_put16 1 in
      let (sb, e, p) =
        begin_icbm-Put malloc sound grants addtx m cookie_at tlvs_at rands 7 (server_id snacid)
          msgck 1 block g some_ck eight in
      let at : sb.pos ≡ 26 =
        omega (arith, p.appended.moved, length-append (cookie_at msgck) (byte_put16 1), eight) in
      let (sb1, e1, p1) =
        render_userinfo-Put malloc m toui sb w p.appended.valid
          (omega (arith, at, p.same_buflen, fits)) in
      let long : length (userinfo_wire toui) ≡ userinfo_wire_size toui =
        length-userinfo_wire toui w in
      let (sb2, e2, p2) =
        renderchan1-Put malloc sound grants m tlvs_at quiet s sb1 untexted unextra has small
          p1.appended.valid
          (omega (arith, at, long, p.same_buflen, p1.same_buflen, p1.appended.moved, fits)) in
      let nodes : List ℕ = wires (nodes_of s (clear_ack gm.msgflags)) in
      let tail : List ℕ = userinfo_wire toui ++ nodes in
      let q : Put (fresh block 512) (blank_header 2 ++ hdr ++ front ++ tail) sb2 =
        Put-trans (fresh block 512) (blank_header 2 ++ hdr ++ front) sb tail sb2 p
          (Put-trans sb (userinfo_wire toui) sb1 nodes sb2 p1 p2) in
      let queued =
        sendsbuf_lem addtx conn sb2 2
          (hdr ++ incoming_wire (cookie_at msgck) toui s (clear_ack gm.msgflags)) q.appended.valid
          (q.appended.bytes
            ∙ ap (λ t. blank_header 2 ++ (hdr ++ t))
                (append_assoc (cookie_at msgck) (byte_put16 1) tail))
          taken in
      ground (arith, im, id, ck, at_info, e, some_info, e1, e2, queued)

  module _ (places : Places) {W : Type 0} (handle : ℕ → ℕ → ℕ → Routing W → Bool × Routing W)
      (output : ℕ → ℕ → Routing W → Routing W) (table : W → Table) (put_table : Table → W → W)
      (module_tags : W → ℕ → List Tag) (gnr_module owner now : ℕ) (stages : List (List Mh)) where
    -- The bytes of an incoming message are read as that message, with the sender as its source and the
    -- screen name of the connection as its destination. Fuel for the nodes of both lists is enough.
    pub handler_0007_lem :
        (fuel : ℕ) (tags : List Tag) (snac : Snac) (w : W) (destsn ck s : List ℕ) (toui : Userinfo)
        (flags : ℕ)
        → screenname (some tags) (some m) ≡ some (some destsn)
        → IsValid snac.payload
        → pending snac.payload ≡ incoming_wire ck toui s flags
        → length ck ≡ 8
        → IsWellFormedInfo toui
        → All (λ (c : ℕ). c ≢ 0) s
        → 0 < length s
        → 16 + length s < 2 ^ 16
        → length toui.tlvh + 3 ≤ fuel
        → (ok : Bool) (gm : GnrMsg)
        → hinted malloc (some m) places snac.id ck toui.sn destsn blank_msg ≡ (ok, gm)
        → handler_0007 malloc
            (some m)
            places
            handle
            output
            table
            put_table
            module_tags
            gnr_module
            owner
            now
            stages
            fuel
            (some tags)
            snac
            w
          ≡ (if ok
              then told_of malloc
                  (some m)
                  places
                  handle
                  output
                  table
                  put_table
                  module_tags
                  gnr_module
                  owner
                  now
                  stages
                  toui
                  (record gm { msgtexttype = some html; msgtext = some s; msgflags = flags % 4 })
                  []
                  w
              else done (error, w))
    unfolding handler_0007 gnr_msg_new get16 byte_put16
    handler_0007_lem fuel tags snac w destsn ck s toui flags named v e eight info sz some_text small
          f ok gm hints =
        let nodes : List ℕ = wires (nodes_of s flags) in
        let (b, g) = grants (length ck) in
        let c = consume snac.payload ck (byte_put16 1 ++ (userinfo_wire toui ++ nodes)) v e in
        let sb1 : Sbuf = skip snac.payload (length ck) in
        let e1 : getraw malloc snac.payload 8 ≡ some (some ck, sb1) =
          subst (λ k. getraw malloc snac.payload k ≡ some (some ck, sb1)) eight
            (getraw_lem malloc snac.payload ck (byte_put16 1 ++ (userinfo_wire toui ++ nodes)) b v e
              g) in
        let c2 = consume sb1 (byte_put16 1) (userinfo_wire toui ++ nodes) c.valid c.left in
        let e2 : get16 sb1 ≡ some (1, skip sb1 2) =
          get_int_lem 2 byte_get16 sb1 (byte_put16 1) (userinfo_wire toui ++ nodes) c.valid refl
            c.left in
        let (sb3, e3, v3, left3) =
          extract-wire malloc grants fuel toui (skip sb1 2) nodes info c2.valid c2.left
            (omega (arith, f)) in
        let (sb4, e4, _) =
          parse-wires malloc grants fuel sb3 (nodes_of s flags) v3
            (block_node-IsWellFormed s small, flags-IsWellFormed flags) left3
            (length-nodes_of fuel s flags (omega (arith, f))) in
        let (b5, g5) = grants msg_size in
        let clear : gm.msgflags ≡ 0 =
          hinted_clear malloc sound grants (some m) places snac.id ck toui.sn destsn ok gm hints in
        let text =
          parsechan1-nodes malloc sound grants (some m) places.of_tlv fuel gm s flags clear sz
            some_text small (omega (arith, f)) in
        rw (handler_0007, named, e1, e2, e3, e4, g5, hints)
          (read_chan_lem malloc sound grants (some m) places handle output table put_table
            module_tags gnr_module owner now stages fuel (nodes_of s flags) [] gm
            (record gm { msgtexttype = some html; msgtext = some s; msgflags = flags % 4 })
            (λ gm' rest.
              told_of malloc (some m) places handle output table put_table module_tags gnr_module
                owner now stages toui gm' rest w)
            w text ok)
