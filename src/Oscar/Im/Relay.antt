-- ===== src/Oscar/Im/Relay.antt =====
-- timps/oscar/im.c: a message that toscar_icbm_sendincoming writes, as toscar_snachandler_0004_0007 reads
-- it.
use timps.Prelude.{
  ℕ, ◌+◌, ◌%◌, ◌^◌, ◌≤◌, ◌<◌, ◌≡◌, ◌≢◌, Bool, true, Option, none, some, List, [], ◌++◌,
  if◌then◌else◌, arith, length, length-append, All,
}
use timps.Bytes.{byte_put16}
use timps.Sbuf.Valid.{IsMalloc}
use timps.Tlv.{Tlv, done, getrenderedsize}
use timps.Tlv.Wire.{wires, length-wires}
use timps.Tlv.Parse.{Grants}
use timps.Tags.{Tag, fetch}
use timps.Gnr.Node.{Table}
use timps.Gnr.Msg.{GnrMsg, Mh, Routing}
use timps.Oscar.Flap.{Conn}
use timps.Oscar.Flap.Send.{frame, sent}
use timps.Oscar.Snac.{Snac, open_snac}
use timps.Oscar.Im.Channel.{html, pointer, msgtlv_tag, extratlvs_tag}
use timps.Oscar.Im.ChannelTrip.{nodes_of, block_node-IsWellFormed, flags-IsWellFormed}
use timps.Oscar.Im.Handlers.{
  error, Places, snacid_tag, cookie_tag, screenname, blank_msg, hinted, told_of, handler_0007,
  srcuserinfo_tag,
}
use timps.Oscar.Userinfo.{Userinfo}
use timps.Oscar.Userinfo.RoundTrip.{IsWellFormedInfo, userinfo_wire, userinfo_wire_size}
use timps.Oscar.Im.Incoming.{
  incoming_wire, incoming_snac, length-userinfo_wire, sendincoming_lem, handler_0007_lem,
}
use timps.Oscar.Im.Senders.{id_of, server_id, clear_ack, sendincoming}
use timps.Oscar.Im.Opened.{open_message, message-IsValid, pending-message, message}

length-incoming_wire :
    (ck : List ℕ) (toui : Userinfo) (s : List ℕ) (flags : ℕ)
    → 16 + length s < 2 ^ 16
    → length ck ≡ 8
    → IsWellFormedInfo toui
    → length (incoming_wire ck toui s flags)
      ≡ 10 + userinfo_wire_size toui + getrenderedsize (nodes_of s flags)
unfolding byte_put16
length-incoming_wire ck toui s flags small eight w = omega (
  arith,
  length-append ck (byte_put16 1 ++ (userinfo_wire toui ++ wires (nodes_of s flags))),
  length-append (userinfo_wire toui) (wires (nodes_of s flags)),
  length-userinfo_wire toui w,
  length-wires (nodes_of s flags) (block_node-IsWellFormed s small, flags-IsWellFormed flags),
  eight,
)

module _ (malloc : ℕ → Option (List ℕ)) (sound : IsMalloc malloc) (grants : Grants malloc)
    (addtx : List ℕ → Bool) (m : ℕ) (cookie_at : ℕ → List ℕ) (tlvs_at : ℕ → List Tlv)
    (rands : ℕ → ℕ) where
  module _ {W : Type 0} (places : Places) (handle : ℕ → ℕ → ℕ → Routing W → Bool × Routing W)
      (output : ℕ → ℕ → Routing W → Routing W) (table : W → Table) (put_table : Table → W → W)
      (module_tags : W → ℕ → List Tag) (gnr_module owner now : ℕ) (stages : List (List Mh)) where
    -- With memory granted in blocks of the size asked for, toscar_icbm_sendincoming, for a
    -- module that is not null, of an instant message that has a text that is not empty and
    -- has no zero, a cookie of 8 bytes, an id and well-formed information on its sender, and
    -- neither kept nodes of the text nor extra nodes, queues one frame of channel 2 and
    -- clears the flag that asks for an acknowledgement, if libnbio takes the frame and the
    -- message fits 512 bytes. toscar_flap_handlesnac opens a message from its bytes, and
    -- toscar_snachandler_0004_0007 of that, on a connection with a screen name, passes on a
    -- message to that screen name from the same sender, with the same information on it, the
    -- same text and the two flags that are left, and with the cookie and the id with its
    -- highest bit set as hints. Where the hints cannot be added it returns HRET_ERROR. Fuel
    -- of 3 more than the nodes of the information is enough.
    pub handler_0007-sendincoming :
        (info_at : ℕ → Userinfo) (conn : Conn) (sending : GnrMsg) (snacid msgck info : ℕ)
        (s : List ℕ)
        → sending.type ≡ 0
        → sending.msgtext ≡ some s
        → fetch sending.taglist (some m) msgtlv_tag ≡ none
        → fetch sending.taglist (some m) extratlvs_tag ≡ none
        → id_of (fetch sending.taglist (some m) snacid_tag) ≡ some snacid
        → pointer (fetch sending.taglist (some m) cookie_tag) ≡ some msgck
        → pointer (fetch sending.taglist (some m) srcuserinfo_tag) ≡ some info
        → 0 < msgck
        → 0 < info
        → length (cookie_at msgck) ≡ 8
        → IsWellFormedInfo (info_at info)
        → All (λ (c : ℕ). c ≢ 0) s
        → 0 < length s
        → 26
            + userinfo_wire_size (info_at info)
            + getrenderedsize (nodes_of s (clear_ack sending.msgflags))
          ≤ 512
        → addtx (
            frame 2 conn.nextseqnum (
              incoming_snac
                (server_id snacid)
                (cookie_at msgck)
                (info_at info)
                s
                (clear_ack sending.msgflags)))
          ≡ true
        → (fuel : ℕ) (tags : List Tag) (destsn : List ℕ) (w : W) (ok : Bool) (gm : GnrMsg)
        → screenname (some tags) (some m) ≡ some (some destsn)
        → hinted malloc
            (some m)
            places
            (server_id snacid)
            (cookie_at msgck)
            (info_at info).sn
            destsn
            blank_msg
          ≡ (ok, gm)
        → length (info_at info).tlvh + 3 ≤ fuel
        → (snac : Snac) × (bytes : List ℕ) × (sendincoming addtx malloc
              (some m)
              cookie_at
              tlvs_at
              rands
              info_at
              conn
              sending
            ≡ some
                (true, sent conn 2 bytes, record sending { msgflags = clear_ack sending.msgflags }))
          × (open_snac bytes (length bytes) ≡ some (some snac))
          × (handler_0007 malloc
                (some m)
                places
                handle
                output
                table
                put_table
                module_tags
                gnr_module
                owner
                now
                stages
                fuel
                (some tags)
                snac
                w
              ≡ (if ok
                  then told_of malloc
                      (some m)
                      places
                      handle
                      output
                      table
                      put_table
                      module_tags
                      gnr_module
                      owner
                      now
                      stages
                      (info_at info)
                      (record gm {
                        msgtexttype = some html;
                        msgtext = some s;
                        msgflags = clear_ack sending.msgflags % 4;
                      })
                      []
                      w
                  else done (error, w)))
    handler_0007-sendincoming info_at conn sending snacid msgck info s im has untexted unextra id ck
          at_info some_ck some_info eight whole sz some_text fits taken fuel tags destsn w ok gm
          named hints f =
        let flags : ℕ = clear_ack sending.msgflags in
        let toui : Userinfo = info_at info in
        let payload : List ℕ = incoming_wire (cookie_at msgck) toui s flags in
        let small : 16 + length s < 2 ^ 16 = unfold getrenderedsize in (omega (arith, fits)) in
        let size = length-incoming_wire (cookie_at msgck) toui s flags small eight whole in
        (
          message 7 (server_id snacid) payload,
          incoming_snac (server_id snacid) (cookie_at msgck) toui s flags,
          sendincoming_lem malloc sound grants m addtx cookie_at tlvs_at rands info_at conn sending
              snacid msgck info s im has untexted unextra id ck at_info some_ck some_info eight
              whole small fits taken,
          open_message 7 (server_id snacid) payload (omega arith) (omega arith)
              (omega (arith, size, fits)),
          handler_0007_lem malloc sound grants m places handle output table put_table module_tags
              gnr_module owner now stages fuel tags (message 7 (server_id snacid) payload) w destsn
              (cookie_at msgck) s toui flags named
              (message-IsValid 7 (server_id snacid) payload (omega (arith, size, fits)))
              (pending-message 7 (server_id snacid) payload) eight whole sz some_text small f ok gm
              hints,
        )
