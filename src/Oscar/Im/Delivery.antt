-- ===== src/Oscar/Im/Delivery.antt =====
-- timps/oscar/im.c: a message that toscar_icbm_sendoutgoing writes, as toscar_snachandler_0004_0006 reads
-- it.
mod Runs
use timps.Prelude.{
  ℕ, ◌+◌, ◌%◌, ◌^◌, ◌≤◌, ◌<◌, ◌≡◌, ◌≢◌, Bool, true, Option, none, some, List, [], ◌++◌,
  if◌then◌else◌, arith, length, length-append, All,
}
use timps.Bytes.{byte_put8, byte_put16}
use timps.Sbuf.Valid.{IsMalloc}
use timps.Tlv.{Tlv, done, getrenderedsize}
use timps.Tlv.Wire.{wires, length-wires}
use timps.Tlv.Parse.{Grants}
use timps.Tags.{Tag, fetch}
use timps.Gnr.Node.{Table}
use timps.Gnr.Msg.{GnrMsg, Mh, Routing}
use timps.Oscar.Flap.{Conn}
use timps.Oscar.Flap.Send.{frame, sent}
use timps.Oscar.Snac.{Snac, open_snac}
use timps.Oscar.Im.Channel.{html, pointer, msgtlv_tag, extratlvs_tag}
use timps.Oscar.Im.ChannelTrip.{nodes_of, block_node-IsWellFormed, flags-IsWellFormed}
use timps.Oscar.Im.Handlers.{
  error, Places, snacid_tag, cookie_tag, screenname, blank_msg, hinted, send_on, handler_0006,
}
use timps.Oscar.Im.Arrival.{outgoing_wire, handler_0006_lem}
use timps.Oscar.Im.Sent.{outgoing_snac, sendoutgoing_lem}
use timps.Oscar.Im.Senders.{id_of, client_id, sendoutgoing}
use timps.Oscar.Im.Opened.{open_message, message-IsValid, pending-message, message}

length-outgoing_wire :
    (ck dest s : List ℕ) (flags : ℕ)
    → 16 + length s < 2 ^ 16
    → length ck ≡ 8
    → length (outgoing_wire ck dest s flags) ≡ 11 + length dest + getrenderedsize (nodes_of s flags)
unfolding byte_put8 byte_put16
length-outgoing_wire ck dest s flags small eight = omega (
  arith,
  length-append ck
      (byte_put16 1 ++ (byte_put8 (length dest) ++ (dest ++ wires (nodes_of s flags)))),
  length-append dest (wires (nodes_of s flags)),
  length-wires (nodes_of s flags) (block_node-IsWellFormed s small, flags-IsWellFormed flags),
  eight,
)

module _ (malloc : ℕ → Option (List ℕ)) (sound : IsMalloc malloc) (grants : Grants malloc)
    (addtx : List ℕ → Bool) (m : ℕ) (cookie_at : ℕ → List ℕ) (tlvs_at : ℕ → List Tlv)
    (rands : ℕ → ℕ) where
  module _ {W : Type 0} (places : Places) (handle : ℕ → ℕ → ℕ → Routing W → Bool × Routing W)
      (output : ℕ → ℕ → Routing W → Routing W) (table : W → Table) (put_table : Table → W → W)
      (module_tags : W → ℕ → List Tag) (gnr_module owner now : ℕ) (stages : List (List Mh)) where
    -- With memory granted in blocks of the size asked for, toscar_icbm_sendoutgoing, for a
    -- module that is not null, of an instant message that has a destination below 256 bytes,
    -- a text that is not empty, both without zeros, a cookie of 8 bytes and an id, and
    -- neither kept nodes of the text nor extra nodes, queues one frame of channel 2, if
    -- libnbio takes it and the message fits 512 bytes. toscar_flap_handlesnac opens a message
    -- from its bytes, and toscar_snachandler_0004_0006 of that, on a connection whose
    -- endpoint has a screen name, sends on to the same destination a message from that screen
    -- name with the same text and two flags, and with the cookie and the low 31 bits of the
    -- id as hints. Where the hints cannot be added it returns HRET_ERROR. Fuel of 3 is
    -- enough.
    pub handler_0006-sendoutgoing :
        (conn : Conn) (sending : GnrMsg) (snacid msgck : ℕ) (dest s : List ℕ)
        → sending.type ≡ 0
        → sending.destname ≡ some dest
        → sending.msgtext ≡ some s
        → fetch sending.taglist (some m) msgtlv_tag ≡ none
        → fetch sending.taglist (some m) extratlvs_tag ≡ none
        → id_of (fetch sending.taglist (some m) snacid_tag) ≡ some snacid
        → pointer (fetch sending.taglist (some m) cookie_tag) ≡ some msgck
        → 0 < msgck
        → length (cookie_at msgck) ≡ 8
        → length dest < 256
        → All (λ (c : ℕ). c ≢ 0) dest
        → All (λ (c : ℕ). c ≢ 0) s
        → 0 < length s
        → 27 + length dest + getrenderedsize (nodes_of s sending.msgflags) ≤ 512
        → addtx (
            frame 2 conn.nextseqnum
              (outgoing_snac (client_id snacid) (cookie_at msgck) dest s sending.msgflags))
          ≡ true
        → (fuel : ℕ) (tags : List Tag) (src : List ℕ) (w : W) (ok : Bool) (gm : GnrMsg)
        → screenname (some tags) (some m) ≡ some (some src)
        → hinted malloc (some m) places (client_id snacid) (cookie_at msgck) src dest blank_msg
          ≡ (ok, gm)
        → 3 ≤ fuel
        → (snac : Snac) × (bytes : List ℕ) × (sendoutgoing addtx malloc
              (some m)
              cookie_at
              tlvs_at
              rands
              conn
              sending
            ≡ some (true, sent conn 2 bytes))
          × (open_snac bytes (length bytes) ≡ some (some snac))
          × (handler_0006 malloc
                (some m)
                places
                handle
                output
                table
                put_table
                module_tags
                gnr_module
                owner
                now
                stages
                fuel
                (some tags)
                snac
                w
              ≡ (if ok
                  then send_on malloc
                      (some m)
                      places
                      handle
                      output
                      table
                      put_table
                      module_tags
                      gnr_module
                      owner
                      now
                      stages
                      dest
                      (record gm {
                        msgtexttype = some html;
                        msgtext = some s;
                        msgflags = sending.msgflags % 4;
                      })
                      []
                      w
                  else done (error, w)))
    handler_0006-sendoutgoing conn sending snacid msgck dest s im to has untexted unextra id ck
          some_ck eight short dz sz some_text fits taken fuel tags src w ok gm named hints f =
        let payload : List ℕ = outgoing_wire (cookie_at msgck) dest s sending.msgflags in
        let small : 16 + length s < 2 ^ 16 = unfold getrenderedsize in (omega (arith, fits)) in
        let size = length-outgoing_wire (cookie_at msgck) dest s sending.msgflags small eight in
        let bytes : List ℕ =
          outgoing_snac (client_id snacid) (cookie_at msgck) dest s sending.msgflags in
        (
          message 6 (client_id snacid) payload,
          bytes,
          sendoutgoing_lem malloc sound grants addtx m cookie_at tlvs_at rands conn sending snacid
              msgck dest s im to has untexted unextra id ck some_ck eight short small fits taken,
          open_message 6 (client_id snacid) payload (omega arith) (omega arith)
              (omega (arith, size, fits)),
          handler_0006_lem malloc sound grants (some m) places handle output table put_table
              module_tags gnr_module owner now stages fuel tags
              (message 6 (client_id snacid) payload) w src (cookie_at msgck) dest s sending.msgflags
              named (message-IsValid 6 (client_id snacid) payload (omega (arith, size, fits)))
              (pending-message 6 (client_id snacid) payload) eight short dz sz some_text small f ok
              gm hints,
        )
