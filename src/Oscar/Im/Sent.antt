-- ===== src/Oscar/Im/Sent.antt =====
-- timps/oscar/im.c: the frame that toscar_icbm_sendoutgoing queues.
use timps.Prelude.{
  ℕ, ◌+◌, ◌%◌, ◌^◌, ◌≤◌, ◌<◌, ◌≡◌, ◌∙◌, ap, Bool, true, Option, none, some, List, ◌++◌,
  append_assoc, arith, length, length-append,
}
use mathlib.Core.Path.{subst}
use timps.Bytes.{byte_put8, byte_put16, byte_put32}
use timps.Sbuf.{Sbuf, putraw}
use timps.Sbuf.Valid.{IsMalloc}
use timps.Sbuf.Append.{wrote}
use timps.Tlv.{Tlv, getrenderedsize}
use timps.Tlv.Wire.{wires}
use timps.Tlv.Parse.{Grants}
use timps.Tlv.Render.{Put, Put-trans, putraw-Put, put16-Put}
use timps.Tags.{fetch}
use timps.Gnr.Msg.{GnrMsg}
use timps.Oscar.Userinfo.RoundTrip.{putstr-Put}
use timps.Oscar.Flap.{Conn}
use timps.Oscar.Flap.Send.{frame, blank_header, sent, sendsbuf_lem, put8-Put}
use timps.Oscar.Flap.Packets.{fresh}
use timps.Oscar.Snac.Header.{snac_header, newsnacsb-Put}
use timps.Oscar.Im.Channel.{pointer, msgtlv_tag, extratlvs_tag}
use timps.Oscar.Im.ChannelTrip.{nodes_of, renderchan1-Put}
use timps.Oscar.Im.Handlers.{snacid_tag, cookie_tag}
use timps.Oscar.Im.Arrival.{outgoing_wire}
use timps.Oscar.Im.Senders.{id_of, client_id, icbm_channel, put_cookie, begin_icbm, sendoutgoing}

-- The bytes of an outgoing message with its header.
abbrev pub outgoing_snac : ℕ → List ℕ → List ℕ → List ℕ → ℕ → List ℕ
outgoing_snac id ck dest s flags = snac_header 4 6 0 id ++ outgoing_wire ck dest s flags

module _ (malloc : ℕ → Option (List ℕ)) (sound : IsMalloc malloc) (grants : Grants malloc)
    (addtx : List ℕ → Bool) (m : ℕ) (cookie_at : ℕ → List ℕ) (tlvs_at : ℕ → List Tlv)
    (rands : ℕ → ℕ) where
  -- The beginning of a message with a cookie, on a new buffer.
  pub begin_icbm-Put :
      (subtype snacid msgck chan : ℕ) (block : List ℕ)
      → malloc 512 ≡ some block
      → 0 < msgck
      → length (cookie_at msgck) ≡ 8
      → (sb : Sbuf) × (begin_icbm malloc cookie_at rands subtype snacid msgck chan ≡ some (some sb))
        × Put
            (fresh block 512)
            (blank_header 2
              ++ snac_header 4 subtype 0 snacid
              ++ (cookie_at msgck ++ byte_put16 chan))
            sb
  unfolding begin_icbm put_cookie
  begin_icbm-Put subtype snacid msgck chan block g some_ck eight =
      let ck : List ℕ = cookie_at msgck in
      let hdr : List ℕ = blank_header 2 ++ snac_header 4 subtype 0 snacid in
      let (sb, e, p) = newsnacsb-Put malloc sound 4 subtype 0 snacid block g in
      let at : sb.pos ≡ 16 = unfold byte_put16 byte_put32 in p.appended.moved in
      let (raw, p1) =
        putraw-Put malloc sb ck p.appended.valid (omega (arith, at, eight, p.same_buflen)) in
      let e1 : putraw malloc sb ck 8 ≡ some (length ck, wrote sb ck) =
        subst (λ k. putraw malloc sb ck k ≡ some (length ck, wrote sb ck)) eight raw in
      let (e2, p2) =
        put16-Put malloc (wrote sb ck) chan p1.appended.valid
          (omega (arith, at, eight, p.same_buflen, p1.appended.moved, p1.same_buflen)) in
      (
        wrote (wrote sb ck) (byte_put16 chan),
        ground (arith, e, e1, e2),
        Put-trans (fresh block 512) hdr sb (ck ++ byte_put16 chan)
            (wrote (wrote sb ck) (byte_put16 chan)) p
            (Put-trans sb ck (wrote sb ck) (byte_put16 chan) (wrote (wrote sb ck) (byte_put16 chan))
              p1 p2),
      )

  -- With blocks granted in the size asked for, toscar_icbm_sendoutgoing of an instant message that has a
  -- destination below 256 bytes, a text, a cookie of 8 bytes and an id, and neither nodes of the text nor
  -- extra nodes, queues one frame of channel 2: the header 0004/0006 with the id below 2 ^ 31, then the
  -- cookie, the channel, the destination and the nodes. The whole fits 512 bytes, and libnbio takes it.
  pub sendoutgoing_lem :
      (conn : Conn) (gm : GnrMsg) (snacid msgck : ℕ) (dest s : List ℕ)
      → gm.type ≡ 0
      → gm.destname ≡ some dest
      → gm.msgtext ≡ some s
      → fetch gm.taglist (some m) msgtlv_tag ≡ none
      → fetch gm.taglist (some m) extratlvs_tag ≡ none
      → id_of (fetch gm.taglist (some m) snacid_tag) ≡ some snacid
      → pointer (fetch gm.taglist (some m) cookie_tag) ≡ some msgck
      → 0 < msgck
      → length (cookie_at msgck) ≡ 8
      → length dest < 256
      → 16 + length s < 2 ^ 16
      → 27 + length dest + getrenderedsize (nodes_of s gm.msgflags) ≤ 512
      → addtx (
          frame 2 conn.nextseqnum (
            snac_header 4 6 0 (client_id snacid)
            ++ outgoing_wire (cookie_at msgck) dest s gm.msgflags))
        ≡ true
      → sendoutgoing addtx malloc (some m) cookie_at tlvs_at rands conn gm
        ≡ some (
          true,
          sent conn 2 (
              snac_header 4 6 0 (client_id snacid)
              ++ outgoing_wire (cookie_at msgck) dest s gm.msgflags),
        )
  unfolding sendoutgoing icbm_channel byte_put8 byte_put16 byte_put32
  sendoutgoing_lem conn gm snacid msgck dest s im to has untexted unextra id ck some_ck eight short
        small fits taken =
      let (block, g) = grants 512 in
      let hdr : List ℕ = snac_header 4 6 0 (client_id snacid) in
      let front : List ℕ = cookie_at msgck ++ byte_put16 1 in
      let n : ℕ = length dest in
      let (sb, e, p) = begin_icbm-Put 6 (client_id snacid) msgck 1 block g some_ck eight in
      let at : sb.pos ≡ 26 =
        unfold byte_put16 byte_put32 in
        (omega (arith, p.appended.moved, length-append (cookie_at msgck) (byte_put16 1), eight)) in
      let size : sb.buflen ≡ 512 = p.same_buflen in
      let (e1, p1) = put8-Put malloc sb n p.appended.valid (omega (arith, at, size)) in
      let sb1 : Sbuf = wrote sb (byte_put8 n) in
      let at1 : sb1.pos ≡ 27 = unfold byte_put8 in (omega (arith, p1.appended.moved, at)) in
      let (e2, p2) =
        putstr-Put malloc sb1 dest p1.appended.valid
          (omega (arith, at1, size, p1.same_buflen, fits)) in
      let sb2 : Sbuf = wrote sb1 dest in
      let (sb3, e3, p3) =
        renderchan1-Put malloc sound grants m tlvs_at gm s sb2 untexted unextra has small
          p2.appended.valid
          (omega (arith, at1, size, p1.same_buflen, p2.same_buflen, p2.appended.moved, fits)) in
      let low : n % 256 ≡ n = omega (arith, short) in
      let tail : List ℕ = byte_put8 n ++ (dest ++ wires (nodes_of s gm.msgflags)) in
      let q : Put (fresh block 512) (blank_header 2 ++ hdr ++ front ++ tail) sb3 =
        Put-trans (fresh block 512) (blank_header 2 ++ hdr ++ front) sb tail sb3 p (
          Put-trans sb (byte_put8 n) sb1 (dest ++ wires (nodes_of s gm.msgflags)) sb3 p1
            (Put-trans sb1 dest sb2 (wires (nodes_of s gm.msgflags)) sb3 p2 p3)) in
      let queued =
        sendsbuf_lem addtx conn sb3 2 (hdr ++ outgoing_wire (cookie_at msgck) dest s gm.msgflags)
          q.appended.valid
          (q.appended.bytes
            ∙ ap (λ t. blank_header 2 ++ (hdr ++ t))
                (append_assoc (cookie_at msgck) (byte_put16 1) tail))
          taken in
      ground (arith, im, id, ck, e, to, low, e1, e2, e3, queued)
