-- ===== src/Oscar/Snac/Header.antt =====
-- timps/oscar/snac.c: a message that toscar_newsnacsb begins, as toscar_flap_handlesnac reads it.
use timps.Prelude.{
  ℕ, ◌+◌, ◌-◌, ◌*◌, ◌/◌, ◌%◌, ◌^◌, ◌<◌, ◌≤◌, ◌≡◌, ◌∙◌, Bool, true, Option, none, some, List, ◌++◌,
  append_assoc, arith, length, load, All,
}
use timps.Bytes.{byte_put16, byte_put32, byte_get16, byte_get32, length-put16}
use timps.Sbuf.{Sbuf, init_new, init_with}
use timps.Sbuf.Valid.{IsValid, IsMalloc}
use timps.Sbuf.Append.{wrote}
use timps.Tlv.{Tlv, getrenderedsize}
use timps.Tlv.Wire.{IsWellFormed, wires}
use timps.Tlv.Render.{Put, Put-trans, put16-Put, render-Put}
use timps.Oscar.Flap.{Conn}
use timps.Oscar.Flap.Send.{frame, blank_header, sent, sendsbuf_lem, puthdr-Put, put32-Put}
use timps.Oscar.Flap.Packets.{fresh, fresh-IsValid}
use timps.Oscar.Snac.{newsnacsb, extended_len, open_snac, sendauthinforequest}

-- The header on the wire.
abbrev pub snac_header : ℕ → ℕ → ℕ → ℕ → List ℕ
snac_header group subtype flags id =
    byte_put16 group ++ (byte_put16 subtype ++ (byte_put16 flags ++ byte_put32 id))

-- A message whose extended flag is clear and whose length fits a uint16 is opened with the
-- numbers that are written in its header, without an extended header, and with the bytes behind
-- the header as its payload.
pub open_snac-header :
    (group subtype flags id : ℕ) (payload : List ℕ)
    → group < 2 ^ 16
    → subtype < 2 ^ 16
    → flags < 2 ^ 15
    → id < 2 ^ 32
    → length payload + 10 < 2 ^ 16
    → open_snac (snac_header group subtype flags id ++ payload) (length payload + 10)
      ≡ some (
          some (record {
            group = group;
            subtype = subtype;
            flags = flags;
            id = id;
            extinfo = none;
            payload = init_with payload (length payload);
          }))
unfolding open_snac extended_len load byte_put16 byte_put32 byte_get16 byte_get32
open_snac-header group subtype flags id payload g s f i h =
    let bytes : List ℕ = snac_header group subtype flags id ++ payload in
    let size : (length payload + 10 + 2 * 2 ^ 16 - 10 - 0) % 2 ^ 16 ≡ length payload =
      omega arith in
    let eg : group / 256 % 256 % 256 * 256 + group % 256 % 256 ≡ group = omega arith in
    let es : subtype / 256 % 256 % 256 * 256 + subtype % 256 % 256 ≡ subtype = omega arith in
    let ef : flags / 256 % 256 % 256 * 256 + flags % 256 % 256 ≡ flags = omega arith in
    let ei : id / 16777216 % 256 % 256 * 16777216
          + id / 65536 % 256 % 256 * 65536
          + id / 256 % 256 % 256 * 256
          + id % 256 % 256
        ≡ id =
      omega arith in
    ground (arith, size, eg, es, ef, ei)

module _ (malloc : ℕ → Option (List ℕ)) (sound : IsMalloc malloc) where
  -- A message that is begun on a new buffer has the blank header of channel 2 and its own.
  pub newsnacsb-Put :
      (group subtype flags id : ℕ) (block : List ℕ)
      → malloc 512 ≡ some block
      → (sb : Sbuf) × (newsnacsb malloc group subtype flags id ≡ some (some sb))
        × Put (fresh block 512) (blank_header 2 ++ snac_header group subtype flags id) sb
  unfolding newsnacsb init_new
  newsnacsb-Put group subtype flags id block g =
      let v : IsValid (fresh block 512) =
        fresh-IsValid block 512 (sound 512 block g) (omega arith) in
      let (sb0, e0, p0) = puthdr-Put malloc (fresh block 512) 2 v (omega arith) (omega arith) in
      let at0 : sb0.pos ≡ 6 = p0.appended.moved in
      let (e1, p1) =
        put16-Put malloc sb0 group p0.appended.valid (omega (arith, at0, p0.same_buflen)) in
      let sb1 : Sbuf = wrote sb0 (byte_put16 group) in
      let (e2, p2) =
        put16-Put malloc sb1 subtype p1.appended.valid
          (omega (arith, at0, p0.same_buflen, length-put16 group)) in
      let sb2 : Sbuf = wrote sb1 (byte_put16 subtype) in
      let (e3, p3) =
        put16-Put malloc sb2 flags p2.appended.valid
          (omega (arith, at0, p0.same_buflen, length-put16 group, length-put16 subtype)) in
      let sb3 : Sbuf = wrote sb2 (byte_put16 flags) in
      let (e4, p4) = put32-Put malloc sb3 id p3.appended.valid (
        omega (
          arith,
          at0,
          p0.same_buflen,
          length-put16 group,
          length-put16 subtype,
          length-put16 flags,
        )) in
      let sb4 : Sbuf = wrote sb3 (byte_put32 id) in
      (
        sb4,
        ground (arith, g, e0, e1, e2, e3, e4),
        Put-trans (fresh block 512) (blank_header 2) sb0 (snac_header group subtype flags id) sb4 p0
            (Put-trans sb0 (byte_put16 group) sb1
              (byte_put16 subtype ++ (byte_put16 flags ++ byte_put32 id)) sb4 p1
              (Put-trans sb1 (byte_put16 subtype) sb2 (byte_put16 flags ++ byte_put32 id) sb4 p2
                (Put-trans sb2 (byte_put16 flags) sb3 (byte_put32 id) sb4 p3 p4))),
      )

  -- With a granted block of the size asked for, toscar_auth_sendauthinforequest queues one
  -- frame on channel 2 with the header of message 0017/0006, the given id and the bytes of a
  -- well-formed list, if these fit 512 bytes with the header and libnbio takes the frame.
  pub sendauthinforequest_lem :
      (addtx : List ℕ → Bool) (conn : Conn) (snacid : ℕ) (tlvs : List Tlv) (block : List ℕ)
      → malloc 512 ≡ some block
      → All IsWellFormed tlvs
      → getrenderedsize tlvs + 16 ≤ 512
      → addtx (frame 2 conn.nextseqnum (snac_header 0x0017 0x0006 0 snacid ++ wires tlvs)) ≡ true
      → sendauthinforequest addtx malloc conn snacid tlvs
        ≡ some (true, sent conn 2 (snac_header 0x0017 0x0006 0 snacid ++ wires tlvs))
  unfolding sendauthinforequest
  sendauthinforequest_lem addtx conn snacid tlvs block g w h a =
      let hdr : List ℕ = snac_header 0x0017 0x0006 0 snacid in
      let (sb, e, p) = newsnacsb-Put 0x0017 0x0006 0 snacid block g in
      let (sb', e', p') =
        render-Put malloc tlvs sb p.appended.valid w
          (unfold byte_put16 byte_put32 in (omega (arith, p.appended.moved, p.same_buflen))) in
      let q : Put (fresh block 512) (blank_header 2 ++ hdr ++ wires tlvs) sb' =
        Put-trans (fresh block 512) (blank_header 2 ++ hdr) sb (wires tlvs) sb' p p' in
      ground (
        arith,
        e,
        e',
        sendsbuf_lem addtx conn sb' 2 (hdr ++ wires tlvs) q.appended.valid
            (q.appended.bytes ∙ append_assoc (blank_header 2) hdr (wires tlvs)) a,
      )
