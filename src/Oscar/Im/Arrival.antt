-- ===== src/Oscar/Im/Arrival.antt =====
-- timps/oscar/im.c: what the two handlers make of a packet with a message on channel 1, and of one that is
-- cut short.
use timps.Prelude.{
  ℕ, ◌+◌, ◌%◌, ◌^◌, ◌≤◌, ◌<◌, ◌≡◌, ◌≢◌, refl, sym, ap, Bool, true, false, Option, none, some, List,
  [], ◌∷◌, ◌++◌, if◌then◌else◌, arith, length, All,
}
use mathlib.Core.Path.{subst}
use timps.Bytes.{byte_put8, byte_put16, byte_get8, byte_get16, get8-put8, get16-put16}
use timps.Sbuf.{Sbuf, get8, get16}
use timps.Sbuf.Valid.{IsValid, IsMalloc, pending}
use timps.Sbuf.Read.{skip, consume, get_int_lem, getrawbuf_short}
use timps.Sbuf.Strings.{getraw, getraw_lem, getstr_lem}
use timps.Tlv.{Tlv, Outcome, done, fault}
use timps.Tlv.Wire.{wires}
use timps.Tlv.Parse.{Grants}
use timps.Tlv.RoundTrip.{parse-wires}
use timps.Tags.{Tag}
use timps.Gnr.Node.{Table}
use timps.Gnr.Msg.{GnrMsg, Mh, Routing}
use timps.Oscar.Userinfo.{cstr}
use timps.Oscar.Snac.{Snac}
use timps.Oscar.Im.Channel.{html, parsechan1}
use timps.Oscar.Im.ChannelTrip.{
  nodes_of, parsechan1-nodes, cstr-ends, length-nodes_of, block_node-IsWellFormed,
  flags-IsWellFormed,
}
use timps.Oscar.Im.Handlers.{
  Hret, error, Places, screenname, msg_size, blank_msg, gnr_msg_new, read_dest, hinted, send_on,
  read_chan, handler_0006, handler_0007,
}

-- The bytes of an outgoing message on channel 1: its cookie, the channel, the destination and the nodes.
abbrev pub outgoing_wire : List ℕ → List ℕ → List ℕ → ℕ → List ℕ
outgoing_wire ck dest s flags =
    ck ++ (byte_put16 1 ++ (byte_put8 (length dest) ++ (dest ++ wires (nodes_of s flags))))

module _ (malloc : ℕ → Option (List ℕ)) (sound : IsMalloc malloc) (grants : Grants malloc)
    (mod_ : Option ℕ) (places : Places) where
  read_dest_lem :
      (sb : Sbuf) (dest rest : List ℕ)
      → IsValid sb
      → pending sb ≡ byte_put16 1 ++ (byte_put8 (length dest) ++ (dest ++ rest))
      → length dest < 256
      → (sb' : Sbuf) × (read_dest malloc mod_ places sb ≡ some (1, some (dest ++ (0 ∷ [])), sb'))
        × IsValid sb'
        × (pending sb' ≡ rest)
  unfolding read_dest get8 get16 byte_put8 byte_put16
  read_dest_lem sb dest rest v e small =
      let n : ℕ = length dest in
      let c1 = consume sb (byte_put16 1) (byte_put8 n ++ (dest ++ rest)) v e in
      let sb1 : Sbuf = skip sb 2 in
      let c2 = consume sb1 (byte_put8 n) (dest ++ rest) c1.valid c1.left in
      let sb2 : Sbuf = skip sb1 1 in
      let c3 = consume sb2 dest rest c2.valid c2.left in
      let (b, g) = grants (n + 1) in
      let chan : byte_get16 (byte_put16 1) ≡ 1 = get16-put16 1 (omega arith) in
      let len : byte_get8 (byte_put8 n) ≡ n = get8-put8 n small in
      (
        skip sb2 n,
        ground (
          arith,
          get_int_lem 2 byte_get16 sb (byte_put16 1) (byte_put8 n ++ (dest ++ rest)) v refl e,
          get_int_lem 1 byte_get8 sb1 (byte_put8 n) (dest ++ rest) c1.valid refl c1.left,
          getstr_lem malloc sb2 dest rest b c2.valid c2.left g,
          chan,
          len,
        ),
        c3.valid,
        c3.left,
      )

  getraw_short :
      (sb : Sbuf) (n : ℕ)
      → IsValid sb
      → length (pending sb) < n
      → getraw malloc sb n ≡ some (none, sb)
  unfolding getraw
  getraw_short sb n v few = ground (arith, getrawbuf_short sb n v few)

  pub hinted_clear :
      (snacid : ℕ) (ck src dest : List ℕ) (ok : Bool) (gm : GnrMsg)
      → hinted malloc mod_ places snacid ck src dest blank_msg ≡ (ok, gm)
      → gm.msgflags ≡ 0
  unfolding hinted
  hinted_clear snacid ck src dest ok gm e = ap (λ p. p.1.msgflags) (sym e)

  module _ {W : Type 0} (handle : ℕ → ℕ → ℕ → Routing W → Bool × Routing W)
      (output : ℕ → ℕ → Routing W → Routing W) (table : W → Table) (put_table : Table → W → W)
      (module_tags : W → ℕ → List Tag) (gnr_module owner now : ℕ) (stages : List (List Mh)) where
    pub read_chan_lem :
        (fuel : ℕ) (tlvh rest : List Tlv) (gm gm' : GnrMsg)
        (use_msg : GnrMsg → List Tlv → Outcome (Hret × W)) (w : W)
        → parsechan1 malloc mod_ places.of_tlv fuel gm tlvh ≡ done (gm', rest)
        → (ok : Bool)
        → read_chan malloc mod_ places handle output table put_table module_tags gnr_module owner
            now stages fuel 1 tlvh use_msg w
            (ok, gm)
          ≡ (if ok then use_msg gm' rest else done (error, w))
    unfolding read_chan
    read_chan_lem fuel tlvh rest gm gm' use_msg w e false = refl
    read_chan_lem fuel tlvh rest gm gm' use_msg w e true = rw (e) refl

    -- With memory granted in blocks of the size asked for, toscar_snachandler_0004_0006 of the bytes of a
    -- message on channel 1, on a connection whose endpoint has a screen name, hands on just this message,
    -- with the cookie and the id of the packet as hints and no node left: from the screen name to the
    -- destination, with the text and the two flags. Where the hints cannot be added it returns HRET_ERROR.
    -- The destination has less than 256 bytes, the text is not empty and has less than 2 ^ 16 - 16, and
    -- both have no zero; the cookie has 8. Fuel of 3 is enough.
    pub handler_0006_lem :
        (fuel : ℕ) (tags : List Tag) (snac : Snac) (w : W) (src ck dest s : List ℕ) (flags : ℕ)
        → screenname (some tags) mod_ ≡ some (some src)
        → IsValid snac.payload
        → pending snac.payload ≡ outgoing_wire ck dest s flags
        → length ck ≡ 8
        → length dest < 256
        → All (λ (c : ℕ). c ≢ 0) dest
        → All (λ (c : ℕ). c ≢ 0) s
        → 0 < length s
        → 16 + length s < 2 ^ 16
        → 3 ≤ fuel
        → (ok : Bool) (gm : GnrMsg)
        → hinted malloc mod_ places snac.id ck src dest blank_msg ≡ (ok, gm)
        → handler_0006 malloc mod_ places handle output table put_table module_tags gnr_module owner
            now stages fuel
            (some tags)
            snac
            w
          ≡ (if ok
              then send_on malloc mod_ places handle output table put_table module_tags gnr_module
                  owner now stages dest
                  (record gm { msgtexttype = some html; msgtext = some s; msgflags = flags % 4 })
                  []
                  w
              else done (error, w))
    unfolding handler_0006 gnr_msg_new
    handler_0006_lem fuel tags snac w src ck dest s flags named v e eight short dz sz some_text
          small f ok gm hints =
        let rest : List ℕ =
          byte_put16 1 ++ (byte_put8 (length dest) ++ (dest ++ wires (nodes_of s flags))) in
        let (b, g) = grants (length ck) in
        let c = consume snac.payload ck rest v e in
        let e1 : getraw malloc snac.payload 8 ≡ some (some ck, skip snac.payload (length ck)) =
          subst (λ k. getraw malloc snac.payload k ≡ some (some ck, skip snac.payload (length ck)))
            eight (getraw_lem malloc snac.payload ck rest b v e g) in
        let (sb4, e4, v4, left4) =
          read_dest_lem (skip snac.payload (length ck)) dest (wires (nodes_of s flags)) c.valid
            c.left short in
        let (sb5, e5, _) =
          parse-wires malloc grants fuel sb4 (nodes_of s flags) v4
            (block_node-IsWellFormed s small, flags-IsWellFormed flags) left4
            (length-nodes_of fuel s flags f) in
        let (b6, g6) = grants msg_size in
        let name : cstr (dest ++ (0 ∷ [])) ≡ dest = cstr-ends dest [] dz in
        let clear : gm.msgflags ≡ 0 = hinted_clear snac.id ck src dest ok gm hints in
        let text =
          parsechan1-nodes malloc sound grants mod_ places.of_tlv fuel gm s flags clear sz some_text
            small (omega (arith, f)) in
        rw (handler_0006, named, e1, e4, e5, g6, name, hints)
          (read_chan_lem fuel (nodes_of s flags) [] gm
            (record gm { msgtexttype = some html; msgtext = some s; msgflags = flags % 4 })
            (λ gm' rest.
              send_on malloc mod_ places handle output table put_table module_tags gnr_module owner
                now stages dest gm' rest w)
            w text ok)

    -- Of a valid packet with less than 8 bytes, on connections with a screen name,
    -- toscar_snachandler_0004_0006 returns HRET_ERROR and changes nothing, and
    -- toscar_snachandler_0004_0007 reads the tags of a null message.
    pub handler_0007_short :
        (fuel : ℕ) (tags : List Tag) (snac : Snac) (w : W) (sn : List ℕ)
        → screenname (some tags) mod_ ≡ some (some sn)
        → IsValid snac.payload
        → length (pending snac.payload) < 8
        → (handler_0006 malloc mod_ places handle output table put_table module_tags gnr_module
              owner now stages fuel
              (some tags)
              snac
              w
            ≡ done (error, w))
          × (handler_0007 malloc mod_ places handle output table put_table module_tags gnr_module
                owner now stages fuel
                (some tags)
                snac
                w
              ≡ fault)
    unfolding handler_0006 handler_0007
    handler_0007_short fuel tags snac w sn named v few =
        let got = getraw_short snac.payload 8 v few in
        (rw (handler_0006, named, got) refl, rw (handler_0007, named, got) refl)
