-- ===== src/Oscar/Flap/Packets.antt =====
-- timps/oscar/flap.c: the frames that a connection sends of its own.
use timps.Prelude.{
  ℕ, ◌+◌, ◌≤◌, ◌≡◌, Bool, true, Option, some, List, [], ◌∷◌, ◌++◌, inr, arith, length, All,
}
use timps.Bytes.{byte_put32}
use timps.Sbuf.{Sbuf, init_new}
use timps.Sbuf.Valid.{IsValid, IsMalloc, written}
use timps.Sbuf.Append.{wrote}
use timps.Tlv.{Tlv, getrenderedsize}
use timps.Tlv.Wire.{IsWellFormed, wires}
use timps.Tlv.Render.{Put, Put-trans, render-Put}
use timps.Oscar.Flap.{Conn, sendnop, sendflapversion, sendcookie}
use timps.Oscar.Flap.Send.{frame, blank_header, sent, sendsbuf_lem, puthdr-Put, put32-Put}

-- A new buffer of that size on a granted block.
abbrev pub fresh : List ℕ → ℕ → Sbuf
fresh block n = record { free_buf = true; auto_resize = true; buf = block; buflen = n; pos = 0 }

pub fresh-IsValid : (block : List ℕ) (n : ℕ) → length block ≡ n → n ≤ 512 → IsValid (fresh block n)
fresh-IsValid block n e h = record {
  storage = omega arith;
  cursor = omega arith;
  width = omega arith;
  small = inr (omega arith);
}

-- What was put into a buffer at its start is all that was written.
written-Put :
    (block : List ℕ) (n : ℕ) (bs : List ℕ) (sb : Sbuf) → Put (fresh block n) bs sb → written sb ≡ bs
written-Put block n bs sb p = p.appended.bytes

module _ (addtx : List ℕ → Bool) (malloc : ℕ → Option (List ℕ)) (sound : IsMalloc malloc)
    (conn : Conn) where
  -- A keepalive is the frame of channel 5 without a payload.
  pub sendnop_lem :
      (block : List ℕ)
      → malloc 512 ≡ some block
      → addtx (frame 5 conn.nextseqnum []) ≡ true
      → sendnop addtx malloc conn ≡ some (true, sent conn 5 [])
  unfolding sendnop init_new
  sendnop_lem block g a =
      let v : IsValid (fresh block 512) =
        fresh-IsValid block 512 (sound 512 block g) (omega arith) in
      let (sb, e, p) = puthdr-Put malloc (fresh block 512) 5 v (omega arith) (omega arith) in
      ground (arith, g, e, sendsbuf_lem addtx conn sb 5 [] p.appended.valid p.appended.bytes a)

  -- A new connection announces version 1 on channel 1.
  pub sendflapversion_lem :
      (block : List ℕ)
      → malloc 10 ≡ some block
      → addtx (frame 1 conn.nextseqnum (0 ∷ 0 ∷ 0 ∷ 1 ∷ [])) ≡ true
      → sendflapversion addtx malloc conn ≡ some (true, sent conn 1 (0 ∷ 0 ∷ 0 ∷ 1 ∷ []))
  unfolding sendflapversion init_new byte_put32
  sendflapversion_lem block g a =
      let v : IsValid (fresh block 10) = fresh-IsValid block 10 (sound 10 block g) (omega arith) in
      let (sb, e, p) = puthdr-Put malloc (fresh block 10) 1 v (omega arith) (omega arith) in
      let (e', p') =
        put32-Put malloc sb 1 p.appended.valid (omega (arith, p.appended.moved, p.same_buflen)) in
      let sb' : Sbuf = wrote sb (byte_put32 1) in
      let q : Put (fresh block 10) (blank_header 1 ++ byte_put32 1) sb' =
        Put-trans (fresh block 10) (blank_header 1) sb (byte_put32 1) sb' p p' in
      ground (
        arith,
        g,
        e,
        e',
        sendsbuf_lem addtx conn sb' 1 (byte_put32 1) q.appended.valid q.appended.bytes a,
      )

  -- With a granted block of the size asked for, toscar_flap_sendcookie queues version 1 and the
  -- bytes of a well-formed list as one frame on channel 1, if these fit 512 bytes with the
  -- header and libnbio takes the frame.
  pub sendcookie_lem :
      (block : List ℕ) (tlvs : List Tlv)
      → malloc 512 ≡ some block
      → All IsWellFormed tlvs
      → getrenderedsize tlvs + 10 ≤ 512
      → addtx (frame 1 conn.nextseqnum (0 ∷ 0 ∷ 0 ∷ 1 ∷ wires tlvs)) ≡ true
      → sendcookie addtx malloc conn tlvs ≡ some (true, sent conn 1 (0 ∷ 0 ∷ 0 ∷ 1 ∷ wires tlvs))
  unfolding sendcookie init_new byte_put32
  sendcookie_lem block tlvs g w h a =
      let v : IsValid (fresh block 512) =
        fresh-IsValid block 512 (sound 512 block g) (omega arith) in
      let (sb, e, p) = puthdr-Put malloc (fresh block 512) 1 v (omega arith) (omega arith) in
      let (e1, p1) =
        put32-Put malloc sb 1 p.appended.valid (omega (arith, p.appended.moved, p.same_buflen)) in
      let sb1 : Sbuf = wrote sb (byte_put32 1) in
      let (sb2, e2, p2) =
        render-Put malloc tlvs sb1 p1.appended.valid w
          (omega (arith, p.appended.moved, p.same_buflen)) in
      let q : Put (fresh block 512) (blank_header 1 ++ (byte_put32 1 ++ wires tlvs)) sb2 =
        Put-trans (fresh block 512) (blank_header 1) sb (byte_put32 1 ++ wires tlvs) sb2 p
          (Put-trans sb (byte_put32 1) sb1 (wires tlvs) sb2 p1 p2) in
      ground (
        arith,
        g,
        e,
        e1,
        e2,
        sendsbuf_lem addtx conn sb2 1 (byte_put32 1 ++ wires tlvs) q.appended.valid q.appended.bytes
            a,
      )
