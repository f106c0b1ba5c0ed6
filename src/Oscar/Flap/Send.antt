-- ===== src/Oscar/Flap/Send.antt =====
-- timps/oscar/flap.c: the frames that are queued when something is sent.
use timps.Prelude.{
  ℕ, ◌+◌, ◌-◌, ◌%◌, ◌^◌, ◌<◌, ◌≤◌, ◌≡◌, refl, sym, ◌∙◌, ap, Bool, true, Option, some, List, [], ◌∷◌,
  ◌++◌, arith, length, length-append, length-take, take, drop, take-append-drop,
  take-append_of_length, load, store,
}
use mathlib.Core.Path.{subst}
use timps.Bytes.{byte_put8, byte_put16, byte_put32}
use timps.Sbuf.{Sbuf, put8, put32}
use timps.Sbuf.Valid.{IsValid, written}
use timps.Sbuf.Append.{wrote}
use timps.Tlv.Render.{Put, Put-trans, putraw-Put, put16-Put}
use timps.Oscar.Flap.{magic, Conn, puthdr, reqwrite, sendraw, sendsbuf_consume}

-- A frame on the wire.
abbrev pub frame : ℕ → ℕ → List ℕ → List ℕ
frame chan seq payload = magic ∷ chan ∷ (byte_put16 seq ++ (byte_put16 (length payload) ++ payload))

-- The header that toscar_flap_puthdr writes.
abbrev pub blank_header : ℕ → List ℕ
blank_header chan = magic ∷ chan ∷ 0 ∷ 0 ∷ 0 ∷ 4 ∷ []

-- The connection after a frame was queued on it.
abbrev pub sent : Conn → ℕ → List ℕ → Conn
sent conn chan payload = record {
  nextseqnum = (conn.nextseqnum + 1) % 2 ^ 16;
  queued = conn.queued ++ (frame chan conn.nextseqnum payload ∷ []);
}

module _ (addtx : List ℕ → Bool) where
  -- The first byte, the sequence number and the length are put in place; the channel and the
  -- payload stay as they are in the block.
  sendraw_lem :
      (conn : Conn) (m chan s1 s2 l1 l2 : ℕ) (rest payload : List ℕ)
      → length payload + 6 < 2 ^ 16
      → length payload ≤ length rest
      → take (length payload) rest ≡ payload
      → addtx (frame chan conn.nextseqnum payload) ≡ true
      → sendraw addtx conn (m ∷ chan ∷ s1 ∷ s2 ∷ l1 ∷ l2 ∷ rest) (length payload + 6)
        ≡ some (true, sent conn chan payload)
  unfolding sendraw reqwrite store load byte_put8 byte_put16
  sendraw_lem conn m chan s1 s2 l1 l2 rest payload small room e a =
      let wide : (length payload + 6 + 2 ^ 16 - 6) % 2 ^ 16 ≡ length payload = omega arith in
      ground (arith, wide, e, a)

  -- A valid buffer in which a blank header and a payload were written is queued as the frame of
  -- its channel, the connection's sequence number and the payload, if libnbio takes it, and the
  -- sequence number goes up by one modulo 2 ^ 16.
  pub sendsbuf_lem :
      (conn : Conn) (sb : Sbuf) (chan : ℕ) (payload : List ℕ)
      → IsValid sb
      → written sb ≡ blank_header chan ++ payload
      → addtx (frame chan conn.nextseqnum payload) ≡ true
      → sendsbuf_consume addtx conn sb ≡ some (true, sent conn chan payload)
  unfolding sendsbuf_consume
  sendsbuf_lem conn sb chan payload v e a =
      let tail : List ℕ = drop sb.pos sb.buf in
      let rest : List ℕ = payload ++ tail in
      let at : sb.pos ≡ length payload + 6 =
        omega (arith, v.cursor, v.storage, length-take sb.pos sb.buf, ap length e) in
      let block : sb.buf ≡ magic ∷ chan ∷ 0 ∷ 0 ∷ 0 ∷ 4 ∷ rest =
        sym (take-append-drop sb.pos sb.buf) ∙ ap (λ t. t ++ tail) e in
      ap (λ b. sendraw addtx conn b sb.pos) block
      ∙ ap (λ n. sendraw addtx conn (magic ∷ chan ∷ 0 ∷ 0 ∷ 0 ∷ 4 ∷ rest) n) at
      ∙ sendraw_lem conn magic chan 0 0 0 4 rest payload (omega (arith, at, v.cursor, v.width))
          (omega (arith, length-append payload tail))
          (take-append_of_length payload tail (length payload) refl) a

module _ (malloc : ℕ → Option (List ℕ)) where
  pub put8-Put :
      (sb : Sbuf) (n : ℕ)
      → IsValid sb
      → sb.pos + 1 ≤ sb.buflen
      → (put8 malloc sb n ≡ some (1, wrote sb (byte_put8 n)))
        × Put sb (byte_put8 n) (wrote sb (byte_put8 n))
  unfolding put8 byte_put8
  put8-Put sb n v h = putraw-Put malloc sb (byte_put8 n) v h

  pub put32-Put :
      (sb : Sbuf) (n : ℕ)
      → IsValid sb
      → sb.pos + 4 ≤ sb.buflen
      → (put32 malloc sb n ≡ some (4, wrote sb (byte_put32 n)))
        × Put sb (byte_put32 n) (wrote sb (byte_put32 n))
  unfolding put32 byte_put32
  put32-Put sb n v h = putraw-Put malloc sb (byte_put32 n) v h

  -- Where six bytes fit, the blank header is put there.
  pub puthdr-Put :
      (sb : Sbuf) (chan : ℕ)
      → IsValid sb
      → chan < 256
      → sb.pos + 6 ≤ sb.buflen
      → (sb' : Sbuf) × (puthdr malloc sb chan ≡ some sb') × Put sb (blank_header chan) sb'
  unfolding puthdr byte_put8 byte_put16
  puthdr-Put sb chan v c h =
      let sb1 : Sbuf = wrote sb (byte_put8 magic) in
      let (e1, p1) = put8-Put sb magic v (omega arith) in
      let sb2 : Sbuf = wrote sb1 (byte_put8 chan) in
      let (e2, p2) = put8-Put sb1 chan p1.appended.valid (omega (arith, p1.appended.moved)) in
      let sb3 : Sbuf = wrote sb2 (byte_put16 0) in
      let (e3, p3) = put16-Put malloc sb2 0 p2.appended.valid (omega arith) in
      let sb4 : Sbuf = wrote sb3 (byte_put16 4) in
      let (e4, p4) = put16-Put malloc sb3 4 p3.appended.valid (omega arith) in
      let low : chan % 256 ≡ chan = omega arith in
      (
        sb4,
        ground (arith, e1, e2, e3, e4),
        subst (λ k. Put sb (magic ∷ k ∷ 0 ∷ 0 ∷ 0 ∷ 4 ∷ []) sb4) low
            (Put-trans sb (byte_put8 magic) sb1 (byte_put8 chan ++ (byte_put16 0 ++ byte_put16 4))
              sb4 p1
              (Put-trans sb1 (byte_put8 chan) sb2 (byte_put16 0 ++ byte_put16 4) sb4 p2
                (Put-trans sb2 (byte_put16 0) sb3 (byte_put16 4) sb4 p3 p4))),
      )
