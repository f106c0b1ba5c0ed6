-- ===== src/Oscar/Flap.antt =====
-- timps/oscar/flap.c: frames of the FLAP protocol, how they are sent and how their headers are read.
--
-- A connection is the part of `struct nafconn` that these functions use. `addtx` stands for
-- nbio_addtxvector of libnbio, to which naf_conn_reqwrite hands a buffer: whether it takes the bytes.
-- Times of the last write, the debug output and the freeing of buffers are left out.
pub mod Send
pub mod Packets
pub mod Receive
mod Runs
use timps.Prelude.{
  ℕ, zero, suc, ◌+◌, ◌-◌, ◌%◌, ◌^◌, Bool, true, false, not, ◌||◌, Option, none, some, List, [], ◌∷◌,
  ◌++◌, leb, ltb, ◌==◌, if◌then◌else◌, ◌>>=◌, load, store, drop,
}
use timps.Bytes.{byte_put8, byte_put16, byte_get8, byte_get16}
use timps.Sbuf.{Sbuf, init_new, put8, put16, put32}
use timps.Tlv.{Tlv, render}
use timps.Tlv.Build.{addu16, addstring}

abbrev pub header_len : ℕ
header_len = 6

-- MAXSNACLEN
abbrev pub max_snac : ℕ
max_snac = 8192

-- FLAP_MAGIC
abbrev pub magic : ℕ
magic = b'*'

pub record Conn : Type 0 where
  pub nextseqnum : ℕ
  pub queued : List (List ℕ)

-- toscar_flap_puthdr; what the writers answer is not looked at.
unfoldable pub puthdr : (ℕ → Option (List ℕ)) → Sbuf → ℕ → Option Sbuf
puthdr malloc sb chan = (put8 malloc sb magic) >>= λ (_, sb1).
    (put8 malloc sb1 chan) >>= λ (_, sb2).
    (put16 malloc sb2 0) >>= λ (_, sb3). (put16 malloc sb3 4) >>= λ (_, sb4). some sb4

module _ (addtx : List ℕ → Bool) where
  -- naf_conn_reqwrite: whether the first bytes of the block are queued.
  unfoldable pub reqwrite : Conn → List ℕ → ℕ → Option (Bool × Conn)
  reqwrite conn buf buflen =
      if buflen == 0
      then some (false, conn)
      else (load buf 0 buflen) >>= λ bs. some (
          if addtx bs
          then (true, record conn { queued = conn.queued ++ (bs ∷ []) })
          else (false, conn))

  -- toscar_flap__sendraw; a null connection has no counterpart.
  unfoldable pub sendraw : Conn → List ℕ → ℕ → Option (Bool × Conn)
  unfolding reqwrite
  sendraw conn buf buflen = (store buf 0 (byte_put8 magic)) >>= λ b1.
      (store b1 2 (byte_put16 conn.nextseqnum)) >>= λ b2.
      (store b2 4 (byte_put16 ((buflen + 2 ^ 16 - header_len) % 2 ^ 16))) >>= λ b3.
      (reqwrite conn b3 buflen) >>= λ (done, conn'). some (
        if done
        then (true, record conn' { nextseqnum = (conn'.nextseqnum + 1) % 2 ^ 16 })
        else (false, conn'))

  -- toscar_flap_sendsbuf_consume
  unfoldable pub sendsbuf_consume : Conn → Sbuf → Option (Bool × Conn)
  unfolding sendraw
  sendsbuf_consume conn sb = sendraw conn sb.buf sb.pos

  module _ (malloc : ℕ → Option (List ℕ)) where
    unfoldable pub sendflapversion : Conn → Option (Bool × Conn)
    unfolding puthdr
    sendflapversion conn = elim (init_new malloc (header_len + 4)) [
      | none ↦ some (false, conn)
      | some sb ↦ (puthdr malloc sb 1) >>= λ sb1.
          (put32 malloc sb1 1) >>= λ (_, sb2). sendsbuf_consume conn sb2
    ]

    unfoldable pub sendcookie : Conn → List Tlv → Option (Bool × Conn)
    unfolding puthdr
    sendcookie conn tlvs = elim (init_new malloc 0) [
      | none ↦ some (false, conn)
      | some sb ↦ (puthdr malloc sb 1) >>= λ sb1. (put32 malloc sb1 1) >>= λ (_, sb2).
          (render malloc tlvs sb2) >>= λ (_, sb3). sendsbuf_consume conn sb3
    ]

    -- The nodes of a disconnect: the reason if it is not 0, and the URL if there is one.
    unfoldable pub close_tlvs : Option ℕ → ℕ → Option (List ℕ) → Option (List Tlv)
    close_tlvs mod_ reason url =
        (if reason == 0 then some (true, []) else addu16 malloc mod_ [] 9 reason) >>= λ (_, head).
        elim url [
          | none ↦ some head
          | some str ↦ (addstring malloc mod_ head 11 str) >>= λ (_, head'). some head'
        ]

    unfoldable pub sendconnclose : Option ℕ → Conn → ℕ → Option (List ℕ) → Option (Bool × Conn)
    unfolding puthdr close_tlvs
    sendconnclose mod_ conn reason url = elim (init_new malloc 0) [
      | none ↦ some (false, conn)
      | some sb ↦ (puthdr malloc sb 4) >>= λ sb1. (close_tlvs mod_ reason url) >>= λ tlvs.
          (render malloc tlvs sb1) >>= λ (_, sb2). sendsbuf_consume conn sb2
    ]

    unfoldable pub sendnop : Conn → Option (Bool × Conn)
    unfolding puthdr
    sendnop conn = elim (init_new malloc 0) [
      | none ↦ some (false, conn)
      | some sb ↦ (puthdr malloc sb 5) >>= λ sb1. sendsbuf_consume conn sb1
    ]

-- What toscar_flap_handleread decides from the header of the bytes read: the connection is in error,
-- a read up to that length is asked for, or the frame is complete and goes to its channel.
pub data Verdict : Type 0 where
  refused : Verdict
  more : ℕ → Verdict
  complete : ℕ → Verdict

-- The channels with a handler.
unfoldable pub is_channel : ℕ → Bool
is_channel chan = chan == 1 || chan == 2 || chan == 4 || chan == 5

-- The tests of toscar_flap_handleread up to the dispatch; `buf` is the block, `buflen` what was read.
unfoldable pub inspect : List ℕ → ℕ → Option Verdict
unfolding is_channel
inspect buf buflen = (load buf 0 header_len) >>= λ hdr.
    let chan = byte_get8 (drop 1 hdr) in
    let len = byte_get16 (drop 4 hdr) in
    some (
      if not (byte_get8 hdr == magic) || not (is_channel chan) || ltb max_snac len
      then refused
      else if buflen == len + header_len
      then complete chan
      else more (buflen + len))
