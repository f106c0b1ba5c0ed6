-- ===== src/Oscar/Im/Senders.antt =====
-- timps/oscar/im.c: toscar_icbm_sendoutgoing and toscar_icbm_sendincoming, which write a message of gnr
-- into a packet for a server and for a client.
--
-- What a tag points to is given by its address: `cookie_at`, `tlvs_at` and `info_at`. `rands` is what rand
-- returns, and `addtx` whether libnbio takes a frame. `none` is an access outside of memory, or a
-- tag that has a string for a number or a pointer. What the writers into the buffer answer is not looked at.
use timps.Prelude.{
  ℕ, ◌+◌, ◌-◌, ◌/◌, ◌%◌, ◌^◌, zero, suc, Bool, false, Option, none, some, List, ◌==◌, if◌then◌else◌,
  ◌>>=◌, length,
}
use timps.Sbuf.{Sbuf, put8, put16, putraw}
use timps.Sbuf.Strings.{putstr}
use timps.Tlv.{Tlv}
use timps.Tags.{Data, fetch}
use timps.Gnr.Msg.{GnrMsg}
use timps.Oscar.Userinfo.{Userinfo, new, render_userinfo}
use timps.Oscar.Flap.{Conn, sendsbuf_consume}
use timps.Oscar.Snac.{newsnacsb}
use timps.Oscar.Im.Channel.{pointer, renderchan1}
use timps.Oscar.Im.Handlers.{snacid_tag, cookie_tag, srcuserinfo_tag, cookie_len}

-- The channel for a type of message, if it has one: GNR_MSG_MSGTYPE_IM, _GROUPINVITE and _RENDEZVOUS.
unfoldable pub icbm_channel : ℕ → Option ℕ
icbm_channel type =
    if type == 0 then some 1 else if type == 1 then some 2 else if type == 5 then some 2 else none

-- 0x42424242
abbrev pub default_id : ℕ
default_id = 1111638594

-- The integer of the tag for the id, or the default one; `none` is a string.
unfoldable pub id_of : Option (ℕ × Data) → Option ℕ
id_of none = some default_id
id_of (some (_, Data.word w)) = some w
id_of (some (_, Data.text s)) = none

-- `snacid &= ~0x80000000` and `snacid |= 0x80000000`
abbrev pub client_id : ℕ → ℕ
client_id snacid = snacid % 2 ^ 31

abbrev pub server_id : ℕ → ℕ
server_id snacid = snacid % 2 ^ 31 + 2 ^ 31

-- `gm->msgflags &= ~GNR_MSG_MSGFLAG_ACKREQUESTED`
abbrev pub clear_ack : ℕ → ℕ
clear_ack flags = if flags / 2 % 2 == 0 then flags else flags - 2

module _ (malloc : ℕ → Option (List ℕ)) (cookie_at : ℕ → List ℕ) (rands : ℕ → ℕ) where
  -- The loop that makes up a cookie, with `n` digits to go.
  unfoldable pub put_digits : ℕ → Sbuf → Option Sbuf
  put_digits zero sb = some sb
  put_digits (suc n) sb =
      (put8 malloc sb ((b'0' + rands (cookie_len - suc n) % 256 % 10) % 256)) >>= λ (_, sb').
      put_digits n sb'

  unfoldable pub put_cookie : ℕ → Sbuf → Option Sbuf
  unfolding put_digits
  put_cookie msgck sb =
      if msgck == 0
      then put_digits cookie_len sb
      else (putraw malloc sb (cookie_at msgck) cookie_len) >>= λ (_, sb'). some sb'

  -- The common beginning of both: the header of the message, the cookie and the channel; `some none` is a
  -- failed toscar_newsnacsb.
  unfoldable pub begin_icbm : ℕ → ℕ → ℕ → ℕ → Option (Option Sbuf)
  unfolding put_cookie
  begin_icbm subtype snacid msgck icbmchan = (newsnacsb malloc 4 subtype 0 snacid) >>= λ made.
      elim made [
        | none ↦ some none
        | some sb ↦ (put_cookie msgck sb) >>= λ sb1.
            (put16 malloc sb1 icbmchan) >>= λ (_, sb2). some (some sb2)
      ]

-- The user information of a message: what the tag points to, or a new one for its source.
unfoldable pub put_info :
    (ℕ → Option (List ℕ))
    → Option ℕ
    → (ℕ → Userinfo)
    → ℕ
    → Option (List ℕ)
    → Sbuf
    → Option (Option Sbuf)
put_info malloc mod_ info_at srcinfo srcname sb =
    if srcinfo == 0
    then elim (srcname >>= λ sn. new malloc mod_ sn) [
      | none ↦ some none
      | some toui ↦ (render_userinfo malloc mod_ toui sb) >>= λ sb'. some (some sb')
    ]
    else (render_userinfo malloc mod_ (info_at srcinfo) sb) >>= λ sb'. some (some sb')

module _ (addtx : List ℕ → Bool) (malloc : ℕ → Option (List ℕ)) (mod_ : Option ℕ)
    (cookie_at : ℕ → List ℕ) (tlvs_at : ℕ → List Tlv) (rands : ℕ → ℕ) where
  -- toscar_icbm_sendoutgoing; the result is true for 0 and false for -1.
  unfoldable pub sendoutgoing : Conn → GnrMsg → Option (Bool × Conn)
  sendoutgoing conn gm = elim (icbm_channel gm.type) [
    | none ↦ some (false, conn)
    | some icbmchan ↦
        let send : Option (Bool × Conn) = (id_of (fetch gm.taglist mod_ snacid_tag)) >>= λ snacid.
        (pointer (fetch gm.taglist mod_ cookie_tag)) >>= λ msgck.
        (begin_icbm malloc cookie_at rands 6 (client_id snacid) msgck icbmchan) >>= λ begun.
        elim begun [
          | none ↦ some (false, conn)
          | some sb ↦ gm.destname >>= λ destname.
              (put8 malloc sb (length destname % 256)) >>= λ (_, sb1).
              (putstr malloc sb1 destname) >>= λ (_, sb2).
              (renderchan1 malloc mod_ tlvs_at gm sb2) >>= λ sb3. sendsbuf_consume addtx conn sb3
        ] in
        if icbmchan == 1 then send else some (false, conn)
  ]

  -- toscar_icbm_sendincoming; it also clears a flag of the message.
  unfoldable pub sendincoming : (ℕ → Userinfo) → Conn → GnrMsg → Option (Bool × Conn × GnrMsg)
  sendincoming info_at conn gm = elim (icbm_channel gm.type) [
    | none ↦ some (false, conn, gm)
    | some icbmchan ↦
        let quiet : GnrMsg = record gm { msgflags = clear_ack gm.msgflags } in
        let send : Option (Bool × Conn × GnrMsg) =
          (id_of (fetch gm.taglist mod_ snacid_tag)) >>= λ snacid.
          (pointer (fetch gm.taglist mod_ cookie_tag)) >>= λ msgck.
          (pointer (fetch gm.taglist mod_ srcuserinfo_tag)) >>= λ srcinfo.
          (begin_icbm malloc cookie_at rands 7 (server_id snacid) msgck icbmchan) >>= λ begun.
          elim begun [
            | none ↦ some (false, conn, gm)
            | some sb ↦ (put_info malloc mod_ info_at srcinfo gm.srcname sb) >>= λ told. elim told [
              | none ↦ some (false, conn, gm)
              | some sb1 ↦ (renderchan1 malloc mod_ tlvs_at quiet sb1) >>= λ sb2.
                  (sendsbuf_consume addtx conn sb2) >>= λ (ok, conn'). some (ok, conn', quiet)
            ]
          ] in
        if icbmchan == 1 then send else some (false, conn, gm)
  ]
