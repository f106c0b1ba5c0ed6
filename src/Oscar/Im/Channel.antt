-- ===== src/Oscar/Im/Channel.antt =====
-- timps/oscar/im.c: the nodes of a message on channel 1, into a message of gnr and out of one.
--
-- `address` is where a node stands that a tag points to, `tlvs_at` the list of nodes at an address, and
-- `mod_` the module that calls. The text of a message is that of its C string, without the terminator.
use timps.Prelude.{
  ℕ, ◌+◌, ◌/◌, ◌%◌, true, Option, none, some, List, [], ◌∷◌, ◌==◌, if◌then◌else◌, ◌>>=◌,
}
use timps.Sbuf.{Sbuf}
use timps.Tlv.{Tlv, Outcome, done, fault, running, remove, render}
use timps.Tlv.Build.{addnoval}
use timps.Tags.{Data, add, fetch}
use timps.Gnr.Msg.{GnrMsg}
use timps.Oscar.Userinfo.{cstr}
use timps.Oscar.Im.{Text, extractmsgtext, addoscarmsgblock}

-- "gnrmsg.oscarmsgtlv", "gnrmsg.extraoscartlvs" and "text/html"
abbrev pub msgtlv_tag : List ℕ
msgtlv_tag =
    b'g' ∷ b'n' ∷ b'r' ∷ b'm' ∷ b's' ∷ b'g' ∷ b'.' ∷ b'o' ∷ b's' ∷ b'c' ∷ b'a' ∷ b'r' ∷ b'm' ∷ b's'
    ∷ b'g' ∷ b't' ∷ b'l' ∷ b'v' ∷ []

abbrev pub extratlvs_tag : List ℕ
extratlvs_tag =
    b'g' ∷ b'n' ∷ b'r' ∷ b'm' ∷ b's' ∷ b'g' ∷ b'.' ∷ b'e' ∷ b'x' ∷ b't' ∷ b'r' ∷ b'a' ∷ b'o' ∷ b's'
    ∷ b'c' ∷ b'a' ∷ b'r' ∷ b't' ∷ b'l' ∷ b'v' ∷ b's' ∷ []

abbrev pub html : List ℕ
html = b't' ∷ b'e' ∷ b'x' ∷ b't' ∷ b'/' ∷ b'h' ∷ b't' ∷ b'm' ∷ b'l' ∷ []

-- `flags |= GNR_MSG_MSGFLAG_ACKREQUESTED` and `flags |= GNR_MSG_MSGFLAG_AUTORESPONSE`
abbrev pub set_ack : ℕ → ℕ
set_ack flags = if flags / 2 % 2 == 0 then flags + 2 else flags

abbrev pub set_auto : ℕ → ℕ
set_auto flags = if flags % 2 == 0 then flags + 1 else flags

-- The C string that a text holds.
unfoldable pub c_text : Option Text → Option (List ℕ)
unfolding cstr
c_text none = none
c_text (some t) = some (cstr t.block)

-- What a tag points to; 0 without the tag. `none` is a string, which is no list of nodes.
abbrev pub pointer : Option (ℕ × Data) → Option ℕ
pointer none = some 0
pointer (some (_, Data.word w)) = some w
pointer (some (_, Data.text s)) = none

module _ (malloc : ℕ → Option (List ℕ)) (mod_ : Option ℕ) where
  -- The part of toscar_icbm__parsechan1 on the node of the text; the first argument is fuel.
  unfoldable pub parse_text : (Tlv → ℕ) → ℕ → GnrMsg → Tlv → Outcome GnrMsg
  parse_text address fuel gm tlv =
      let html_gm : GnrMsg = record gm { msgtexttype = some html } in
      let kept : GnrMsg → GnrMsg = λ g. record g {
        taglist = (add malloc g.taglist mod_ msgtlv_tag b'V' (Data.word (address tlv))).1;
      } in
      elim (extractmsgtext malloc fuel tlv) [
        | fault ↦ fault
        | running ↦ running
        | done none ↦ done (kept html_gm)
        | done (some (partly, text)) ↦
            let g : GnrMsg = record html_gm { msgtext = c_text text } in
            done (if partly then kept g else g)
      ]

  -- toscar_icbm__parsechan1: the message and the nodes that are left.
  unfoldable pub parsechan1 : (Tlv → ℕ) → ℕ → GnrMsg → List Tlv → Outcome (GnrMsg × List Tlv)
  unfolding parse_text
  parsechan1 address fuel gm tlvh =
      let (text_tlv, tlvh1) = remove tlvh 2 in
      let (ack_tlv, tlvh2) = remove tlvh1 3 in
      let (auto_tlv, tlvh3) = remove tlvh2 4 in
      let acked : ℕ → ℕ = λ f. elim ack_tlv [ none ↦ f | some _ ↦ set_ack f ] in
      let flags : ℕ → ℕ = λ f. elim auto_tlv [ none ↦ acked f | some _ ↦ set_auto (acked f) ] in
      elim (elim text_tlv as (λ _. Outcome GnrMsg) [
        | none ↦ done gm
        | some tlv ↦ parse_text address fuel gm tlv
      ]) [
        | fault ↦ fault
        | running ↦ running
        | done g ↦ done (record g { msgflags = flags g.msgflags }, tlvh3)
      ]

  -- The nodes of the text in toscar_icbm__renderchan1: those of the tag, or new ones.
  unfoldable pub text_tlvs : (ℕ → List Tlv) → GnrMsg → Option (List Tlv)
  text_tlvs tlvs_at gm = (pointer (fetch gm.taglist mod_ msgtlv_tag)) >>= λ msgtlv.
      if msgtlv == 0
      then ((addoscarmsgblock malloc mod_ [] 2 gm.msgtext) >>= λ (_, tlvs). some tlvs)
      else some (tlvs_at msgtlv)

  -- The nodes of the flags.
  unfoldable pub flag_tlvs : ℕ → Option (List Tlv)
  flag_tlvs flags =
      (if flags / 2 % 2 == 0 then some (true, []) else addnoval malloc mod_ [] 3) >>= λ (_, tlvh).
      (if flags % 2 == 0 then some (true, tlvh) else addnoval malloc mod_ tlvh 4) >>= λ (_, tlvh').
      some tlvh'

  -- toscar_icbm__renderchan1; what naf_tlv_render answers is not looked at.
  unfoldable pub renderchan1 : (ℕ → List Tlv) → GnrMsg → Sbuf → Option Sbuf
  unfolding text_tlvs flag_tlvs
  renderchan1 tlvs_at gm sb = (text_tlvs tlvs_at gm) >>= λ tlvs.
      (render malloc tlvs sb) >>= λ (_, sb1). (flag_tlvs gm.msgflags) >>= λ flags.
      (render malloc flags sb1) >>= λ (_, sb2).
      (pointer (fetch gm.taglist mod_ extratlvs_tag)) >>= λ extratlvs.
      if extratlvs == 0
      then some sb2
      else ((render malloc (tlvs_at extratlvs) sb2) >>= λ (_, sb3). some sb3)
