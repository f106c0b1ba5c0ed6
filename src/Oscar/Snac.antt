-- ===== src/Oscar/Snac.antt =====
-- timps/oscar/snac.c: the messages inside the frames of channel 2, how they are begun, and how the
-- header of a received one is read and its handler found.
--
-- `mem` is the memory from the message on, to the end of its block. What the handlers do is not
-- modelled here.
pub mod Header
pub mod Overrun
mod Runs
use timps.Prelude.{
  ℕ, ◌+◌, ◌-◌, ◌*◌, ◌%◌, ◌^◌, Bool, true, false, ◌&&◌, Option, none, some, List, [], ◌∷◌, leb, ltb,
  ◌==◌, if◌then◌else◌, ◌>>=◌, load, drop,
}
use timps.Bytes.{byte_get16, byte_get32}
use timps.Sbuf.{Sbuf, init_new, init_with, put16, put32}
use timps.Tlv.{Tlv, render}
use timps.Tlv.Build.{addu16, addstring}
use timps.Oscar.Flap.{Conn, puthdr, sendsbuf_consume}

-- SNACHDRLEN
abbrev pub snac_header_len : ℕ
snac_header_len = 10

-- struct toscar_snac; the extended header is null if there is none.
pub record Snac : Type 0 where
  pub group : ℕ
  pub subtype : ℕ
  pub flags : ℕ
  pub id : ℕ
  pub extinfo : Option Sbuf
  pub payload : Sbuf

-- toscar_newsnacsb: a buffer that begins with both headers, or nothing for -1.
unfoldable pub newsnacsb : (ℕ → Option (List ℕ)) → ℕ → ℕ → ℕ → ℕ → Option (Option Sbuf)
newsnacsb malloc group subtype flags id = elim (init_new malloc 0) [
  | none ↦ some none
  | some sb ↦ (puthdr malloc sb 2) >>= λ sb0. (put16 malloc sb0 group) >>= λ (_, sb1).
      (put16 malloc sb1 subtype) >>= λ (_, sb2).
      (put16 malloc sb2 flags) >>= λ (_, sb3). (put32 malloc sb3 id) >>= λ (_, sb4). some (some sb4)
]

-- The length that an extended header states; it is read only if the flag is set.
unfoldable pub extended_len : List ℕ → ℕ → Option ℕ
extended_len mem flags =
    if leb 32768 flags
    then ((load mem snac_header_len 2) >>= λ ext. some (byte_get16 ext))
    else some 0

-- The header part of toscar_flap_handlesnac; `some none` is HRET_ERROR for a runt.
unfoldable pub open_snac : List ℕ → ℕ → Option (Option Snac)
unfolding extended_len
open_snac mem buflen =
    if ltb buflen snac_header_len
    then some none
    else (load mem 0 snac_header_len) >>= λ hdr.
        let flags = byte_get16 (drop 4 hdr) in
        (extended_len mem flags) >>= λ ext.
        let skipped : ℕ = if ext == 0 then 0 else 2 + ext in
        some (
          some (record {
            group = byte_get16 hdr;
            subtype = byte_get16 (drop 2 hdr);
            flags = flags;
            id = byte_get32 (drop 6 hdr);
            extinfo =
                if ext == 0 then none else some (init_with (drop (snac_header_len + 2) mem) ext);
            payload =
                init_with (drop (snac_header_len + skipped) mem)
                  ((buflen + 2 * 2 ^ 16 - snac_header_len - skipped) % 2 ^ 16);
          }))

-- The handlers of the table.
pub data Handler : Type 0 where
  client_online : Handler
  host_online : Handler
  server_pause : Handler
  client_im : Handler
  incoming_im : Handler
  auth_success : Handler
  auth_request : Handler

pub record Row : Type 0 where
  pub group : ℕ
  pub subtype : ℕ
  pub handler : Option Handler

unfoldable pub snachandlers : List Row
snachandlers =
    record { group = 0x0001; subtype = 0x0002; handler = some client_online }
    ∷ record { group = 0x0001; subtype = 0x0003; handler = some host_online }
    ∷ record { group = 0x0001; subtype = 0x000b; handler = some server_pause }
    ∷ record { group = 0x0004; subtype = 0x0006; handler = some client_im }
    ∷ record { group = 0x0004; subtype = 0x0007; handler = some incoming_im }
    ∷ record { group = 0x0017; subtype = 0x0003; handler = some auth_success }
    ∷ record { group = 0x0017; subtype = 0x0006; handler = some auth_request }
    ∷ record { group = 0x0000; subtype = 0x0000; handler = none }
    ∷ []

-- The loop of the dispatch; it ends at a row of group 0, whose handler it takes too.
unfoldable pub dispatch_from : List Row → ℕ → ℕ → Option Handler
dispatch_from [] group subtype = none
dispatch_from (row ∷ rows) group subtype =
    let rest = dispatch_from rows group subtype in
    if row.group == 0
    then row.handler
    else if (row.group == group) && (row.subtype == subtype)
    then row.handler
    else rest

unfoldable pub dispatch : Snac → Option Handler
unfolding dispatch_from snachandlers
dispatch snac = dispatch_from snachandlers snac.group snac.subtype

module _ (addtx : List ℕ → Bool) (malloc : ℕ → Option (List ℕ)) where
  -- toscar_auth_sendauthinforequest
  unfoldable pub sendauthinforequest : Conn → ℕ → List Tlv → Option (Bool × Conn)
  unfolding newsnacsb
  sendauthinforequest conn snacid tlvs = (newsnacsb malloc 0x0017 0x0006 0 snacid) >>= λ made.
      elim made [
        | none ↦ some (false, conn)
        | some sb ↦ (render malloc tlvs sb) >>= λ (_, sb'). sendsbuf_consume addtx conn sb'
      ]

  -- The nodes of toscar_auth_sendfail; a null name is sent as the empty one.
  unfoldable pub fail_tlvs : Option ℕ → Option (List ℕ) → ℕ → Option (List ℕ) → Option (List Tlv)
  fail_tlvs mod_ sn code errurl =
      (addstring malloc mod_ [] 1 (elim sn [ none ↦ [] | some s ↦ s ])) >>= λ (_, head1).
      (addu16 malloc mod_ head1 8 code) >>= λ (_, head2). elim errurl [
        | none ↦ some head2
        | some url ↦ (addstring malloc mod_ head2 4 url) >>= λ (_, head3). some head3
      ]

  -- toscar_auth_sendfail
  unfoldable pub sendfail :
      Option ℕ → Conn → Option (List ℕ) → ℕ → Option (List ℕ) → Option (Bool × Conn)
  unfolding newsnacsb fail_tlvs
  sendfail mod_ conn sn code errurl = (newsnacsb malloc 0x0017 0x0003 0 0) >>= λ made. elim made [
    | none ↦ some (false, conn)
    | some sb ↦ (fail_tlvs mod_ sn code errurl) >>= λ tlvs.
        (render malloc tlvs sb) >>= λ (_, sb'). sendsbuf_consume addtx conn sb'
  ]
