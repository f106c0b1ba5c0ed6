-- ===== src/Oscar/Im.antt =====
-- timps/oscar/im.c: the text of an instant message, out of the sections of its node and into them.
--
-- A text under construction is a block and how far it is filled (`s` and `e`); the length of the block
-- is that which was allocated. `none` is an access outside a block. `malloc` is what naf_malloc
-- returns; a fresh block may hold any bytes.
pub mod Blocks
pub mod Steps
pub mod Total
pub mod Wire
pub mod Wide
pub mod Decode
pub mod RoundTrip
pub mod Block
pub mod Entity
pub mod Channel
pub mod ChannelTrip
pub mod Handlers
pub mod Arrival
pub mod Senders
pub mod Sent
pub mod Incoming
pub mod Opened
pub mod Delivery
pub mod Relay
mod Runs
use timps.Prelude.{
  ℕ, zero, suc, ◌+◌, ◌-◌, ◌/◌, ◌%◌, ◌^◌, Bool, true, false, not, ◌&&◌, ◌||◌, Option, none, some,
  List, [], ◌∷◌, ◌++◌, ltb, ◌==◌, if◌then◌else◌, ◌>>=◌, length, load, store,
}
use timps.Sbuf.{
  Sbuf, init_with, init_new, get8, get16, getrawbuf, getpos, setpos, advance, some_left, short_of,
  put8, put16,
}
use timps.Sbuf.Strings.{putstr}
use timps.Tlv.{Tlv, Outcome, done, fault, running}
use timps.Tlv.Build.{addraw}

pub record Text : Type 0 where
  pub block : List ℕ
  pub len : ℕ

-- What the loop of toscar_icbm__extractmsgtext changes.
pub record State : Type 0 where
  pub sb : Sbuf
  pub msgtext : Option Text
  pub unrepresentable : ℕ

-- `*msgtextend = '\0'`
unfoldable pub terminate : Text → Option Text
terminate t = (store t.block t.len (0 ∷ [])) >>= λ b. some (record t { block = b })

-- The digit of "%x".
abbrev pub hex_digit : ℕ → ℕ
hex_digit d = if ltb d 10 then 48 + d else 87 + d

-- What `snprintf` writes for "&#%04x;" before its terminator.
unfoldable pub entity : ℕ → List ℕ
entity c =
    b'&'
    ∷ b'#'
    ∷ hex_digit (c / 4096 % 16)
    ∷ hex_digit (c / 256 % 16)
    ∷ hex_digit (c / 16 % 16)
    ∷ hex_digit (c % 16)
    ∷ b';'
    ∷ []

-- The first loop over the characters of a 16-bit section.
unfoldable pub count_chars : ℕ → Sbuf → ℕ → Option (ℕ × Sbuf)
count_chars zero sb n = some (n, sb)
count_chars (suc left) sb n =
    (get16 sb) >>= λ (c, sb'). count_chars left sb' (n + (if ltb c 128 then 1 else 7))

-- One character: itself, or an entity with the terminator of `snprintf`.
unfoldable pub write_char : Text → ℕ → Option Text
unfolding entity
write_char t c =
    if ltb c 128
    then ((store t.block t.len (c ∷ [])) >>= λ b. some (record { block = b; len = t.len + 1 }))
    else (store t.block t.len (entity c ++ (0 ∷ []))) >>= λ b.
        some (record { block = b; len = t.len + 7 })

-- The second loop.
unfoldable pub write_chars : ℕ → Sbuf → Text → Option (Text × Sbuf)
unfolding write_char
write_chars zero sb t = some (t, sb)
write_chars (suc left) sb t =
    (get16 sb) >>= λ (c, sb'). (write_char t c) >>= λ t'. write_chars left sb' t'

module _ (malloc : ℕ → Option (List ℕ)) where
  -- extendstr; an inner `none` is -1.
  unfoldable pub extendstr : Option Text → ℕ → Option (Option Text)
  unfolding terminate
  extendstr none n = elim (malloc (n + 1)) [
    | none ↦ some none
    | some block ↦ (terminate (record { block = block; len = 0 })) >>= λ t. some (some t)
  ]
  extendstr (some t) n = elim (malloc (t.len + n + 1)) [
    | none ↦ some none
    | some ns ↦ (load t.block 0 (t.len + 1)) >>= λ old.
        (store ns 0 old) >>= λ b. some (some (record { block = b; len = t.len }))
  ]

  -- A section in ASCII or ISO-8859-1; what naf_sbuf_getrawbuf answers is not looked at. In this and
  -- the next two an inner `none` is the jump to `out`.
  unfoldable pub ascii_section : ℕ → State → Option (Option State)
  unfolding extendstr
  ascii_section plen st = (extendstr st.msgtext plen) >>= λ extended. elim extended [
    | none ↦ some none
    | some t ↦ (getrawbuf st.sb plen) >>= λ (out, sb').
        (elim out [ none ↦ some t.block | some bs ↦ store t.block t.len bs ]) >>= λ b.
        (terminate (record { block = b; len = t.len + plen })) >>= λ t'.
        some (some (record st { sb = sb'; msgtext = some t' }))
  ]

  -- A section of 16-bit characters.
  unfoldable pub unicode_section : ℕ → State → Option (Option State)
  unfolding extendstr count_chars write_chars
  unicode_section plen st =
      if short_of st.sb plen
      then some none
      else (count_chars (plen / 2) st.sb 0) >>= λ (n, sb1).
          (setpos malloc sb1 (getpos st.sb)) >>= λ (_, sb2).
          (extendstr st.msgtext n) >>= λ extended. elim extended [
            | none ↦ some none
            | some t ↦ (write_chars (plen / 2) sb2 t) >>= λ (t', sb3).
                (terminate t') >>= λ t''. some (some (record st { sb = sb3; msgtext = some t'' }))
          ]

  -- The branches on the encoding of a section.
  unfoldable pub encoded : ℕ → ℕ → State → Option (Option State)
  unfolding ascii_section unicode_section
  encoded f1 plen st =
      if f1 == 0 || f1 == 3
      then ascii_section plen st
      else if f1 == 2 && (plen % 2 == 0)
      then unicode_section plen st
      else ((advance malloc st.sb plen) >>= λ (_, sb').
          some (some (record st { sb = sb'; unrepresentable = st.unrepresentable + 1 })))

  -- One pass of the loop of toscar_icbm__extractmsgtext.
  unfoldable pub section : State → Option (Option State)
  unfolding encoded
  section st = (get8 st.sb) >>= λ (a, sb1).
      if not (a == 1)
      then some none
      else (get8 sb1) >>= λ (b, sb2).
          if not (b == 1)
          then some none
          else (get16 sb2) >>= λ (plen, sb3).
              if ltb plen 4
              then some (some (record st { sb = sb3 }))
              else (get16 sb3) >>= λ (f1, sb4).
                  (get16 sb4) >>= λ (f2, sb5). encoded f1 (plen - 4) (record st { sb = sb5 })

  -- The loop; the first argument is fuel.
  unfoldable pub sections : ℕ → State → Outcome (Option State)
  unfolding section
  sections zero st = if some_left st.sb then running else done (some st)
  sections (suc fuel) st =
      let pass : Outcome (Option State) = elim (section st) [
        | none ↦ fault
        | some none ↦ done none
        | some (some st') ↦ sections fuel st'
      ] in
      if some_left st.sb then pass else done (some st)

  -- The bytes before the sections; an inner `none` is the jump to `out`.
  unfoldable pub features : Sbuf → Option (Option Sbuf)
  features sb = (get8 sb) >>= λ (a, sb1).
      if not (a == 5)
      then some none
      else (get8 sb1) >>= λ (b, sb2).
          if not (b == 1)
          then some none
          else (get16 sb2) >>= λ (featlen, sb3).
              (advance malloc sb3 featlen) >>= λ (_, sb4). some (some sb4)

  -- toscar_icbm__extractmsgtext: -1 is `none`, else whether it returns 1, and the text.
  unfoldable pub extractmsgtext : ℕ → Tlv → Outcome (Option (Bool × Option Text))
  unfolding features sections
  extractmsgtext fuel msgtlv =
      elim (elim msgtlv.value as (λ _. Option Sbuf) [
        | none ↦ init_new malloc msgtlv.len
        | some v ↦ some (init_with v msgtlv.len)
      ]) [
        | none ↦ done none
        | some sb ↦ elim (features sb) [
          | none ↦ fault
          | some none ↦ done none
          | some (some sb') ↦
              elim (sections fuel (record { sb = sb'; msgtext = none; unrepresentable = 0 })) [
                | fault ↦ fault
                | running ↦ running
                | done none ↦ done none
                | done (some st) ↦ done (some (ltb 0 st.unrepresentable, st.msgtext))
              ]
        ]
      ]

  -- _naf_tlv_addoscarmsgblock for a module, a list and a text without its terminator, where `none` is a
  -- null pointer for the first and the last: whether it returns 0, and the list afterwards.
  unfoldable pub addoscarmsgblock :
      Option ℕ → List Tlv → ℕ → Option (List ℕ) → Option (Bool × List Tlv)
  addoscarmsgblock none tlvh type msgtext = some (false, tlvh)
  addoscarmsgblock (some m) tlvh type none = some (false, tlvh)
  addoscarmsgblock (some m) tlvh type (some msgtext) = elim (malloc (16 + length msgtext)) [
    | none ↦ some (false, tlvh)
    | some block ↦
        (put8 malloc (init_with block ((16 + length msgtext) % 2 ^ 16)) 5) >>= λ (_, sb1).
        (put8 malloc sb1 1) >>= λ (_, sb2). (put16 malloc sb2 4) >>= λ (_, sb3).
        (put8 malloc sb3 1) >>= λ (_, sb4). (put8 malloc sb4 1) >>= λ (_, sb5).
        (put8 malloc sb5 1) >>= λ (_, sb6). (put8 malloc sb6 2) >>= λ (_, sb7).
        (put8 malloc sb7 1) >>= λ (_, sb8). (put8 malloc sb8 1) >>= λ (_, sb9).
        (put16 malloc sb9 ((length msgtext + 4) % 2 ^ 16)) >>= λ (_, sb10).
        (put16 malloc sb10 0) >>= λ (_, sb11). (put16 malloc sb11 0) >>= λ (_, sb12).
        (putstr malloc sb12 msgtext) >>= λ (_, sb13).
        (addraw malloc (some m) tlvh type (getpos sb13 % 2 ^ 16) sb13.buf) >>= λ (_, tlvh').
        some (true, tlvh')
  ]
