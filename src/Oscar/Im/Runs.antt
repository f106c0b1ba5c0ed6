-- ===== src/Oscar/Im/Runs.antt =====
-- Runs of the message texts of timps/oscar/im.c, and its theorems at concrete inputs.
use timps.Prelude.{
  ℕ, ◌+◌, ◌≡◌, ◌≢◌, ◌⊎◌, inl, refl, Bool, true, Option, none, some, List, [], ◌∷◌, ◌++◌, arith,
  length,
}
use timps.Fixture.{zeros, zeros-IsMalloc, zeros-Grants}
use timps.Bytes.{byte_put16, byte_get8, byte_get16}
use timps.Sbuf.{
  init_with, get8, get16, get_int, getrawbuf, getpos, setpos, advance, reserve, short_of, some_left,
}
use timps.Prelude.{load, store}
use timps.Tlv.{Tlv, Outcome, done}
use timps.Oscar.Im.{
  addoscarmsgblock, Text, terminate, entity, count_chars, write_char, write_chars, extendstr,
  ascii_section, unicode_section, encoded, section, sections, features, extractmsgtext,
}
use timps.Oscar.Im.Blocks.{IsText, content}
use timps.Oscar.Im.Total.{extractmsgtext_total}
use timps.Oscar.Im.Wire.{Part, ascii, wide, foreign, parts_wire, parts_text, IsPart}
use timps.Oscar.Im.Decode.{Ended}
use timps.Oscar.Im.RoundTrip.{extractmsgtext-parts}
use timps.Sbuf.{Sbuf}
use timps.Sbuf.Valid.{pending}
use timps.Tlv.{parse, getrenderedsize, render, new, append}
use timps.Tlv.Build.{addraw, addnoval}
use timps.Tags.{fetch}
use timps.Gnr.Msg.{GnrMsg}
use timps.Oscar.Im.Channel.{html, parsechan1, renderchan1}
use timps.Oscar.Im.ChannelTrip.{parsechan1-renderchan1}
use timps.Prelude.{replicate}
use timps.Oscar.Im.Entity.{number, digits, reference, entity-reference}
use timps.Oscar.Im.Wire.{hexadecimal}

-- "hi" in ASCII, then an e with an acute accent in 16 bits, then two bytes in an unknown encoding.
abbrev parts : List Part
parts = ascii 0 0 (b'h' ∷ b'i' ∷ []) ∷ wide 0 (233 ∷ []) ∷ foreign 7 0 (1 ∷ 2 ∷ []) ∷ []

abbrev node : Tlv
node = record {
  type = 2;
  len = 30;
  value = some (
      5 ∷ 1 ∷ 0 ∷ 0 ∷ 1 ∷ 1 ∷ 0 ∷ 6 ∷ 0 ∷ 0 ∷ 0 ∷ 0 ∷ b'h' ∷ b'i' ∷ 1 ∷ 1 ∷ 0 ∷ 6 ∷ 0 ∷ 2 ∷ 0 ∷ 0
      ∷ 0 ∷ 233 ∷ 1 ∷ 1 ∷ 0 ∷ 4 ∷ 0 ∷ 7 ∷ []);
}

-- The text of a result, with its terminator.
abbrev text_of : Outcome (Option (Bool × Option Text)) → List ℕ
text_of (done (some (partly, some t))) = t.block
text_of other = []

-- The hexadecimal digits stand where HTML has decimal ones.
reads_node :
    text_of (extractmsgtext zeros 30 node)
    ≡ b'h' ∷ b'i' ∷ b'&' ∷ b'#' ∷ b'0' ∷ b'0' ∷ b'e' ∷ b'9' ∷ b';' ∷ 0 ∷ []
unfolding extractmsgtext features sections section encoded ascii_section unicode_section extendstr
    terminate count_chars write_chars write_char entity init_with get8 get16 get_int getrawbuf
    getpos setpos advance reserve short_of some_left byte_get8 byte_get16 load store
reads_node = refl

parts-IsPart :
    IsPart (ascii 0 0 (b'h' ∷ b'i' ∷ []))
    × IsPart (wide 0 (233 ∷ []))
    × IsPart (foreign 7 0 (1 ∷ 2 ∷ []))
unfolding byte_put16
parts-IsPart = (
  record { kind = inl refl; flag_fits = omega arith; len_fits = omega arith },
  record { kind = omega arith; flag_fits = omega arith; len_fits = omega arith },
  record { kind = omega arith; flag_fits = omega arith; len_fits = omega arith },
)

length-parts : length {A = ℕ} (parts_wire parts) ≡ 30
unfolding byte_put16
length-parts = refl

extractmsgtext_total_example :
    (extractmsgtext zeros 30 node ≡ done none)
    ⊎ ((partly : Bool) × (text : Option Text) × (extractmsgtext zeros 30 node
          ≡ done (some (partly, text)))
        × IsText text)
extractmsgtext_total_example =
    extractmsgtext_total zeros zeros-IsMalloc 30 node
      (5 ∷ 1 ∷ 0 ∷ 0 ∷ 1 ∷ 1 ∷ 0 ∷ 6 ∷ 0 ∷ 0 ∷ 0 ∷ 0 ∷ b'h' ∷ b'i' ∷ 1 ∷ 1 ∷ 0 ∷ 6 ∷ 0 ∷ 2 ∷ 0 ∷ 0
        ∷ 0 ∷ 233 ∷ 1 ∷ 1 ∷ 0 ∷ 4 ∷ 0 ∷ 7 ∷ [])
      refl (omega arith) (omega arith) (omega arith)

extractmsgtext-parts_example :
    (text : Option Text) × (extractmsgtext zeros 3 (record {
      type = 2;
      len = 0 + length (parts_wire parts) + 4;
      value = some (5 ∷ 1 ∷ (byte_put16 0 ++ ([] ++ parts_wire parts)));
    })
      ≡ done (some (true, text)))
    × Ended text
    × (content text ≡ parts_text parts)
extractmsgtext-parts_example =
    extractmsgtext-parts zeros zeros-IsMalloc zeros-Grants 3 2 [] parts
      (parts-IsPart.0, (parts-IsPart.1, (parts-IsPart.2, tt))) (omega (arith, length-parts))
      (omega arith)

-- A message "hi" that asks for an acknowledgement, without tags.
abbrev hi : GnrMsg
hi = record {
  srcname = none;
  srcnameservice = none;
  destname = none;
  destnameservice = none;
  type = 1;
  msgtexttype = none;
  msgtext = some (b'h' ∷ b'i' ∷ []);
  msgflags = 2;
  routeflags = 0;
  groupname = none;
  srcconn = none;
  taglist = [];
}

abbrev empty : GnrMsg
empty = record hi { msgtext = none; msgflags = 0 }

abbrev block : List ℕ
block = replicate 26 0

-- A null module makes no node.
null_module : renderchan1 zeros none (λ _. []) hi (init_with block 26) ≡ some (init_with block 26)
unfolding renderchan1 fetch addoscarmsgblock render addnoval addraw new append
null_module = refl

-- With the 22 bytes of the text and the 4 of the flag.
parsechan1-renderchan1_example :
    (sb sb' : Sbuf) × (tlvs : List Tlv) × (renderchan1 zeros
        (some 9)
        (λ _. [])
        hi
        (init_with block (length block))
      ≡ some sb)
    × (parse zeros 3 (init_with sb.buf (length block)) ≡ done (tlvs, sb'))
    × (pending sb' ≡ [])
    × (parsechan1 zeros (some 9) (λ _. 1) 3 empty tlvs
        ≡ done (
          record empty { msgtexttype = some html; msgtext = some (b'h' ∷ b'i' ∷ []); msgflags = 2 },
          [],
        ))
unfolding getrenderedsize byte_put16
parsechan1-renderchan1_example =
    parsechan1-renderchan1 zeros zeros-IsMalloc zeros-Grants 9 (λ _. 1) (λ _. []) 3 hi empty
      (b'h' ∷ b'i' ∷ []) block refl refl (omega arith, (omega arith, tt)) (omega arith)
      (omega arith) (omega arith) refl refl (omega arith)

entity-reference_example :
    (reference (entity 233) ≢ some 233)
    × (reference (b'&' ∷ b'#' ∷ b'x' ∷ (hexadecimal 4 233 ++ (b';' ∷ []))) ≡ some 233)
entity-reference_example = entity-reference 233 (omega arith) (omega arith)

-- "&#233;", "&#xE9;" and "&#;"
reads_decimal : reference (b'&' ∷ b'#' ∷ b'2' ∷ b'3' ∷ b'3' ∷ b';' ∷ []) ≡ some 233
unfolding reference digits number
reads_decimal = refl

reads_capitals : reference (b'&' ∷ b'#' ∷ b'x' ∷ b'E' ∷ b'9' ∷ b';' ∷ []) ≡ some 233
unfolding reference digits number
reads_capitals = refl

needs_digits : reference (b'&' ∷ b'#' ∷ b';' ∷ []) ≡ none
unfolding reference digits number
needs_digits = refl
