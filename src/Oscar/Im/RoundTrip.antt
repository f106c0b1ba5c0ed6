-- ===== src/Oscar/Im/RoundTrip.antt =====
-- timps/oscar/im.c: toscar_icbm__extractmsgtext on the sections of a message.
use timps.Prelude.{
  ℕ, zero, suc, ◌+◌, ◌^◌, ◌≤◌, ◌<◌, ◌≡◌, refl, sym, ◌∙◌, ap, Option, none, some, List, [], ◌∷◌,
  ◌++◌, append_assoc, append-nil, ltb, arith, length, length-append, take_all, ◌-◌, All,
}
use timps.Bytes.{byte_put16, length-put16}
use timps.Sbuf.{Sbuf, init_with}
use timps.Sbuf.Valid.{IsValid, IsMalloc, pending, init_with-IsValid}
use timps.Sbuf.Read.{skip, Consumed, consume}
use timps.Sbuf.Strings.{advance_in}
use timps.Tlv.{done}
use timps.Tlv.Parse.{Grants, get16-pending}
use timps.Tlv.Stuck.{some_left-pending, some_left-empty}
use timps.Oscar.Im.{Text, State, sections, features, extractmsgtext}
use timps.Oscar.Im.Blocks.{content}
use timps.Oscar.Im.Steps.{IsState}
use timps.Oscar.Im.Wire.{Part, part_text, parts_wire, parts_text, foreigns, IsPart}
use timps.Oscar.Im.Decode.{Ended, get8-pending, section-Decoded}

module _ (malloc : ℕ → Option (List ℕ)) (sound : IsMalloc malloc) (grants : Grants malloc) where
  sections-parts :
      (fuel : ℕ) (ps : List Part) (st : State)
      → All IsPart ps
      → IsState st
      → Ended st.msgtext
      → pending st.sb ≡ parts_wire ps
      → length ps ≤ fuel
      → (st' : State) × (sections malloc fuel st ≡ done (some st'))
        × Ended st'.msgtext
        × (content st'.msgtext ≡ content st.msgtext ++ parts_text ps)
        × (st'.unrepresentable ≡ st.unrepresentable + foreigns ps)
  unfolding sections
  sections-parts zero [] st w g ended e f = (
    st,
    rw (some_left-empty st.sb g.valid (ap length e)) refl,
    ended,
    sym (append-nil (content st.msgtext)),
    omega arith,
  )
  sections-parts (suc fuel) [] st w g ended e f = (
    st,
    rw (some_left-empty st.sb g.valid (ap length e)) refl,
    ended,
    sym (append-nil (content st.msgtext)),
    omega arith,
  )
  sections-parts zero (p ∷ ps) st w g ended e f = absurd (omega arith)
  sections-parts (suc fuel) (p ∷ ps) st (w, ws) g ended e f =
      let d = section-Decoded malloc sound grants p (parts_wire ps) st w g ended e in
      let (st', e', ended', text, n) =
        sections-parts fuel ps d.after ws d.good d.ended d.left (omega arith) in
      let left = some_left-pending st.sb g.valid (omega (arith, ap length e)) in
      (
        st',
        rw (left, d.result) e',
        ended',
        text
            ∙ ap (λ l. l ++ parts_text ps) d.appended
            ∙ append_assoc (content st.msgtext) (part_text p) (parts_text ps),
        omega (arith, n, d.count),
      )

  -- With memory granted in blocks of the size asked for, toscar_icbm__extractmsgtext of a node
  -- with any features and any sections, each in ASCII or ISO-8859-1, in 16-bit characters, or
  -- in another encoding (none of the three flags), below 2 ^ 16 bytes in all, makes their texts
  -- in order, with a terminator: the bytes of an ASCII or ISO-8859-1 section as they are; a
  -- 16-bit character below 128 as that byte, and from 128 on not in the form that HTML has for
  -- it but as "&#", its number in four hexadecimal digits and ";"; and nothing for another
  -- encoding. It returns 1 exactly if a section was in another encoding. Fuel of one for each
  -- section is enough.
  pub extractmsgtext-parts :
      (fuel : ℕ) (type : ℕ) (feat : List ℕ) (ps : List Part)
      → All IsPart ps
      → length feat + length (parts_wire ps) + 4 < 2 ^ 16
      → length ps ≤ fuel
      → (text : Option Text) × (extractmsgtext malloc fuel (record {
        type = type;
        len = length feat + length (parts_wire ps) + 4;
        value = some (5 ∷ 1 ∷ (byte_put16 (length feat) ++ (feat ++ parts_wire ps)));
      })
          ≡ done (some (ltb 0 (foreigns ps), text)))
        × Ended text
        × (content text ≡ parts_text ps)
  unfolding extractmsgtext features init_with
  extractmsgtext-parts fuel type feat ps w small f =
      let n : ℕ = length feat in
      let all : List ℕ = 5 ∷ 1 ∷ (byte_put16 n ++ (feat ++ parts_wire ps)) in
      let size : length all ≡ n + length (parts_wire ps) + 4 = omega (
        arith,
        length-append (byte_put16 n) (feat ++ parts_wire ps),
        length-put16 n,
        length-append feat (parts_wire ps),
      ) in
      let len : ℕ = n + length (parts_wire ps) + 4 in
      let sb : Sbuf = init_with all len in
      let v : IsValid sb = init_with-IsValid all len (omega (arith, size)) small in
      let here : pending sb ≡ all = take_all all (len - 0) (omega (arith, size)) in
      let (e1, v1, p1) =
        get8-pending sb 5 (1 ∷ (byte_put16 n ++ (feat ++ parts_wire ps))) v (omega arith) here in
      let (e2, v2, p2) =
        get8-pending (skip sb 1) 1 (byte_put16 n ++ (feat ++ parts_wire ps)) v1 (omega arith) p1 in
      let (e3, v3, p3) =
        get16-pending (skip (skip sb 1) 1) n (feat ++ parts_wire ps) v2 (omega (arith, small)) p2 in
      let sb3 : Sbuf = skip (skip (skip sb 1) 1) 2 in
      let c : Consumed sb3 feat (parts_wire ps) = consume sb3 feat (parts_wire ps) v3 p3 in
      let e4 = advance_in malloc sb3 n v3 c.fits in
      let st : State = record { sb = skip sb3 n; msgtext = none; unrepresentable = 0 } in
      let (st', e5, ended, text, count) =
        sections-parts fuel ps st w (record { valid = c.valid; fixed = refl; text = tt }) tt c.left
          f in
      let skipped : st'.unrepresentable ≡ foreigns ps = omega (arith, count) in
      (
        st'.msgtext,
        rw (extractmsgtext, e1, e2, e3, e4, e5)
            (ap (λ k. done (some (ltb 0 k, st'.msgtext))) skipped),
        ended,
        text,
      )
