-- ===== src/Oscar/Im/Decode.antt =====
-- timps/oscar/im.c: one section that the wire holds, through the loop of toscar_icbm__extractmsgtext.
use timps.Prelude.{
  ℕ, ◌+◌, ◌*◌, ◌-◌, ◌/◌, ◌%◌, ◌^◌, ◌<◌, ◌≡◌, ◌≢◌, ◌⊎◌, inl, inr, refl, sym, ◌∙◌, ap, true, false,
  ◌&&◌, ◌||◌, Option-cases, Option, none, some, List, [], ◌∷◌, ◌++◌, append_assoc, append-nil, ltb,
  ◌==◌, arith, length, length-append, take, All,
}
use timps.Bytes.{byte_put16, byte_get8, length-put16}
use timps.Sbuf.{Sbuf, get8, getpos, short_of}
use timps.Sbuf.Valid.{IsValid, IsMalloc, pending}
use timps.Sbuf.Read.{skip, Consumed, consume, get_int_lem, getrawbuf_lem}
use timps.Sbuf.Strings.{advance_in}
use timps.Tlv.Parse.{Grants, get16-pending}
use timps.Oscar.Im.{
  Text, State, terminate, extendstr, ascii_section, unicode_section, encoded, section,
}
use timps.Oscar.Im.Blocks.{store-Wrote, IsText, content, terminate_lem, extendstr_lem, setpos_total}
use timps.Oscar.Im.Steps.{IsState}
use timps.Oscar.Im.Wide.{chars-Looped}
use timps.Oscar.Im.Wire.{
  Part, ascii, wide, foreign, chars_wire, chars_text, first_flag, second_flag, body, part_wire,
  part_text, is_foreign, IsKind, IsPart,
}

-- The terminator stands behind the text.
abbrev pub Ended : Option Text → Type 0
Ended none = Unit
Ended (some t) = take (t.len + 1) t.block ≡ take t.len t.block ++ (0 ∷ [])

-- A step that succeeds: it appends a text, and leaves the rest of the bytes.
pub record Decoded (st : State) (text : List ℕ) (skipped : ℕ) (rest : List ℕ)
    (r : Option (Option State)) : Type 0 where
  pub after : State
  pub result : r ≡ some (some after)
  pub good : IsState after
  pub ended : Ended after.msgtext
  pub appended : content after.msgtext ≡ content st.msgtext ++ text
  pub count : after.unrepresentable ≡ st.unrepresentable + skipped
  pub left : pending after.sb ≡ rest

pub get8-pending :
    (sb : Sbuf) (v : ℕ) (rest : List ℕ)
    → IsValid sb
    → v < 256
    → pending sb ≡ v ∷ rest
    → (get8 sb ≡ some (v, skip sb 1)) × IsValid (skip sb 1) × (pending (skip sb 1) ≡ rest)
unfolding get8 byte_get8
get8-pending sb v rest h w e =
    let c : Consumed sb (v ∷ []) rest = consume sb (v ∷ []) rest h e in
    let same : v % 256 ≡ v = omega (arith, w) in
    (
      get_int_lem 1 byte_get8 sb (v ∷ []) rest h refl e ∙ ap (λ n. some (n, skip sb 1)) same,
      c.valid,
      c.left,
    )

module _ (malloc : ℕ → Option (List ℕ)) (sound : IsMalloc malloc) (grants : Grants malloc) where
  extendstr-succeeds : (o : Option Text) (n : ℕ) → extendstr malloc o n ≢ some none
  unfolding extendstr
  extendstr-succeeds none n e =
      let (block, got) = grants (n + 1) in
      elim (Option-cases (terminate (record { block = block; len = 0 }))) [
        | inl fails ↦ ground (arith, rw (extendstr, got, fails) at e)
        | inr (_, works) ↦ ground (arith, rw (extendstr, got, works) at e)
      ]
  extendstr-succeeds (some t) n e = ground (arith, e, (grants (t.len + n + 1)).1)

  -- With memory granted extendstr succeeds.
  extendstr_granted :
      (o : Option Text) (n : ℕ)
      → IsText o
      → (t : Text) × (extendstr malloc o n ≡ some (some t))
        × (t.len + n < length t.block)
        × (take t.len t.block ≡ content o)
  extendstr_granted o n g = elim (extendstr_lem malloc sound o n g) [
    | inr found ↦ found
    | inl failed ↦ absurd (extendstr-succeeds o n failed)
  ]

  ascii-Decoded :
      (f1 : ℕ) (bs rest : List ℕ) (st : State)
      → (f1 ≡ 0) ⊎ (f1 ≡ 3)
      → IsState st
      → pending st.sb ≡ bs ++ rest
      → Decoded st bs 0 rest (encoded malloc f1 (length bs) st)
  unfolding encoded ascii_section
  ascii-Decoded f1 bs rest st kind g e =
      let flag : (f1 == 0 || f1 == 3) ≡ true = ground (arith, kind) in
      let c : Consumed st.sb bs rest = consume st.sb bs rest g.valid e in
      let (t, e1, room, front) = extendstr_granted st.msgtext (length bs) g.text in
      let e2 = getrawbuf_lem st.sb bs rest g.valid e in
      let (b, e3, w) = store-Wrote t.block t.len bs (omega (arith, room)) in
      let full : Text = record { block = b; len = t.len + length bs } in
      let (t', e4, l4, b4, same, ended) = terminate_lem full (omega (arith, room, w.same_length)) in
      record {
        after = record st { sb = skip st.sb (length bs); msgtext = some t' };
        result = rw (flag, ascii_section, e1, e2, e3, e4) refl;
        good = record {
          valid = c.valid;
          fixed = g.fixed;
          text = omega (arith, l4, b4, room, w.same_length);
        };
        ended = ap (λ k. take (k + 1) t'.block) l4 ∙ ended ∙ ap (λ x. x ++ (0 ∷ [])) (sym same);
        appended = same ∙ w.front ∙ ap (λ x. x ++ bs) front;
        count = omega arith;
        left = c.left;
      }

  foreign-Decoded :
      (f1 : ℕ) (bs rest : List ℕ) (st : State)
      → (f1 ≢ 0) × (f1 ≢ 2) × (f1 ≢ 3) × (f1 < 2 ^ 16)
      → IsState st
      → Ended st.msgtext
      → pending st.sb ≡ bs ++ rest
      → Decoded st [] 1 rest (encoded malloc f1 (length bs) st)
  unfolding encoded
  foreign-Decoded f1 bs rest st (not_0, not_2, not_3, _) g ended e =
      let flag : (f1 == 0 || f1 == 3) ≡ false = ground (arith, not_0, not_3) in
      let flag2 : (f1 == 2 && (length bs % 2 == 0)) ≡ false = ground (arith, not_2) in
      let c : Consumed st.sb bs rest = consume st.sb bs rest g.valid e in
      record {
        after = record st { sb = skip st.sb (length bs); unrepresentable = st.unrepresentable + 1 };
        result = rw (flag, flag2, advance_in malloc st.sb (length bs) g.valid c.fits) refl;
        good = record { valid = c.valid; fixed = g.fixed; text = g.text };
        ended = ended;
        appended = sym (append-nil (content st.msgtext));
        count = refl;
        left = c.left;
      }

  wide-Decoded :
      (cs rest : List ℕ) (st : State)
      → All (λ (c : ℕ). c < 2 ^ 16) cs
      → IsState st
      → pending st.sb ≡ chars_wire cs ++ rest
      → Decoded st (chars_text cs) 0 rest (encoded malloc 2 (length (chars_wire cs)) st)
  unfolding encoded unicode_section getpos short_of
  wide-Decoded cs rest st u g e =
      let double = length-chars_wire cs in
      let c : Consumed st.sb (chars_wire cs) rest = consume st.sb (chars_wire cs) rest g.valid e in
      let even : (length (chars_wire cs) % 2 == 0) ≡ true = ground (arith, double) in
      let half : length (chars_wire cs) / 2 ≡ length cs = omega (arith, double) in
      let enough : ltb st.sb.buflen (st.sb.pos + length (chars_wire cs)) ≡ false =
        ground (arith, c.fits) in
      let (sb1, x) = chars-Looped cs rest st.sb g.valid g.fixed u e in
      let r = x.reads in
      let e2 =
        setpos_total malloc sb1 st.sb.pos r.valid (omega (arith, g.valid.cursor, r.same_buflen)) in
      let (t, e3, room, front) = extendstr_granted st.msgtext (0 + length (chars_text cs)) g.text in
      let (t1, e4, w) = x.writes t (omega (arith, room)) in
      let (t2, e5, l5, b5, same, ended) =
        terminate_lem t1 (omega (arith, room, w.len, w.same_length)) in
      record {
        after = record st { sb = sb1; msgtext = some t2 };
        result =
            rw (even, unicode_section, enough, half, x.counts 0, e2, e3, r.back, half, e4, e5) refl;
        good = record {
          valid = r.valid;
          fixed = r.fixed;
          text = omega (arith, l5, b5, room, w.len, w.same_length);
        };
        ended = ap (λ k. take (k + 1) t2.block) l5 ∙ ended ∙ ap (λ y. y ++ (0 ∷ [])) (sym same);
        appended = same ∙ w.appended ∙ ap (λ y. y ++ chars_text cs) front;
        count = omega arith;
        left = x.left;
      }
    where
      length-chars_wire : (ds : List ℕ) → length (chars_wire ds) ≡ 2 * length ds
      length-chars_wire [] = refl
      length-chars_wire (d ∷ ds) = omega (
        arith,
        length-append (byte_put16 d) (chars_wire ds),
        length-put16 d,
        length-chars_wire ds,
      )

  part-Decoded :
      (p : Part) (rest : List ℕ) (st : State)
      → IsKind p
      → IsState st
      → Ended st.msgtext
      → pending st.sb ≡ body p ++ rest
      → Decoded st
          (part_text p)
          (is_foreign p)
          rest
          (encoded malloc (first_flag p) (length (body p)) st)
  part-Decoded (ascii f1 f2 bs) rest st kind g ended e = ascii-Decoded f1 bs rest st kind g e
  part-Decoded (wide f2 cs) rest st kind g ended e = wide-Decoded cs rest st kind g e
  part-Decoded (foreign f1 f2 bs) rest st kind g ended e =
      foreign-Decoded f1 bs rest st kind g ended e

  first_flag-fits : (p : Part) → IsKind p → first_flag p < 2 ^ 16
  first_flag-fits (ascii f1 f2 bs) kind = ground (arith, kind)
  first_flag-fits (wide f2 cs) kind = omega arith
  first_flag-fits (foreign f1 f2 bs) (_, _, _, small) = small

  -- One pass over a part that is on the wire.
  pub section-Decoded :
      (p : Part) (rest : List ℕ) (st : State)
      → IsPart p
      → IsState st
      → Ended st.msgtext
      → pending st.sb ≡ part_wire p ++ rest
      → Decoded st (part_text p) (is_foreign p) rest (section malloc st)
  unfolding section encoded
  section-Decoded p rest st w g ended e =
      let n : ℕ = length (body p) in
      let b3 : List ℕ = byte_put16 (second_flag p) ++ body p in
      let b2 : List ℕ = byte_put16 (first_flag p) ++ b3 in
      let b1 : List ℕ = byte_put16 (n + 4) ++ b2 in
      let sb1 : Sbuf = skip st.sb 1 in
      let sb2 : Sbuf = skip sb1 1 in
      let sb3 : Sbuf = skip sb2 2 in
      let sb4 : Sbuf = skip sb3 2 in
      let sb5 : Sbuf = skip sb4 2 in
      let (e1, v1, p1) = get8-pending st.sb 1 (1 ∷ (b1 ++ rest)) g.valid (omega arith) e in
      let (e2, v2, p2) = get8-pending sb1 1 (b1 ++ rest) v1 (omega arith) p1 in
      let (e3, v3, p3) =
        get16-pending sb2 (n + 4) (b2 ++ rest) v2 w.len_fits
          (p2 ∙ append_assoc (byte_put16 (n + 4)) b2 rest) in
      let (e4, v4, p4) =
        get16-pending sb3 (first_flag p) (b3 ++ rest) v3 (first_flag-fits p w.kind)
          (p3 ∙ append_assoc (byte_put16 (first_flag p)) b3 rest) in
      let (e5, v5, p5) =
        get16-pending sb4 (second_flag p) (body p ++ rest) v4 w.flag_fits
          (p4 ∙ append_assoc (byte_put16 (second_flag p)) (body p) rest) in
      let not_short : ltb (n + 4) 4 ≡ false = ground arith in
      let back : n + 4 - 4 ≡ n = omega arith in
      let st5 : State = record st { sb = sb5 } in
      let d =
        part-Decoded p rest st5 w.kind (record { valid = v5; fixed = g.fixed; text = g.text }) ended
          p5 in
      record {
        after = d.after;
        result =
            rw (section, e1, e2, e3, not_short, e4, e5)
              (ap (λ k. encoded malloc (first_flag p) k st5) back ∙ d.result);
        good = d.good;
        ended = d.ended;
        appended = d.appended;
        count = d.count;
        left = d.left;
      }
