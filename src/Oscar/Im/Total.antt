-- ===== src/Oscar/Im/Total.antt =====
-- timps/oscar/im.c: toscar_icbm__extractmsgtext on bytes of any kind.
use timps.Prelude.{
  ℕ, zero, suc, ◌+◌, ◌-◌, ◌^◌, ◌≤◌, ◌<◌, ◌≡◌, ◌⊎◌, inl, inr, refl, Bool, false, Bool-cases, Option,
  none, some, List, ltb, ◌==◌, arith, length,
}
use timps.Sbuf.{Sbuf, init_with, some_left}
use timps.Sbuf.Valid.{IsValid, IsMalloc, init_with-IsValid}
use timps.Tlv.{Tlv, done}
use timps.Oscar.Im.{Text, State, section, sections, features, extractmsgtext}
use timps.Oscar.Im.Steps.{IsState, encoded-Goes}
use timps.Oscar.Im.Blocks.{IsText, Reads, Reads-trans, get8_total, get16_total, advance_total}

module _ (malloc : ℕ → Option (List ℕ)) (sound : IsMalloc malloc) where
  -- A pass fails without a fault, or reads a byte at least.
  section_lem :
      (st : State)
      → IsState st
      → (section malloc st ≡ some none)
        ⊎ ((st' : State) × (section malloc st ≡ some (some st'))
            × IsState st'
            × Reads st.sb st'.sb
            × (st.sb.pos < st'.sb.pos))
  unfolding section
  section_lem st g =
      let (a, sb1, e1, r1, c1) = get8_total st.sb g.valid g.fixed in
      elim (Bool-cases (a == 1)) [
        | inr no_a ↦ inl (rw (section, e1, no_a) refl)
        | inl is_a ↦
            let (b, sb2, e2, r2, _) = get8_total sb1 r1.valid r1.fixed in
            let step : st.sb.pos < sb1.pos = ground (arith, is_a, c1) in
            let r12 : Reads st.sb sb2 = Reads-trans st.sb sb1 sb2 r1 r2 in
            elim (Bool-cases (b == 1)) [
              | inr no_b ↦ inl (rw (section, e1, is_a, e2, no_b) refl)
              | inl is_b ↦
                  let (plen, sb3, e3, r3, _) = get16_total sb2 r2.valid r2.fixed in
                  let r13 : Reads st.sb sb3 = Reads-trans st.sb sb2 sb3 r12 r3 in
                  elim (Bool-cases (ltb plen 4)) [
                    | inl short ↦ inr (
                      record st { sb = sb3 },
                      rw (section, e1, is_a, e2, is_b, e3, short) refl,
                      record { valid = r3.valid; fixed = r3.fixed; text = g.text },
                      r13,
                      omega (arith, step, r2.forward, r3.forward),
                    )
                    | inr enough ↦
                        let (f1, sb4, e4, r4, _) = get16_total sb3 r3.valid r3.fixed in
                        let (f2, sb5, e5, r5, _) = get16_total sb4 r4.valid r4.fixed in
                        let r15 : Reads st.sb sb5 =
                          Reads-trans st.sb sb3 sb5 r13 (Reads-trans sb3 sb4 sb5 r4 r5) in
                        let st5 : State = record st { sb = sb5 } in
                        let g5 : IsState st5 = record {
                          valid = r5.valid;
                          fixed = r5.fixed;
                          text = g.text;
                        } in
                        elim (encoded-Goes malloc sound f1 (plen - 4) st5 g5) [
                          | inl e ↦ inl (rw (section, e1, is_a, e2, is_b, e3, enough, e4, e5) e)
                          | inr (st', e, g', r') ↦ inr (
                            st',
                            rw (section, e1, is_a, e2, is_b, e3, enough, e4, e5) e,
                            g',
                            Reads-trans st.sb sb5 st'.sb r15 r',
                            omega (
                              arith, step, r2.forward, r3.forward, r4.forward, r5.forward,
                              r'.forward,
                            ),
                          )
                        ]
                  ]
            ]
      ]

  sections_total :
      (fuel : ℕ) (st : State)
      → IsState st
      → st.sb.buflen ≤ st.sb.pos + fuel
      → (sections malloc fuel st ≡ done none)
        ⊎ ((st' : State) × (sections malloc fuel st ≡ done (some st')) × IsState st')
  unfolding sections some_left
  sections_total zero st g h = inr (st, ground arith, g)
  sections_total (suc fuel) st g h = elim (Bool-cases (some_left st.sb)) [
    | inr ended ↦ inr (st, rw ended refl, g)
    | inl left ↦ elim (section_lem st g) [
      | inl e ↦ inl (rw (left, e) refl)
      | inr (st1, e, g1, r, step) ↦
          let more = sections_total fuel st1 g1 (omega (arith, h, step, r.same_buflen)) in
          rw (left, e) more
    ]
  ]

  features_total :
      (sb : Sbuf)
      → IsValid sb
      → sb.auto_resize ≡ false
      → (features malloc sb ≡ some none)
        ⊎ ((sb' : Sbuf) × (features malloc sb ≡ some (some sb')) × Reads sb sb')
  unfolding features
  features_total sb v fixed =
      let (a, sb1, e1, r1, _) = get8_total sb v fixed in
      let (b, sb2, e2, r2, _) = get8_total sb1 r1.valid r1.fixed in
      let (n, sb3, e3, r3, _) = get16_total sb2 r2.valid r2.fixed in
      let (moved, sb4, e4, r4) = advance_total malloc sb3 n r3.valid r3.fixed in
      elim (Bool-cases (a == 5)) [
        | inr no_a ↦ inl (rw (features, e1, no_a) refl)
        | inl is_a ↦ elim (Bool-cases (b == 1)) [
          | inr no_b ↦ inl (rw (features, e1, is_a, e2, no_b) refl)
          | inl is_b ↦ inr (
            sb4,
            rw (features, e1, is_a, e2, is_b, e3, e4) refl,
            Reads-trans sb sb1 sb4 r1 (Reads-trans sb1 sb2 sb4 r2 (Reads-trans sb2 sb3 sb4 r3 r4)),
          )
        ]
      ]

  -- On a node with any bytes at all as its value, which is not null and has the stated length
  -- at least (below 2 ^ 16), toscar_icbm__extractmsgtext ends within fuel of that length,
  -- whether or not memory is granted, in blocks of the size asked for. It reads and writes
  -- inside its blocks only, and a text that it returns has its end inside its block.
  pub extractmsgtext_total :
      (fuel : ℕ) (msgtlv : Tlv) (v : List ℕ)
      → msgtlv.value ≡ some v
      → msgtlv.len ≤ length v
      → msgtlv.len < 2 ^ 16
      → msgtlv.len ≤ fuel
      → (extractmsgtext malloc fuel msgtlv ≡ done none)
        ⊎ ((partly : Bool) × (text : Option Text) × (extractmsgtext malloc fuel msgtlv
              ≡ done (some (partly, text)))
            × IsText text)
  unfolding extractmsgtext init_with
  extractmsgtext_total fuel msgtlv v has size small enough =
      let sb : Sbuf = init_with v msgtlv.len in
      let valid : IsValid sb = init_with-IsValid v msgtlv.len size small in
      elim (features_total sb valid refl) [
        | inl e ↦ inl (rw (extractmsgtext, has, e) refl)
        | inr (sb1, e, r) ↦
            let st : State = record { sb = sb1; msgtext = none; unrepresentable = 0 } in
            let g : IsState st = record { valid = r.valid; fixed = r.fixed; text = tt } in
            elim (sections_total fuel st g (omega (arith, enough, r.same_buflen))) [
              | inl e' ↦ inl (rw (extractmsgtext, has, e, e') refl)
              | inr (st', e', g') ↦ inr (
                ltb 0 st'.unrepresentable,
                st'.msgtext,
                rw (extractmsgtext, has, e, e') refl,
                g'.text,
              )
            ]
      ]
