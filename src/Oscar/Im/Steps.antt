-- ===== src/Oscar/Im/Steps.antt =====
-- timps/oscar/im.c: the steps on one section, on bytes of any kind.
use timps.Prelude.{
  ℕ, zero, suc, ◌+◌, ◌/◌, ◌%◌, ◌<◌, ◌≡◌, ◌⊎◌, inl, inr, refl, sym, ◌∙◌, ap, false, ◌&&◌, ◌||◌,
  Bool-cases, Option, none, some, List, [], ◌∷◌, ◌++◌, ltb, ◌==◌, if◌then◌else◌, arith, length,
  store,
}
use timps.Sbuf.{Sbuf, getpos, short_of}
use timps.Sbuf.Valid.{IsValid, IsMalloc}
use timps.Oscar.Im.{
  Text, State, entity, count_chars, write_char, write_chars, ascii_section, unicode_section,
  encoded,
}
use timps.Oscar.Im.Blocks.{
  store-Wrote, IsText, terminate_lem, extendstr_lem, Reads, Reads-trans, get16_total,
  getrawbuf_total, advance_total, setpos_total,
}

-- A good state: the buffer does not grow, and the text has room for its terminator.
pub record IsState (st : State) : Type 0 where
  pub valid : IsValid st.sb
  pub fixed : st.sb.auto_resize ≡ false
  pub text : IsText st.msgtext

-- A step fails without a fault, or reads on and leaves a good state.
abbrev pub Goes : State → Option (Option State) → Type 0
Goes st r =
    (r ≡ some none) ⊎ ((st' : State) × (r ≡ some (some st')) × IsState st' × Reads st.sb st'.sb)

-- The bytes of a section, where they could be read.
copy_lem :
    (t : Text) (n : ℕ) (out : Option (List ℕ))
    → t.len + n < length t.block
    → (out ≡ none) ⊎ ((bs : List ℕ) × (out ≡ some bs) × (length bs ≡ n))
    → (b : List ℕ) × ((elim out as (λ _. Option (List ℕ)) [
      | none ↦ some t.block
      | some bs ↦ store t.block t.len bs
    ])
        ≡ some b)
      × (length b ≡ length t.block)
copy_lem t n none room c = (t.block, refl, refl)
copy_lem t n (some bs) room c =
    let len : length bs ≡ n = elim c [
      | inl e ↦ absurd (cc)
      | inr (bs', e, h) ↦ let same : bs ≡ bs' = cc in ap length same ∙ h
    ] in
    let (b, e, w) = store-Wrote t.block t.len bs (omega (arith, len, room)) in (b, e, w.same_length)

-- How many bytes a character takes in the text.
abbrev pub char_width : ℕ → ℕ
char_width c = if ltb c 128 then 1 else 7

write_char_lem :
    (t : Text) (c : ℕ)
    → t.len + char_width c < length t.block
    → (t' : Text) × (write_char t c ≡ some t')
      × (t'.len ≡ t.len + char_width c)
      × (length t'.block ≡ length t.block)
unfolding write_char entity
write_char_lem t c h = elim (Bool-cases (ltb c 128)) [
  | inl plain ↦
      let (b, e, w) = store-Wrote t.block t.len (c ∷ []) (ground (arith, h, plain)) in
      (record { block = b; len = t.len + 1 }, rw (plain, e) refl, rw plain refl, w.same_length)
  | inr wide ↦
      let (b, e, w) = store-Wrote t.block t.len (entity c ++ (0 ∷ [])) (ground (arith, h, wide)) in
      (record { block = b; len = t.len + 7 }, rw (wide, e) refl, rw wide refl, w.same_length)
]

shift : (n k m : ℕ) → n + k + m ≡ n + (k + m)
shift n k m = omega arith

add_nothing : (n : ℕ) → n + 0 ≡ n
add_nothing n = omega arith

-- What the two loops over the characters do: the second has room for what the first counts.
loops_lem :
    (left : ℕ) (sb : Sbuf)
    → IsValid sb
    → sb.auto_resize ≡ false
    → (m : ℕ) × (sb' : Sbuf) × Reads sb sb'
      × ((n : ℕ) → count_chars left sb n ≡ some (n + m, sb'))
      × ((t : Text)
          → t.len + m < length t.block
          → (t' : Text) × (write_chars left sb t ≡ some (t', sb'))
            × (t'.len ≡ t.len + m)
            × (length t'.block ≡ length t.block))
unfolding count_chars write_chars
loops_lem zero sb v fixed = (
  0,
  sb,
  record { valid = v; fixed = fixed; same_buflen = refl; forward = omega arith; back = refl },
  λ n. ap (λ k. some (k, sb)) (sym (add_nothing n)),
  λ t h. (t, refl, omega arith, refl),
)
loops_lem (suc left) sb v fixed =
    let (c, sb1, e, r, _) = get16_total sb v fixed in
    let (m, sb2, r2, counts, writes) = loops_lem left sb1 r.valid r.fixed in
    let k : ℕ = char_width c in
    (
      k + m,
      sb2,
      Reads-trans sb sb1 sb2 r r2,
      λ n. rw e (counts (n + k) ∙ ap (λ j. some (j, sb2)) (shift n k m)),
      λ t h.
          let (t1, e1, l1, b1) = write_char_lem t c (omega (arith, h)) in
          let (t2, e2, l2, b2) = writes t1 (omega (arith, h, l1, b1)) in
          (t2, rw (e, e1) e2, omega (arith, l1, l2), b2 ∙ b1),
    )

module _ (malloc : ℕ → Option (List ℕ)) (sound : IsMalloc malloc) where
  pub ascii_section-Goes :
      (plen : ℕ) (st : State) → IsState st → Goes st (ascii_section malloc plen st)
  unfolding ascii_section
  ascii_section-Goes plen st g = elim (extendstr_lem malloc sound st.msgtext plen g.text) [
    | inl e ↦ inl (rw (ascii_section, e) refl)
    | inr (t, e, room, _) ↦
        let (out, sb', e1, r, c) = getrawbuf_total st.sb plen g.valid g.fixed in
        let (b, e2, same) = copy_lem t plen out room c in
        let ended : Text = record { block = b; len = t.len + plen } in
        let (t', e3, l3, b3, _, _) = terminate_lem ended (omega (arith, room, same)) in
        inr (
          record st { sb = sb'; msgtext = some t' },
          rw (ascii_section, e, e1, e2, e3) refl,
          record { valid = r.valid; fixed = r.fixed; text = omega (arith, l3, b3, room, same) },
          r,
        )
  ]

  unicode_section-Goes :
      (plen : ℕ) (st : State) → IsState st → Goes st (unicode_section malloc plen st)
  unfolding unicode_section getpos
  unicode_section-Goes plen st g = elim (Bool-cases (short_of st.sb plen)) [
    | inl short ↦ inl (rw short refl)
    | inr enough ↦
        let (m, sb1, r, counts, writes) = loops_lem (plen / 2) st.sb g.valid g.fixed in
        let e1 = counts 0 in
        let e2 =
          setpos_total malloc sb1 st.sb.pos r.valid
            (omega (arith, g.valid.cursor, r.same_buflen)) in
        elim (extendstr_lem malloc sound st.msgtext (0 + m) g.text) [
          | inl e ↦ inl (rw (unicode_section, enough, e1, e2, e) refl)
          | inr (t, e, room, _) ↦
              let (t1, e3, l1, b1) = writes t (omega (arith, room)) in
              let (t2, e4, l2, b2, _, _) = terminate_lem t1 (omega (arith, room, l1, b1)) in
              inr (
                record st { sb = sb1; msgtext = some t2 },
                rw (unicode_section, enough, e1, e2, e, r.back, e3, e4) refl,
                record {
                  valid = r.valid;
                  fixed = r.fixed;
                  text = omega (arith, l1, b1, l2, b2, room);
                },
                r,
              )
        ]
  ]

  -- The branches on the encoding.
  pub encoded-Goes : (f1 plen : ℕ) (st : State) → IsState st → Goes st (encoded malloc f1 plen st)
  unfolding encoded
  encoded-Goes f1 plen st g = elim (Bool-cases (f1 == 0 || f1 == 3)) [
    | inl is_ascii ↦ rw is_ascii (ascii_section-Goes plen st g)
    | inr not_ascii ↦ elim (Bool-cases (f1 == 2 && (plen % 2 == 0))) [
      | inl is_unicode ↦ rw (not_ascii, is_unicode) (unicode_section-Goes plen st g)
      | inr other ↦
          let (moved, sb6, e, r) = advance_total malloc st.sb plen g.valid g.fixed in
          rw (not_ascii, other, e)
            (inr (
              record st { sb = sb6; unrepresentable = st.unrepresentable + 1 },
              refl,
              record { valid = r.valid; fixed = r.fixed; text = g.text },
              r,
            ))
    ]
  ]
