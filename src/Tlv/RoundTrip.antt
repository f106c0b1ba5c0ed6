-- ===== src/Tlv/RoundTrip.antt =====
-- naf/tlv.c: naf_tlv_parse on what naf_tlv_render writes.
use timps.Prelude.{
  ℕ, zero, suc, ◌^◌, ◌≤◌, ◌<◌, ◌≡◌, refl, ◌∙◌, ap, Option, none, some, List, [], ◌∷◌, ◌++◌,
  append_assoc, arith, length, length-append, All,
}
use timps.Sbuf.{Sbuf}
use timps.Sbuf.Valid.{IsValid, pending}
use timps.Tlv.{Tlv, done, parse_loop, parse_limit, parse}
use timps.Tlv.Wire.{IsWellFormed, wire, wires, length-wire, length-wires}
use timps.Tlv.Parse.{Grants, parse_one_lem}
use timps.Sbuf.{init_with}
use timps.Sbuf.Valid.{init_with-IsValid}
use timps.Tlv.{render, getrenderedsize}
use timps.Tlv.Render.{render-Put}
use timps.Prelude.{take}
use timps.Tlv.Stuck.{some_left-pending, some_left-empty}

any_left :
    (sb : Sbuf) (tlv : Tlv) (tlvs : List Tlv) (rest : List ℕ)
    → IsWellFormed tlv
    → pending sb ≡ wires (tlv ∷ tlvs) ++ rest
    → 0 < length (pending sb)
any_left sb tlv tlvs rest w e = omega (
  arith,
  ap length e,
  length-append (wires (tlv ∷ tlvs)) rest,
  length-append (wire tlv) (wires tlvs),
  length-wire tlv w,
)

module _ (malloc : ℕ → Option (List ℕ)) (grants : Grants malloc) where
  -- naf_tlv_parse on the bytes of well-formed nodes returns those nodes and uses up the buffer;
  -- one pass for each node is enough.
  parse_loop-wires :
      (fuel : ℕ) (sb : Sbuf) (tlvs : List Tlv)
      → IsValid sb
      → All IsWellFormed tlvs
      → pending sb ≡ wires tlvs
      → length tlvs ≤ fuel
      → (sb' : Sbuf) × (parse_loop malloc fuel sb none ≡ done (tlvs, sb')) × (pending sb' ≡ [])
  unfolding parse_loop
  parse_loop-wires zero sb [] v w e f = (sb, ground (arith, some_left-empty sb v (ap length e)), e)
  parse_loop-wires (suc fuel) sb [] v w e f =
      (sb, ground (arith, some_left-empty sb v (ap length e)), e)
  parse_loop-wires zero sb (tlv ∷ tlvs) v w e f = absurd (omega arith)
  parse_loop-wires (suc fuel) sb (tlv ∷ tlvs) v (w, ws) e f =
      let (sb1, h1, v1, e1) = parse_one_lem malloc grants sb tlv (wires tlvs) v w e in
      let (sb2, h2, e2) = parse_loop-wires fuel sb1 tlvs v1 ws e1 (omega arith) in
      (
        sb2,
        ground (
          arith,
          h1,
          h2,
          some_left-pending sb v (
              omega (arith, ap length e, length-append (wire tlv) (wires tlvs), length-wire tlv w)),
        ),
        e2,
      )

  pub parse-wires :
      (fuel : ℕ) (sb : Sbuf) (tlvs : List Tlv)
      → IsValid sb
      → All IsWellFormed tlvs
      → pending sb ≡ wires tlvs
      → length tlvs ≤ fuel
      → (sb' : Sbuf) × (parse malloc fuel sb ≡ done (tlvs, sb')) × (pending sb' ≡ [])
  unfolding parse parse_limit
  parse-wires fuel sb tlvs v w e f = parse_loop-wires fuel sb tlvs v w e f

  parse_loop_limit :
      (fuel : ℕ) (sb : Sbuf) (tlv : Tlv) (tlvs : List Tlv) (rest : List ℕ)
      → IsValid sb
      → IsWellFormed tlv × All IsWellFormed tlvs
      → pending sb ≡ wires (tlv ∷ tlvs) ++ rest
      → suc (length tlvs) ≤ fuel
      → (sb' : Sbuf) × (parse_loop malloc fuel sb (some (suc (length tlvs)))
          ≡ done (tlv ∷ tlvs, sb'))
        × IsValid sb'
        × (pending sb' ≡ rest)
  unfolding parse_loop
  parse_loop_limit zero sb tlv tlvs rest v w e f = absurd (omega arith)
  parse_loop_limit (suc fuel) sb tlv [] rest v (w, ws) e f =
      let (sb1, h1, v1, e1) =
        parse_one_lem malloc grants sb tlv rest v w (e ∙ append_assoc (wire tlv) [] rest) in
      (sb1, ground (arith, h1, some_left-pending sb v (any_left sb tlv [] rest w e)), v1, e1)
  parse_loop_limit (suc fuel) sb tlv (next ∷ tlvs) rest v (w, ws) e f =
      let (sb1, h1, v1, e1) =
        parse_one_lem malloc grants sb tlv (wires (next ∷ tlvs) ++ rest) v w
          (e ∙ append_assoc (wire tlv) (wires (next ∷ tlvs)) rest) in
      let (sb2, h2, v2, e2) = parse_loop_limit fuel sb1 next tlvs rest v1 ws e1 (omega arith) in
      (
        sb2,
        ground (arith, h1, h2, some_left-pending sb v (any_left sb tlv (next ∷ tlvs) rest w e)),
        v2,
        e2,
      )

  -- With memory granted and the number of nodes as its limit, naf_tlv_parse_limit takes just
  -- the nodes of a well-formed list off the front of a valid buffer, leaves the bytes behind
  -- them and the buffer valid. Fuel of one for each node is enough.
  pub parse_limit-wires :
      (fuel : ℕ) (sb : Sbuf) (tlvs : List Tlv) (rest : List ℕ)
      → IsValid sb
      → All IsWellFormed tlvs
      → pending sb ≡ wires tlvs ++ rest
      → length tlvs ≤ fuel
      → (sb' : Sbuf) × (parse_limit malloc fuel sb (some (length tlvs)) ≡ done (tlvs, sb'))
        × IsValid sb'
        × (pending sb' ≡ rest)
  unfolding parse_limit
  parse_limit-wires fuel sb [] rest v w e f = (sb, refl, v, e)
  parse_limit-wires fuel sb (tlv ∷ tlvs) rest v w e f =
      parse_loop_limit fuel sb tlv tlvs rest v w e f

  -- With memory granted, what naf_tlv_render writes of a well-formed list into a block of the
  -- rendered size (below 2 ^ 16), naf_tlv_parse reads back: the same nodes in the same order,
  -- with nothing left over. Fuel of one for each node is enough.
  pub parse-render :
      (fuel : ℕ) (tlvs : List Tlv) (block : List ℕ)
      → All IsWellFormed tlvs
      → getrenderedsize tlvs < 2 ^ 16
      → length block ≡ getrenderedsize tlvs
      → length tlvs ≤ fuel
      → (sb sb' : Sbuf) × (render malloc tlvs (init_with block (getrenderedsize tlvs))
          ≡ some (getrenderedsize tlvs, sb))
        × (parse malloc fuel (init_with sb.buf (getrenderedsize tlvs)) ≡ done (tlvs, sb'))
        × (pending sb' ≡ [])
  unfolding init_with
  parse-render fuel tlvs block w small size f =
      let n : ℕ = getrenderedsize tlvs in
      let fresh : IsValid (init_with block n) = init_with-IsValid block n (omega arith) small in
      let (sb, e, p) = render-Put malloc tlvs (init_with block n) fresh w (omega arith) in
      let at_end : sb.pos ≡ n = omega (arith, p.appended.moved, length-wires tlvs w) in
      let room : n ≤ length sb.buf = omega (arith, p.same_buflen, p.appended.valid.storage) in
      let (sb', r, none_left) =
        parse-wires fuel (init_with sb.buf n) tlvs (init_with-IsValid sb.buf n room small) w
          (ap (λ k. take k sb.buf) (omega (arith, at_end)) ∙ p.appended.bytes) f in
      (sb, sb', e, r, none_left)
