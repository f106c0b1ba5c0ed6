-- ===== src/Tlv/Render.antt =====
-- naf/tlv.c: what naf_tlv_render leaves in the buffer.
use timps.Prelude.{
  ℕ, ◌+◌, ◌≤◌, ◌≡◌, refl, sym, ◌∙◌, ap, Option, none, some, List, [], ◌∷◌, ◌++◌, append_assoc,
  append-nil, arith, length, length-append, All, take_all,
}
use timps.Bytes.{byte_put16, length-put16}
use timps.Sbuf.{Sbuf, some_left, put16, putraw}
use timps.Sbuf.Valid.{IsValid, written}
use timps.Sbuf.Append.{Appended, wrote, wrote-Appended, putraw_fits}
use timps.Tlv.{Tlv, put_value, render_from, render, getrenderedsize}
use timps.Tlv.Wire.{IsWellFormed, wire, wires, body, length-wire}

-- `sb'` is `sb` with `bs` appended in place, in the same block.
pub record Put (sb : Sbuf) (bs : List ℕ) (sb' : Sbuf) : Type 0 where
  pub appended : Appended sb bs sb'
  pub same_buflen : sb'.buflen ≡ sb.buflen

pub Put-trans :
    (sb : Sbuf) (xs : List ℕ) (sb1 : Sbuf) (ys : List ℕ) (sb2 : Sbuf)
    → Put sb xs sb1
    → Put sb1 ys sb2
    → Put sb (xs ++ ys) sb2
Put-trans sb xs sb1 ys sb2 p q = record {
  appended = record {
    valid = q.appended.valid;
    bytes = q.appended.bytes ∙ ap (λ t. t ++ ys) p.appended.bytes ∙ append_assoc (written sb) xs ys;
    moved = omega (arith, q.appended.moved, p.appended.moved, length-append xs ys);
  };
  same_buflen = q.same_buflen ∙ p.same_buflen;
}

module _ (malloc : ℕ → Option (List ℕ)) where
  -- A block that fits is put in place.
  pub putraw-Put :
      (sb : Sbuf) (bs : List ℕ)
      → IsValid sb
      → sb.pos + length bs ≤ sb.buflen
      → (putraw malloc sb bs (length bs) ≡ some (length bs, wrote sb bs)) × Put sb bs (wrote sb bs)
  putraw-Put sb bs v h = (
    putraw_fits malloc sb bs (length bs) v (omega arith) h
        ∙ ap (λ t. some (length bs, wrote sb t)) (take_all bs (length bs) (omega arith)),
    record { appended = wrote-Appended sb bs v h; same_buflen = refl },
  )

  pub put16-Put :
      (sb : Sbuf) (n : ℕ)
      → IsValid sb
      → sb.pos + 2 ≤ sb.buflen
      → (put16 malloc sb n ≡ some (2, wrote sb (byte_put16 n)))
        × Put sb (byte_put16 n) (wrote sb (byte_put16 n))
  unfolding put16
  put16-Put sb n v h = putraw-Put sb (byte_put16 n) v h

  put_value-Put :
      (sb : Sbuf) (value : Option (List ℕ)) (len : ℕ)
      → IsValid sb
      → len ≡ length (body value)
      → sb.pos + len ≤ sb.buflen
      → (sb' : Sbuf) × (put_value malloc sb value len ≡ some (len, sb')) × Put sb (body value) sb'
  unfolding put_value
  put_value-Put sb none len v e h = (
    sb,
    ground arith,
    record {
      appended = record { valid = v; bytes = sym (append-nil (written sb)); moved = omega arith };
      same_buflen = refl;
    },
  )
  put_value-Put sb (some bs) len v e h =
      let (got, put) = putraw-Put sb bs v (omega arith) in
      (
        wrote sb bs,
        ap (λ k. putraw malloc sb bs k) e ∙ got ∙ ap (λ k. some (k, wrote sb bs)) (sym e),
        put,
      )

  -- One pass of the loop puts a node that fits on the wire.
  render_pass :
      (sb : Sbuf) (tlv : Tlv)
      → IsValid sb
      → IsWellFormed tlv
      → sb.pos + (4 + tlv.len) ≤ sb.buflen
      → (sb1 sb2 sb3 : Sbuf) × (put16 malloc sb tlv.type ≡ some (2, sb1))
        × (put16 malloc sb1 tlv.len ≡ some (2, sb2))
        × (put_value malloc sb2 tlv.value tlv.len ≡ some (tlv.len, sb3))
        × Put sb (wire tlv) sb3
  render_pass sb tlv v w h =
      let (h1, p1) = put16-Put sb tlv.type v (omega arith) in
      let sb1 : Sbuf = wrote sb (byte_put16 tlv.type) in
      let (h2, p2) =
        put16-Put sb1 tlv.len p1.appended.valid (omega (arith, length-put16 tlv.type)) in
      let sb2 : Sbuf = wrote sb1 (byte_put16 tlv.len) in
      let (sb3, h3, p3) =
        put_value-Put sb2 tlv.value tlv.len p2.appended.valid w.len_body
          (omega (arith, length-put16 tlv.type, length-put16 tlv.len)) in
      (
        sb1,
        sb2,
        sb3,
        h1,
        h2,
        h3,
        Put-trans sb (byte_put16 tlv.type) sb1 (byte_put16 tlv.len ++ body tlv.value) sb3 p1
            (Put-trans sb1 (byte_put16 tlv.len) sb2 (body tlv.value) sb3 p2 p3),
      )

  render_from-Put :
      (n : ℕ) (tlvs : List Tlv) (sb : Sbuf)
      → IsValid sb
      → All IsWellFormed tlvs
      → sb.pos + getrenderedsize tlvs ≤ sb.buflen
      → (sb' : Sbuf) × (render_from malloc n tlvs sb ≡ some (n + getrenderedsize tlvs, sb'))
        × Put sb (wires tlvs) sb'
  unfolding render_from getrenderedsize some_left
  render_from-Put n [] sb v w h = (
    sb,
    ground arith,
    record {
      appended = record { valid = v; bytes = sym (append-nil (written sb)); moved = omega arith };
      same_buflen = refl;
    },
  )
  render_from-Put n (tlv ∷ tlvs) sb v (w, ws) h =
      let (sb1, sb2, sb3, h1, h2, h3, p) = render_pass sb tlv v w (omega arith) in
      let (sb4, h4, q) =
        render_from-Put (n + 2 + 2 + tlv.len) tlvs sb3 p.appended.valid ws
          (omega (arith, p.appended.moved, p.same_buflen, length-wire tlv w)) in
      (sb4, ground (arith, h1, h2, h3, h4), Put-trans sb (wire tlv) sb3 (wires tlvs) sb4 p q)

  -- Where the nodes fit, rendering them reports their size and appends just their bytes.
  pub render-Put :
      (tlvs : List Tlv) (sb : Sbuf)
      → IsValid sb
      → All IsWellFormed tlvs
      → sb.pos + getrenderedsize tlvs ≤ sb.buflen
      → (sb' : Sbuf) × (render malloc tlvs sb ≡ some (getrenderedsize tlvs, sb'))
        × Put sb (wires tlvs) sb'
  unfolding render
  render-Put tlvs sb v w h =
      let (sb', e, p) = render_from-Put 0 tlvs sb v w h in
      (sb', e ∙ ap (λ k. some (k, sb')) (omega arith), p)
