-- ===== src/Tlv/Parse.antt =====
-- naf/tlv.c: one pass of the loop of naf_tlv_parse_limit on the bytes of a node.
use timps.Prelude.{
  ℕ, ◌^◌, ◌<◌, ◌≡◌, refl, ◌∙◌, ap, Option, none, some, List, ◌++◌, append_assoc, arith, length,
}
use timps.Bytes.{byte_put16, byte_get16, get16-put16}
use timps.Sbuf.{Sbuf, get16}
use timps.Sbuf.Valid.{IsValid, pending}
use timps.Sbuf.Read.{skip, Consumed, consume, get_int_lem}
use timps.Sbuf.Strings.{getraw_lem}
use timps.Tlv.{Tlv, tlv_size, new, parse_one}
use timps.Tlv.Wire.{IsWellFormed, wire, body}

-- Every request for memory is granted.
abbrev pub Grants : (ℕ → Option (List ℕ)) → Type 0
Grants malloc = (n : ℕ) → (block : List ℕ) × (malloc n ≡ some block)

-- The next uint16 is read off the wire.
pub get16-pending :
    (sb : Sbuf) (v : ℕ) (rest : List ℕ)
    → IsValid sb
    → v < 2 ^ 16
    → pending sb ≡ byte_put16 v ++ rest
    → (get16 sb ≡ some (v, skip sb 2)) × IsValid (skip sb 2) × (pending (skip sb 2) ≡ rest)
unfolding get16 byte_put16
get16-pending sb v rest h w e =
    let c : Consumed sb (byte_put16 v) rest = consume sb (byte_put16 v) rest h e in
    (
      get_int_lem 2 byte_get16 sb (byte_put16 v) rest h refl e
          ∙ ap (λ n. some (n, skip sb 2)) (get16-put16 v w),
      c.valid,
      c.left,
    )

module _ (malloc : ℕ → Option (List ℕ)) (grants : Grants malloc) where
  pub new_lem :
      (t l : ℕ) (v : Option (List ℕ))
      → new malloc t l v ≡ some (record { type = t; len = l; value = v })
  unfolding new
  new_lem t l v = ground (arith, (grants tlv_size).1)

  -- One pass over a well-formed node takes it off the wire.
  parse_parts :
      (sb : Sbuf) (t l : ℕ) (value : Option (List ℕ)) (rest : List ℕ)
      → IsValid sb
      → IsWellFormed (record { type = t; len = l; value = value })
      → pending sb ≡ byte_put16 t ++ (byte_put16 l ++ (body value ++ rest))
      → (sb' : Sbuf) × (parse_one malloc sb
          ≡ some (some (record { type = t; len = l; value = value }), sb'))
        × IsValid sb'
        × (pending sb' ≡ rest)
  unfolding parse_one
  parse_parts sb t l none rest v w e =
      let (h1, v1, e1) = get16-pending sb t (byte_put16 l ++ rest) v w.type_fits e in
      let (h2, v2, e2) = get16-pending (skip sb 2) l rest v1 w.len_fits e1 in
      (skip (skip sb 2) 2, ground (arith, h1, h2, w.len_body, new_lem t l none), v2, e2)
  parse_parts sb t l (some bs) rest v w e =
      let (h1, v1, e1) = get16-pending sb t (byte_put16 l ++ (bs ++ rest)) v w.type_fits e in
      let (h2, v2, e2) = get16-pending (skip sb 2) l (bs ++ rest) v1 w.len_fits e1 in
      let c : Consumed (skip (skip sb 2) 2) bs rest = consume (skip (skip sb 2) 2) bs rest v2 e2 in
      let (block, g) = grants (length bs) in
      (
        skip (skip (skip sb 2) 2) (length bs),
        ground (
          arith,
          h1,
          h2,
          w.len_body,
          w.not_empty,
          getraw_lem malloc (skip (skip sb 2) 2) bs rest block v2 e2 g,
          new_lem t l (some bs),
        ),
        c.valid,
        c.left,
      )

  pub parse_one_lem :
      (sb : Sbuf) (tlv : Tlv) (rest : List ℕ)
      → IsValid sb
      → IsWellFormed tlv
      → pending sb ≡ wire tlv ++ rest
      → (sb' : Sbuf) × (parse_one malloc sb ≡ some (some tlv, sb'))
        × IsValid sb'
        × (pending sb' ≡ rest)
  parse_one_lem sb tlv rest v w e = parse_parts sb tlv.type tlv.len tlv.value rest v w (
      e
      ∙ append_assoc (byte_put16 tlv.type) (byte_put16 tlv.len ++ body tlv.value) rest
      ∙ ap (λ t. byte_put16 tlv.type ++ t)
          (append_assoc (byte_put16 tlv.len) (body tlv.value) rest))
