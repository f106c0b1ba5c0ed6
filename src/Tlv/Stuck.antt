-- ===== src/Tlv/Stuck.antt =====
-- naf/tlv.c: the loop of naf_tlv_parse on bytes that are no list of nodes.
use timps.Prelude.{
  ℕ, zero, suc, ◌+◌, ◌<◌, ◌≡◌, ◌∙◌, ap, true, false, Option, none, some, List, [], ◌∷◌, ◌++◌,
  append_assoc, arith, length, length-append, All,
}
use timps.Sbuf.{Sbuf, some_left, get16}
use timps.Bytes.{byte_get16}
use timps.Sbuf.Valid.{IsValid, pending}
use timps.Sbuf.Read.{length-pending, get_int_short}
use timps.Tlv.{Tlv, running, parse_one, parse_loop, parse_limit, parse}
use timps.Tlv.Wire.{IsWellFormed, wire, wires}
use timps.Tlv.Parse.{Grants, new_lem, parse_one_lem}

pub some_left-pending : (sb : Sbuf) → IsValid sb → 0 < length (pending sb) → some_left sb ≡ true
unfolding some_left
some_left-pending sb v h = ground (arith, length-pending sb v)

pub some_left-empty : (sb : Sbuf) → IsValid sb → length (pending sb) ≡ 0 → some_left sb ≡ false
unfolding some_left
some_left-empty sb v h = ground (arith, length-pending sb v)

module _ (malloc : ℕ → Option (List ℕ)) (grants : Grants malloc) where
  -- With one byte left neither number is read, and the pass makes an empty node out of nothing.
  pub parse_one_stray :
      (sb : Sbuf)
      → IsValid sb
      → length (pending sb) ≡ 1
      → parse_one malloc sb ≡ some (some (record { type = 0; len = 0; value = none }), sb)
  unfolding parse_one get16
  parse_one_stray sb v h =
      ground (arith, get_int_short 2 byte_get16 sb v, new_lem malloc grants 0 0 none)

  parse_loop_stray :
      (fuel : ℕ) (sb : Sbuf)
      → IsValid sb
      → length (pending sb) ≡ 1
      → parse_loop malloc fuel sb none ≡ running
  unfolding parse_loop
  parse_loop_stray zero sb v h = ground (arith, some_left-pending sb v)
  parse_loop_stray (suc fuel) sb v h =
      ground (arith, some_left-pending sb v, parse_one_stray sb v h, parse_loop_stray fuel sb v h)

  parse_loop_then_stray :
      (fuel : ℕ) (sb : Sbuf) (tlvs : List Tlv) (b : ℕ)
      → IsValid sb
      → All IsWellFormed tlvs
      → pending sb ≡ wires tlvs ++ (b ∷ [])
      → parse_loop malloc fuel sb none ≡ running
  unfolding parse_loop
  parse_loop_then_stray fuel sb [] b v w e = parse_loop_stray fuel sb v (ap length e)
  parse_loop_then_stray zero sb (tlv ∷ tlvs) b v w e =
      ground (arith, some_left-pending sb v (omega (arith, total)))
    where
      total : length (pending sb) ≡ length (wires (tlv ∷ tlvs)) + 1
      total = ap length e ∙ length-append (wires (tlv ∷ tlvs)) (b ∷ [])
  parse_loop_then_stray (suc fuel) sb (tlv ∷ tlvs) b v (w, ws) e =
      let (sb1, h1, v1, e1) =
        parse_one_lem malloc grants sb tlv (wires tlvs ++ (b ∷ [])) v w
          (e ∙ append_assoc (wire tlv) (wires tlvs) (b ∷ [])) in
      ground (
        arith,
        h1,
        some_left-pending sb v (omega (arith, total)),
        parse_loop_then_stray fuel sb1 tlvs b v1 ws e1,
      )
    where
      total : length (pending sb) ≡ length (wires (tlv ∷ tlvs)) + 1
      total = ap length e ∙ length-append (wires (tlv ∷ tlvs)) (b ∷ [])

  -- With memory granted, a well-formed list with one byte more behind it keeps naf_tlv_parse in
  -- its loop, whatever the fuel.
  pub parse_stray :
      (fuel : ℕ) (sb : Sbuf) (tlvs : List Tlv) (b : ℕ)
      → IsValid sb
      → All IsWellFormed tlvs
      → pending sb ≡ wires tlvs ++ (b ∷ [])
      → parse malloc fuel sb ≡ running
  unfolding parse parse_limit
  parse_stray fuel sb tlvs b v w e = parse_loop_then_stray fuel sb tlvs b v w e
