-- ===== src/Tlv/Runs.antt =====
-- Runs of naf/tlv.c, and its theorems at concrete inputs.
use timps.Prelude.{ℕ, ◌≤◌, ◌≡◌, refl, none, some, List, [], ◌∷◌, arith, length, replicate}
use timps.Bytes.{byte_put16}
use timps.Fixture.{zeros, zeros-Grants}
use timps.Sbuf.{Sbuf, init_with}
use timps.Sbuf.Valid.{IsValid, pending, init_with-IsValid}
use timps.Tlv.{Tlv, done, running, parse, parse_limit, render, getrenderedsize}
use timps.Tlv.Wire.{wires, IsWellFormed}
use timps.Tlv.RoundTrip.{parse-render}
use timps.Tlv.Total.{parse_limit_total}
use timps.Tlv.Stuck.{parse_stray}

-- A screen name and a node without a value.
abbrev name_tlv : Tlv
name_tlv = record { type = 1; len = 3; value = some (98 ∷ 111 ∷ 98 ∷ []) }

abbrev empty_tlv : Tlv
empty_tlv = record { type = 0x0102; len = 0; value = none }

abbrev two : List Tlv
two = name_tlv ∷ empty_tlv ∷ []

name-IsWellFormed : IsWellFormed name_tlv
name-IsWellFormed = record {
  type_fits = omega arith;
  len_fits = omega arith;
  len_body = refl;
  not_empty = omega arith;
}

empty-IsWellFormed : IsWellFormed empty_tlv
empty-IsWellFormed = record {
  type_fits = omega arith;
  len_fits = omega arith;
  len_body = refl;
  not_empty = tt;
}

wires-two : wires two ≡ 0 ∷ 1 ∷ 0 ∷ 3 ∷ 98 ∷ 111 ∷ 98 ∷ 1 ∷ 2 ∷ 0 ∷ 0 ∷ []
unfolding byte_put16
wires-two = refl

size_runs : getrenderedsize two ≡ 11
unfolding getrenderedsize
size_runs = refl

-- The eleven bytes, and two more.
abbrev bytes : List ℕ
bytes = 0 ∷ 1 ∷ 0 ∷ 3 ∷ 98 ∷ 111 ∷ 98 ∷ 1 ∷ 2 ∷ 0 ∷ 0 ∷ 77 ∷ 78 ∷ []

parse-render_example :
    (sb sb' : Sbuf) × (render zeros two (init_with (replicate 11 0) (getrenderedsize two))
      ≡ some (getrenderedsize two, sb))
    × (parse zeros 2 (init_with sb.buf (getrenderedsize two)) ≡ done (two, sb'))
    × (pending sb' ≡ [])
unfolding getrenderedsize
parse-render_example =
    parse-render zeros zeros-Grants 2 two (replicate 11 0)
      (name-IsWellFormed, (empty-IsWellFormed, tt)) (omega arith) refl (omega arith)

-- With three bytes left over the limited loop ends all the same.
parse_limit_total_example :
    (tlvs : List Tlv) × (sb : Sbuf) × (parse_limit zeros 9 (init_with (9 ∷ 9 ∷ 9 ∷ []) 3) (some 7)
      ≡ done (tlvs, sb))
    × IsValid sb
    × (length tlvs ≤ 7)
parse_limit_total_example =
    parse_limit_total zeros 9 (init_with (9 ∷ 9 ∷ 9 ∷ []) 3) 7
      (init_with-IsValid (9 ∷ 9 ∷ 9 ∷ []) 3 (omega arith) (omega arith)) (omega arith)

parse_stray_example : parse zeros 1000 (init_with bytes 12) ≡ running
unfolding init_with byte_put16
parse_stray_example =
    parse_stray zeros zeros-Grants 1000 (init_with bytes 12) two 77
      (init_with-IsValid bytes 12 (omega arith) (omega arith))
      (name-IsWellFormed, (empty-IsWellFormed, tt)) refl
