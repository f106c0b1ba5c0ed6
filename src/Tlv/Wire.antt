-- ===== src/Tlv/Wire.antt =====
-- naf/tlv.c: the bytes that stand for a list of nodes, independent of the code.
use timps.Prelude.{
  ℕ, ◌+◌, ◌^◌, ◌<◌, ◌≡◌, refl, Option, none, some, List, [], ◌∷◌, ◌++◌, arith, length,
  length-append, All,
}
use timps.Bytes.{byte_put16, length-put16}
use timps.Tlv.{Tlv, getrenderedsize}

-- The bytes behind the header.
abbrev pub body : Option (List ℕ) → List ℕ
body none = []
body (some v) = v

-- The type, the length, the bytes.
abbrev pub wire : Tlv → List ℕ
wire tlv = byte_put16 tlv.type ++ (byte_put16 tlv.len ++ body tlv.value)

abbrev pub wires : List Tlv → List ℕ
wires [] = []
wires (tlv ∷ tlvs) = wire tlv ++ wires tlvs

-- A block that is there has a byte at least.
abbrev pub NotEmpty : Option (List ℕ) → Type 0
NotEmpty none = Unit
NotEmpty (some v) = 0 < length v

-- Both numbers fit their uint16, the block has the stated length, and it is null just if that is 0.
pub record IsWellFormed (tlv : Tlv) : Type 0 where
  pub type_fits : tlv.type < 2 ^ 16
  pub len_fits : tlv.len < 2 ^ 16
  pub len_body : tlv.len ≡ length (body tlv.value)
  pub not_empty : NotEmpty tlv.value

pub length-wire : (tlv : Tlv) → IsWellFormed tlv → length (wire tlv) ≡ 4 + tlv.len
length-wire tlv w = omega (
  arith,
  length-append (byte_put16 tlv.type) (byte_put16 tlv.len ++ body tlv.value),
  length-append (byte_put16 tlv.len) (body tlv.value),
  length-put16 tlv.type,
  length-put16 tlv.len,
  w.len_body,
)

-- naf_tlv_getrenderedsize is the number of bytes on the wire.
pub length-wires :
    (tlvs : List Tlv) → All IsWellFormed tlvs → length (wires tlvs) ≡ getrenderedsize tlvs
unfolding getrenderedsize
length-wires [] w = refl
length-wires (tlv ∷ tlvs) (w, ws) =
    omega (arith, length-append (wire tlv) (wires tlvs), length-wire tlv w, length-wires tlvs ws)
