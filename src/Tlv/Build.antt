-- ===== src/Tlv/Build.antt =====
-- naf/tlv.c: the functions that build a node and append it, and naf_tlv_getasstring.
use timps.Prelude.{
  ℕ, ◌+◌, ◌%◌, ◌^◌, Bool, true, false, Option, none, some, List, [], ◌∷◌, ◌++◌, ◌==◌, if◌then◌else◌,
  ◌>>=◌, length, load,
}
use timps.Bytes.{byte_put8, byte_put16, byte_put32}
use timps.Sbuf.{init_with}
use timps.Tlv.{Tlv, new, append, render, get, getrenderedsize}

module _ (malloc : ℕ → Option (List ℕ)) (mod_ : Option ℕ) where
  -- naf_tlv_addraw; `value` is the memory that it points to. The result is whether it succeeds,
  -- and the list afterwards.
  unfoldable pub addraw : List Tlv → ℕ → ℕ → List ℕ → Option (Bool × List Tlv)
  addraw head type len value =
      let finish : Option (List ℕ) → Bool × List Tlv = λ vcopy. elim (new malloc type len vcopy) [
        | none ↦ (false, head)
        | some tlv ↦ append mod_ head tlv
      ] in
      if len == 0 then some (finish none) else elim (malloc len) [
        | none ↦ some (false, head)
        | some _ ↦ (load value 0 len) >>= λ vcopy. some (finish (some vcopy))
      ]

  -- naf_tlv_addtlvraw; a null value may only be copied where its length is 0.
  unfoldable pub addtlvraw : List Tlv → Tlv → Option (Bool × List Tlv)
  unfolding addraw
  addtlvraw head src = elim src.value [
    | none ↦ addraw head src.type src.len []
    | some v ↦ addraw head src.type src.len v
  ]

  -- A string is given without its terminator, which is copied too.
  unfoldable pub addstring : List Tlv → ℕ → List ℕ → Option (Bool × List Tlv)
  unfolding addraw
  addstring head type str = addraw head type ((length str + 1) % 2 ^ 16) (str ++ (0 ∷ []))

  unfoldable pub addu8 : List Tlv → ℕ → ℕ → Option (Bool × List Tlv)
  addu8 head type v = addraw head type 1 (byte_put8 v)

  unfoldable pub addu16 : List Tlv → ℕ → ℕ → Option (Bool × List Tlv)
  addu16 head type v = addraw head type 2 (byte_put16 v)

  unfoldable pub addu32 : List Tlv → ℕ → ℕ → Option (Bool × List Tlv)
  addu32 head type v = addraw head type 4 (byte_put32 v)

  unfoldable pub addnoval : List Tlv → ℕ → Option (Bool × List Tlv)
  addnoval head type = addraw head type 0 []

  -- naf_tlv_addtlv renders a list into the value of a node; what addraw answers is not looked at.
  unfoldable pub addtlv : List Tlv → ℕ → List Tlv → Option (Bool × List Tlv)
  addtlv head type tlvs = elim (malloc (getrenderedsize tlvs)) [
    | none ↦ some (false, head)
    | some block ↦
        let buflen : ℕ = getrenderedsize tlvs % 2 ^ 16 in
        (render malloc tlvs (init_with block buflen)) >>= λ (n, sb).
        (addraw head type buflen sb.buf) >>= λ (added, head'). some (true, head')
  ]

module _ (malloc : ℕ → Option (List ℕ)) where
  -- naf_tlv_getasstring: the value with a terminator behind it, or null.
  unfoldable pub getasstring : List Tlv → ℕ → Option (Option (List ℕ))
  getasstring head type = elim (get head type) [
    | none ↦ some none
    | some tlv ↦ elim (malloc (tlv.len + 1)) [
      | none ↦ some none
      | some _ ↦ elim tlv.value [
        | none ↦ if tlv.len == 0 then some (some (0 ∷ [])) else none
        | some v ↦ (load v 0 tlv.len) >>= λ bs. some (some (bs ++ (0 ∷ [])))
      ]
    ]
  ]
