-- ===== src/Tlv/Add.antt =====
-- naf/tlv.c: what the readers find after a node was added.
use timps.Prelude.{
  ℕ, ◌+◌, ◌%◌, ◌^◌, ◌≤◌, ◌<◌, ◌≡◌, refl, sym, ◌∙◌, ap, true, Option, none, some, List, [], ◌∷◌,
  ◌++◌, arith, length, length-append, load-in, take, take_all, append_assoc, All,
}
use timps.Bytes.{byte_put16, byte_put32, byte_get16, byte_get32, get16-put16, get32-put32}
use timps.Sbuf.{init_with}
use timps.Tlv.{Tlv, link, append, get, getrenderedsize, getas_int, getasu16, getasu32}
use timps.Tlv.Build.{addraw, addstring, addu16, addu32, addtlv, getasstring}
use timps.Tlv.Wire.{IsWellFormed, wires, length-wires}
use timps.Tlv.Parse.{Grants, new_lem}
use timps.Tlv.Lookup.{get-link}
use timps.Tlv.Render.{render-Put}
use timps.Sbuf.Valid.{IsValid, init_with-IsValid, IsMalloc}

module _ (malloc : ℕ → Option (List ℕ)) (grants : Grants malloc) (m : ℕ) where
  -- With memory granted, the first bytes of the memory become the value of the last node.
  pub addraw_front :
      (head : List Tlv) (type len : ℕ) (bs : List ℕ)
      → 0 < len
      → len ≤ length bs
      → addraw malloc (some m) head type len bs
        ≡ some (true, link head (record { type = type; len = len; value = some (take len bs) }))
  unfolding addraw append
  addraw_front head type len bs p h =
      let (block, g) = grants len in
      ground (arith, g, load-in bs 0 len, new_lem malloc grants type len (some (take len bs)))

  pub addraw_lem :
      (head : List Tlv) (type len : ℕ) (bs : List ℕ)
      → 0 < len
      → length bs ≡ len
      → addraw malloc (some m) head type len bs
        ≡ some (true, link head (record { type = type; len = len; value = some bs }))
  addraw_lem head type len bs p h =
      addraw_front head type len bs p (omega arith)
      ∙ ap (λ t. some (true, link head (record { type = type; len = len; value = some t })))
          (take_all bs len (omega arith))

  -- A number that was added under a new type is read back.
  getas_added :
      (width : ℕ) (decode : List ℕ → ℕ) (head : List Tlv) (type : ℕ) (bs : List ℕ)
      → get head type ≡ none
      → length bs ≡ width
      → getas_int width decode
          (link head (record { type = type; len = length bs; value = some bs }))
          type
        ≡ some (decode bs)
  unfolding getas_int
  getas_added width decode head type bs fresh h = ground (
    arith,
    get-link head (record { type = type; len = length bs; value = some bs }) type,
    load-in bs 0 width,
    take_all bs width,
  )

  -- With memory granted, a uint16 that is added under a new type is read back.
  pub getasu16-addu16 :
      (head : List Tlv) (type v : ℕ)
      → get head type ≡ none
      → v < 2 ^ 16
      → (head' : List Tlv) × (addu16 malloc (some m) head type v ≡ some (true, head'))
        × (getasu16 head' type ≡ some v)
  unfolding addu16 getasu16 byte_put16
  getasu16-addu16 head type v fresh h = (
    link head (record { type = type; len = 2; value = some (byte_put16 v) }),
    addraw_lem head type 2 (byte_put16 v) (omega arith) refl,
    getas_added 2 byte_get16 head type (byte_put16 v) fresh refl ∙ ap some (get16-put16 v h),
  )

  -- The same for a uint32.
  pub getasu32-addu32 :
      (head : List Tlv) (type v : ℕ)
      → get head type ≡ none
      → v < 2 ^ 32
      → (head' : List Tlv) × (addu32 malloc (some m) head type v ≡ some (true, head'))
        × (getasu32 head' type ≡ some v)
  unfolding addu32 getasu32 byte_put32
  getasu32-addu32 head type v fresh h = (
    link head (record { type = type; len = 4; value = some (byte_put32 v) }),
    addraw_lem head type 4 (byte_put32 v) (omega arith) refl,
    getas_added 4 byte_get32 head type (byte_put32 v) fresh refl ∙ ap some (get32-put32 v h),
  )

  -- With memory granted, a string shorter than 2 ^ 16 - 1 bytes that is added under a new type
  -- is read back, with its own terminator and one more behind it.
  pub getasstring-addstring :
      (head : List Tlv) (type : ℕ) (str : List ℕ)
      → get head type ≡ none
      → length str + 1 < 2 ^ 16
      → (head' : List Tlv) × (addstring malloc (some m) head type str ≡ some (true, head'))
        × (getasstring malloc head' type ≡ some (some (str ++ (0 ∷ 0 ∷ []))))
  unfolding addstring getasstring
  getasstring-addstring head type str fresh h =
      let text : List ℕ = str ++ (0 ∷ []) in
      let n : ℕ = length str + 1 in
      let len : length text ≡ n = length-append str (0 ∷ []) in
      let (block, g) = grants (n + 1) in
      let node : Tlv = record { type = type; len = n; value = some text } in
      (
        link head node,
        ap (λ k. addraw malloc (some m) head type k text) (omega arith)
            ∙ addraw_lem head type n text (omega arith) len,
        ground (
          arith,
          g,
          get-link head node type,
          load-in text 0 n,
          take_all text n,
          append_assoc str (0 ∷ []) (0 ∷ []),
        ),
      )

  -- With memory granted and of the size asked for, naf_tlv_addtlv appends one node whose value
  -- is the bytes of a list on the wire, if the list is well-formed, not empty and renders to
  -- less than 2 ^ 16 bytes.
  pub addtlv_lem :
      (sound : IsMalloc malloc) (head : List Tlv) (type : ℕ) (tlvs : List Tlv)
      → All IsWellFormed tlvs
      → 0 < getrenderedsize tlvs
      → getrenderedsize tlvs < 2 ^ 16
      → addtlv malloc (some m) head type tlvs
        ≡ some (
          true,
          link head (record { type = type; len = getrenderedsize tlvs; value = some (wires tlvs) }),
        )
  unfolding addtlv init_with
  addtlv_lem sound head type tlvs w p small =
      let n : ℕ = getrenderedsize tlvs in
      let (block, g) = grants n in
      let size : length block ≡ n = sound n block g in
      let fresh : IsValid (init_with block n) = init_with-IsValid block n (omega arith) small in
      let (sb, e, put) = render-Put malloc tlvs (init_with block n) fresh w (omega arith) in
      let at_end : sb.pos ≡ n = omega (arith, put.appended.moved, length-wires tlvs w) in
      let room : n ≤ length sb.buf = omega (arith, put.same_buflen, put.appended.valid.storage) in
      let front : take n sb.buf ≡ wires tlvs =
        ap (λ k. take k sb.buf) (sym at_end) ∙ put.appended.bytes in
      let wide : n % 2 ^ 16 ≡ n = omega arith in
      ground (arith, g, wide, e, addraw_front head type n sb.buf p room, front)
