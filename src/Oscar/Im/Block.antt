-- ===== src/Oscar/Im/Block.antt =====
-- timps/oscar/im.c: _naf_tlv_addoscarmsgblock, and toscar_icbm__extractmsgtext on the node that it makes.
use timps.Prelude.{
  ℕ, ◌+◌, ◌%◌, ◌^◌, ◌≤◌, ◌<◌, ◌≡◌, refl, sym, ◌∙◌, ap, inl, Bool, true, Option, some, true, false,
  ◌>>=◌, List, [], ◌∷◌, ◌++◌, append-nil, arith, length, length-append, take,
}
use timps.Bytes.{byte_put8, byte_put16, length-put16}
use timps.Sbuf.{Sbuf, init_with, getpos, put8, put16}
use timps.Sbuf.Strings.{putstr}
use timps.Sbuf.Valid.{IsValid, IsMalloc, written, init_with-IsValid}
use timps.Sbuf.Append.{wrote}
use timps.Tlv.{Tlv, link, done}
use timps.Tlv.Parse.{Grants}
use timps.Tlv.Build.{addraw}
use timps.Tlv.Add.{addraw_front}
use timps.Tlv.Render.{Put, Put-trans, put16-Put}
use timps.Oscar.Flap.Send.{put8-Put}
use timps.Oscar.Userinfo.RoundTrip.{putstr-Put}
use timps.Oscar.Im.{Text, extractmsgtext, addoscarmsgblock}
use timps.Oscar.Im.Blocks.{content}
use timps.Oscar.Im.Wire.{Part, ascii, part_wire, parts_wire, IsPart}
use timps.Oscar.Im.Decode.{Ended}
use timps.Oscar.Im.RoundTrip.{extractmsgtext-parts}

-- The bytes of the node.
abbrev pub block_wire : List ℕ → List ℕ
block_wire msgtext =
    5 ∷ 1 ∷ (byte_put16 4 ++ ((1 ∷ 1 ∷ 1 ∷ 2 ∷ []) ++ part_wire (ascii 0 0 msgtext)))

abbrev pub block_node : ℕ → List ℕ → Tlv
block_node type msgtext = record {
  type = type;
  len = 16 + length msgtext;
  value = some (block_wire msgtext);
}

-- The integers that are written before the text.
data Item : Type 0 where
  u8 : ℕ → Item
  u16 : ℕ → Item

abbrev item_wire : Item → List ℕ
item_wire (u8 n) = byte_put8 n
item_wire (u16 n) = byte_put16 n

abbrev items_wire : List Item → List ℕ
items_wire [] = []
items_wire (i ∷ is) = item_wire i ++ items_wire is

abbrev items_of : ℕ → List Item
items_of len =
    u8 5 ∷ u8 1 ∷ u16 4 ∷ u8 1 ∷ u8 1 ∷ u8 1 ∷ u8 2 ∷ u8 1 ∷ u8 1 ∷ u16 len ∷ u16 0 ∷ u16 0 ∷ []

module _ (malloc : ℕ → Option (List ℕ)) where
  -- A chain of writers in front of what follows them.
  abbrev after_items {ℓ} : {A : Type ℓ} → List Item → Sbuf → (Sbuf → Option A) → Option A
  after_items [] sb k = k sb
  after_items (u8 n ∷ is) sb k = (put8 malloc sb n) >>= λ (_, sb'). after_items is sb' k
  after_items (u16 n ∷ is) sb k = (put16 malloc sb n) >>= λ (_, sb'). after_items is sb' k

  item-Put :
      (i : Item) (is : List Item) (sb : Sbuf) {A : Type 0} (k : Sbuf → Option A)
      → IsValid sb
      → sb.pos + length (item_wire i) ≤ sb.buflen
      → (sb' : Sbuf) × (after_items (i ∷ is) sb k ≡ after_items is sb' k) × Put sb (item_wire i) sb'
  item-Put (u8 n) is sb k v h =
      let (e, p) = put8-Put malloc sb n v (unfold byte_put8 in h) in
      (wrote sb (byte_put8 n), rw e refl, p)
  item-Put (u16 n) is sb k v h =
      let (e, p) = put16-Put malloc sb n v (unfold byte_put16 in h) in
      (wrote sb (byte_put16 n), rw e refl, p)

  items-Put :
      (is : List Item) (sb : Sbuf) {A : Type 0} (k : Sbuf → Option A)
      → IsValid sb
      → sb.pos + length (items_wire is) ≤ sb.buflen
      → (sb' : Sbuf) × (after_items is sb k ≡ k sb') × Put sb (items_wire is) sb'
  items-Put [] sb k v h = (
    sb,
    refl,
    record {
      appended = record { valid = v; bytes = sym (append-nil (written sb)); moved = omega arith };
      same_buflen = refl;
    },
  )
  items-Put (i ∷ is) sb k v h =
      let total = length-append (item_wire i) (items_wire is) in
      let (sb1, e1, p1) = item-Put i is sb k v (omega (arith, h, total)) in
      let (sb2, e2, p2) =
        items-Put is sb1 k p1.appended.valid
          (omega (arith, h, total, p1.appended.moved, p1.same_buflen)) in
      (sb2, e1 ∙ e2, Put-trans sb (item_wire i) sb1 (items_wire is) sb2 p1 p2)

-- What _naf_tlv_addoscarmsgblock does behind the integers.
abbrev finish : (ℕ → Option (List ℕ)) → ℕ → List Tlv → ℕ → List ℕ → Sbuf → Option (Bool × List Tlv)
finish malloc m tlvh type msgtext sb = (putstr malloc sb msgtext) >>= λ (_, sb').
    (addraw malloc (some m) tlvh type (getpos sb' % 2 ^ 16) sb'.buf) >>= λ (_, tlvh').
    some (true, tlvh')

abbrev node_of : ℕ → ℕ → List ℕ → Tlv
node_of type len parts = record {
  type = type;
  len = len;
  value = some (5 ∷ 1 ∷ (byte_put16 4 ++ ((1 ∷ 1 ∷ 1 ∷ 2 ∷ []) ++ parts)));
}

wire_lem :
    (msgtext : List ℕ) → items_wire (items_of (length msgtext + 4)) ++ msgtext ≡ block_wire msgtext
unfolding byte_put8 byte_put16
wire_lem msgtext = refl

length-items : (n : ℕ) → length (items_wire (items_of n)) ≡ 16
unfolding byte_put8 byte_put16
length-items n = refl

module _ (malloc : ℕ → Option (List ℕ)) (sound : IsMalloc malloc) (grants : Grants malloc)
    (m : ℕ) where
  finish_lem :
      (tlvh : List Tlv) (type : ℕ) (msgtext : List ℕ) (sb0 sb1 : Sbuf)
      → sb0.pos ≡ 0
      → sb0.buflen ≡ 16 + length msgtext
      → 16 + length msgtext < 2 ^ 16
      → Put sb0 (items_wire (items_of (length msgtext + 4))) sb1
      → finish malloc m tlvh type msgtext sb1 ≡ some (true, link tlvh (block_node type msgtext))
  unfolding getpos
  finish_lem tlvh type msgtext sb0 sb1 start size small p =
      let n : ℕ = length msgtext in
      let items : List ℕ = items_wire (items_of (n + 4)) in
      let (e, q) =
        putstr-Put malloc sb1 msgtext p.appended.valid
          (omega (arith, p.appended.moved, p.same_buflen, length-items (n + 4), start, size)) in
      let sb2 : Sbuf = wrote sb1 msgtext in
      let all : Put sb0 (items ++ msgtext) sb2 = Put-trans sb0 items sb1 msgtext sb2 p q in
      let at : sb2.pos ≡ 16 + n =
        omega (arith, p.appended.moved, q.appended.moved, length-items (n + 4), start) in
      let fits : sb2.pos % 2 ^ 16 ≡ 16 + n = omega (arith, at, small) in
      let nothing : written sb0 ≡ [] = ap (λ k. take k sb0.buf) start in
      let bytes : take (16 + n) sb2.buf ≡ block_wire msgtext =
        ap (λ k. take k sb2.buf) (sym at)
        ∙ all.appended.bytes
        ∙ ap (λ l. l ++ (items ++ msgtext)) nothing
        ∙ wire_lem msgtext in
      let added =
        addraw_front malloc grants m tlvh type (16 + n) sb2.buf (omega arith)
          (omega (arith, all.appended.valid.storage, all.same_buflen, size)) in
      rw (e, fits, added, bytes) refl

  pub addoscarmsgblock_lem :
      (tlvh : List Tlv) (type : ℕ) (msgtext : List ℕ)
      → 16 + length msgtext < 2 ^ 16
      → addoscarmsgblock malloc (some m) tlvh type (some msgtext)
        ≡ some (true, link tlvh (block_node type msgtext))
  unfolding addoscarmsgblock init_with
  addoscarmsgblock_lem tlvh type msgtext small =
      let n : ℕ = length msgtext in
      let (block, got) = grants (16 + n) in
      let size : length block ≡ 16 + n = sound (16 + n) block got in
      let fits : (16 + n) % 2 ^ 16 ≡ 16 + n = omega (arith, small) in
      let fits2 : (n + 4) % 2 ^ 16 ≡ n + 4 = omega (arith, small) in
      let sb0 : Sbuf = init_with block (16 + n) in
      let v0 : IsValid sb0 = init_with-IsValid block (16 + n) (omega (arith, size)) small in
      let (sb1, e, p) =
        items-Put malloc (items_of (n + 4)) sb0 (finish malloc m tlvh type msgtext) v0
          (omega (arith, length-items (n + 4))) in
      rw (addoscarmsgblock, got, fits, fits2)
        (e ∙ finish_lem tlvh type msgtext sb0 sb1 refl refl small p)

  -- With memory granted in blocks of the size asked for, _naf_tlv_addoscarmsgblock of a text of
  -- less than 2 ^ 16 - 16 bytes makes one node, from which toscar_icbm__extractmsgtext returns
  -- 0 and the same text with a terminator.
  pub extractmsgtext-addoscarmsgblock :
      (fuel type : ℕ) (msgtext : List ℕ)
      → 16 + length msgtext < 2 ^ 16
      → 0 < fuel
      → (node : Tlv) × (text : Option Text) × (addoscarmsgblock malloc
            (some m)
            []
            type
            (some msgtext)
          ≡ some (true, node ∷ []))
        × (extractmsgtext malloc fuel node ≡ done (some (false, text)))
        × Ended text
        × (content text ≡ msgtext)
  unfolding link
  extractmsgtext-addoscarmsgblock fuel type msgtext small f =
      let part : Part = ascii 0 0 msgtext in
      let w : IsPart part = record {
        kind = inl refl;
        flag_fits = omega arith;
        len_fits = omega (arith, small);
      } in
      let size : length (part_wire part) ≡ 8 + length msgtext = part_size msgtext in
      let one : parts_wire (part ∷ []) ≡ part_wire part = append-nil (part_wire part) in
      let same : node_of type (4 + length (parts_wire (part ∷ [])) + 4) (parts_wire (part ∷ []))
          ≡ block_node type msgtext =
        ap (λ l. node_of type (4 + length l + 4) l) one
        ∙ ap (λ k. node_of type k (part_wire part)) (omega (arith, size)) in
      let (text, e, ended, got) =
        extractmsgtext-parts malloc sound grants fuel type (1 ∷ 1 ∷ 1 ∷ 2 ∷ []) (part ∷ []) (w, tt)
          (omega (arith, ap length one, size, small)) f in
      (
        block_node type msgtext,
        text,
        addoscarmsgblock_lem [] type msgtext small,
        ap (extractmsgtext malloc fuel) (sym same) ∙ e,
        ended,
        got ∙ append-nil msgtext,
      )
    where
      part_size : (bs : List ℕ) → length (part_wire (ascii 0 0 bs)) ≡ 8 + length bs
      part_size bs = omega (
        arith,
        length-append (byte_put16 (length bs + 4)) (byte_put16 0 ++ (byte_put16 0 ++ bs)),
        length-put16 (length bs + 4),
        length-append (byte_put16 0) (byte_put16 0 ++ bs),
        length-append (byte_put16 0) bs,
        length-put16 0,
      )
