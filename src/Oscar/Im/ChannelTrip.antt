-- ===== src/Oscar/Im/ChannelTrip.antt =====
-- timps/oscar/im.c: toscar_icbm__parsechan1 on what toscar_icbm__renderchan1 writes.
use timps.Prelude.{
  ℕ, ◌+◌, ◌/◌, ◌%◌, ◌^◌, ◌≤◌, ◌<◌, ◌≡◌, ◌≢◌, refl, sym, ◌∙◌, ap, true, false, Bool-cases, inl, inr,
  Option, none, some, List, [], ◌∷◌, ◌++◌, append-nil, append_assoc, ◌==◌, if◌then◌else◌, arith,
  length, take, drop, take-append-drop, All,
}
use mathlib.Core.Path.{subst}
use timps.Bytes.{byte_put16}
use timps.Sbuf.{Sbuf, init_with}
use timps.Sbuf.Valid.{IsValid, IsMalloc, pending, init_with-IsValid}
use timps.Tlv.{Tlv, Outcome, link, append, remove, parse, getrenderedsize, done}
use timps.Tlv.Build.{addraw, addnoval}
use timps.Tlv.Wire.{IsWellFormed, wire, wires, length-wires}
use timps.Tlv.Parse.{Grants, new_lem}
use timps.Tlv.RoundTrip.{parse-wires}
use timps.Tlv.Render.{Put, Put-trans, render-Put}
use timps.Tags.{fetch, fetch_from}
use timps.Gnr.Msg.{GnrMsg}
use timps.Oscar.Userinfo.{cstr}
use timps.Oscar.Im.{Text, extractmsgtext, addoscarmsgblock}
use timps.Oscar.Im.Blocks.{content}
use timps.Oscar.Im.Decode.{Ended}
use timps.Oscar.Im.Block.{block_node, addoscarmsgblock_lem, extractmsgtext-addoscarmsgblock}
use timps.Oscar.Im.Channel.{
  msgtlv_tag, extratlvs_tag, c_text, parse_text, parsechan1, text_tlvs, flag_tlvs, renderchan1,
  set_ack, set_auto, html,
}

abbrev pub flag_node : ℕ → Tlv
flag_node type = record { type = type; len = 0; value = none }

abbrev pub ack_nodes : ℕ → List Tlv
ack_nodes f = if f / 2 % 2 == 0 then [] else flag_node 3 ∷ []

abbrev pub auto_nodes : ℕ → List Tlv
auto_nodes f = if f % 2 == 0 then [] else flag_node 4 ∷ []

-- The nodes of a message with a text and flags.
abbrev pub nodes_of : List ℕ → ℕ → List Tlv
nodes_of s flags = block_node 2 s ∷ (ack_nodes flags ++ auto_nodes flags)

pub cstr-ends : (s rest : List ℕ) → All (λ (c : ℕ). c ≢ 0) s → cstr (s ++ (0 ∷ rest)) ≡ s
unfolding cstr
cstr-ends [] rest u = refl
cstr-ends (c ∷ cs) rest (here, u) = ground (arith, here, cstr-ends cs rest u)

-- A text that ends is read back as a C string.
c_text_lem :
    (t : Text) (s : List ℕ)
    → All (λ (c : ℕ). c ≢ 0) s
    → Ended (some t)
    → take t.len t.block ≡ s
    → c_text (some t) ≡ some s
unfolding c_text
c_text_lem t s u ended e =
    let whole : t.block ≡ s ++ (0 ∷ drop (t.len + 1) t.block) =
      sym (take-append-drop (t.len + 1) t.block)
      ∙ ap (λ l. l ++ drop (t.len + 1) t.block) (ended ∙ ap (λ l. l ++ (0 ∷ [])) e)
      ∙ append_assoc s (0 ∷ []) (drop (t.len + 1) t.block) in
    ap some (ap cstr whole ∙ cstr-ends s (drop (t.len + 1) t.block) u)

flag_node-IsWellFormed : (type : ℕ) → type < 2 ^ 16 → IsWellFormed (flag_node type)
flag_node-IsWellFormed type h = record {
  type_fits = h;
  len_fits = omega arith;
  len_body = refl;
  not_empty = tt;
}

pub block_node-IsWellFormed : (s : List ℕ) → 16 + length s < 2 ^ 16 → IsWellFormed (block_node 2 s)
unfolding byte_put16
block_node-IsWellFormed s h = record {
  type_fits = omega arith;
  len_fits = h;
  len_body = omega arith;
  not_empty = omega arith;
}

pub flags-IsWellFormed : (f : ℕ) → All IsWellFormed (ack_nodes f ++ auto_nodes f)
flags-IsWellFormed f =
    let ack = flag_node-IsWellFormed 3 (omega arith) in
    let auto = flag_node-IsWellFormed 4 (omega arith) in
    elim (Bool-cases (f / 2 % 2 == 0)) [
      | inl a ↦ elim (Bool-cases (f % 2 == 0)) [
        | inl b ↦ rw (a, b) tt
        | inr b ↦ rw (a, b) (auto, tt)
      ]
      | inr a ↦ elim (Bool-cases (f % 2 == 0)) [
        | inl b ↦ rw (a, b) (ack, tt)
        | inr b ↦ rw (a, b) (ack, (auto, tt))
      ]
    ]

pub length-nodes_of : (k : ℕ) (t : List ℕ) (flags : ℕ) → 3 ≤ k → length (nodes_of t flags) ≤ k
length-nodes_of k t flags h = elim (Bool-cases (flags / 2 % 2 == 0)) [
  | inl a ↦ elim (Bool-cases (flags % 2 == 0)) [
    | inl b ↦ rw (a, b) (omega arith)
    | inr b ↦ rw (a, b) (omega arith)
  ]
  | inr a ↦ elim (Bool-cases (flags % 2 == 0)) [
    | inl b ↦ rw (a, b) (omega arith)
    | inr b ↦ rw (a, b) (omega arith)
  ]
]

module _ (malloc : ℕ → Option (List ℕ)) (sound : IsMalloc malloc) (grants : Grants malloc)
    (m : ℕ) where
  addnoval_lem :
      (head : List Tlv) (type : ℕ)
      → addnoval malloc (some m) head type ≡ some (true, link head (flag_node type))
  unfolding addnoval addraw append
  addnoval_lem head type = rw (new_lem malloc grants type 0 none) refl

  flag_tlvs_lem : (f : ℕ) → flag_tlvs malloc (some m) f ≡ some (ack_nodes f ++ auto_nodes f)
  unfolding flag_tlvs link
  flag_tlvs_lem f = elim (Bool-cases (f / 2 % 2 == 0)) [
    | inl a ↦ elim (Bool-cases (f % 2 == 0)) [
      | inl b ↦ rw (a, b) refl
      | inr b ↦ rw (a, b, addnoval_lem [] 4) refl
    ]
    | inr a ↦ elim (Bool-cases (f % 2 == 0)) [
      | inl b ↦ rw (a, b, addnoval_lem [] 3) refl
      | inr b ↦ rw (a, b, addnoval_lem [] 3, addnoval_lem (flag_node 3 ∷ []) 4) refl
    ]
  ]

  pub renderchan1-Put :
      (tlvs_at : ℕ → List Tlv) (gm : GnrMsg) (s : List ℕ) (sb : Sbuf)
      → fetch gm.taglist (some m) msgtlv_tag ≡ none
      → fetch gm.taglist (some m) extratlvs_tag ≡ none
      → gm.msgtext ≡ some s
      → 16 + length s < 2 ^ 16
      → IsValid sb
      → sb.pos + getrenderedsize (nodes_of s gm.msgflags) ≤ sb.buflen
      → (sb' : Sbuf) × (renderchan1 malloc (some m) tlvs_at gm sb ≡ some sb')
        × Put sb (wires (nodes_of s gm.msgflags)) sb'
  unfolding renderchan1 text_tlvs link getrenderedsize
  renderchan1-Put tlvs_at gm s sb untexted unextra has small v room =
      let block = addoscarmsgblock_lem malloc sound grants m [] 2 s small in
      let flags : List Tlv = ack_nodes gm.msgflags ++ auto_nodes gm.msgflags in
      let (sb1, e1, p1) =
        render-Put malloc (block_node 2 s ∷ []) sb v (block_node-IsWellFormed s small, tt)
          (omega (arith, room)) in
      let size1 = length-wires (block_node 2 s ∷ []) (block_node-IsWellFormed s small, tt) in
      let (sb2, e2, p2) =
        render-Put malloc flags sb1 p1.appended.valid (flags-IsWellFormed gm.msgflags)
          (omega (arith, room, p1.appended.moved, p1.same_buflen, size1)) in
      (
        sb2,
        rw (untexted, unextra, has, block, e1, flag_tlvs_lem gm.msgflags, e2) refl,
        subst (λ l. Put sb l sb2) (ap (λ l. l ++ wires flags) (append-nil (wire (block_node 2 s))))
            (Put-trans sb (wires (block_node 2 s ∷ [])) sb1 (wires flags) sb2 p1 p2),
      )

module _ (malloc : ℕ → Option (List ℕ)) (sound : IsMalloc malloc) (grants : Grants malloc)
    (mod_ : Option ℕ) where
  -- The text of the node, as a C string.
  text_lem :
      (fuel : ℕ) (s : List ℕ)
      → All (λ (c : ℕ). c ≢ 0) s
      → 0 < length s
      → 16 + length s < 2 ^ 16
      → 0 < fuel
      → (text : Option Text) × (extractmsgtext malloc fuel (block_node 2 s)
          ≡ done (some (false, text)))
        × (c_text text ≡ some s)
  unfolding link
  text_lem fuel s u some_text small f =
      let (node, text, added, e, ended, got) =
        extractmsgtext-addoscarmsgblock malloc sound grants 0 fuel 2 s small f in
      let made : addoscarmsgblock malloc (some 0) [] 2 (some s) ≡ some (true, block_node 2 s ∷ []) =
        addoscarmsgblock_lem malloc sound grants 0 [] 2 s small in
      let same : node ≡ block_node 2 s = cc (made, added) in
      (text, ap (extractmsgtext malloc fuel) (sym same) ∙ e, is_text text ended got)
    where
      is_text : (x : Option Text) → Ended x → content x ≡ s → c_text x ≡ some s
      is_text none end got = absurd (omega (arith, ap length got, some_text))
      is_text (some t) end got = c_text_lem t s u end got

  parse_text-block :
      (address : Tlv → ℕ) (fuel : ℕ) (gm : GnrMsg) (s : List ℕ) (text : Option Text) (tlv : Tlv)
      → extractmsgtext malloc fuel tlv ≡ done (some (false, text))
      → c_text text ≡ some s
      → parse_text malloc mod_ address fuel gm tlv
        ≡ done (record gm { msgtexttype = some html; msgtext = some s })
  unfolding parse_text
  parse_text-block address fuel gm s text tlv e t = rw (parse_text, e, t) refl

  pub parsechan1-nodes :
      (address : Tlv → ℕ) (fuel : ℕ) (gm : GnrMsg) (s : List ℕ) (flags : ℕ)
      → gm.msgflags ≡ 0
      → All (λ (c : ℕ). c ≢ 0) s
      → 0 < length s
      → 16 + length s < 2 ^ 16
      → 0 < fuel
      → parsechan1 malloc mod_ address fuel gm (nodes_of s flags)
        ≡ done (record gm { msgtexttype = some html; msgtext = some s; msgflags = flags % 4 }, [])
  unfolding parsechan1 remove
  parsechan1-nodes address fuel gm s flags clear u some_text small f =
      let (text, e, t) = text_lem fuel s u some_text small f in
      let p = parse_text-block address fuel gm s text (block_node 2 s) e t in
      elim (Bool-cases (flags / 2 % 2 == 0)) [
        | inl a ↦ elim (Bool-cases (flags % 2 == 0)) [
          | inl b ↦
              rw (a, b) (rw (parsechan1, p) (answer gm.msgflags (ground (arith, clear, a, b))))
          | inr b ↦
              rw (a, b)
                (rw (parsechan1, p) (answer (set_auto gm.msgflags) (ground (arith, clear, a, b))))
        ]
        | inr a ↦ elim (Bool-cases (flags % 2 == 0)) [
          | inl b ↦
              rw (a, b)
                (rw (parsechan1, p) (answer (set_ack gm.msgflags) (ground (arith, clear, a, b))))
          | inr b ↦
              rw (a, b)
                (rw (parsechan1, p)
                  (answer (set_auto (set_ack gm.msgflags)) (ground (arith, clear, a, b))))
        ]
      ]
    where
      answer :
          (k : ℕ)
          → k ≡ flags % 4
          → ◌≡◌ {A = Outcome (GnrMsg × List Tlv)}
              (done (record gm { msgtexttype = some html; msgtext = some s; msgflags = k }, []))
              (done
                (record gm { msgtexttype = some html; msgtext = some s; msgflags = flags % 4 }, []))
      answer k same =
          ap {A = ℕ} {B = Outcome (GnrMsg × List Tlv)}
            (λ j. done (record gm { msgtexttype = some html; msgtext = some s; msgflags = j }, []))
            same

module _ (malloc : ℕ → Option (List ℕ)) (sound : IsMalloc malloc) (grants : Grants malloc)
    (m : ℕ) where
  -- With memory granted in blocks of the size asked for, what toscar_icbm__renderchan1 of a
  -- module that is not null writes of a message without tags, whose text is not empty and has
  -- less than 2 ^ 16 - 16 bytes and no zero, into a block of just the size (below 2 ^ 16),
  -- naf_tlv_parse reads with nothing left over, and toscar_icbm__parsechan1 turns into the same
  -- text and flags, in a message without flags, with no node left. Fuel of 3 is enough.
  pub parsechan1-renderchan1 :
      (address : Tlv → ℕ) (tlvs_at : ℕ → List Tlv) (fuel : ℕ) (gm to : GnrMsg) (s block : List ℕ)
      → gm.taglist ≡ []
      → gm.msgtext ≡ some s
      → All (λ (c : ℕ). c ≢ 0) s
      → 0 < length s
      → 16 + length s < 2 ^ 16
      → getrenderedsize (nodes_of s gm.msgflags) < 2 ^ 16
      → length block ≡ getrenderedsize (nodes_of s gm.msgflags)
      → to.msgflags ≡ 0
      → 3 ≤ fuel
      → (sb sb' : Sbuf) × (tlvs : List Tlv) × (renderchan1 malloc
            (some m)
            tlvs_at
            gm
            (init_with block (length block))
          ≡ some sb)
        × (parse malloc fuel (init_with sb.buf (length block)) ≡ done (tlvs, sb'))
        × (pending sb' ≡ [])
        × (parsechan1 malloc (some m) address fuel to tlvs
            ≡ done (
              record to { msgtexttype = some html; msgtext = some s; msgflags = gm.msgflags % 4 },
              [],
            ))
  unfolding init_with fetch fetch_from
  parsechan1-renderchan1 address tlvs_at fuel gm to s block untagged has u some_text small fits size
        clear f =
      let n : ℕ = length block in
      let nodes : List Tlv = nodes_of s gm.msgflags in
      let w : All IsWellFormed nodes =
        (block_node-IsWellFormed s small, flags-IsWellFormed gm.msgflags) in
      let fresh : IsValid (init_with block n) =
        init_with-IsValid block n (omega arith) (omega (arith, fits, size)) in
      let (sb, e, p) =
        renderchan1-Put malloc sound grants m tlvs_at gm s (init_with block n) (rw (untagged) refl)
          (rw (untagged) refl) has small fresh (omega (arith, size)) in
      let at_end : sb.pos ≡ n = omega (arith, p.appended.moved, length-wires nodes w, size) in
      let room : n ≤ length sb.buf = omega (arith, p.same_buflen, p.appended.valid.storage) in
      let (sb', r, none_left) =
        parse-wires malloc grants fuel (init_with sb.buf n) nodes
          (init_with-IsValid sb.buf n room (omega (arith, fits, size))) w
          (ap (λ k. take k sb.buf) (omega (arith, at_end)) ∙ p.appended.bytes)
          (length-nodes_of fuel s gm.msgflags f) in
      (
        sb,
        sb',
        nodes,
        e,
        r,
        none_left,
        parsechan1-nodes malloc sound grants (some m) address fuel to s gm.msgflags clear u
            some_text small (omega (arith, f)),
      )
