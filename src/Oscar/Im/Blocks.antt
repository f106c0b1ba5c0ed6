-- ===== src/Oscar/Im/Blocks.antt =====
-- timps/oscar/im.c: the block of a text that is built, and how the reader of its sections moves.
use timps.Prelude.{
  ℕ, ◌+◌, ◌-◌, ◌%◌, ◌^◌, ◌≤◌, ◌<◌, ◌≡◌, ◌⊎◌, inl, inr, refl, sym, ◌∙◌, ap, Bool, true, false,
  Bool-cases, Option-cases, Option, none, some, List, [], ◌∷◌, ◌++◌, ltb, arith, length, take, drop,
  store, load-in, store-in, overwrite, length-overwrite, take-overwrite, take-take,
  take-append_of_length, length-take, length-drop,
}
use timps.Bytes.{byte_get8, byte_get16}
use timps.Sbuf.{
  Sbuf, get_int, get8, get16, getrawbuf, advance, reserve, extendbuf, setpos, short_of,
}
use timps.Sbuf.Valid.{IsValid, IsMalloc}
use timps.Sbuf.Read.{skip}
use timps.Oscar.Im.{Text, terminate, extendstr}

-- A write of `bs` at `o` into a block.
pub record Wrote (b : List ℕ) (o : ℕ) (bs b' : List ℕ) : Type 0 where
  pub same_length : length b' ≡ length b
  pub front : take (o + length bs) b' ≡ take o b ++ bs

pub store-Wrote :
    (b : List ℕ) (o : ℕ) (bs : List ℕ)
    → o + length bs ≤ length b
    → (b' : List ℕ) × (store b o bs ≡ some b') × Wrote b o bs b'
store-Wrote b o bs h = (
  overwrite b o bs,
  store-in b o bs h,
  record { same_length = length-overwrite b o bs h; front = take-overwrite b o bs h },
)

-- What stands before a write stays.
pub Wrote-before :
    (b : List ℕ) (o : ℕ) (bs b' : List ℕ) → Wrote b o bs b' → o ≤ length b → take o b' ≡ take o b
Wrote-before b o bs b' w h =
    sym (take-take o (o + length bs) b' (omega arith))
    ∙ ap (take o) w.front
    ∙ take-append_of_length (take o b) bs o (omega (arith, length-take o b))

-- The text so far.
abbrev pub content : Option Text → List ℕ
content none = []
content (some t) = take t.len t.block

-- There is room for a terminator.
abbrev pub IsText : Option Text → Type 0
IsText none = Unit
IsText (some t) = t.len < length t.block

pub terminate_lem :
    (t : Text)
    → t.len < length t.block
    → (t' : Text) × (terminate t ≡ some t')
      × (t'.len ≡ t.len)
      × (length t'.block ≡ length t.block)
      × (take t'.len t'.block ≡ take t.len t.block)
      × (take (t.len + 1) t'.block ≡ take t.len t.block ++ (0 ∷ []))
unfolding terminate
terminate_lem t h =
    let (b, e, w) = store-Wrote t.block t.len (0 ∷ []) (omega arith) in
    (
      record t { block = b },
      rw e refl,
      refl,
      w.same_length,
      Wrote-before t.block t.len (0 ∷ []) b w (omega arith),
      w.front,
    )

module _ (malloc : ℕ → Option (List ℕ)) (sound : IsMalloc malloc) where
  -- There is memory for `n` bytes and a terminator behind the text, or the call fails.
  pub extendstr_lem :
      (o : Option Text) (n : ℕ)
      → IsText o
      → (extendstr malloc o n ≡ some none)
        ⊎ ((t : Text) × (extendstr malloc o n ≡ some (some t))
            × (t.len + n < length t.block)
            × (take t.len t.block ≡ content o))
  unfolding extendstr
  extendstr_lem none n g = elim (Option-cases (malloc (n + 1))) [
    | inl refused ↦ inl (rw (extendstr, refused) refl)
    | inr (block, got) ↦
        let size : length block ≡ n + 1 = sound (n + 1) block got in
        let fresh : Text = record { block = block; len = 0 } in
        let (t, e, el, en, ec, _) = terminate_lem fresh (omega arith) in
        inr (t, rw (extendstr, got, e) refl, omega (arith, el, en, size), ec)
  ]
  extendstr_lem (some t) n g = elim (Option-cases (malloc (t.len + n + 1))) [
    | inl refused ↦ inl (rw (extendstr, refused) refl)
    | inr (ns, got) ↦
        let size : length ns ≡ t.len + n + 1 = sound (t.len + n + 1) ns got in
        let old : List ℕ = take (t.len + 1) t.block in
        let old_len : length old ≡ t.len + 1 = omega (arith, length-take (t.len + 1) t.block) in
        let (b, e, w) = store-Wrote ns 0 old (omega (arith, old_len, size)) in
        let end_old : t.len + 1 ≡ 0 + length old = omega (arith, old_len) in
        let copied : take (t.len + 1) b ≡ old = ap (λ k. take k b) end_old ∙ w.front in
        inr (
          record { block = b; len = t.len },
          rw (extendstr, got, load-in t.block 0 (t.len + 1) (omega arith), e) refl,
          omega (arith, w.same_length, size),
          sym (take-take t.len (t.len + 1) b (omega arith))
              ∙ ap (take t.len) copied
              ∙ take-take t.len (t.len + 1) t.block (omega arith),
        )
  ]

-- `sb'` is the same buffer of fixed length, read further.
pub record Reads (sb sb' : Sbuf) : Type 0 where
  pub valid : IsValid sb'
  pub fixed : sb'.auto_resize ≡ false
  pub same_buflen : sb'.buflen ≡ sb.buflen
  pub forward : sb.pos ≤ sb'.pos
  pub back : record sb' { pos = sb.pos } ≡ sb

pub Reads-trans : (a b c : Sbuf) → Reads a b → Reads b c → Reads a c
Reads-trans a b c r s = record {
  valid = s.valid;
  fixed = s.fixed;
  same_buflen = s.same_buflen ∙ r.same_buflen;
  forward = omega (arith, r.forward, s.forward);
  back = ap {A = Sbuf} {B = Sbuf} (λ x. record x { pos = a.pos }) s.back ∙ r.back;
}

pub skip-Reads :
    (sb : Sbuf) (n : ℕ)
    → IsValid sb
    → sb.auto_resize ≡ false
    → sb.pos + n ≤ sb.buflen
    → Reads sb (skip sb n)
skip-Reads sb n v fixed h = record {
  valid = record { storage = v.storage; cursor = h; width = v.width; small = v.small };
  fixed = fixed;
  same_buflen = refl;
  forward = omega arith;
  back = refl;
}

stay-Reads : (sb : Sbuf) → IsValid sb → sb.auto_resize ≡ false → Reads sb sb
stay-Reads sb v fixed = record {
  valid = v;
  fixed = fixed;
  same_buflen = refl;
  forward = omega arith;
  back = refl;
}

get_int_total :
    (width : ℕ) (decode : List ℕ → ℕ) (sb : Sbuf)
    → IsValid sb
    → sb.auto_resize ≡ false
    → (n : ℕ) × (sb' : Sbuf) × (get_int width decode sb ≡ some (n, sb'))
      × Reads sb sb'
      × ((n ≡ 0) ⊎ (sb'.pos ≡ sb.pos + width))
unfolding get_int short_of
get_int_total width decode sb v fixed = elim (Bool-cases (ltb sb.buflen (sb.pos + width))) [
  | inl short ↦ (0, sb, ground arith, stay-Reads sb v fixed, inl refl)
  | inr enough ↦
      let room : sb.pos + width ≤ sb.buflen = ground (arith, enough) in
      let back : (sb.pos + width) % 2 ^ 16 - width ≡ sb.pos = omega (arith, room, v.width) in
      (
        decode (take width (drop sb.pos sb.buf)),
        skip sb width,
        ground (arith, v.storage, v.width, back, load-in sb.buf sb.pos width),
        skip-Reads sb width v fixed room,
        inr refl,
      )
]

pub get8_total :
    (sb : Sbuf)
    → IsValid sb
    → sb.auto_resize ≡ false
    → (n : ℕ) × (sb' : Sbuf) × (get8 sb ≡ some (n, sb'))
      × Reads sb sb'
      × ((n ≡ 0) ⊎ (sb'.pos ≡ sb.pos + 1))
unfolding get8
get8_total = get_int_total 1 byte_get8

pub get16_total :
    (sb : Sbuf)
    → IsValid sb
    → sb.auto_resize ≡ false
    → (n : ℕ) × (sb' : Sbuf) × (get16 sb ≡ some (n, sb'))
      × Reads sb sb'
      × ((n ≡ 0) ⊎ (sb'.pos ≡ sb.pos + 2))
unfolding get16
get16_total = get_int_total 2 byte_get16

pub getrawbuf_total :
    (sb : Sbuf) (n : ℕ)
    → IsValid sb
    → sb.auto_resize ≡ false
    → (out : Option (List ℕ)) × (sb' : Sbuf) × (getrawbuf sb n ≡ some (out, sb'))
      × Reads sb sb'
      × ((out ≡ none) ⊎ ((bs : List ℕ) × (out ≡ some bs) × (length bs ≡ n)))
unfolding getrawbuf short_of
getrawbuf_total sb n v fixed = elim (Bool-cases (ltb sb.buflen (sb.pos + n))) [
  | inl short ↦ (none, sb, ground arith, stay-Reads sb v fixed, inl refl)
  | inr enough ↦
      let room : sb.pos + n ≤ sb.buflen = ground (arith, enough) in
      let bs : List ℕ = take n (drop sb.pos sb.buf) in
      (
        some bs,
        skip sb n,
        ground (arith, v.storage, v.width, load-in sb.buf sb.pos n),
        skip-Reads sb n v fixed room,
        inr (
          bs,
          refl,
          omega (
            arith,
            v.storage,
            room,
            length-take n (drop sb.pos sb.buf),
            length-drop sb.pos sb.buf,
          ),
        ),
      )
]

pub advance_total :
    (malloc : ℕ → Option (List ℕ)) (sb : Sbuf) (n : ℕ)
    → IsValid sb
    → sb.auto_resize ≡ false
    → (done : Bool) × (sb' : Sbuf) × (advance malloc sb n ≡ some (done, sb')) × Reads sb sb'
unfolding advance reserve extendbuf short_of
advance_total malloc sb n v fixed = elim (Bool-cases (ltb sb.buflen (sb.pos + n))) [
  | inl short ↦ (false, sb, ground (arith, short, fixed), stay-Reads sb v fixed)
  | inr enough ↦
      let room : sb.pos + n ≤ sb.buflen = ground (arith, enough) in
      (true, skip sb n, ground (arith, v.width), skip-Reads sb n v fixed room)
]

-- Back to where the cursor was.
pub setpos_total :
    (malloc : ℕ → Option (List ℕ)) (sb : Sbuf) (n : ℕ)
    → IsValid sb
    → n ≤ sb.buflen
    → setpos malloc sb n ≡ some (true, record sb { pos = n })
unfolding setpos
setpos_total malloc sb n v h = ground arith
