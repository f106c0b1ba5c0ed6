-- ===== src/Sbuf/Append.antt =====
-- naf/sbuf.c: the writers against the bytes that were written before.
use timps.Prelude.{
  ℕ, ◌+◌, ◌≤◌, ◌≡◌, refl, sym, ◌∙◌, ap, ◌⊎◌, inl, inr, true, false, Option, some, List, ◌++◌, arith,
  ltb, Bool-cases, length, take, overwrite, load-in, store-in, length-overwrite, take-overwrite,
  length-take, take-take,
}
use timps.Sbuf.{Sbuf, short_of, reserve, putraw}
use timps.Sbuf.Valid.{IsValid, IsMalloc, written}
use timps.Sbuf.Write.{max_request, Extends, extendbuf-Extends}

-- `sb'` holds what `sb` had written, and `n` more bytes fit behind it.
pub record HasRoom (sb : Sbuf) (n : ℕ) (sb' : Sbuf) : Type 0 where
  pub valid : IsValid sb'
  pub room : sb.pos + n ≤ sb'.buflen
  pub same_pos : sb'.pos ≡ sb.pos
  pub kept : written sb' ≡ written sb

-- `sb'` is `sb` with the bytes `bs` appended to what was written.
pub record Appended (sb : Sbuf) (bs : List ℕ) (sb' : Sbuf) : Type 0 where
  pub valid : IsValid sb'
  pub bytes : written sb' ≡ written sb ++ bs
  pub moved : sb'.pos ≡ sb.pos + length bs

-- The buffer after a write of `bs` that fits.
abbrev pub wrote : Sbuf → List ℕ → Sbuf
wrote sb bs = record sb { buf = overwrite sb.buf sb.pos bs; pos = sb.pos + length bs }

pub wrote-Appended :
    (sb : Sbuf) (bs : List ℕ)
    → IsValid sb
    → sb.pos + length bs ≤ sb.buflen
    → Appended sb bs (wrote sb bs)
wrote-Appended sb bs v h = record {
  valid = record {
    storage = omega (arith, length-overwrite sb.buf sb.pos bs (omega arith));
    cursor = h;
    width = v.width;
    small = v.small;
  };
  bytes = take-overwrite sb.buf sb.pos bs (omega arith);
  moved = refl;
}

module _ (malloc : ℕ → Option (List ℕ)) (sound : IsMalloc malloc) where
  HasRoom-of-Extends :
      (sb : Sbuf) (n : ℕ) (sb' : Sbuf) → IsValid sb → Extends sb n sb' → HasRoom sb n sb'
  HasRoom-of-Extends sb n sb' v x = record {
    valid = x.valid;
    room = omega arith;
    same_pos = x.same_pos;
    kept =
        ap (λ p. take p sb'.buf) x.same_pos
        ∙ sym (take-take sb.pos sb.buflen sb'.buf v.cursor)
        ∙ ap (λ b. take sb.pos b) x.kept
        ∙ take-take sb.pos sb.buflen sb.buf v.cursor;
  }

  pub reserve-HasRoom :
      (sb : Sbuf) (n : ℕ)
      → IsValid sb
      → n ≤ max_request
      → (reserve malloc sb n ≡ some (false, sb))
        ⊎ ((sb' : Sbuf) × (reserve malloc sb n ≡ some (true, sb')) × HasRoom sb n sb')
  unfolding reserve short_of
  reserve-HasRoom sb n v h = elim (Bool-cases (ltb sb.buflen (sb.pos + n))) [
    | inl short ↦ elim (extendbuf-Extends malloc sound sb n v h) [
      | inl e ↦ inl (ground arith)
      | inr (sb', e, x) ↦ inr (sb', ground arith, HasRoom-of-Extends sb n sb' v x)
    ]
    | inr enough ↦ inr (sb, ground arith, ground arith)
  ]

  -- If naf_malloc returns blocks of the size asked for, a write of at most `max_request` bytes
  -- of a block into a valid buffer never leaves a block. It is refused and changes nothing, or
  -- it appends exactly the bytes, reports their number and leaves the buffer valid.
  pub putraw-Appended :
      (sb : Sbuf) (inbuf : List ℕ) (n : ℕ)
      → IsValid sb
      → n ≤ length inbuf
      → n ≤ max_request
      → (putraw malloc sb inbuf n ≡ some (0, sb))
        ⊎ ((sb' : Sbuf) × (putraw malloc sb inbuf n ≡ some (n, sb'))
            × Appended sb (take n inbuf) sb')
  unfolding putraw
  putraw-Appended sb inbuf n v k h = elim (reserve-HasRoom sb n v h) [
    | inl e ↦ inl (ground arith)
    | inr (sb', e, r) ↦
        let len : length (take n inbuf) ≡ n = omega (arith, length-take n inbuf) in
        let app : Appended sb' (take n inbuf) (wrote sb' (take n inbuf)) =
          wrote-Appended sb' (take n inbuf) r.valid (omega arith) in
        inr (
          wrote sb' (take n inbuf),
          ground (
            arith,
            load-in inbuf 0 n,
            store-in sb'.buf sb'.pos (take n inbuf),
            r.valid.storage,
            r.valid.width,
          ),
          record {
            valid = app.valid;
            bytes = app.bytes ∙ ap (λ t. t ++ take n inbuf) r.kept;
            moved = ground (arith, r.same_pos);
          },
        )
  ]

-- Where the bytes fit, the writers need no allocation.
pub putraw_fits :
    (malloc : ℕ → Option (List ℕ)) (sb : Sbuf) (inbuf : List ℕ) (n : ℕ)
    → IsValid sb
    → n ≤ length inbuf
    → sb.pos + n ≤ sb.buflen
    → putraw malloc sb inbuf n ≡ some (n, wrote sb (take n inbuf))
unfolding putraw reserve short_of
putraw_fits malloc sb inbuf n v k h =
    let len : length (take n inbuf) ≡ n = omega (arith, length-take n inbuf) in
    ground (arith, load-in inbuf 0 n, store-in sb.buf sb.pos (take n inbuf))
