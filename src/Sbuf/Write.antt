-- ===== src/Sbuf/Write.antt =====
-- naf/sbuf.c: naf_sbuf__extendbuf on a valid buffer.
use timps.Prelude.{
  ℕ, suc, ◌+◌, ◌≤◌, ◌≡◌, ◌∙◌, refl, ◌⊎◌, inl, inr, true, false, Option, some, List, arith, ltb,
  Bool-cases, Option-cases, length, take, overwrite, load-in, store-in, length-overwrite,
  length-take, take-append_of_length,
}
use timps.Sbuf.{Sbuf, max_buflen, grow, extendbuf}
use timps.Sbuf.Valid.{IsValid, IsMalloc}
use timps.Sbuf.Grow.{grow_room}

-- The most that one call may ask for without a wrap of the uint16 length.
abbrev pub max_request : ℕ
max_request = 32512

-- `sb'` is `sb` with room for `needed` bytes more behind the same content.
pub record Extends (sb : Sbuf) (needed : ℕ) (sb' : Sbuf) : Type 0 where
  pub valid : IsValid sb'
  pub room : sb.buflen + needed ≤ sb'.buflen
  pub same_pos : sb'.pos ≡ sb.pos
  pub exact : length sb'.buf ≡ sb'.buflen
  pub kept : take sb.buflen sb'.buf ≡ take sb.buflen sb.buf

module _ (malloc : ℕ → Option (List ℕ)) (sound : IsMalloc malloc) where
  -- The block that was granted, with the old content copied to its front.
  copied :
      (sb : Sbuf) (needed : ℕ) (block : List ℕ)
      → IsValid sb
      → sb.buflen ≤ 32768
      → needed ≤ max_request
      → grow (suc needed) sb.buflen needed ≤ max_buflen
      → malloc (grow (suc needed) sb.buflen needed) ≡ some block
      → Extends sb needed (record sb {
        buf = overwrite block 0 (take sb.buflen sb.buf);
        buflen = grow (suc needed) sb.buflen needed;
      })
  copied sb needed block v s h lim e = record {
    valid = record {
      storage = omega (arith, len, size, wide);
      cursor = omega (arith, v.cursor, grown);
      width = omega arith;
      small = inr lim;
    };
    room = grown;
    same_pos = refl;
    exact = len ∙ size;
    kept = take_kept;
  }
    where
      grown : sb.buflen + needed ≤ grow (suc needed) sb.buflen needed
      grown = grow_room sb.buflen needed s h

      size : length block ≡ grow (suc needed) sb.buflen needed
      size = sound (grow (suc needed) sb.buflen needed) block e

      wide : length (take sb.buflen sb.buf) ≡ sb.buflen
      wide = omega (arith, length-take sb.buflen sb.buf, v.storage)

      len : length (overwrite block 0 (take sb.buflen sb.buf)) ≡ length block
      len = length-overwrite block 0 (take sb.buflen sb.buf) (omega (arith, wide, size, grown))

      take_kept : take sb.buflen (overwrite block 0 (take sb.buflen sb.buf)) ≡ take sb.buflen sb.buf
      take_kept = take-append_of_length (take sb.buflen sb.buf) _ sb.buflen wide

  -- If naf_malloc returns blocks of the size asked for, growing a valid buffer by at most
  -- `max_request` bytes never leaves a block: it is refused and changes nothing, or it makes
  -- the room, keeps the content and the cursor, and leaves the buffer valid.
  pub extendbuf-Extends :
      (sb : Sbuf) (needed : ℕ)
      → IsValid sb
      → needed ≤ max_request
      → (extendbuf malloc sb needed ≡ some (false, sb))
        ⊎ ((sb' : Sbuf) × (extendbuf malloc sb needed ≡ some (true, sb')) × Extends sb needed sb')
  unfolding extendbuf
  extendbuf-Extends sb needed v h = elim (Bool-cases sb.auto_resize) [
    | inl auto ↦ elim (Bool-cases (ltb max_buflen n)) [
      | inl over ↦ inl (ground arith)
      | inr fits ↦ elim (Option-cases (malloc n)) [
        | inl refused ↦ inl (ground arith)
        | inr (block, e) ↦
            let ext : Extends sb needed
                (record sb { buf = overwrite block 0 (take sb.buflen sb.buf); buflen = n }) =
              copied sb needed block v (ground arith) h (ground arith) e in
            inr (
              record sb { buf = overwrite block 0 (take sb.buflen sb.buf); buflen = n },
              ground (
                arith,
                load-in sb.buf 0 sb.buflen,
                store-in block 0 (take sb.buflen sb.buf),
                length-take sb.buflen sb.buf,
                sound n block e,
                ext.room,
              ),
              ext,
            )
      ]
    ]
    | inr fixed ↦ inl (ground arith)
  ]
    where
      n : ℕ
      n = grow (suc needed) sb.buflen needed
