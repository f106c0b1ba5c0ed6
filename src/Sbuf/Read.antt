-- ===== src/Sbuf/Read.antt =====
-- naf/sbuf.c: the readers against the list of bytes that are still to be read.
use timps.Prelude.{
  ℕ, ◌+◌, ◌-◌, ◌%◌, ◌^◌, ◌≤◌, ◌<◌, ◌≡◌, refl, sym, ◌∙◌, ap, none, some, List, ◌++◌, arith, length,
  take, drop, load-in, length-take, length-drop, take-append_of_length, drop-append_of_length,
  take-take, length-append, drop-drop, drop-take,
}
use timps.Sbuf.{Sbuf, short_of, get_int, getrawbuf}
use timps.Sbuf.Valid.{IsValid, pending}

pub length-pending : (sb : Sbuf) → IsValid sb → length (pending sb) ≡ sb.buflen - sb.pos
length-pending sb v =
    omega (arith, length-take (sb.buflen - sb.pos) (drop sb.pos sb.buf), length-drop sb.pos sb.buf)

-- The buffer after `n` bytes were read.
abbrev pub skip : Sbuf → ℕ → Sbuf
skip sb n = record sb { pos = sb.pos + n }

-- The first bytes that are pending are the bytes at the cursor, and the rest stays pending.
pub record Consumed (sb : Sbuf) (bs rest : List ℕ) : Type 0 where
  pub valid : IsValid (skip sb (length bs))
  pub fits : sb.pos + length bs ≤ sb.buflen
  pub front : take (length bs) (drop sb.pos sb.buf) ≡ bs
  pub left : pending (skip sb (length bs)) ≡ rest

pub consume :
    (sb : Sbuf) (bs rest : List ℕ) → IsValid sb → pending sb ≡ bs ++ rest → Consumed sb bs rest
consume sb bs rest v e = record {
  valid = record { storage = v.storage; cursor = room; width = v.width; small = v.small };
  fits = room;
  front =
      sym (take-take (length bs) (sb.buflen - sb.pos) (drop sb.pos sb.buf) (omega (arith, total)))
      ∙ ap (take (length bs)) e
      ∙ take-append_of_length bs rest (length bs) refl;
  left =
      ap (λ t. take (sb.buflen - (sb.pos + length bs)) t)
        (sym (drop-drop (length bs) sb.pos sb.buf))
      ∙ sym (
          drop-take (length bs) (sb.buflen - sb.pos) (sb.buflen - (sb.pos + length bs))
            (drop sb.pos sb.buf) (omega (arith, room)))
      ∙ ap (drop (length bs)) e
      ∙ drop-append_of_length bs rest (length bs) refl;
}
  where
    total : length bs + length rest ≡ sb.buflen - sb.pos
    total = sym (length-append bs rest) ∙ ap length (sym e) ∙ length-pending sb v

    room : sb.pos + length bs ≤ sb.buflen
    room = omega (arith, total, v.cursor)

-- An integer is decoded from the next bytes, if there are enough.
pub get_int_lem :
    (width : ℕ) (decode : List ℕ → ℕ) (sb : Sbuf) (bs rest : List ℕ)
    → IsValid sb
    → length bs ≡ width
    → pending sb ≡ bs ++ rest
    → get_int width decode sb ≡ some (decode bs, skip sb (length bs))
unfolding get_int short_of
get_int_lem width decode sb bs rest v h e =
    let c : Consumed sb bs rest = consume sb bs rest v e in
    let back : (sb.pos + width) % 2 ^ 16 - width ≡ sb.pos = omega (arith, c.fits, v.width) in
    ground (arith, c.front, c.fits, v.width, back)

-- With fewer bytes the value is 0 and nothing is read.
pub get_int_short :
    (width : ℕ) (decode : List ℕ → ℕ) (sb : Sbuf)
    → IsValid sb
    → length (pending sb) < width
    → get_int width decode sb ≡ some (0, sb)
unfolding get_int short_of
get_int_short width decode sb v h = ground (arith, length-pending sb v)

pub getrawbuf_lem :
    (sb : Sbuf) (bs rest : List ℕ)
    → IsValid sb
    → pending sb ≡ bs ++ rest
    → getrawbuf sb (length bs) ≡ some (some bs, skip sb (length bs))
unfolding getrawbuf short_of
getrawbuf_lem sb bs rest v e =
    let c : Consumed sb bs rest = consume sb bs rest v e in
    ground (arith, load-in sb.buf sb.pos (length bs), c.front, v.storage, c.fits)

pub getrawbuf_short :
    (sb : Sbuf) (n : ℕ) → IsValid sb → length (pending sb) < n → getrawbuf sb n ≡ some (none, sb)
unfolding getrawbuf short_of
getrawbuf_short sb n v h = ground (arith, length-pending sb v)
