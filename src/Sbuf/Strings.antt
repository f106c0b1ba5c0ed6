-- ===== src/Sbuf/Strings.antt =====
-- naf/sbuf.c: the readers that return a fresh block, and the writers of C strings.
use timps.Prelude.{
  ℕ, zero, suc, ◌+◌, ◌-◌, ◌%◌, ◌^◌, ◌≤◌, ◌<◌, ◌≡◌, sym, ◌∙◌, ap, ◌⊎◌, true, not, ◌&&◌, ◌||◌, Option,
  none, some, List, [], ◌∷◌, ◌++◌, arith, ltb, ◌==◌, if◌then◌else◌, ◌>>=◌, length, drop, get_elem?,
  All,
}
use timps.Sbuf.{reserve, short_of}
use timps.Sbuf.{Sbuf, getrawbuf, getpos, advance, putraw}
use timps.Sbuf.Valid.{IsValid, pending}
use timps.Prelude.{drop-succ, length-append, append_assoc, take-append-drop}
use timps.Sbuf.Read.{Consumed, consume, skip, getrawbuf_lem}

module _ (malloc : ℕ → Option (List ℕ)) where
  -- The result is null if there is no memory for it or fewer than `len` bytes.
  unfoldable pub getraw : Sbuf → ℕ → Option (Option (List ℕ) × Sbuf)
  unfolding getrawbuf
  getraw sb len = elim (malloc len) [ none ↦ some (none, sb) | some _ ↦ getrawbuf sb len ]

  -- The block has the bytes and a terminator.
  unfoldable pub getstr : Sbuf → ℕ → Option (Option (List ℕ) × Sbuf)
  unfolding getrawbuf
  getstr sb len = elim (malloc (len + 1)) [
    | none ↦ some (none, sb)
    | some _ ↦ (getrawbuf sb len) >>= λ (out, sb').
        some (elim out [ none ↦ (none, sb') | some bs ↦ (some (bs ++ (0 ∷ [])), sb') ])
  ]

  -- naf_sbuf_putcstr and naf_sbuf_putstr; the string is given without its terminator.
  unfoldable pub putcstr : Sbuf → List ℕ → Option (ℕ × Sbuf)
  unfolding putraw
  putcstr sb str = putraw malloc sb (str ++ (0 ∷ [])) (length str + 1)

  unfoldable pub putstr : Sbuf → List ℕ → Option (ℕ × Sbuf)
  unfolding putraw
  putstr sb str = putraw malloc sb (str ++ (0 ∷ [])) (length str)

-- The loop of naf_sbuf_getcstr from `n` on: how many bytes come before the terminator, the end of
-- the buffer or the limit (0 is no limit). The first argument is fuel.
scan : ℕ → List ℕ → ℕ → ℕ → ℕ → ℕ → Option ℕ
scan zero buf buflen p0 maxlen n = some n
scan (suc fuel) buf buflen p0 maxlen n =
    let more = scan fuel buf buflen p0 maxlen (n + 1) in
    let look : Option ℕ = elim (get_elem? buf (p0 + n)) [
      | none ↦ none
      | some c ↦ if not (c == 0) && (maxlen == 0 || ltb n maxlen) then more else some n
    ] in
    if ltb (p0 + n) buflen then look else some n

module _ (malloc : ℕ → Option (List ℕ)) where
  unfoldable pub getcstr : Sbuf → ℕ → Option (Option (List ℕ) × Sbuf)
  unfolding scan getstr getpos advance
  getcstr sb maxlen = (scan (suc sb.buflen) sb.buf sb.buflen (getpos sb) maxlen 0) >>= λ n.
      (getstr malloc sb (n % 2 ^ 16)) >>= λ (str, sb'). elim str [
        | none ↦ some (none, sb')
        | some s ↦ (advance malloc sb' 1) >>= λ (done, sb''). some (some s, sb'')
      ]

  -- `getraw` returns the next bytes and leaves the cursor behind them.
  pub getraw_lem :
      (sb : Sbuf) (bs rest block : List ℕ)
      → IsValid sb
      → pending sb ≡ bs ++ rest
      → malloc (length bs) ≡ some block
      → getraw malloc sb (length bs) ≡ some (some bs, skip sb (length bs))
  unfolding getraw
  getraw_lem sb bs rest block v e g = ground (arith, g, getrawbuf_lem sb bs rest v e)

-- The scan stops at the terminator behind `s`.
scan_stops :
    (fuel : ℕ) (buf s rest : List ℕ) (buflen p0 maxlen n : ℕ)
    → length s < fuel
    → drop (p0 + n) buf ≡ s ++ (0 ∷ rest)
    → p0 + n + length s < buflen
    → All (λ c. 0 < c) s
    → (maxlen ≡ 0) ⊎ (n + length s ≤ maxlen)
    → scan fuel buf buflen p0 maxlen n ≡ some (n + length s)
unfolding scan
scan_stops zero buf s rest buflen p0 maxlen n f e b nz m = absurd (omega arith)
scan_stops (suc fuel) buf [] rest buflen p0 maxlen n f e b nz m =
    ground (arith, (drop-succ buf (p0 + n) 0 rest e).0)
scan_stops (suc fuel) buf (c ∷ s) rest buflen p0 maxlen n f e b (pos_c, nz) m =
    let (at, next) = drop-succ buf (p0 + n) c (s ++ (0 ∷ rest)) e in
    let shift : suc (p0 + n) ≡ p0 + (n + 1) = omega arith in
    ground (
      arith,
      at,
      scan_stops fuel buf s rest buflen p0 maxlen (n + 1) (omega arith)
          (ap (λ k. drop k buf) (sym shift) ∙ next) (omega arith) nz,
    )

module _ (malloc : ℕ → Option (List ℕ)) where
  pub getstr_lem :
      (sb : Sbuf) (bs rest block : List ℕ)
      → IsValid sb
      → pending sb ≡ bs ++ rest
      → malloc (length bs + 1) ≡ some block
      → getstr malloc sb (length bs) ≡ some (some (bs ++ (0 ∷ [])), skip sb (length bs))
  unfolding getstr
  getstr_lem sb bs rest block v e g = ground (arith, g, getrawbuf_lem sb bs rest v e)

  pub advance_in :
      (sb : Sbuf) (n : ℕ)
      → IsValid sb
      → sb.pos + n ≤ sb.buflen
      → advance malloc sb n ≡ some (true, skip sb n)
  unfolding advance reserve short_of
  advance_in sb n v h = ground (arith, v.width)

  scan-pending :
      (sb : Sbuf) (s rest : List ℕ) (maxlen : ℕ)
      → IsValid sb
      → pending sb ≡ s ++ (0 ∷ rest)
      → All (λ c. 0 < c) s
      → (maxlen ≡ 0) ⊎ (length s ≤ maxlen)
      → scan (suc sb.buflen) sb.buf sb.buflen (getpos sb) maxlen 0 ≡ some (length s)
  unfolding getpos
  scan-pending sb s rest maxlen v e nz m =
      scan_stops (suc sb.buflen) sb.buf s (rest ++ behind) sb.buflen sb.pos maxlen 0
        (omega (arith, c.fits, len))
        (ap (λ k. drop k sb.buf) (omega arith)
          ∙ sym (take-append-drop (sb.buflen - sb.pos) (drop sb.pos sb.buf))
          ∙ ap (λ t. t ++ behind) e
          ∙ append_assoc s (0 ∷ rest) behind)
        (omega (arith, c.fits, len)) nz (ground arith)
      ∙ ap some (omega arith)
    where
      behind : List ℕ
      behind = drop (sb.buflen - sb.pos) (drop sb.pos sb.buf)

      c : Consumed sb (s ++ (0 ∷ [])) rest
      c = consume sb (s ++ (0 ∷ [])) rest v (e ∙ sym (append_assoc s (0 ∷ []) rest))

      len : length (s ++ (0 ∷ [])) ≡ length s + 1
      len = omega (arith, length-append s (0 ∷ []))

  -- With the memory granted, naf_sbuf_getcstr of a valid buffer in which a string and its
  -- terminator come next returns the string with a terminator and leaves the cursor behind the
  -- terminator, if there is no limit or the string is not longer than it.
  pub getcstr_lem :
      (sb : Sbuf) (s rest block : List ℕ) (maxlen : ℕ)
      → IsValid sb
      → pending sb ≡ s ++ (0 ∷ rest)
      → All (λ c. 0 < c) s
      → (maxlen ≡ 0) ⊎ (length s ≤ maxlen)
      → malloc (length s + 1) ≡ some block
      → getcstr malloc sb maxlen
        ≡ some (some (s ++ (0 ∷ [])), record sb { pos = sb.pos + (length s + 1) })
  unfolding getcstr
  getcstr_lem sb s rest block maxlen v e nz m g = rw (scan-pending sb s rest maxlen v e nz m) (
      ground (
        arith,
        getstr_lem sb s (0 ∷ rest) block v e g,
        advance_in (skip sb (length s)) 1 c.valid,
        c.fits,
        v.width,
        room.fits,
        length-append s (0 ∷ []),
      ))
    where
      c : Consumed sb s (0 ∷ rest)
      c = consume sb s (0 ∷ rest) v e

      room : Consumed sb (s ++ (0 ∷ [])) rest
      room = consume sb (s ++ (0 ∷ [])) rest v (e ∙ sym (append_assoc s (0 ∷ []) rest))
