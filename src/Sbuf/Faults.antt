-- ===== src/Sbuf/Faults.antt =====
-- naf/sbuf.c: where growing a buffer goes wrong.
use timps.Prelude.{
  ℕ, suc, ◌+◌, ◌-◌, ◌*◌, ◌/◌, ◌^◌, ◌≤◌, ◌<◌, ◌≡◌, ◌⊎◌, inl, inr, true, false, Option, none, some,
  List, arith, take, load-in, store-out, length-take,
}
use timps.Sbuf.{Sbuf, grow, extendbuf, prepend}
use timps.Sbuf.Valid.{IsValid, IsMalloc}
use timps.Sbuf.Grow.{grow_closed}
use timps.Sbuf.Write.{max_request, extendbuf-Extends}

module _ (malloc : ℕ → Option (List ℕ)) (sound : IsMalloc malloc) where
  -- If naf_malloc returns blocks of the size asked for, prepending at least one byte and at
  -- most `max_request` to a valid buffer is refused and changes nothing, or faults.
  pub prepend_faults :
      (sb : Sbuf) (needed : ℕ)
      → IsValid sb
      → 0 < needed
      → needed ≤ max_request
      → (prepend malloc sb needed ≡ some (false, sb)) ⊎ (prepend malloc sb needed ≡ none)
  unfolding prepend
  prepend_faults sb needed v p h = elim (extendbuf-Extends malloc sound sb needed v h) [
    | inl e ↦ inl (ground (arith, e))
    | inr (sb', e, x) ↦ inr (
        ground (
          arith,
          e,
          x.exact,
          load-in sb'.buf 0 sb'.buflen,
          length-take sb'.buflen sb'.buf,
          store-out sb'.buf needed (take sb'.buflen sb'.buf),
        ))
  ]

  -- If naf_malloc returns blocks of the size asked for, growing a valid buffer of the growing
  -- kind by at most 65280 bytes faults where the rounded length passes 2 ^ 16 and the block of
  -- the wrapped length is granted.
  pub extendbuf_wraps :
      (sb : Sbuf) (needed : ℕ) (block : List ℕ)
      → IsValid sb
      → sb.auto_resize ≡ true
      → needed ≤ 65280
      → 2 ^ 16 ≤ sb.buflen + 256 * ((needed + 255) / 256)
      → malloc (sb.buflen + 256 * ((needed + 255) / 256) - 2 ^ 16) ≡ some block
      → extendbuf malloc sb needed ≡ none
  unfolding extendbuf
  extendbuf_wraps sb needed block v auto h w e = ground (
    arith,
    shrunk,
    sound _ block e,
    load-in sb.buf 0 sb.buflen,
    length-take sb.buflen sb.buf,
    store-out block 0 (take sb.buflen sb.buf),
  )
    where
      shrunk :
          grow (suc needed) sb.buflen needed ≡ sb.buflen + 256 * ((needed + 255) / 256) - 2 ^ 16
      shrunk =
          omega (arith, grow_closed (suc needed) sb.buflen needed (omega arith) v.width, v.width)
