-- ===== src/Sbuf/Valid.antt =====
-- naf/sbuf.c: what every operation may rely on, and the two abstract views of a buffer.
use timps.Prelude.{
  ℕ, ◌-◌, ◌≤◌, ◌<◌, ◌^◌, ◌≡◌, refl, ◌⊎◌, inl, true, false, Option, some, List, arith, length, take,
  drop,
}
use timps.Sbuf.{Sbuf, max_buflen, init_with, init_new}

-- The block holds `buflen` bytes at least, the cursor stands in it, and a buffer that grows is not
-- above the limit to which it may grow.
pub record IsValid (sb : Sbuf) : Type 0 where
  pub storage : sb.buflen ≤ length sb.buf
  pub cursor : sb.pos ≤ sb.buflen
  pub width : sb.buflen < 2 ^ 16
  pub small : (sb.auto_resize ≡ false) ⊎ (sb.buflen ≤ max_buflen)

-- What a writer has put before the cursor.
abbrev pub written : Sbuf → List ℕ
written sb = take sb.pos sb.buf

-- What a reader has still to get.
abbrev pub pending : Sbuf → List ℕ
pending sb = take (sb.buflen - sb.pos) (drop sb.pos sb.buf)

-- What naf_malloc documents: the block has the size that was asked for.
abbrev pub IsMalloc : (ℕ → Option (List ℕ)) → Type 0
IsMalloc malloc = (n : ℕ) (block : List ℕ) → malloc n ≡ some block → length block ≡ n

pub init_with-IsValid :
    (b : List ℕ) (buflen : ℕ) → buflen ≤ length b → buflen < 2 ^ 16 → IsValid (init_with b buflen)
unfolding init_with
init_with-IsValid b buflen h w = record {
  storage = h;
  cursor = omega arith;
  width = w;
  small = inl refl;
}

pub init_new-IsValid :
    (malloc : ℕ → Option (List ℕ))
    → IsMalloc malloc
    → (buflen : ℕ) (sb : Sbuf) → buflen ≤ max_buflen
    → init_new malloc buflen ≡ some sb
    → IsValid sb × (sb.pos ≡ 0) × (sb.auto_resize ≡ true)
unfolding init_new
init_new-IsValid malloc sound buflen sb h e = grind (arith, sound)
