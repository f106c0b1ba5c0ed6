-- ===== src/Sbuf/Runs.antt =====
-- Runs of naf/sbuf.c, and its theorems at concrete inputs.
use timps.Prelude.{
  ℕ, ◌≡◌, ◌⊎◌, inr, refl, true, Option, none, some, List, [], ◌∷◌, arith, replicate,
  length-replicate,
}
use timps.Sbuf.{Sbuf, init_with, grow, extendbuf, putraw}
use timps.Sbuf.Valid.{IsValid, IsMalloc, init_with-IsValid}
use timps.Sbuf.Append.{Appended, putraw-Appended}
use timps.Sbuf.Faults.{extendbuf_wraps}

abbrev zeros : ℕ → Option (List ℕ)
zeros n = some (replicate n 0)

zeros-IsMalloc : IsMalloc zeros
zeros-IsMalloc n block e = ground (arith, e, length-replicate {A = ℕ} n 0)

-- A buffer that grows, with three bytes written into its six.
abbrev small : Sbuf
small = record {
  free_buf = true;
  auto_resize = true;
  buf = 1 ∷ 2 ∷ 3 ∷ 0 ∷ 0 ∷ 0 ∷ [];
  buflen = 6;
  pos = 3;
}

small-IsValid : IsValid small
small-IsValid = record {
  storage = omega arith;
  cursor = omega arith;
  width = omega arith;
  small = inr (omega arith);
}

-- A string and what follows it.
abbrev text : Sbuf
text = init_with (104 ∷ 105 ∷ 0 ∷ 9 ∷ []) 4

text-IsValid : IsValid text
text-IsValid = init_with-IsValid (104 ∷ 105 ∷ 0 ∷ 9 ∷ []) 4 (omega arith) (omega arith)

grow_runs : grow 601 512 600 ≡ 1280
unfolding grow
grow_runs = refl

putraw-Appended_example :
    (putraw zeros small (4 ∷ 5 ∷ 6 ∷ 7 ∷ []) 4 ≡ some (0, small))
    ⊎ ((sb : Sbuf) × (putraw zeros small (4 ∷ 5 ∷ 6 ∷ 7 ∷ []) 4 ≡ some (4, sb))
        × Appended small (4 ∷ 5 ∷ 6 ∷ 7 ∷ []) sb)
putraw-Appended_example =
    putraw-Appended zeros zeros-IsMalloc small (4 ∷ 5 ∷ 6 ∷ 7 ∷ []) 4 small-IsValid (omega arith)
      (omega arith)

-- Six hundred bytes, to which 65280 more are asked for.
abbrev large : Sbuf
large = record { free_buf = true; auto_resize = true; buf = replicate 600 0; buflen = 600; pos = 0 }

large-IsValid : IsValid large
large-IsValid = record {
  storage = omega (arith, length-replicate {A = ℕ} 600 0);
  cursor = omega arith;
  width = omega arith;
  small = inr (omega arith);
}

extendbuf_wraps_example : extendbuf zeros large 65280 ≡ none
extendbuf_wraps_example =
    extendbuf_wraps zeros zeros-IsMalloc large 65280 (replicate 344 0) large-IsValid refl
      (omega arith) (omega arith) refl
