-- ===== src/Fixture.antt =====
-- An allocator for the examples: it grants each request with a block of zeros.
use timps.Prelude.{ℕ, refl, Option, some, List, replicate, length-replicate, arith}
use timps.Sbuf.Valid.{IsMalloc}
use timps.Tlv.Parse.{Grants}

abbrev pub zeros : ℕ → Option (List ℕ)
zeros n = some (replicate n 0)

pub zeros-IsMalloc : IsMalloc zeros
zeros-IsMalloc n block e = ground (arith, e, length-replicate {A = ℕ} n 0)

pub zeros-Grants : Grants zeros
zeros-Grants n = (replicate n 0, refl)
