-- ===== src/Prelude/Memory.antt =====
-- Blocks of memory as lists of bytes: `memcpy` out of a block and into one.
use Prim.Native.Nat.{ℕ, ◌+◌, ◌≤◌, ◌<◌}
use mathlib.Core.Path.{◌≡◌, sym, ◌∙◌, ap}
use mathlib.Core.List.{List, ◌++◌, append_assoc}
use mathlib.Core.Option.{Option, none, some}
use native.Mathlib.Omega.{arith}
use timps.Prelude.Tests.{leb, if◌then◌else◌}
use timps.Prelude.Lists.{
  length, take, drop, length-append, length-take, length-drop, take-append_of_length,
}

-- `n` bytes from offset `o` of the block; a fault outside it.
unfoldable pub load : List ℕ → ℕ → ℕ → Option (List ℕ)
load b o n = if leb (o + n) (length b) then some (take n (drop o b)) else none

-- The block `b` with the bytes of `v` in place from offset `o` on.
abbrev pub overwrite : List ℕ → ℕ → List ℕ → List ℕ
overwrite b o v = take o b ++ (v ++ drop (o + length v) b)

-- The same as a step: a fault outside the block.
unfoldable pub store : List ℕ → ℕ → List ℕ → Option (List ℕ)
store b o v = if leb (o + length v) (length b) then some (overwrite b o v) else none

pub load-in : (b : List ℕ) (o n : ℕ) → o + n ≤ length b → load b o n ≡ some (take n (drop o b))
unfolding load
load-in b o n h = ground arith

pub load-out : (b : List ℕ) (o n : ℕ) → length b < o + n → load b o n ≡ none
unfolding load
load-out b o n h = ground arith

pub store-in :
    (b : List ℕ) (o : ℕ) (v : List ℕ)
    → o + length v ≤ length b
    → store b o v ≡ some (overwrite b o v)
unfolding store
store-in b o v h = ground arith

pub store-out : (b : List ℕ) (o : ℕ) (v : List ℕ) → length b < o + length v → store b o v ≡ none
unfolding store
store-out b o v h = ground arith

pub length-overwrite :
    (b : List ℕ) (o : ℕ) (v : List ℕ)
    → o + length v ≤ length b
    → length (overwrite b o v) ≡ length b
length-overwrite b o v h = omega (
  arith,
  length-append (take o b) (v ++ drop (o + length v) b),
  length-append v (drop (o + length v) b),
  length-take o b,
  length-drop (o + length v) b,
)

-- Up to the end of what was written, the block holds the old front and the new bytes.
pub take-overwrite :
    (b : List ℕ) (o : ℕ) (v : List ℕ)
    → o + length v ≤ length b
    → take (o + length v) (overwrite b o v) ≡ take o b ++ v
take-overwrite b o v h =
    ap (λ t. take (o + length v) t) (sym (append_assoc (take o b) v (drop (o + length v) b)))
    ∙ take-append_of_length (take o b ++ v) (drop (o + length v) b) (o + length v)
        (omega (arith, length-append (take o b) v, length-take o b))
