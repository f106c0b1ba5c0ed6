-- ===== src/Flmp.antt =====
-- naf/memory.c: pools of memory blocks of one length (`naf_flmempool_t` of include/naf/nafmodule.h).
--
-- The bitmap of a pool has one bit for each block, the highest bit of its first byte for the first.
-- An address is a number. `none` is `abort` or an access outside the bitmap. `malloc` is what
-- naf_malloc returns, and `region` the address that mmap or malloc returns for the region, 0 for NULL.
pub mod Bits
pub mod Scan
pub mod Used
pub mod Refine
pub mod Client
pub mod Fresh
mod Runs
use timps.Prelude.{
  ℕ, zero, suc, ◌+◌, ◌-◌, ◌*◌, ◌/◌, ◌%◌, ◌^◌, Bool, true, false, not, ◌||◌, Option, none, some,
  List, [], ◌∷◌, ltb, ◌==◌, if◌then◌else◌, ◌>>=◌, get_or, get_elem?, set, replicate,
}
use Prim.Native.Nat.{bit_and}

pub record Flmp : Type 0 where
  pub blklen : ℕ
  pub blkcount : ℕ
  pub region : ℕ
  pub regionlen : ℕ
  pub allocmap : List ℕ
  pub allocmaplen : ℕ

-- sizeof(naf_flmempool_t) on a 32-bit machine
abbrev pub flmp_size : ℕ
flmp_size = 24

-- naf_flmp_alloc with positive lengths; null where the lengths do not suit or memory is refused.
unfoldable pub flmp_alloc : (ℕ → Option (List ℕ)) → (ℕ → ℕ) → ℕ → ℕ → Option Flmp
flmp_alloc malloc region blklen blkcount =
    let regionlen : ℕ = blklen * blkcount % 2 ^ 32 in
    let maplen : ℕ = blkcount / 8 in
    if blklen == 0
      || not (bit_and blklen (blklen - 1) == 0)
      || blkcount == 0
      || not (blkcount % 8 == 0)
    then none
    else (malloc flmp_size) >>= λ _. (malloc maplen) >>= λ _.
        (if region regionlen == 0
          then none
          else some (record {
            blklen = blklen;
            blkcount = blkcount;
            region = region regionlen;
            regionlen = regionlen;
            allocmap = replicate maplen 0;
            allocmaplen = maplen;
          }))

-- `(b >> j) & 0x01`
abbrev pub bit : ℕ → ℕ → ℕ
bit b j = b / 2 ^ j % 2

-- `b |= 0x01 << j` and `b ^= 0x01 << j`
unfoldable pub or_bit : ℕ → ℕ → ℕ
or_bit b j = if bit b j == 0 then b + 2 ^ j else b

unfoldable pub xor_bit : ℕ → ℕ → ℕ
xor_bit b j = if bit b j == 0 then b + 2 ^ j else b - 2 ^ j

-- The first loop of naf_flmp_blkalloc over the `left` bytes that remain: how far it is to a byte
-- with a free bit.
unfoldable pub open_byte : ℕ → List ℕ → Option (Option ℕ)
open_byte zero map = some none
open_byte (suc left) [] = none
open_byte (suc left) (b ∷ map) =
    let more = open_byte left map in
    if ltb b 255
    then some (some 0)
    else more >>= λ i. some (elim i [ none ↦ none | some n ↦ some (suc n) ])

-- The second loop, downwards from the bit below `j`.
unfoldable pub open_bit : ℕ → ℕ → Option ℕ
open_bit b zero = none
open_bit b (suc j) = let more = open_bit b j in if bit b j == 0 then some j else more

-- naf_flmp_blkalloc: the address of a block, or null, and the pool afterwards.
unfoldable pub blkalloc : Flmp → Option (Option ℕ × Flmp)
unfolding open_byte open_bit or_bit
blkalloc flmp = (open_byte flmp.allocmaplen flmp.allocmap) >>= λ found. elim found [
  | none ↦ some (none, flmp)
  | some i ↦
      let b : ℕ = get_or flmp.allocmap i 0 in
      (open_bit b 8) >>= λ j. some (
        some (flmp.region + (i * 8 + (7 - j)) * flmp.blklen % 2 ^ 32),
        record flmp { allocmap = set flmp.allocmap i (or_bit b j) },
      )
]

-- naf_flmp_blkfree of a block that is not null.
unfoldable pub blkfree : Flmp → ℕ → Option Flmp
unfolding xor_bit
blkfree flmp block =
    let blknum : ℕ = (block - flmp.region) / flmp.blklen in
    let j : ℕ = 7 - blknum % 8 in
    if ltb block flmp.region || ltb flmp.blkcount blknum
    then none
    else (get_elem? flmp.allocmap (blknum / 8)) >>= λ b.
        (if bit b j == 0
          then none
          else some (record flmp { allocmap = set flmp.allocmap (blknum / 8) (xor_bit b j) }))
