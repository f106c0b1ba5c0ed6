-- ===== src/Bytes.antt =====
-- include/naf/nafbufutils.h, the macros naf_byte_put8 to naf_byte_get32: integers as bytes, the
-- highest first.
use timps.Prelude.{ℕ, ◌+◌, ◌*◌, ◌/◌, ◌%◌, ◌^◌, ◌<◌, ◌≡◌, refl, List, [], ◌∷◌, arith, length}

-- What `naf_byte_put8(buf, v)` leaves in `buf`, and likewise the two below.
unfoldable pub byte_put8 : ℕ → List ℕ
byte_put8 v = v % 256 ∷ []

unfoldable pub byte_put16 : ℕ → List ℕ
byte_put16 v = v / 256 % 256 ∷ v % 256 ∷ []

unfoldable pub byte_put32 : ℕ → List ℕ
byte_put32 v = v / 16777216 % 256 ∷ v / 65536 % 256 ∷ v / 256 % 256 ∷ v % 256 ∷ []

-- The bytes at `buf`, masked, shifted and joined; `|` joins disjoint bits, so it is a sum.
unfoldable pub byte_get8 : List ℕ → ℕ
byte_get8 [] = 0
byte_get8 (a ∷ _) = a % 256

unfoldable pub byte_get16 : List ℕ → ℕ
byte_get16 (a ∷ b ∷ _) = a % 256 * 256 + b % 256
byte_get16 _ = 0

unfoldable pub byte_get32 : List ℕ → ℕ
byte_get32 (a ∷ b ∷ c ∷ d ∷ _) = a % 256 * 16777216 + b % 256 * 65536 + c % 256 * 256 + d % 256
byte_get32 _ = 0

pub get8-put8 : (v : ℕ) → v < 256 → byte_get8 (byte_put8 v) ≡ v
unfolding byte_get8 byte_put8
get8-put8 v h = omega arith

pub get16-put16 : (v : ℕ) → v < 65536 → byte_get16 (byte_put16 v) ≡ v
unfolding byte_get16 byte_put16
get16-put16 v h = omega arith

pub get32-put32 : (v : ℕ) → v < 2 ^ 32 → byte_get32 (byte_put32 v) ≡ v
unfolding byte_get32 byte_put32
get32-put32 v h = omega arith

pub length-put16 : (v : ℕ) → length (byte_put16 v) ≡ 2
unfolding byte_put16
length-put16 v = refl

pub length-put32 : (v : ℕ) → length (byte_put32 v) ≡ 4
unfolding byte_put32
length-put32 v = refl
