-- ===== src/Oscar/Im/Entity.antt =====
-- timps/oscar/im.c: the entities that stand for characters outside ASCII, as HTML reads them.
use timps.Prelude.{
  ℕ, ◌+◌, ◌-◌, ◌*◌, ◌/◌, ◌%◌, ◌^◌, ◌≤◌, ◌<◌, ◌≡◌, ◌≢◌, inl, inr, ap, sym, ◌∙◌, refl, ◌&&◌, ◌||◌,
  Bool-cases, true, false, Option, none, some, List, [], ◌∷◌, ◌++◌, ltb, leb, ◌==◌, if◌then◌else◌,
  arith,
}
use timps.Oscar.Im.{hex_digit, entity}
use timps.Oscar.Im.Wire.{hexadecimal, hexadecimal_digit}

-- The value of a digit; 16 for a byte that is none.
abbrev pub value : ℕ → ℕ
value d =
    if leb b'0' d && leb d b'9'
    then d - b'0'
    else if leb b'a' d && leb d b'f'
    then d - b'a' + 10
    else if leb b'A' d && leb d b'F'
    then d - b'A' + 10
    else 16

-- The number before a ';', from its digits to a base of at most 16.
unfoldable pub number : ℕ → ℕ → List ℕ → Option ℕ
number base n [] = none
number base n (d ∷ ds) =
    let rest = number base (n * base + value d) ds in
    if d == b';' then some n else if ltb (value d) base then rest else none

-- The same with at least one digit.
unfoldable pub digits : ℕ → List ℕ → Option ℕ
unfolding number
digits base [] = none
digits base (d ∷ ds) = if d == b';' then none else number base 0 (d ∷ ds)

-- The number in a numeric character reference of HTML: "&#" with decimal digits, or "&#x" or "&#X" with
-- hexadecimal ones, and ";".
unfoldable pub reference : List ℕ → Option ℕ
unfolding digits
reference (a ∷ b ∷ x ∷ ds) =
    if (a == b'&') && (b == b'#')
    then (if (x == b'x') || (x == b'X') then digits 16 ds else digits 10 (x ∷ ds))
    else none
reference other = none

-- A digit of a hexadecimal number that is no decimal digit ends a decimal one.
number-hex :
    (n d : ℕ) (ds : List ℕ)
    → d < 16
    → number 10 n (hex_digit d ∷ ds) ≡ (if ltb d 10 then number 10 (n * 10 + d) ds else none)
unfolding number
number-hex n d ds h = elim (Bool-cases (ltb d 10)) [
  | inl small ↦
      let back : 48 + d - 48 ≡ d = omega arith in
      ground (arith, small, ap (λ k. number 10 (n * 10 + k) ds) back)
  | inr large ↦ ground (arith, large, h)
]

step :
    (n d : ℕ) (ds : List ℕ) (v : ℕ)
    → d < 16
    → number 10 n (hex_digit d ∷ ds) ≡ some v
    → number 10 (n * 10 + d) ds ≡ some v
step n d ds v h e = ground (arith, number-hex n d ds h, e)

last : (base n v : ℕ) → number base n (b';' ∷ []) ≡ some v → n ≡ v
unfolding number
last base n v e = cc

number_lem :
    (a b c d n : ℕ)
    → a < 16
    → b < 16
    → c < 16
    → d < 16
    → number 10 0 (hex_digit a ∷ hex_digit b ∷ hex_digit c ∷ hex_digit d ∷ b';' ∷ []) ≡ some n
    → n ≡ a * 1000 + b * 100 + c * 10 + d
number_lem a b c d n ha hb hc hd e =
    let e1 = step 0 a (hex_digit b ∷ hex_digit c ∷ hex_digit d ∷ b';' ∷ []) n ha e in
    let e2 = step (0 * 10 + a) b (hex_digit c ∷ hex_digit d ∷ b';' ∷ []) n hb e1 in
    let e3 = step ((0 * 10 + a) * 10 + b) c (hex_digit d ∷ b';' ∷ []) n hc e2 in
    let e4 = step (((0 * 10 + a) * 10 + b) * 10 + c) d (b';' ∷ []) n hd e3 in
    omega (arith, last 10 ((((0 * 10 + a) * 10 + b) * 10 + c) * 10 + d) n e4)

not_x : (d : ℕ) → d < 16 → ((hex_digit d == b'x') || (hex_digit d == b'X')) ≡ false
not_x d h = elim (Bool-cases (ltb d 10)) [ inl small ↦ ground arith | inr large ↦ ground arith ]

not_end : (d : ℕ) → d < 16 → (hex_digit d == b';') ≡ false
not_end d h = elim (Bool-cases (ltb d 10)) [ inl small ↦ ground arith | inr large ↦ ground arith ]

-- The hexadecimal digits are read as decimal ones, since the first is no 'x'.
reference-entity :
    (c : ℕ)
    → reference (entity c)
      ≡ number 10 0 (
          hex_digit (c / 4096 % 16)
          ∷ hex_digit (c / 256 % 16)
          ∷ hex_digit (c / 16 % 16)
          ∷ hex_digit (c % 16)
          ∷ b';'
          ∷ [])
unfolding reference digits entity
reference-entity c =
    let first : c / 4096 % 16 < 16 = omega arith in
    rw (not_x (c / 4096 % 16) first, not_end (c / 4096 % 16) first) refl

value-hexadecimal_digit : (d : ℕ) → d < 16 → value (hexadecimal_digit d) ≡ d
value-hexadecimal_digit d h = ground arith

digit-no_end : (d : ℕ) → d < 16 → (hexadecimal_digit d == b';') ≡ false
digit-no_end d h = ground arith

-- A hexadecimal digit is read as its value.
number-hexadecimal_digit :
    (n d : ℕ) (ds : List ℕ)
    → d < 16
    → number 16 n (hexadecimal_digit d ∷ ds) ≡ number 16 (n * 16 + d) ds
unfolding number
number-hexadecimal_digit n d ds h =
    let low : ltb d 16 ≡ true = ground arith in
    rw (digit-no_end d h, value-hexadecimal_digit d h, low) refl

digits-number :
    (base d : ℕ) (ds : List ℕ) → (d == b';') ≡ false → digits base (d ∷ ds) ≡ number base 0 (d ∷ ds)
unfolding digits
digits-number base d ds e = rw (digits, e) refl

number-end : (base n : ℕ) → number base n (b';' ∷ []) ≡ some n
unfolding number
number-end base n = refl

reference-hexadecimal :
    (c : ℕ)
    → c < 2 ^ 16
    → reference (b'&' ∷ b'#' ∷ b'x' ∷ (hexadecimal 4 c ++ (b';' ∷ []))) ≡ some c
unfolding reference
reference-hexadecimal c h =
    let end : List ℕ = b';' ∷ [] in
    let d1 : ℕ = c % 16 in
    let d2 : ℕ = c / 16 % 16 in
    let d3 : ℕ = c / 16 / 16 % 16 in
    let d4 : ℕ = c / 16 / 16 / 16 % 16 in
    let ds2 : List ℕ = hexadecimal_digit d1 ∷ end in
    let ds3 : List ℕ = hexadecimal_digit d2 ∷ ds2 in
    let ds4 : List ℕ = hexadecimal_digit d3 ∷ ds3 in
    digits-number 16 (hexadecimal_digit d4) ds4 (digit-no_end d4 (omega arith))
    ∙ number-hexadecimal_digit 0 d4 ds4 (omega arith)
    ∙ number-hexadecimal_digit (0 * 16 + d4) d3 ds3 (omega arith)
    ∙ number-hexadecimal_digit ((0 * 16 + d4) * 16 + d3) d2 ds2 (omega arith)
    ∙ number-hexadecimal_digit (((0 * 16 + d4) * 16 + d3) * 16 + d2) d1 end (omega arith)
    ∙ number-end 16 ((((0 * 16 + d4) * 16 + d3) * 16 + d2) * 16 + d1)
    ∙ ap some (omega arith)

-- A numeric character reference of HTML has decimal digits, or hexadecimal ones behind an x. What
-- toscar_icbm__extractmsgtext writes for a 16-bit character from 128 on is not read as that
-- character, while the same digits behind an x are.
pub entity-reference :
    (c : ℕ)
    → 128 ≤ c
    → c < 2 ^ 16
    → (reference (entity c) ≢ some c)
      × (reference (b'&' ∷ b'#' ∷ b'x' ∷ (hexadecimal 4 c ++ (b';' ∷ []))) ≡ some c)
entity-reference c low high = (
  λ e.
      let v =
        number_lem (c / 4096 % 16) (c / 256 % 16) (c / 16 % 16) (c % 16) c (omega arith)
          (omega arith) (omega arith) (omega arith) (sym (reference-entity c) ∙ e) in
      omega (arith, v, low, high),
  reference-hexadecimal c high,
)
