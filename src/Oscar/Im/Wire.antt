-- ===== src/Oscar/Im/Wire.antt =====
-- timps/oscar/im.c: the sections of a message on the wire and the text that they stand for, independent
-- of the code.
use timps.Prelude.{
  ℕ, zero, suc, ◌+◌, ◌-◌, ◌/◌, ◌%◌, ◌^◌, ◌<◌, ◌≡◌, ◌≢◌, ◌⊎◌, List, [], ◌∷◌, ◌++◌, ltb, leb,
  if◌then◌else◌, length, All,
}
use timps.Bytes.{byte_put16}

-- A section with its flags: bytes of one character each, 16-bit characters, or an encoding that the
-- program does not read.
pub data Part : Type 0 where
  ascii : ℕ → ℕ → List ℕ → Part
  wide : ℕ → List ℕ → Part
  foreign : ℕ → ℕ → List ℕ → Part

abbrev pub chars_wire : List ℕ → List ℕ
chars_wire [] = []
chars_wire (c ∷ cs) = byte_put16 c ++ chars_wire cs

abbrev pub hexadecimal_digit : ℕ → ℕ
hexadecimal_digit d = if leb d 9 then b'0' + d else b'a' + (d - 10)

-- A number in that many hexadecimal digits, the highest first.
abbrev pub hexadecimal : ℕ → ℕ → List ℕ
hexadecimal zero n = []
hexadecimal (suc width) n = hexadecimal width (n / 16) ++ (hexadecimal_digit (n % 16) ∷ [])

-- How a character of 16 bits is to stand in the text: itself below 128, and else its number in four
-- hexadecimal digits between "&#" and ";".
abbrev pub char_text : ℕ → List ℕ
char_text c = if ltb c 128 then c ∷ [] else b'&' ∷ b'#' ∷ (hexadecimal 4 c ++ (b';' ∷ []))

abbrev pub chars_text : List ℕ → List ℕ
chars_text [] = []
chars_text (c ∷ cs) = char_text c ++ chars_text cs

abbrev pub first_flag : Part → ℕ
first_flag (ascii f1 f2 bs) = f1
first_flag (wide f2 cs) = 2
first_flag (foreign f1 f2 bs) = f1

abbrev pub second_flag : Part → ℕ
second_flag (ascii f1 f2 bs) = f2
second_flag (wide f2 cs) = f2
second_flag (foreign f1 f2 bs) = f2

abbrev pub body : Part → List ℕ
body (ascii f1 f2 bs) = bs
body (wide f2 cs) = chars_wire cs
body (foreign f1 f2 bs) = bs

abbrev pub part_wire : Part → List ℕ
part_wire p =
    1
    ∷ 1
    ∷ (byte_put16 (length (body p) + 4)
        ++ (byte_put16 (first_flag p) ++ (byte_put16 (second_flag p) ++ body p)))

abbrev pub parts_wire : List Part → List ℕ
parts_wire [] = []
parts_wire (p ∷ ps) = part_wire p ++ parts_wire ps

-- The text of a part.
abbrev pub part_text : Part → List ℕ
part_text (ascii f1 f2 bs) = bs
part_text (wide f2 cs) = chars_text cs
part_text (foreign f1 f2 bs) = []

abbrev pub parts_text : List Part → List ℕ
parts_text [] = []
parts_text (p ∷ ps) = part_text p ++ parts_text ps

abbrev pub is_foreign : Part → ℕ
is_foreign (ascii f1 f2 bs) = 0
is_foreign (wide f2 cs) = 0
is_foreign (foreign f1 f2 bs) = 1

-- How many parts the text leaves out.
abbrev pub foreigns : List Part → ℕ
foreigns [] = 0
foreigns (p ∷ ps) = is_foreign p + foreigns ps

-- The flag names the kind.
abbrev pub IsKind : Part → Type 0
IsKind (ascii f1 f2 bs) = (f1 ≡ 0) ⊎ (f1 ≡ 3)
IsKind (wide f2 cs) = All (λ (c : ℕ). c < 2 ^ 16) cs
IsKind (foreign f1 f2 bs) = (f1 ≢ 0) × (f1 ≢ 2) × (f1 ≢ 3) × (f1 < 2 ^ 16)

pub record IsPart (p : Part) : Type 0 where
  pub kind : IsKind p
  pub flag_fits : second_flag p < 2 ^ 16
  pub len_fits : length (body p) + 4 < 2 ^ 16
