-- ===== src/Oscar/Im/Wide.antt =====
-- timps/oscar/im.c: the two loops over the characters of a 16-bit section that the wire holds.
use timps.Prelude.{
  ℕ, ◌+◌, ◌/◌, ◌%◌, ◌^◌, ◌<◌, ◌≡◌, inl, inr, refl, sym, ◌∙◌, ap, true, false, Bool-cases, some,
  List, [], ◌∷◌, ◌++◌, append_assoc, append-nil, ltb, if◌then◌else◌, arith, length, length-append,
  take, All,
}
use mathlib.Core.Path.{subst}
use timps.Bytes.{byte_put16}
use timps.Sbuf.{Sbuf}
use timps.Prelude.{length-take, take-take, take-append_of_length}
use timps.Sbuf.Valid.{IsValid, pending}
use timps.Sbuf.Read.{skip}
use timps.Tlv.Parse.{get16-pending}
use timps.Oscar.Im.{Text, hex_digit, entity, count_chars, write_char, write_chars}
use timps.Oscar.Im.Blocks.{store-Wrote, Reads, Reads-trans, skip-Reads}
use timps.Oscar.Im.Wire.{hexadecimal_digit, hexadecimal, chars_wire, char_text, chars_text}

-- A write of a text behind the text so far.
pub record Extended (t : Text) (text : List ℕ) (t' : Text) : Type 0 where
  pub len : t'.len ≡ t.len + length text
  pub same_length : length t'.block ≡ length t.block
  pub appended : take t'.len t'.block ≡ take t.len t.block ++ text

Extended-trans :
    (a : Text) (xs : List ℕ) (b : Text) (ys : List ℕ) (c : Text)
    → Extended a xs b
    → Extended b ys c
    → Extended a (xs ++ ys) c
Extended-trans a xs b ys c p q = record {
  len = omega (arith, p.len, q.len, length-append xs ys);
  same_length = q.same_length ∙ p.same_length;
  appended = q.appended ∙ ap (λ l. l ++ ys) p.appended ∙ append_assoc (take a.len a.block) xs ys;
}

write_plain :
    (t : Text) (c : ℕ)
    → ltb c 128 ≡ true
    → t.len + 1 < length t.block
    → (t' : Text) × (write_char t c ≡ some t') × Extended t (c ∷ []) t'
unfolding write_char
write_plain t c plain h =
    let (b, e, w) = store-Wrote t.block t.len (c ∷ []) (omega (arith, h)) in
    (
      record { block = b; len = t.len + 1 },
      rw (plain, e) refl,
      record { len = refl; same_length = w.same_length; appended = w.front },
    )

write_entity :
    (t : Text) (c : ℕ)
    → ltb c 128 ≡ false
    → t.len + 7 < length t.block
    → (t' : Text) × (write_char t c ≡ some t') × Extended t (entity c) t'
unfolding write_char
write_entity t c high h =
    let seven : length (entity c) ≡ 7 = unfold entity in refl in
    let eight : length (entity c ++ (0 ∷ [])) ≡ 8 = unfold entity in refl in
    let (b, e, w) = store-Wrote t.block t.len (entity c ++ (0 ∷ [])) (omega (arith, h, eight)) in
    let end_entity : t.len + 7 ≡ length (take t.len t.block ++ entity c) =
      omega (
        arith,
        seven,
        h,
        length-append (take t.len t.block) (entity c),
        length-take t.len t.block,
      ) in
    (
      record { block = b; len = t.len + 7 },
      rw (high, e) refl,
      record {
        len = omega (arith, seven);
        same_length = w.same_length;
        appended =
            sym (
              take-take (t.len + 7) (t.len + length (entity c ++ (0 ∷ []))) b
                (omega (arith, eight)))
            ∙ ap (take (t.len + 7))
                (w.front ∙ sym (append_assoc (take t.len t.block) (entity c) (0 ∷ [])))
            ∙ take-append_of_length (take t.len t.block ++ entity c) (0 ∷ []) (t.len + 7)
                (sym end_entity);
      },
    )

hex_digit_lem : (m n : ℕ) → m ≡ n → hex_digit m ≡ hexadecimal_digit n
hex_digit_lem m n e = ground (arith, e)

entity-hexadecimal : (c : ℕ) → entity c ≡ b'&' ∷ b'#' ∷ (hexadecimal 4 c ++ (b';' ∷ []))
unfolding entity
entity-hexadecimal c =
    let d4 = hex_digit_lem (c / 4096 % 16) (c / 16 / 16 / 16 % 16) (omega arith) in
    let d3 = hex_digit_lem (c / 256 % 16) (c / 16 / 16 % 16) (omega arith) in
    let d2 = hex_digit_lem (c / 16 % 16) (c / 16 % 16) refl in
    let d1 = hex_digit_lem (c % 16) (c % 16) refl in rw (d4, d3, d2, d1) refl

write_char-Extended :
    (t : Text) (c : ℕ)
    → t.len + length (char_text c) < length t.block
    → (t' : Text) × (write_char t c ≡ some t') × Extended t (char_text c) t'
write_char-Extended t c h = elim (Bool-cases (ltb c 128)) [
  | inl plain ↦ rw plain (write_plain t c plain (ground (arith, h, plain)))
  | inr high ↦ rw high (
      subst (λ l. (t' : Text) × (write_char t c ≡ some t') × Extended t l t') (entity-hexadecimal c)
        (write_entity t c high (ground (arith, h, high))))
]

char_counted : (c : ℕ) → (if ltb c 128 then 1 else 7) ≡ length (char_text c)
char_counted c = elim (Bool-cases (ltb c 128)) [ inl e ↦ rw e refl | inr e ↦ rw e refl ]

-- Both loops go over the characters and stop at the same place. The first counts the bytes that the
-- second then writes.
pub record Looped (cs rest : List ℕ) (sb sb' : Sbuf) : Type 0 where
  pub reads : Reads sb sb'
  pub left : pending sb' ≡ rest
  pub counts : (n : ℕ) → count_chars (length cs) sb n ≡ some (n + length (chars_text cs), sb')
  pub writes :
      (t : Text)
      → t.len + length (chars_text cs) < length t.block
      → (t' : Text) × (write_chars (length cs) sb t ≡ some (t', sb'))
        × Extended t (chars_text cs) t'

pub chars-Looped :
    (cs rest : List ℕ) (sb : Sbuf)
    → IsValid sb
    → sb.auto_resize ≡ false
    → All (λ (c : ℕ). c < 2 ^ 16) cs
    → pending sb ≡ chars_wire cs ++ rest
    → (sb' : Sbuf) × Looped cs rest sb sb'
unfolding count_chars write_chars
chars-Looped [] rest sb v fixed u e = (
  sb,
  record {
    reads = record {
      valid = v;
      fixed = fixed;
      same_buflen = refl;
      forward = omega arith;
      back = refl;
    };
    left = e;
    counts = λ n. ap (λ k. some (k, sb)) (plus_nothing n);
    writes = λ t h. (
      t,
      refl,
      record {
        len = omega arith;
        same_length = refl;
        appended = sym (append-nil (take t.len t.block));
      },
    );
  },
)
  where
    plus_nothing : (n : ℕ) → n ≡ n + 0
    plus_nothing n = omega arith
chars-Looped (c ∷ cs) rest sb v fixed (small, u) e =
    let (e1, v1, p1) =
      get16-pending sb c (chars_wire cs ++ rest) v small
        (e ∙ append_assoc (byte_put16 c) (chars_wire cs) rest) in
    let (sb2, more) = chars-Looped cs rest (skip sb 2) v1 fixed u p1 in
    let total = length-append (char_text c) (chars_text cs) in
    (
      sb2,
      record {
        reads = Reads-trans sb (skip sb 2) sb2 (skip-Reads sb 2 v fixed v1.cursor) more.reads;
        left = more.left;
        counts = λ n.
            rw (e1, char_counted c)
              (more.counts (n + length (char_text c))
                ∙ ap (λ k. some (k, sb2))
                    (together n (length (char_text c)) (length (chars_text cs))
                      ∙ ap (λ k. n + k) (sym total)));
        writes = λ t h.
            let (t1, w1, x1) = write_char-Extended t c (omega (arith, h, total)) in
            let (t2, w2, x2) = more.writes t1 (omega (arith, h, total, x1.len, x1.same_length)) in
            (t2, rw (e1, w1) w2, Extended-trans t (char_text c) t1 (chars_text cs) t2 x1 x2);
      },
    )
  where
    together : (n a b : ℕ) → n + a + b ≡ n + (a + b)
    together n a b = omega arith
