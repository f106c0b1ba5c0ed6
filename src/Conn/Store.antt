-- ===== src/Conn/Store.antt =====
-- naf/conn.c: the laws of the list of connections, and lists whose links point at open connections.
use timps.Prelude.{
  ℕ, suc, ◌≤◌, ◌<◌, ◌≡◌, ◌⊎◌, inl, inr, refl, ◌∙◌, ap, Bool, true, false, ◌||◌, Option, none, some,
  List, [], ◌∷◌, ◌==◌, if◌then◌else◌, arith, length,
}
use timps.Conn.{Conn, lookup, adjust, closefdt, addresses, points}

abbrev pub on_some : (Conn → Conn) → Option Conn → Option Conn
on_some f none = none
on_some f (some c) = some (f c)

abbrev pub is_open : List Conn → ℕ → Bool
is_open l id = elim (lookup l id) [ none ↦ false | some _ ↦ true ]

abbrev pub elem : ℕ → List ℕ → Bool
elem t [] = false
elem t (x ∷ xs) = (x == t) || elem t xs

pub lookup-closefdt :
    (l : List Conn) (d id : ℕ) → lookup (closefdt l d) id ≡ (if id == d then none else lookup l id)
unfolding lookup closefdt
lookup-closefdt [] d id = ground arith
lookup-closefdt (c ∷ cs) d id = ground (arith, lookup-closefdt cs d id)

-- A write keeps the address.
pub lookup-adjust :
    (l : List Conn) (k id : ℕ) (f : Conn → Conn)
    → ((c : Conn) → (f c).id ≡ c.id)
    → lookup (adjust l k f) id ≡ (if id == k then on_some f (lookup l id) else lookup l id)
unfolding lookup adjust
lookup-adjust [] k id f keeps = ground arith
lookup-adjust (c ∷ cs) k id f keeps = ground (arith, lookup-adjust cs k id f keeps, keeps c)

pub length-adjust : (l : List Conn) (k : ℕ) (f : Conn → Conn) → length (adjust l k f) ≡ length l
unfolding adjust
length-adjust [] k f = refl
length-adjust (c ∷ cs) k f = ap suc (length-adjust cs k f)

pub length-closefdt_le : (l : List Conn) (d : ℕ) → length (closefdt l d) ≤ length l
unfolding closefdt
length-closefdt_le [] d = omega arith
length-closefdt_le (c ∷ cs) d = ground (arith, length-closefdt_le cs d)

pub length-closefdt_lt :
    (l : List Conn) (d : ℕ) → is_open l d ≡ true → length (closefdt l d) < length l
unfolding closefdt lookup
length-closefdt_lt [] d h = absurd (ground arith)
length-closefdt_lt (c ∷ cs) d h = ground (arith, length-closefdt_le cs d, length-closefdt_lt cs d)

pub lookup-addresses : (l : List Conn) (id : ℕ) → is_open l id ≡ true → elem id (addresses l) ≡ true
unfolding lookup
lookup-addresses [] id h = h
lookup-addresses (c ∷ cs) id h = ground (arith, lookup-addresses cs id)

-- A link points at an open connection or at one of `dying`.
abbrev pub Target : List ℕ → List Conn → Option ℕ → Type 0
Target dying l none = Unit {0}
Target dying l (some t) = (is_open l t || elem t dying) ≡ true

pub record IsLinked (dying : List ℕ) (l : List Conn) : Type 0 where
  pub endpoint_open : (id : ℕ) (c : Conn) → lookup l id ≡ some c → Target dying l c.endpoint
  pub parent_open : (id : ℕ) (c : Conn) → lookup l id ≡ some c → Target dying l c.parent

-- The link was kept or cut.
abbrev pub Kept : Option ℕ → Option ℕ → Type 0
Kept old now = (now ≡ none) ⊎ (now ≡ old)

-- Connections only leave and links are only cut.
pub record Shrinks (l l' : List Conn) : Type 0 where
  pub shorter : length l' ≤ length l
  pub from :
      (id : ℕ) (c' : Conn)
      → lookup l' id ≡ some c'
      → (c : Conn) × (lookup l id ≡ some c) × Kept c.endpoint c'.endpoint × Kept c.parent c'.parent

pub Shrinks-refl : (l : List Conn) → Shrinks l l
Shrinks-refl l = record { shorter = omega arith; from = λ id c' e. (c', e, inr refl, inr refl) }

Kept-trans : (a b c : Option ℕ) → Kept a b → Kept b c → Kept a c
Kept-trans a b c p (inl q) = inl q
Kept-trans a b c (inl p) (inr q) = inl (q ∙ p)
Kept-trans a b c (inr p) (inr q) = inr (q ∙ p)

pub Shrinks-trans : (l m n : List Conn) → Shrinks l m → Shrinks m n → Shrinks l n
Shrinks-trans l m n p q = record {
  shorter = omega (arith, p.shorter, q.shorter);
  from = λ id c' e.
      let (b, eb, be, bp) = q.from id c' e in
      let (a, ea, ae, ap') = p.from id b eb in
      (
        a,
        ea,
        Kept-trans a.endpoint b.endpoint c'.endpoint ae be,
        Kept-trans a.parent b.parent c'.parent ap' bp,
      );
}

pub Shrinks-closefdt : (l : List Conn) (d : ℕ) → Shrinks l (closefdt l d)
Shrinks-closefdt l d = record {
  shorter = length-closefdt_le l d;
  from = λ id c' e.
      let e' : lookup l id ≡ some c' = ground (arith, lookup-closefdt l d id, e) in
      (c', e', inr refl, inr refl);
}

-- No open connection has the link at `dead`.
abbrev pub Free : (Conn → Option ℕ) → ℕ → List Conn → Type 0
Free link dead l = (id : ℕ) (c : Conn) → lookup l id ≡ some c → points (link c) dead ≡ false

pub points-Kept :
    (old now : Option ℕ) (t : ℕ) → Kept old now → points old t ≡ false → points now t ≡ false
points-Kept old now t (inl e) h = rw e refl
points-Kept old now t (inr e) h = rw e h
