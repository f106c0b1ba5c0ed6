-- ===== src/Gnr/Msg/Order.antt =====
-- gnr/msg.c: the order in which the handlers of one stage stand.
use timps.Prelude.{
  ℕ, ◌<◌, ◌≤◌, ◌≡◌, inl, inr, refl, ap, Bool-cases, none, some, List, [], ◌∷◌, ◌++◌, leb, ◌==◌,
  arith, All,
}
use timps.Gnr.Msg.{Mh, mh_insert, mh_remove}

abbrev pub IsSorted : List Mh → Type 0
IsSorted [] = Unit
IsSorted (mh ∷ mhs) = All (λ (k : Mh). mh.position ≤ k.position) mhs × IsSorted mhs

-- Where a handler stands among others: behind those of lower positions, and before all those of its
-- own position or a higher one.
pub record Placed (mhs : List Mh) (mh : Mh) (mhs' : List Mh) : Type 0 where
  pub before : List Mh
  pub after : List Mh
  pub split : mhs ≡ before ++ after
  pub placed : mhs' ≡ before ++ (mh ∷ after)
  pub lower : All (λ (k : Mh). k.position < mh.position) before
  pub higher : All (λ (k : Mh). mh.position ≤ k.position) after

All-mh_insert :
    (P : Mh → Type 0) (mhs : List Mh) (mh : Mh) → All P mhs → P mh → All P (mh_insert mhs mh)
unfolding mh_insert
All-mh_insert P [] mh u h = (h, tt)
All-mh_insert P (cur ∷ mhs) mh (hc, u) h = elim (Bool-cases (leb mh.position cur.position)) [
  | inl e ↦ rw e (h, (hc, u))
  | inr e ↦ rw e (hc, All-mh_insert P mhs mh u h)
]

All-mh_remove : (P : Mh → Type 0) (mhs : List Mh) (f : ℕ) → All P mhs → All P (mh_remove mhs f).1
unfolding mh_remove
All-mh_remove P [] f u = tt
All-mh_remove P (cur ∷ mhs) f (h, u) = elim (Bool-cases (cur.handlerfunc == f)) [
  | inl e ↦ rw e u
  | inr e ↦ rw e (h, All-mh_remove P mhs f u)
]

All-≤ :
    (m n : ℕ) (mhs : List Mh)
    → m ≤ n
    → All (λ (k : Mh). n ≤ k.position) mhs
    → All (λ (k : Mh). m ≤ k.position) mhs
All-≤ m n [] h u = tt
All-≤ m n (k ∷ mhs) h (hk, u) = (omega (arith, h, hk), All-≤ m n mhs h u)

pub mh_insert-Placed : (mhs : List Mh) (mh : Mh) → IsSorted mhs → Placed mhs mh (mh_insert mhs mh)
unfolding mh_insert
mh_insert-Placed [] mh s = record {
  before = [];
  after = [];
  split = refl;
  placed = refl;
  lower = tt;
  higher = tt;
}
mh_insert-Placed (cur ∷ mhs) mh (u, s) = elim (Bool-cases (leb mh.position cur.position)) [
  | inl e ↦
      let le : mh.position ≤ cur.position = ground (arith, e) in
      record {
        before = [];
        after = cur ∷ mhs;
        split = refl;
        placed = rw e refl;
        lower = tt;
        higher = (le, All-≤ mh.position cur.position mhs le u);
      }
  | inr e ↦
      let p = mh_insert-Placed mhs mh s in
      record {
        before = cur ∷ p.before;
        after = p.after;
        split = ap (λ l. cur ∷ l) p.split;
        placed = rw e (ap (λ l. cur ∷ l) p.placed);
        lower = (ground (arith, e), p.lower);
        higher = p.higher;
      }
]

pub mh_insert-IsSorted : (mhs : List Mh) (mh : Mh) → IsSorted mhs → IsSorted (mh_insert mhs mh)
unfolding mh_insert
mh_insert-IsSorted [] mh s = (tt, tt)
mh_insert-IsSorted (cur ∷ mhs) mh (u, s) = elim (Bool-cases (leb mh.position cur.position)) [
  | inl e ↦
      let le : mh.position ≤ cur.position = ground (arith, e) in
      rw e ((le, All-≤ mh.position cur.position mhs le u), (u, s))
  | inr e ↦ rw e (
    All-mh_insert (λ k. cur.position ≤ k.position) mhs mh u (ground (arith, e)),
    mh_insert-IsSorted mhs mh s,
  )
]

pub mh_remove-IsSorted : (mhs : List Mh) (f : ℕ) → IsSorted mhs → IsSorted (mh_remove mhs f).1
unfolding mh_remove
mh_remove-IsSorted [] f s = tt
mh_remove-IsSorted (cur ∷ mhs) f (u, s) = elim (Bool-cases (cur.handlerfunc == f)) [
  | inl e ↦ rw e s
  | inr e ↦
      rw e (All-mh_remove (λ k. cur.position ≤ k.position) mhs f u, mh_remove-IsSorted mhs f s)
]

-- A handler that was not there is found where it was put.
pub mh_remove-mh_insert :
    (mhs : List Mh) (mh : Mh)
    → (mh_remove mhs mh.handlerfunc).0 ≡ none
    → mh_remove (mh_insert mhs mh) mh.handlerfunc ≡ (some mh, mhs)
unfolding mh_insert mh_remove
mh_remove-mh_insert [] mh absent = ground arith
mh_remove-mh_insert (cur ∷ mhs) mh absent = elim (Bool-cases (cur.handlerfunc == mh.handlerfunc)) [
  | inl e ↦ absurd (ground (arith, absent, e))
  | inr e ↦ let ih = mh_remove-mh_insert mhs mh (ground (arith, absent, e)) in ground (arith, e, ih)
]

pub mh_insert-bounded :
    (n : ℕ) (mhs : List Mh) (mh : Mh)
    → All (λ (k : Mh). k.position ≤ n) mhs
    → mh.position ≤ n
    → All (λ (k : Mh). k.position ≤ n) (mh_insert mhs mh)
mh_insert-bounded n = All-mh_insert (λ k. k.position ≤ n)

pub mh_remove-bounded :
    (n : ℕ) (mhs : List Mh) (f : ℕ)
    → All (λ (k : Mh). k.position ≤ n) mhs
    → All (λ (k : Mh). k.position ≤ n) (mh_remove mhs f).1
mh_remove-bounded n = All-mh_remove (λ k. k.position ≤ n)
