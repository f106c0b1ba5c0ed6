-- ===== src/Tlv/Total.antt =====
-- naf/tlv.c: naf_tlv_parse_limit on bytes of any kind.
use timps.Prelude.{
  ℕ, zero, suc, ◌+◌, ◌-◌, ◌^◌, ◌≤◌, ◌<◌, ◌≡◌, refl, inl, inr, Option, none, some, List, [], ◌∷◌,
  arith, ltb, ◌==◌, Bool-cases, Option-cases, length, take, drop, ◌%◌,
}
use timps.Sbuf.{Sbuf, some_left, get16}
use timps.Sbuf.Valid.{IsValid}
use timps.Sbuf.Read.{skip}
use timps.Bytes.{byte_get16}
use timps.Sbuf.Strings.{getraw}
use timps.Tlv.{Tlv, done, new, parse_one, parse_loop, parse_limit}

get16_total :
    (sb : Sbuf) → IsValid sb → (n : ℕ) × (sb' : Sbuf) × (get16 sb ≡ some (n, sb')) × IsValid sb'
unfolding get16
get16_total sb v = elim (Bool-cases (ltb sb.buflen (sb.pos + 2))) [
  | inl short ↦ (0, sb, ground arith, v)
  | inr enough ↦ (
    byte_get16 (take 2 (drop sb.pos sb.buf)),
    skip sb 2,
    ground (arith, v.storage, v.width, back (ground arith)),
    record { storage = v.storage; cursor = ground arith; width = v.width; small = v.small },
  )
]
  where
    back : sb.pos + 2 ≤ sb.buflen → (sb.pos + 2) % 2 ^ 16 - 2 ≡ sb.pos
    back h = omega (arith, v.width)

getraw_total :
    (malloc : ℕ → Option (List ℕ)) (sb : Sbuf) (n : ℕ)
    → IsValid sb
    → (out : Option (List ℕ)) × (sb' : Sbuf) × (getraw malloc sb n ≡ some (out, sb')) × IsValid sb'
unfolding getraw
getraw_total malloc sb n v = elim (Option-cases (malloc n)) [
  | inl refused ↦ (none, sb, ground arith, v)
  | inr (block, g) ↦ elim (Bool-cases (ltb sb.buflen (sb.pos + n))) [
    | inl short ↦ (none, sb, ground arith, v)
    | inr enough ↦ (
      some (take n (drop sb.pos sb.buf)),
      skip sb n,
      ground (arith, v.storage, v.width),
      record { storage = v.storage; cursor = ground arith; width = v.width; small = v.small },
    )
  ]
]

-- A pass over any bytes stays inside a valid buffer and leaves it valid.
pub parse_one_total :
    (malloc : ℕ → Option (List ℕ)) (sb : Sbuf)
    → IsValid sb
    → (out : Option Tlv) × (sb' : Sbuf) × (parse_one malloc sb ≡ some (out, sb')) × IsValid sb'
unfolding parse_one
parse_one_total malloc sb v =
    let (t, sb1, h1, v1) = get16_total sb v in
    let (l, sb2, h2, v2) = get16_total sb1 v1 in
    elim (Bool-cases (l == 0)) [
      | inl empty ↦ (new malloc t l none, sb2, ground (arith, h1, h2), v2)
      | inr full ↦
          let (out, sb3, h3, v3) = getraw_total malloc sb2 l v2 in
          (
            elim out [ none ↦ none | some bs ↦ new malloc t l (some bs) ],
            sb3,
            ground (arith, h1, h2, h3),
            v3,
          )
    ]

parse_loop_total :
    (malloc : ℕ → Option (List ℕ)) (fuel : ℕ) (sb : Sbuf) (k : ℕ)
    → IsValid sb
    → 0 < k
    → k ≤ fuel
    → (tlvs : List Tlv) × (sb' : Sbuf) × (parse_loop malloc fuel sb (some k) ≡ done (tlvs, sb'))
      × IsValid sb'
      × (length tlvs ≤ k)
unfolding parse_loop
parse_loop_total malloc zero sb k v p h = absurd (omega arith)
parse_loop_total malloc (suc fuel) sb k v p h =
    let (out, sb1, h1, v1) = parse_one_total malloc sb v in
    elim (Bool-cases (some_left sb)) [
      | inr ended ↦ ([], sb, ground (arith, ended), v, omega arith)
      | inl left ↦ elim (Option-cases out) [
        | inl stop ↦ ([], sb1, ground (arith, left, h1, stop), v1, omega arith)
        | inr (tlv, got) ↦ elim (Bool-cases (ltb 1 k)) [
          | inr last ↦ (tlv ∷ [], sb1, ground (arith, left, h1, got, last), v1, ground arith)
          | inl more ↦
              let (tlvs, sb2, h2, v2, n) =
                parse_loop_total malloc fuel sb1 (k - 1) v1 (ground arith) (omega arith) in
              (tlv ∷ tlvs, sb2, ground (arith, left, h1, got, more, h2), v2, ground arith)
        ]
      ]
    ]

-- With a limit below 2 ^ 16 as a message states it, and fuel of the limit, naf_tlv_parse_limit
-- ends without a fault on any valid buffer, leaves it valid, and makes at most that many nodes.
pub parse_limit_total :
    (malloc : ℕ → Option (List ℕ)) (fuel : ℕ) (sb : Sbuf) (k : ℕ)
    → IsValid sb
    → k ≤ fuel
    → (tlvs : List Tlv) × (sb' : Sbuf) × (parse_limit malloc fuel sb (some k) ≡ done (tlvs, sb'))
      × IsValid sb'
      × (length tlvs ≤ k)
unfolding parse_limit
parse_limit_total malloc fuel sb zero v h = ([], sb, refl, v, omega arith)
parse_limit_total malloc fuel sb (suc k) v h =
    parse_loop_total malloc fuel sb (suc k) v (omega arith) h
