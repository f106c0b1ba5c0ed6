-- ===== src/Tlv.antt =====
-- naf/tlv.c and the `naf_tlv_t` of include/naf/naftlv.h: lists of typed values.
--
-- A `naf_tlv_t *` is the list of the nodes that hang from it, and `tlv_value` is a block or null. A
-- `naf_tlv_t **` is the list before a call and the list after it. The frees have no counterpart.
pub mod Lookup
pub mod Wire
pub mod Parse
pub mod Total
pub mod Build
pub mod Add
pub mod Render
pub mod RoundTrip
pub mod Stuck
mod Runs
use timps.Prelude.{
  ℕ, zero, suc, ◌+◌, ◌-◌, ◌%◌, ◌^◌, Bool, true, false, Option, none, some, List, [], ◌∷◌, ◌++◌, ltb,
  ◌==◌, if◌then◌else◌, ◌>>=◌, length, load,
}
use timps.Bytes.{byte_put8, byte_put16, byte_put32, byte_get8, byte_get16, byte_get32}
use timps.Sbuf.{Sbuf, some_left, get16, put16, putraw, init_with}
use timps.Sbuf.Strings.{getraw}

pub record Tlv : Type 0 where
  pub type : ℕ
  pub len : ℕ
  pub value : Option (List ℕ)

-- sizeof(naf_tlv_t) on a 32-bit machine
abbrev pub tlv_size : ℕ
tlv_size = 12

-- How a loop ends: with a result, in undefined behaviour, or not within its fuel.
pub data Outcome {ℓ} (A : Type ℓ) : Type ℓ where
  done : A → Outcome A
  fault : Outcome A
  running : Outcome A

-- One pass of the loop of naf_tlv_parse_limit: a node, or `none` for a `break`.
module _ (malloc : ℕ → Option (List ℕ)) where
  -- naf_tlv_new
  unfoldable pub new : ℕ → ℕ → Option (List ℕ) → Option Tlv
  new type len value = elim (malloc tlv_size) [
    | none ↦ none
    | some _ ↦ some (record { type = type; len = len; value = value })
  ]

  unfoldable pub parse_one : Sbuf → Option (Option Tlv × Sbuf)
  parse_one sb = (get16 sb) >>= λ (t, sb1). (get16 sb1) >>= λ (l, sb2).
      if l == 0
      then some (new t l none, sb2)
      else (getraw malloc sb2 l) >>= λ (v, sb3).
          some (elim v [ none ↦ none | some bs ↦ new t l (some bs) ], sb3)

  -- The loop; the limit is `none` for -1. It is at least 1 whenever a pass begins.
  unfoldable pub parse_loop : ℕ → Sbuf → Option ℕ → Outcome (List Tlv × Sbuf)
  parse_loop zero sb limit = if some_left sb then running else done ([], sb)
  parse_loop (suc fuel) sb limit =
      let pass : Outcome (List Tlv × Sbuf) = elim (parse_one sb) [
        | none ↦ fault
        | some (none, sb') ↦ done ([], sb')
        | some (some tlv, sb') ↦
            let last : Outcome (List Tlv × Sbuf) = done (tlv ∷ [], sb') in
            let more : Outcome (List Tlv × Sbuf) =
              elim (parse_loop fuel sb' (elim limit [ none ↦ none | some k ↦ some (k - 1) ])) [
                | done (rest, sb'') ↦ done (tlv ∷ rest, sb'')
                | fault ↦ fault
                | running ↦ running
              ] in
            elim limit [ none ↦ more | some k ↦ if ltb 1 k then more else last ]
      ] in
      if some_left sb then pass else done ([], sb)

  unfoldable pub parse_limit : ℕ → Sbuf → Option ℕ → Outcome (List Tlv × Sbuf)
  unfolding parse_loop
  parse_limit fuel sb (some zero) = done ([], sb)
  parse_limit fuel sb (some (suc k)) = parse_loop fuel sb (some (suc k))
  parse_limit fuel sb none = parse_loop fuel sb none

  unfoldable pub parse : ℕ → Sbuf → Outcome (List Tlv × Sbuf)
  unfolding parse_limit
  parse fuel sb = parse_limit fuel sb none

  -- The value of a node, if it is not null.
  unfoldable pub put_value : Sbuf → Option (List ℕ) → ℕ → Option (ℕ × Sbuf)
  put_value sb none len = some (0, sb)
  put_value sb (some v) len = putraw malloc sb v len

  -- The loop of naf_tlv_render; the count is that of the bytes that the writers report.
  unfoldable pub render_from : ℕ → List Tlv → Sbuf → Option (ℕ × Sbuf)
  render_from n [] sb = some (n, sb)
  render_from n (tlv ∷ tlvs) sb =
      let pass : Option (ℕ × Sbuf) = (put16 malloc sb tlv.type) >>= λ (n1, sb1).
      (put16 malloc sb1 tlv.len) >>= λ (n2, sb2).
      (put_value sb2 tlv.value tlv.len) >>= λ (n3, sb3). render_from (n + n1 + n2 + n3) tlvs sb3 in
      if some_left sb then pass else some (n, sb)

  unfoldable pub render : List Tlv → Sbuf → Option (ℕ × Sbuf)
  unfolding render_from
  render = render_from 0

unfoldable pub getrenderedsize : List Tlv → ℕ
getrenderedsize [] = 0
getrenderedsize (tlv ∷ tlvs) = 2 + 2 + tlv.len + getrenderedsize tlvs

unfoldable pub gettotallength : List Tlv → ℕ
gettotallength [] = 0
gettotallength (tlv ∷ tlvs) = 1 + gettotallength tlvs

-- The node that is taken out, and the list that stays.
unfoldable pub remove : List Tlv → ℕ → Option Tlv × List Tlv
remove [] type = (none, [])
remove (tlv ∷ tlvs) type =
    let (found, rest) = remove tlvs type in
    if tlv.type == type then (some tlv, tlvs) else (found, tlv ∷ rest)

-- The list with a node behind its last one, as the loop of naf_tlv_append links it.
unfoldable pub link : List Tlv → Tlv → List Tlv
link [] new_tlv = new_tlv ∷ []
link (tlv ∷ tlvs) new_tlv = tlv ∷ link tlvs new_tlv

-- naf_tlv_append for a module, where `none` is a null one: whether it returns 0, and the list afterwards.
unfoldable pub append : Option ℕ → List Tlv → Tlv → Bool × List Tlv
unfolding link
append none head tlv = (false, head)
append (some m) head tlv = (true, link head tlv)

-- The first node of the type; the C function returns the list from there on.
unfoldable pub get : List Tlv → ℕ → Option Tlv
get [] type = none
get (tlv ∷ tlvs) type = if tlv.type == type then some tlv else get tlvs type

-- The readers of a value: the number is 0 if there is no such node or it is too short. `some tlv`
-- with no block is a read through a null pointer.
module _ (width : ℕ) (decode : List ℕ → ℕ) where
  unfoldable pub getas_int : List Tlv → ℕ → Option ℕ
  unfolding get load
  getas_int head type = elim (get head type) [
    | none ↦ some 0
    | some tlv ↦
        if ltb tlv.len width
        then some 0
        else elim tlv.value [ none ↦ none | some v ↦ (load v 0 width) >>= λ bs. some (decode bs) ]
  ]

unfoldable pub getasu8 : List Tlv → ℕ → Option ℕ
unfolding getas_int byte_get8
getasu8 = getas_int 1 byte_get8

unfoldable pub getasu16 : List Tlv → ℕ → Option ℕ
unfolding getas_int byte_get16
getasu16 = getas_int 2 byte_get16

unfoldable pub getasu32 : List Tlv → ℕ → Option ℕ
unfolding getas_int byte_get32
getasu32 = getas_int 4 byte_get32
