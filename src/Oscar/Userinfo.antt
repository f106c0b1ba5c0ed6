-- ===== src/Oscar/Userinfo.antt =====
-- timps/oscar/snac.c: what a message says of a user (`struct touserinfo` of timps/oscar/snac.h).
--
-- The name is the list of its bytes without the terminator.
pub mod RoundTrip
mod Runs
use timps.Prelude.{
  ℕ, ◌+◌, ◌%◌, ◌^◌, Bool, true, false, Option, none, some, List, [], ◌∷◌, ◌==◌, if◌then◌else◌,
  ◌>>=◌, length,
}
use timps.Sbuf.{Sbuf, get8, get16, put8, put16}
use timps.Sbuf.Strings.{getstr, putstr}
use timps.Tlv.{Tlv, Outcome, done, fault, running, parse_limit, render, gettotallength}

pub record Userinfo : Type 0 where
  pub sn : List ℕ
  pub evillevel : ℕ
  pub tlvh : List Tlv

-- sizeof(struct touserinfo) on a 32-bit machine
abbrev pub userinfo_size : ℕ
userinfo_size = 12

-- The string that a block holds: its bytes before the first 0.
unfoldable pub cstr : List ℕ → List ℕ
cstr [] = []
cstr (c ∷ cs) = let rest = cstr cs in if c == 0 then [] else c ∷ rest

module _ (malloc : ℕ → Option (List ℕ)) where
  -- touserinfo_new for a module, where `none` is a null one.
  unfoldable pub new : Option ℕ → List ℕ → Option Userinfo
  new none sn = none
  new (some m) sn = elim (malloc userinfo_size) [
    | none ↦ none
    | some _ ↦ elim (malloc (length sn + 1)) [
      | none ↦ none
      | some _ ↦ some (record { sn = sn; evillevel = 0; tlvh = [] })
    ]
  ]

  -- touserinfo_extract up to the nodes: the name, the warning level and how many nodes follow.
  unfoldable pub extract_front : Sbuf → Option (Option (List ℕ × ℕ × ℕ) × Sbuf)
  unfolding cstr
  extract_front sb = (get8 sb) >>= λ (snlen, sb1). (getstr malloc sb1 snlen) >>= λ (sn, sb2).
      elim sn [
        | none ↦ some (none, sb2)
        | some block ↦ (get16 sb2) >>= λ (evil, sb3).
            (get16 sb3) >>= λ (tlvcnt, sb4). some (some (cstr block, evil, tlvcnt), sb4)
      ]

  -- touserinfo_extract; the first argument is the fuel of the loop over the nodes.
  unfoldable pub extract : ℕ → Sbuf → Outcome (Option Userinfo × Sbuf)
  unfolding extract_front
  extract fuel sb = elim (malloc userinfo_size) [
    | none ↦ done (none, sb)
    | some _ ↦ elim (extract_front sb) [
      | none ↦ fault
      | some (none, sb1) ↦ done (none, sb1)
      | some (some (sn, evil, tlvcnt), sb1) ↦ elim (parse_limit malloc fuel sb1 (some tlvcnt)) [
        | done (tlvs, sb2) ↦ done (some (record { sn = sn; evillevel = evil; tlvh = tlvs }), sb2)
        | fault ↦ fault
        | running ↦ running
      ]
    ]
  ]

  -- touserinfo_render, which does nothing for a null module; what the writers answer is not looked at.
  unfoldable pub render_userinfo : Option ℕ → Userinfo → Sbuf → Option Sbuf
  render_userinfo none toui sb = some sb
  render_userinfo (some m) toui sb = (put8 malloc sb (length toui.sn % 256)) >>= λ (_, sb1).
      (putstr malloc sb1 toui.sn) >>= λ (_, sb2). (put16 malloc sb2 toui.evillevel) >>= λ (_, sb3).
      (put16 malloc sb3 (gettotallength toui.tlvh % 2 ^ 16)) >>= λ (_, sb4).
      (render malloc toui.tlvh sb4) >>= λ (_, sb5). some sb5
