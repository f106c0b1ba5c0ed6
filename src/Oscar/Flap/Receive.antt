-- ===== src/Oscar/Flap/Receive.antt =====
-- timps/oscar/flap.c: what toscar_flap_handleread makes of a frame that arrives in two reads.
use timps.Prelude.{
  ℕ, ◌+◌, ◌*◌, ◌/◌, ◌%◌, ◌≤◌, ◌≡◌, inl, inr, true, some, List, ◌++◌, drop, arith, length, load, ltb,
  ◌==◌, if◌then◌else◌, Bool-cases, Option-cases,
}
use timps.Bytes.{byte_put16, byte_get8, byte_get16}
use timps.Oscar.Flap.{max_snac, more, complete, is_channel, inspect}
use timps.Oscar.Flap.Send.{frame}

-- A frame on a channel with a handler and with a payload of at most 8192 bytes is accepted by
-- toscar_flap_handleread: after its header it asks for just the whole frame, or has it if the
-- payload is empty, and with the whole frame read it is complete on its channel.
pub inspect-frame :
    (chan seq : ℕ) (payload unused : List ℕ)
    → is_channel chan ≡ true
    → length payload ≤ 8192
    → (inspect (frame chan seq payload ++ unused) 6
        ≡ some
            (if length payload == 0 then complete chan else more (length (frame chan seq payload))))
      × (inspect (frame chan seq payload ++ unused) (length (frame chan seq payload))
          ≡ some (complete chan))
unfolding inspect is_channel load byte_get8 byte_get16 byte_put16
inspect-frame chan seq payload unused c h =
    let low : chan % 256 ≡ chan = ground arith in
    let n : ℕ = length payload in
    let len : n / 256 % 256 % 256 * 256 + n % 256 % 256 ≡ n = omega arith in
    ground (arith, low, len)

-- A read that toscar_flap_handleread asks for behind a header never passes the 8198 bytes of its
-- block, and once that much is read the block has a complete frame.
pub inspect_bounds :
    (buf : List ℕ) (k : ℕ)
    → inspect buf 6 ≡ some (more k)
    → (k ≤ 8198) × ((chan : ℕ) × (inspect buf k ≡ some (complete chan)))
unfolding inspect
inspect_bounds buf k e = elim (Option-cases (load buf 0 6)) [
  | inl out ↦ absurd (ground (arith, e, out))
  | inr (hdr, got) ↦
      let len : ℕ = byte_get16 (drop 4 hdr) in
      elim (Bool-cases (ltb max_snac len)) [
        | inl long ↦ absurd (ground (arith, e, got, long))
        | inr short ↦
            let size : k ≡ len + 6 = ground (arith, e, got, short) in
            (
              ground (arith, short, size),
              (byte_get8 (drop 1 hdr), ground (arith, e, got, short, size)),
            )
      ]
]
