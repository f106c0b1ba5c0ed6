-- ===== src/Oscar/Snac/Overrun.antt =====
-- timps/oscar/snac.c: extended headers that are longer than their message.
use timps.Prelude.{
  ℕ, ◌+◌, ◌-◌, ◌*◌, ◌%◌, ◌^◌, ◌<◌, ◌≤◌, ◌≡◌, some, List, arith, length, length-drop, take, drop,
  load-in,
}
use timps.Bytes.{byte_get16, byte_get32}
use timps.Sbuf.{init_with}
use timps.Oscar.Snac.{Snac, extended_len, open_snac}

-- A message with the extended flag whose stated extended length is not 0 and more than what was
-- received is opened all the same, with a payload that is said to be longer than the memory
-- behind it. The message is in a block of 12 to 8192 bytes, and the excess is below 2 ^ 16.
pub open_snac_overrun :
    (mem : List ℕ) (buflen : ℕ)
    → 10 ≤ buflen
    → buflen < 2 ^ 16
    → 12 ≤ length mem
    → length mem ≤ 8192
    → 32768 ≤ byte_get16 (drop 4 (take 10 mem))
    → 0 < byte_get16 (take 2 (drop 10 mem))
    → buflen < 12 + byte_get16 (take 2 (drop 10 mem))
    → 12 + byte_get16 (take 2 (drop 10 mem)) < buflen + 2 ^ 16
    → (snac : Snac) × (open_snac mem buflen ≡ some (some snac))
      × (length snac.payload.buf < snac.payload.buflen)
unfolding open_snac extended_len init_with
open_snac_overrun mem buflen lo hi room block flag some_ext long wide =
    let ext : ℕ = byte_get16 (take 2 (drop 10 mem)) in
    let snac : Snac = record {
      group = byte_get16 (take 10 mem);
      subtype = byte_get16 (drop 2 (take 10 mem));
      flags = byte_get16 (drop 4 (take 10 mem));
      id = byte_get32 (drop 6 (take 10 mem));
      extinfo = some (init_with (drop 12 mem) ext);
      payload =
          init_with (drop (10 + (2 + ext)) mem) ((buflen + 2 * 2 ^ 16 - 10 - (2 + ext)) % 2 ^ 16);
    } in
    (
      snac,
      ground (arith, load-in mem 0 10, load-in mem 10 2),
      omega (arith, length-drop (10 + (2 + ext)) mem),
    )
