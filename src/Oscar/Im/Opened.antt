-- ===== src/Oscar/Im/Opened.antt =====
-- timps/oscar/im.c: a message that toscar_flap_handlesnac opened.
use timps.Prelude.{
  ℕ, ◌+◌, ◌-◌, ◌^◌, ◌<◌, ◌≡◌, ◌∙◌, ap, none, some, List, ◌++◌, arith, length, take_all,
}
use timps.Bytes.{byte_put16, byte_put32}
use timps.Sbuf.{init_with}
use timps.Sbuf.Valid.{IsValid, pending, init_with-IsValid}
use timps.Oscar.Snac.{Snac, open_snac}
use timps.Oscar.Snac.Header.{snac_header, open_snac-header}

-- A message of group 4 as toscar_flap_handlesnac opens it.
abbrev pub message : ℕ → ℕ → List ℕ → Snac
message subtype id payload = record {
  group = 4;
  subtype = subtype;
  flags = 0;
  id = id;
  extinfo = none;
  payload = init_with payload (length payload);
}

pub open_message :
    (subtype id : ℕ) (payload : List ℕ)
    → subtype < 2 ^ 16
    → id < 2 ^ 32
    → length payload + 10 < 2 ^ 16
    → open_snac
        (snac_header 4 subtype 0 id ++ payload)
        (length (snac_header 4 subtype 0 id ++ payload))
      ≡ some (some (message subtype id payload))
open_message subtype id payload s i h =
    let wide : length (snac_header 4 subtype 0 id ++ payload) ≡ length payload + 10 =
      unfold byte_put16 byte_put32 in (omega arith) in
    ap (λ n. open_snac (snac_header 4 subtype 0 id ++ payload) n) wide
    ∙ open_snac-header 4 subtype 0 id payload (omega arith) s (omega arith) i h

pub message-IsValid :
    (subtype id : ℕ) (payload : List ℕ)
    → length payload < 2 ^ 16
    → IsValid (message subtype id payload).payload
message-IsValid subtype id payload h = init_with-IsValid payload (length payload) (omega arith) h

pub pending-message :
    (subtype id : ℕ) (payload : List ℕ) → pending (message subtype id payload).payload ≡ payload
unfolding init_with
pending-message subtype id payload = take_all payload (length payload - 0) (omega arith)
