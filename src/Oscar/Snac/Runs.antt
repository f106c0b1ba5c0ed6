-- ===== src/Oscar/Snac/Runs.antt =====
-- Runs of timps/oscar/snac.c, and its theorems at concrete inputs.
use timps.Prelude.{
  ℕ, ◌+◌, ◌<◌, ◌≡◌, refl, Bool, true, none, some, List, [], ◌∷◌, ◌++◌, arith, length,
}
use timps.Bytes.{byte_get16}
use timps.Sbuf.{init_with}
use timps.Tlv.{Tlv}
use timps.Oscar.Flap.{Conn}
use timps.Oscar.Snac.{Snac, open_snac, dispatch, client_im}
use timps.Oscar.Snac.Header.{snac_header, open_snac-header}
use timps.Oscar.Snac.Overrun.{open_snac_overrun}

abbrev im_snac : Snac
im_snac = record {
  group = 4;
  subtype = 6;
  flags = 0;
  id = 77;
  extinfo = none;
  payload = init_with (1 ∷ 2 ∷ 3 ∷ []) (length {A = ℕ} (1 ∷ 2 ∷ 3 ∷ []));
}

open_snac-header_example :
    open_snac (snac_header 4 6 0 77 ++ (1 ∷ 2 ∷ 3 ∷ [])) (length {A = ℕ} (1 ∷ 2 ∷ 3 ∷ []) + 10)
    ≡ some (some im_snac)
open_snac-header_example =
    open_snac-header 4 6 0 77 (1 ∷ 2 ∷ 3 ∷ []) (omega arith) (omega arith) (omega arith)
      (omega arith) (omega arith)

dispatches : dispatch im_snac ≡ some client_im
unfolding dispatch
dispatches = refl

dispatches_unknown : dispatch (record im_snac { subtype = 5 }) ≡ none
unfolding dispatch
dispatches_unknown = refl

-- An extended header that states 300 bytes, in a message of twelve.
abbrev hostile : List ℕ
hostile = 0 ∷ 4 ∷ 0 ∷ 6 ∷ 128 ∷ 0 ∷ 0 ∷ 0 ∷ 0 ∷ 1 ∷ 1 ∷ 44 ∷ []

open_snac_overrun_example :
    (snac : Snac) × (open_snac hostile 12 ≡ some (some snac))
    × (length snac.payload.buf < snac.payload.buflen)
unfolding byte_get16
open_snac_overrun_example =
    open_snac_overrun hostile 12 (omega arith) (omega arith) (omega arith) (omega arith)
      (omega arith) (omega arith) (omega arith) (omega arith)

abbrev takes_all : List ℕ → Bool
takes_all bs = true

abbrev conn : Conn
conn = record { nextseqnum = 1; queued = [] }

abbrev login : List Tlv
login = record { type = 1; len = 1; value = some (120 ∷ []) } ∷ []
