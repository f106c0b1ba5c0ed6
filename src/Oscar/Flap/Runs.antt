-- ===== src/Oscar/Flap/Runs.antt =====
-- Runs of timps/oscar/flap.c, and its theorems at concrete inputs.
use timps.Prelude.{
  ℕ, ◌≤◌, ◌≡◌, refl, Bool, true, some, List, [], ◌∷◌, ◌++◌, arith, load, length, if◌then◌else◌,
  ◌==◌,
}
use timps.Bytes.{byte_put16, byte_get8, byte_get16}
use timps.Sbuf.{Sbuf}
use timps.Tlv.{Tlv}
use timps.Oscar.Flap.{Conn, more, complete, is_channel, inspect}
use timps.Oscar.Flap.Send.{frame}
use timps.Oscar.Flap.Receive.{inspect-frame, inspect_bounds}

abbrev takes_all : List ℕ → Bool
takes_all bs = true

abbrev conn : Conn
conn = record { nextseqnum = 65535; queued = [] }

abbrev cookie : List Tlv
cookie = record { type = 6; len = 2; value = some (171 ∷ 205 ∷ []) } ∷ []

nop_bytes : frame 5 0x1234 [] ≡ 42 ∷ 5 ∷ 0x12 ∷ 0x34 ∷ 0 ∷ 0 ∷ []
unfolding byte_put16
nop_bytes = refl

-- A buffer with room behind what is sent.
abbrev ready : Sbuf
ready = record {
  free_buf = true;
  auto_resize = true;
  buf = 42 ∷ 2 ∷ 0 ∷ 0 ∷ 0 ∷ 4 ∷ 7 ∷ 8 ∷ 0 ∷ 0 ∷ [];
  buflen = 10;
  pos = 8;
}

inspect-frame_example :
    (inspect (frame 2 9 (7 ∷ 8 ∷ []) ++ (0 ∷ [])) 6
      ≡ some (
          if length {A = ℕ} (7 ∷ 8 ∷ []) == 0
          then complete 2
          else more (length (frame 2 9 (7 ∷ 8 ∷ [])))))
    × (inspect (frame 2 9 (7 ∷ 8 ∷ []) ++ (0 ∷ [])) (length (frame 2 9 (7 ∷ 8 ∷ [])))
        ≡ some (complete 2))
unfolding is_channel
inspect-frame_example = inspect-frame 2 9 (7 ∷ 8 ∷ []) (0 ∷ []) refl (omega arith)

-- A header that announces the longest payload.
abbrev longest : List ℕ
longest = 42 ∷ 2 ∷ 0 ∷ 0 ∷ 32 ∷ 0 ∷ 1 ∷ []

inspect_bounds_example :
    (8198 ≤ 8198) × ((chan : ℕ) × (inspect longest 8198 ≡ some (complete chan)))
unfolding inspect load byte_get8 byte_get16
inspect_bounds_example = inspect_bounds longest 8198 refl
