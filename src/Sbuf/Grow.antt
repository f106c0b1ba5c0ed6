-- ===== src/Sbuf/Grow.antt =====
-- naf_sbuf__extendbuf of naf/sbuf.c: the length that its loop computes.
use timps.Prelude.{ℕ, zero, suc, ◌+◌, ◌-◌, ◌*◌, ◌/◌, ◌%◌, ◌^◌, ◌≤◌, ◌<◌, ◌≡◌, arith}
use timps.Sbuf.{grow}

-- The loop adds one block for each 256 bytes begun, in uint16 arithmetic, and fuel above the
-- number of bytes asked for is enough.
pub grow_closed :
    (fuel nbuflen needed : ℕ)
    → needed < fuel
    → nbuflen < 2 ^ 16
    → grow fuel nbuflen needed ≡ (nbuflen + 256 * ((needed + 255) / 256)) % 2 ^ 16
unfolding grow
grow_closed zero nbuflen needed h w = absurd (omega arith)
grow_closed (suc fuel) nbuflen needed h w =
    ground (arith, grow_closed fuel ((nbuflen + 256) % 2 ^ 16) (needed - 256))

-- Without a wrap the new length has room for what was asked.
pub grow_room :
    (nbuflen needed : ℕ)
    → nbuflen ≤ 32768
    → needed ≤ 32512
    → nbuflen + needed ≤ grow (suc needed) nbuflen needed
grow_room nbuflen needed h k =
    omega (arith, grow_closed (suc needed) nbuflen needed (omega arith) (omega arith))
