-- ===== src/Oscar/Userinfo/Runs.antt =====
-- Runs of the user information in timps/oscar/snac.c, and its theorems at concrete inputs.
use timps.Prelude.{ℕ, ◌≡◌, refl, some, [], ◌∷◌, arith, length, replicate}
use timps.Fixture.{zeros, zeros-Grants}
use timps.Bytes.{byte_put8, byte_put16}
use timps.Sbuf.{Sbuf, init_with}
use timps.Sbuf.Valid.{pending}
use timps.Tlv.{done, getrenderedsize}
use timps.Oscar.Userinfo.{Userinfo, extract, render_userinfo, new}
use timps.Oscar.Userinfo.RoundTrip.{IsWellFormedInfo, userinfo_wire, extract-render_userinfo}

abbrev bob : Userinfo
bob = record {
  sn = b'b' ∷ b'o' ∷ b'b' ∷ [];
  evillevel = 10;
  tlvh = record { type = 1; len = 2; value = some (0 ∷ 16 ∷ []) } ∷ [];
}

bob_bytes :
    userinfo_wire bob ≡ 3 ∷ b'b' ∷ b'o' ∷ b'b' ∷ 0 ∷ 10 ∷ 0 ∷ 1 ∷ 0 ∷ 1 ∷ 0 ∷ 2 ∷ 0 ∷ 16 ∷ []
unfolding byte_put8 byte_put16
bob_bytes = refl

new_runs :
    new zeros (some 9) (b'x' ∷ []) ≡ some (record { sn = b'x' ∷ []; evillevel = 0; tlvh = [] })
unfolding new
new_runs = refl

bob-IsWellFormedInfo : IsWellFormedInfo bob
bob-IsWellFormedInfo = record {
  no_zero = ground arith;
  sn_fits = omega arith;
  evil_fits = omega arith;
  count_fits = omega arith;
  nodes = (
    record {
      type_fits = omega arith;
      len_fits = omega arith;
      len_body = refl;
      not_empty = omega arith;
    },
    tt,
  );
}

extract-render_userinfo_example :
    (sb sb' : Sbuf) × (render_userinfo zeros
        (some 9)
        bob
        (init_with (replicate 20 0) (length {A = ℕ} (replicate 20 0)))
      ≡ some sb)
    × (extract zeros 1 (init_with sb.buf sb.pos) ≡ done (some bob, sb'))
    × (pending sb' ≡ [])
unfolding getrenderedsize
extract-render_userinfo_example =
    extract-render_userinfo zeros zeros-Grants 9 1 bob (replicate 20 0) bob-IsWellFormedInfo
      (omega arith) (omega arith) (omega arith)
