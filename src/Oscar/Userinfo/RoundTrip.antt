-- ===== src/Oscar/Userinfo/RoundTrip.antt =====
-- timps/oscar/snac.c: touserinfo_extract on what touserinfo_render writes.
use timps.Prelude.{
  ℕ, ◌+◌, ◌-◌, ◌%◌, ◌^◌, ◌<◌, ◌≤◌, ◌≡◌, ◌≢◌, refl, sym, ◌∙◌, ap, Option, some, List, [], ◌∷◌, ◌++◌,
  append_assoc, append-nil, arith, length, length-append, take, take-append_of_length, All,
}
use timps.Bytes.{byte_put8, byte_put16, byte_get8, byte_get16, get8-put8, get16-put16, length-put16}
use timps.Sbuf.{Sbuf, init_with, get8, get16}
use timps.Sbuf.Strings.{getstr_lem, putstr}
use timps.Sbuf.Valid.{IsValid, pending, init_with-IsValid}
use timps.Sbuf.Append.{wrote, wrote-Appended, putraw_fits}
use timps.Sbuf.Read.{skip, Consumed, consume, get_int_lem}
use timps.Tlv.{done, gettotallength, getrenderedsize}
use timps.Tlv.Wire.{IsWellFormed, wires}
use timps.Tlv.Parse.{Grants}
use timps.Tlv.Lookup.{gettotallength_lem}
use timps.Tlv.Render.{Put, Put-trans, put16-Put, render-Put}
use timps.Tlv.RoundTrip.{parse_limit-wires}
use timps.Oscar.Flap.Send.{put8-Put}
use timps.Oscar.Userinfo.{Userinfo, userinfo_size, cstr, extract_front, extract, render_userinfo}

-- The name has no 0 in it and its length fits a byte, the warning level and the number of nodes fit a
-- uint16, and the nodes are well-formed.
pub record IsWellFormedInfo (toui : Userinfo) : Type 0 where
  pub no_zero : All (λ (c : ℕ). c ≢ 0) toui.sn
  pub sn_fits : length toui.sn < 256
  pub evil_fits : toui.evillevel < 2 ^ 16
  pub count_fits : length toui.tlvh < 2 ^ 16
  pub nodes : All IsWellFormed toui.tlvh

-- The bytes that stand for it.
abbrev pub userinfo_wire : Userinfo → List ℕ
userinfo_wire toui =
    byte_put8 (length toui.sn)
    ++ (toui.sn
        ++ (byte_put16 toui.evillevel ++ (byte_put16 (length toui.tlvh) ++ wires toui.tlvh)))

abbrev pub userinfo_wire_size : Userinfo → ℕ
userinfo_wire_size toui = 1 + length toui.sn + 2 + 2 + getrenderedsize toui.tlvh

cstr_lem : (sn : List ℕ) → All (λ (c : ℕ). c ≢ 0) sn → cstr (sn ++ (0 ∷ [])) ≡ sn
unfolding cstr
cstr_lem [] u = refl
cstr_lem (c ∷ cs) (here, u) = ground (arith, here, cstr_lem cs u)

module _ (malloc : ℕ → Option (List ℕ)) where
  pub putstr-Put :
      (sb : Sbuf) (str : List ℕ)
      → IsValid sb
      → sb.pos + length str ≤ sb.buflen
      → (putstr malloc sb str ≡ some (length str, wrote sb str)) × Put sb str (wrote sb str)
  unfolding putstr
  putstr-Put sb str v h = (
    putraw_fits malloc sb (str ++ (0 ∷ [])) (length str) v
          (omega (arith, length-append str (0 ∷ []))) h
        ∙ ap (λ t. some (length str, wrote sb t))
            (take-append_of_length str (0 ∷ []) (length str) refl),
    record { appended = wrote-Appended sb str v h; same_buflen = refl },
  )

  -- Where it fits, rendering puts just its bytes.
  pub render_userinfo-Put :
      (m : ℕ) (toui : Userinfo) (sb : Sbuf)
      → IsWellFormedInfo toui
      → IsValid sb
      → sb.pos + userinfo_wire_size toui ≤ sb.buflen
      → (sb' : Sbuf) × (render_userinfo malloc (some m) toui sb ≡ some sb')
        × Put sb (userinfo_wire toui) sb'
  unfolding render_userinfo byte_put8
  render_userinfo-Put m toui sb w v h =
      let n : ℕ = length toui.sn in
      let k : ℕ = length toui.tlvh in
      let (e1, p1) = put8-Put malloc sb n v (omega arith) in
      let sb1 : Sbuf = wrote sb (byte_put8 n) in
      let (e2, p2) = putstr-Put sb1 toui.sn p1.appended.valid (omega arith) in
      let sb2 : Sbuf = wrote sb1 toui.sn in
      let (e3, p3) = put16-Put malloc sb2 toui.evillevel p2.appended.valid (omega arith) in
      let sb3 : Sbuf = wrote sb2 (byte_put16 toui.evillevel) in
      let at3 : sb3.pos ≡ sb.pos + 1 + n + 2 = omega (arith, length-put16 toui.evillevel) in
      let (e4, p4) = put16-Put malloc sb3 k p3.appended.valid (omega (arith, at3)) in
      let sb4 : Sbuf = wrote sb3 (byte_put16 k) in
      let (sb5, e5, p5) =
        render-Put malloc toui.tlvh sb4 p4.appended.valid w.nodes
          (omega (arith, at3, length-put16 k)) in
      let low : n % 256 ≡ n = omega (arith, w.sn_fits) in
      let count : gettotallength toui.tlvh % 2 ^ 16 ≡ k =
        omega (arith, gettotallength_lem toui.tlvh, w.count_fits) in
      (
        sb5,
        ground (arith, low, count, e1, e2, e3, e4, e5),
        Put-trans sb (byte_put8 n) sb1
            (toui.sn ++ (byte_put16 toui.evillevel ++ (byte_put16 k ++ wires toui.tlvh))) sb5 p1
            (Put-trans sb1 toui.sn sb2
              (byte_put16 toui.evillevel ++ (byte_put16 k ++ wires toui.tlvh)) sb5 p2
              (Put-trans sb2 (byte_put16 toui.evillevel) sb3 (byte_put16 k ++ wires toui.tlvh) sb5
                p3 (Put-trans sb3 (byte_put16 k) sb4 (wires toui.tlvh) sb5 p4 p5))),
      )

module _ (malloc : ℕ → Option (List ℕ)) (grants : Grants malloc) where
  extract_front-wire :
      (toui : Userinfo) (sb : Sbuf) (rest : List ℕ)
      → IsWellFormedInfo toui
      → IsValid sb
      → pending sb ≡ userinfo_wire toui ++ rest
      → (sb' : Sbuf) × (extract_front malloc sb
          ≡ some (some (toui.sn, toui.evillevel, length toui.tlvh), sb'))
        × IsValid sb'
        × (pending sb' ≡ wires toui.tlvh ++ rest)
  unfolding extract_front get8 get16 byte_put8
  extract_front-wire toui sb rest w v e =
      let n : ℕ = length toui.sn in
      let k : ℕ = length toui.tlvh in
      let tlvs : List ℕ = wires toui.tlvh in
      let r4 : List ℕ = byte_put16 k ++ tlvs in
      let r3 : List ℕ = byte_put16 toui.evillevel ++ r4 in
      let (b1, g1) = grants (n + 1) in
      let c1 : Consumed sb (byte_put8 n) ((toui.sn ++ r3) ++ rest) =
        consume sb (byte_put8 n) ((toui.sn ++ r3) ++ rest) v e in
      let sb1 : Sbuf = skip sb (length (byte_put8 n)) in
      let e1 =
        get_int_lem 1 byte_get8 sb (byte_put8 n) ((toui.sn ++ r3) ++ rest) v
          (unfold byte_put8 in refl) e in
      let left1 : pending sb1 ≡ toui.sn ++ (r3 ++ rest) = c1.left ∙ append_assoc toui.sn r3 rest in
      let c2 : Consumed sb1 toui.sn (r3 ++ rest) =
        consume sb1 toui.sn (r3 ++ rest) c1.valid left1 in
      let e2 = getstr_lem malloc sb1 toui.sn (r3 ++ rest) b1 c1.valid left1 g1 in
      let sb2 : Sbuf = skip sb1 n in
      let left2 : pending sb2 ≡ byte_put16 toui.evillevel ++ (r4 ++ rest) =
        c2.left ∙ append_assoc (byte_put16 toui.evillevel) r4 rest in
      let c3 = consume sb2 (byte_put16 toui.evillevel) (r4 ++ rest) c2.valid left2 in
      let e3 =
        get_int_lem 2 byte_get16 sb2 (byte_put16 toui.evillevel) (r4 ++ rest) c2.valid
          (length-put16 toui.evillevel) left2 in
      let sb3 : Sbuf = skip sb2 (length (byte_put16 toui.evillevel)) in
      let left3 : pending sb3 ≡ byte_put16 k ++ (tlvs ++ rest) =
        c3.left ∙ append_assoc (byte_put16 k) tlvs rest in
      let c4 = consume sb3 (byte_put16 k) (tlvs ++ rest) c3.valid left3 in
      let e4 =
        get_int_lem 2 byte_get16 sb3 (byte_put16 k) (tlvs ++ rest) c3.valid (length-put16 k)
          left3 in
      let sb4 : Sbuf = skip sb3 (length (byte_put16 k)) in
      (
        sb4,
        ground (
          arith,
          e1,
          get8-put8 n w.sn_fits,
          e2,
          cstr_lem toui.sn w.no_zero,
          e3,
          get16-put16 toui.evillevel w.evil_fits,
          e4,
          get16-put16 k w.count_fits,
        ),
        c4.valid,
        c4.left,
      )

  -- The bytes are read back, and what follows them stays.
  pub extract-wire :
      (fuel : ℕ) (toui : Userinfo) (sb : Sbuf) (rest : List ℕ)
      → IsWellFormedInfo toui
      → IsValid sb
      → pending sb ≡ userinfo_wire toui ++ rest
      → length toui.tlvh ≤ fuel
      → (sb' : Sbuf) × (extract malloc fuel sb ≡ done (some toui, sb'))
        × IsValid sb'
        × (pending sb' ≡ rest)
  unfolding extract
  extract-wire fuel toui sb rest w v e f =
      let (b0, g0) = grants userinfo_size in
      let (sb4, e4, v4, left4) = extract_front-wire toui sb rest w v e in
      let (sb5, e5, v5, left5) =
        parse_limit-wires malloc grants fuel sb4 toui.tlvh rest v4 w.nodes left4 f in
      (sb5, ground (arith, g0, e4, e5), v5, left5)

  -- With memory granted, what touserinfo_render of a module that is not null writes of
  -- well-formed user information into a block with room (below 2 ^ 16 bytes),
  -- touserinfo_extract reads back from the bytes written: the same name, warning level and
  -- nodes, and nothing is left over. Fuel of one for each node is enough.
  pub extract-render_userinfo :
      (m fuel : ℕ) (toui : Userinfo) (block : List ℕ)
      → IsWellFormedInfo toui
      → userinfo_wire_size toui ≤ length block
      → length block < 2 ^ 16
      → length toui.tlvh ≤ fuel
      → (sb sb' : Sbuf) × (render_userinfo malloc (some m) toui (init_with block (length block))
          ≡ some sb)
        × (extract malloc fuel (init_with sb.buf sb.pos) ≡ done (some toui, sb'))
        × (pending sb' ≡ [])
  unfolding init_with
  extract-render_userinfo m fuel toui block w room small f =
      let fresh : IsValid (init_with block (length block)) =
        init_with-IsValid block (length block) (omega arith) small in
      let (sb, e, p) =
        render_userinfo-Put malloc m toui (init_with block (length block)) w fresh (omega arith) in
      let v : IsValid (init_with sb.buf sb.pos) =
        init_with-IsValid sb.buf sb.pos
          (omega (arith, p.appended.valid.cursor, p.appended.valid.storage))
          (omega (arith, p.appended.valid.cursor, p.appended.valid.width)) in
      let whole : sb.pos - 0 ≡ sb.pos = omega arith in
      let (sb', r, _, none_left) =
        extract-wire fuel toui (init_with sb.buf sb.pos) [] w v
          (ap (λ k. take k sb.buf) whole ∙ p.appended.bytes ∙ sym (append-nil (userinfo_wire toui)))
          f in
      (sb, sb', e, r, none_left)
