-- ===== src/Sbuf.antt =====
-- naf/sbuf.c and the `naf_sbuf_t` of include/naf/nafbufutils.h: a cursor over a block of bytes,
-- which may own the block and let it grow.
--
-- `sbuf_buf` is the list of the bytes of the block that it points to. An operation that reads or
-- writes the buffer through its pointer returns `none` where it would leave the block. The two bits
-- of `sbuf_flags` are Boolean fields. `sbuf_owner` only goes to the allocator and has no field.
-- An `int` result 0 or -1 is `true` or `false`. A comparison of `bytesremaining`, which is a signed
-- difference, with a count is written as one of sums.
pub mod Grow
pub mod Valid
pub mod Write
pub mod Append
pub mod Read
pub mod Faults
pub mod Strings
mod Runs
use timps.Prelude.{
  ℕ, zero, suc, ◌+◌, ◌-◌, ◌%◌, ◌^◌, ◌<◌, Bool, true, false, not, ◌&&◌, ◌||◌, Option, none, some,
  List, [], ◌∷◌, ltb, leb, ◌==◌, if◌then◌else◌, ◌>>=◌, length, take, drop, bytes_eq, load, store,
}
use timps.Bytes.{byte_put8, byte_put16, byte_put32, byte_get8, byte_get16, byte_get32}

pub record Sbuf : Type 0 where
  pub free_buf : Bool
  pub auto_resize : Bool
  pub buf : List ℕ
  pub buflen : ℕ
  pub pos : ℕ

abbrev pub default_buflen : ℕ
default_buflen = 512

abbrev pub block_size : ℕ
block_size = 256

abbrev pub max_buflen : ℕ
max_buflen = 32768

-- naf_sbuf_init with a buffer of the caller's
unfoldable pub init_with : List ℕ → ℕ → Sbuf
init_with b buflen = record {
  free_buf = false;
  auto_resize = false;
  buf = b;
  buflen = buflen;
  pos = 0;
}

-- The loop that rounds a length up in blocks; `nbuflen` is a uint16. The first argument is fuel.
unfoldable pub grow : ℕ → ℕ → ℕ → ℕ
grow zero nbuflen needed = nbuflen
grow (suc fuel) nbuflen needed =
    let next = (nbuflen + block_size) % 2 ^ 16 in
    let more = grow fuel next (needed - block_size) in
    if ltb block_size needed then more else if ltb 0 needed then next else nbuflen

unfoldable pub getpos : Sbuf → ℕ
getpos sb = sb.pos

-- `naf_sbuf_bytesremaining(sbuf) < n`
unfoldable pub short_of : Sbuf → ℕ → Bool
short_of sb n = ltb sb.buflen (sb.pos + n)

-- `naf_sbuf_bytesremaining(sbuf) > 0`
unfoldable pub some_left : Sbuf → Bool
some_left sb = ltb sb.pos sb.buflen

-- Reading `n` bytes at the cursor, after the check that they are there.
unfoldable pub getrawbuf : Sbuf → ℕ → Option (Option (List ℕ) × Sbuf)
unfolding short_of load
getrawbuf sb n =
    if short_of sb n
    then some (none, sb)
    else (load sb.buf sb.pos n) >>= λ out.
        some (some out, record sb { pos = (sb.pos + n) % 2 ^ 16 })

-- One byte, two or four; the value is 0 if they are not there.
module _ (width : ℕ) (decode : List ℕ → ℕ) where
  unfoldable pub get_int : Sbuf → Option (ℕ × Sbuf)
  unfolding short_of load
  get_int sb =
      let sb' = record sb { pos = (sb.pos + width) % 2 ^ 16 } in
      if short_of sb width
      then some (0, sb)
      else (load sb'.buf (sb'.pos - width) width) >>= λ bs. some (decode bs, sb')

unfoldable pub get8 : Sbuf → Option (ℕ × Sbuf)
unfolding get_int byte_get8
get8 = get_int 1 byte_get8

unfoldable pub get16 : Sbuf → Option (ℕ × Sbuf)
unfolding get_int byte_get16
get16 = get_int 2 byte_get16

unfoldable pub get32 : Sbuf → Option (ℕ × Sbuf)
unfolding get_int byte_get32
get32 = get_int 4 byte_get32

-- naf_sbuf_cmp: -1 is `none`, else whether the bytes match.
unfoldable pub cmp : Sbuf → List ℕ → Option (Option Bool)
unfolding short_of load
cmp sb other =
    if short_of sb (length other)
    then some none
    else (load sb.buf sb.pos (length other)) >>= λ bs. some (some (bytes_eq bs other))

-- `malloc n` is what naf_malloc returns for `n` bytes: a block with any content, or nothing.
module _ (malloc : ℕ → Option (List ℕ)) where
  -- naf_sbuf_init with no buffer
  unfoldable pub init_new : ℕ → Option Sbuf
  init_new buflen =
      let n = if buflen == 0 then default_buflen else buflen in
      (malloc n) >>= λ block.
      some (record { free_buf = true; auto_resize = true; buf = block; buflen = n; pos = 0 })

  -- naf_sbuf__extendbuf
  unfoldable pub extendbuf : Sbuf → ℕ → Option (Bool × Sbuf)
  unfolding grow load store
  extendbuf sb needed =
      let n = grow (suc needed) sb.buflen needed in
      if not sb.auto_resize
      then some (false, sb)
      else if ltb max_buflen n
      then some (false, sb)
      else elim (malloc n) [
        | none ↦ some (false, sb)
        | some block ↦ (load sb.buf 0 sb.buflen) >>= λ old.
            (store block 0 old) >>= λ nbuf. some (true, record sb { buf = nbuf; buflen = n })
      ]

  unfoldable pub prepend : Sbuf → ℕ → Option (Bool × Sbuf)
  unfolding extendbuf
  prepend sb needed = (extendbuf sb needed) >>= λ (done, sb').
      if not done
      then some (false, sb')
      else (load sb'.buf 0 sb'.buflen) >>= λ moved.
          (store sb'.buf needed moved) >>= λ nbuf. some (true, record sb' { buf = nbuf })

  -- What `setpos`, `advance` and the `put`s do first: grow if fewer than `n` bytes remain.
  unfoldable pub reserve : Sbuf → ℕ → Option (Bool × Sbuf)
  unfolding extendbuf short_of
  reserve sb n = if short_of sb n then extendbuf sb (n % 2 ^ 16) else some (true, sb)

  unfoldable pub setpos : Sbuf → ℕ → Option (Bool × Sbuf)
  unfolding extendbuf
  setpos sb npos =
      (if ltb sb.buflen npos then extendbuf sb ((npos - sb.buflen) % 2 ^ 16) else some (true, sb))
      >>= λ (done, sb'). some (if done then (true, record sb' { pos = npos }) else (false, sb'))

  unfoldable pub rewind : Sbuf → Option (Bool × Sbuf)
  unfolding setpos
  rewind sb = setpos sb 0

  unfoldable pub advance : Sbuf → ℕ → Option (Bool × Sbuf)
  unfolding reserve
  advance sb n = (reserve sb n) >>= λ (done, sb').
      some (if done then (true, record sb' { pos = (sb'.pos + n) % 2 ^ 16 }) else (false, sb'))

  -- naf_sbuf_putraw, with the first `n` bytes of a block: the count is 0 if there is no room.
  unfoldable pub putraw : Sbuf → List ℕ → ℕ → Option (ℕ × Sbuf)
  unfolding reserve load store
  putraw sb inbuf n = (reserve sb n) >>= λ (done, sb').
      if not done
      then some (0, sb')
      else (load inbuf 0 n) >>= λ bs. (store sb'.buf sb'.pos bs) >>= λ nbuf.
          some (n, record sb' { buf = nbuf; pos = (sb'.pos + n) % 2 ^ 16 })

  unfoldable pub put8 : Sbuf → ℕ → Option (ℕ × Sbuf)
  unfolding putraw byte_put8
  put8 sb v = putraw sb (byte_put8 v) 1

  unfoldable pub put16 : Sbuf → ℕ → Option (ℕ × Sbuf)
  unfolding putraw byte_put16
  put16 sb v = putraw sb (byte_put16 v) 2

  unfoldable pub put32 : Sbuf → ℕ → Option (ℕ × Sbuf)
  unfolding putraw byte_put32
  put32 sb v = putraw sb (byte_put32 v) 4
