-- ===== src/Malloc.antt =====
-- naf/memory.c: naf_malloc_real and naf_free_real, and what they count for each module
-- (`struct memory_stats`, `struct module_memory_stats`, `struct naf_mem_header`).
--
-- A module is its address, `none` for NULL, and its `memorystats` is `none` for NULL. A block that is
-- allocated is known by the address that the caller holds, its `id`. `malloc` is that of libc; `none`
-- as the result of a step is a write outside a block, a pointer to no such block, or `abort`.
pub mod Count
pub mod Keep
pub mod Balance
mod Runs
use timps.Prelude.{
  ℕ, ◌+◌, ◌-◌, ◌%◌, ◌^◌, Bool, true, false, not, ◌&&◌, ◌||◌, Option, none, some, List, [], ◌∷◌, ltb,
  ◌==◌, if◌then◌else◌, ◌>>=◌, length, bytes_eq, store,
}

pub record Stats : Type 0 where
  pub regions : ℕ
  pub current : ℕ
  pub maximum : ℕ

pub record ModuleStats : Type 0 where
  pub totals : Stats
  pub type_generic : Stats
  pub type_netbuf : Stats

-- The header and the footer of a block.
pub record Block : Type 0 where
  pub id : ℕ
  pub hdrmagic1 : ℕ
  pub type : ℕ
  pub owner : Option ℕ
  pub buflen : ℕ
  pub hdrmagic2 : ℕ
  pub footer : List ℕ

pub record Heap : Type 0 where
  pub blocks : List Block
  pub memorystats : ℕ → Option ModuleStats
  pub next_id : ℕ

-- NAF_MEM_TYPE_GENERIC and NAF_MEM_TYPE_NETBUF
abbrev pub type_of_generic : ℕ
type_of_generic = 0

abbrev pub type_of_netbuf : ℕ
type_of_netbuf = 1

-- HDR_MAGIC_START, HDR_MAGIC_END and FTR_MAGIC_END
abbrev pub magic_start : ℕ
magic_start = 3203383023

abbrev pub magic_end : ℕ
magic_end = 4276879083

abbrev pub magic_footer : List ℕ
magic_footer = 222 ∷ 173 ∷ 190 ∷ 239 ∷ []

-- sizeof(struct naf_mem_header) and sizeof(struct module_memory_stats) on a 32-bit machine
abbrev pub header_size : ℕ
header_size = 20

abbrev pub stats_size : ℕ
stats_size = 36

abbrev pub no_stats : ModuleStats
no_stats = record {
  totals = record { regions = 0; current = 0; maximum = 0 };
  type_generic = record { regions = 0; current = 0; maximum = 0 };
  type_netbuf = record { regions = 0; current = 0; maximum = 0 };
}

-- The counters of uint32 after a region of `n` bytes was allocated, and after it was freed.
unfoldable pub count_in : ℕ → Stats → Stats
count_in n s =
    let now : ℕ = (s.current + n) % 2 ^ 32 in
    record {
      regions = (s.regions + 1) % 2 ^ 32;
      current = now;
      maximum = if ltb s.maximum now then now else s.maximum;
    }

unfoldable pub count_out : ℕ → Stats → Stats
count_out n s = record s {
  regions = (s.regions + (2 ^ 32 - 1)) % 2 ^ 32;
  current = (s.current + (2 ^ 32 - n)) % 2 ^ 32;
}

-- The totals and the counters of the type.
unfoldable pub count_type : (Stats → Stats) → ℕ → ModuleStats → ModuleStats
count_type f type pms =
    if type == type_of_generic
    then record pms { totals = f pms.totals; type_generic = f pms.type_generic }
    else if type == type_of_netbuf
    then record pms { totals = f pms.totals; type_netbuf = f pms.type_netbuf }
    else record pms { totals = f pms.totals }

-- A write to the `memorystats` of a module.
abbrev pub put_stats : (ℕ → Option ModuleStats) → ℕ → Option ModuleStats → ℕ → Option ModuleStats
put_stats stats m pms k = if k == m then pms else stats k

-- Counting for a module that is there and has its counters.
unfoldable pub account :
    (Stats → Stats) → Option ℕ → ℕ → (ℕ → Option ModuleStats) → ℕ → Option ModuleStats
unfolding count_type
account f none type stats = stats
account f (some m) type stats = elim (stats m) [
  | none ↦ stats
  | some pms ↦ put_stats stats m (some (count_type f type pms))
]

module _ (malloc : ℕ → Option (List ℕ)) where
  -- naf_memory__module_init, of a module that has no counters yet
  unfoldable pub module_init : Option ℕ → (ℕ → Option ModuleStats) → ℕ → Option ModuleStats
  module_init none stats = stats
  module_init (some m) stats = elim (stats m) [
    | some _ ↦ stats
    | none ↦ elim (malloc stats_size) [ none ↦ stats | some _ ↦ put_stats stats m (some no_stats) ]
  ]

  -- naf_malloc_real: the address, or null, and the heap afterwards.
  unfoldable pub naf_malloc : Heap → Option ℕ → ℕ → ℕ → Option (Option ℕ × Heap)
  unfolding module_init account count_in
  naf_malloc h mod_ type reqsize =
      let stats : ℕ → Option ModuleStats = module_init mod_ h.memorystats in
      elim (malloc ((header_size + reqsize + length magic_footer) % 2 ^ 32)) [
        | none ↦ some (none, record h { memorystats = stats })
        | some buf ↦ (store buf (header_size + reqsize) magic_footer) >>= λ _. some (
          some h.next_id,
          record {
            blocks =
                record {
                  id = h.next_id;
                  hdrmagic1 = magic_start;
                  type = type % 2 ^ 16;
                  owner = mod_;
                  buflen = reqsize % 2 ^ 32;
                  hdrmagic2 = magic_end;
                  footer = magic_footer;
                }
                ∷ h.blocks;
            memorystats = account (count_in reqsize) mod_ type stats;
            next_id = h.next_id + 1;
          },
        )
      ]

-- The block at an address, and the blocks without it.
unfoldable pub find_block : List Block → ℕ → Option Block
find_block [] id = none
find_block (b ∷ bs) id = if b.id == id then some b else find_block bs id

unfoldable pub drop_block : List Block → ℕ → List Block
drop_block [] id = []
drop_block (b ∷ bs) id = let rest = drop_block bs id in if b.id == id then bs else b ∷ rest

-- naf_free_real of a block that naf_malloc_real returned, or of null. The module that calls it only
-- goes to the debug output.
unfoldable pub naf_free : Heap → Option ℕ → Option Heap
unfolding account count_out find_block drop_block
naf_free h none = some h
naf_free h (some ptr) = (find_block h.blocks ptr) >>= λ hdr.
    if not (hdr.hdrmagic2 == magic_end) || not (hdr.hdrmagic1 == magic_start)
    then none
    else if not (bytes_eq hdr.footer magic_footer)
    then none
    else some (record h {
      blocks = drop_block h.blocks ptr;
      memorystats = account (count_out hdr.buflen) hdr.owner hdr.type h.memorystats;
    })
