-- ===== src/Memory/Physical.antt =====
-- kernel/src/memory/physical/pmm.c: the bitmap allocator of physical pages. Log output is left
-- out. `page_bitmap` and `page_mappings` are functions of the index, so a read past the C array
-- reads some byte; a write past `page_mappings` is undefined.
pub mod Bitmap
pub mod Search
pub mod Mappings
pub mod Alloc
pub mod Free
pub mod Chunks
pub mod Reserve
pub mod Returning
mod Tests
use ada_os.Base.{
  ℕ, zero, suc, ◌+◌, ◌-◌, ◌*◌, ◌/◌, ◌%◌, Bool, true, false, ◌&&◌, not, Option, none, some, List, [],
  ◌∷◌, ltb, leb, ◌==◌, if◌then◌else◌, bit_at, set_bit, clear_bit, Outcome, done, panicked, spinning,
  undefined, length, ◌>>=◌,
}
use ada_os.Core.{Memory, memset}
use ada_os.Memory.Layout.{add64, sub64, mul64, page_size, max_pages, max_segments, align_up, Boot}

-- `contiguous_memory_chunk_t`.
pub record Chunk : Type 0 where
  pub base : ℕ
  pub bounds : ℕ

-- `page_mapping_t`.
pub record Mapping : Type 0 where
  pub offset : ℕ
  pub page_start_index : ℕ
  pub page_end_index : ℕ

-- The static variables of pmm.c, and the memory that it clears. `chunk_count` is `desc`'s.
pub record Pmm : Type 0 where
  pub page_bitmap : ℕ → ℕ
  pub page_mappings : ℕ → Mapping
  pub last_used_mapping : ℕ
  pub last_page_used : ℕ
  pub free_pages : ℕ
  pub used_pages : ℕ
  pub chunk_count : ℕ
  pub memory : Memory

pub get_used_memory : Pmm → ℕ
get_used_memory s = mul64 s.used_pages page_size

pub get_free_memory : Pmm → ℕ
get_free_memory s = mul64 s.free_pages page_size

pub page_free : Pmm → ℕ → Bool
page_free s page_index =
    if bit_at (s.page_bitmap (page_index / 8)) (page_index % 8) == 1 then false else true

abbrev pub put_byte : (ℕ → ℕ) → ℕ → ℕ → ℕ → ℕ
put_byte bitmap i v j = if j == i then v else bitmap j

-- `free` is true for FREE and false for USED.
pub set_page : Pmm → ℕ → Bool → Pmm
set_page s page_index free =
    let byte = page_index / 8 in
    let bit = page_index % 8 in
    let old = s.page_bitmap byte in
    if free
    then record s {
      page_bitmap = put_byte s.page_bitmap byte (clear_bit old bit);
      free_pages = add64 s.free_pages 1;
      used_pages = sub64 s.used_pages 1;
    }
    else record s {
      page_bitmap = put_byte s.page_bitmap byte (set_bit old bit);
      last_page_used = page_index;
      free_pages = sub64 s.free_pages 1;
      used_pages = add64 s.used_pages 1;
    }

-- `for (i = i; i < i + n; i++) if (page_free(i)) return i;`
first_free : Pmm → ℕ → ℕ → Option ℕ
first_free s zero i = none
first_free s (suc n) i = elim (page_free s i) [ true ↦ some i | false ↦ first_free s n (i + 1) ]

-- The two tests that send the search back to the start.
rewind : Boot → ℕ → ℕ
rewind boot last =
    let first = if leb (boot.physical_base / page_size) last then 1 else last in
    if leb max_pages first then 1 else first

-- The loop over all pages; `panic` does not return.
search_all : Pmm → Outcome (ℕ × Pmm)
search_all s = elim (first_free s max_pages 1) [
  | none ↦ panicked
  | some i ↦ done (i, record s { last_page_used = i })
]

pub get_free_page : Boot → Pmm → Outcome (ℕ × Pmm)
get_free_page boot s =
    let next = add64 (rewind boot s.last_page_used) 1 in
    let s' = record s { last_page_used = next } in
    if page_free s' next then done (next, s') else search_all s'

-- The `retry` loop of `page_to_ptr` and `ptr_to_page`, over the index of the mapping and the flag
-- `wrapped`. It ends at a mapping that `hit` accepts, or behind the last one.
pub retry : (ℕ → Bool) → ℕ → ℕ → ℕ → Bool → Outcome (ℕ × Bool)
retry hit count zero last wrapped = spinning
retry hit count (suc fuel) last wrapped =
    let next = retry hit count fuel (last + 1) wrapped in
    let again = retry hit count fuel 0 true in
    if hit last
    then done (last, true)
    else if leb last count
    then next
    else if wrapped
    then done (last, false)
    else again

-- One pass from any index to `count + 1`, the step back, and one more pass.
abbrev pub rounds : ℕ → ℕ
rounds count = 2 * count + 6

abbrev pub null : ℕ
null = 0

-- `-1` as a `uint64_t`.
abbrev pub no_page : ℕ
no_page = 0xffff_ffff_ffff_ffff

abbrev pub holds_page : Mapping → ℕ → Bool
holds_page m page_index = ltb m.page_start_index page_index && ltb page_index m.page_end_index

abbrev pub page_address : Mapping → ℕ → ℕ
page_address m page_index = add64 m.offset (mul64 (sub64 page_index m.page_start_index) page_size)

pub page_to_ptr : Pmm → ℕ → Outcome (ℕ × Pmm)
page_to_ptr s page_index =
    if ltb max_pages page_index
    then done (null, s)
    else retry (λ k. holds_page (s.page_mappings k) page_index) s.chunk_count (rounds s.chunk_count)
        s.last_used_mapping false
      >>= λ r. done (
        if r.1 then page_address (s.page_mappings r.0) page_index else null,
        record s { last_used_mapping = r.0 },
      )

abbrev pub segment_size : Mapping → ℕ
segment_size m = mul64 (sub64 m.page_end_index m.page_start_index) page_size

abbrev pub holds_ptr : Mapping → ℕ → Bool
holds_ptr m ptr = ltb m.offset ptr && ltb ptr (add64 m.offset (segment_size m))

abbrev pub address_page : Mapping → ℕ → ℕ
address_page m ptr = add64 m.page_start_index (sub64 ptr m.offset / page_size)

pub ptr_to_page : Pmm → ℕ → Outcome (ℕ × Pmm)
ptr_to_page s ptr =
    if ptr == null
    then done (no_page, s)
    else if not (ptr % page_size == 0)
    then done (no_page, s)
    else retry (λ k. holds_ptr (s.page_mappings k) ptr) s.chunk_count (rounds s.chunk_count)
        s.last_used_mapping false
      >>= λ r. done (
        if r.1 then address_page (s.page_mappings r.0) ptr else no_page,
        record s { last_used_mapping = r.0 },
      )

-- `_pp_alloc`.
pub pp_alloc_at : Boot → Pmm → ℕ → Outcome (ℕ × Pmm)
pp_alloc_at boot s page_index =
    if leb boot.physical_base page_index
    then done (null, s)
    else if ltb max_pages page_index
    then done (null, s)
    else if not (page_free s page_index)
    then done (null, s)
    else page_to_ptr (set_page s page_index false) page_index >>= λ r. done (
      r.0,
      record r.1 { memory = (memset (add64 r.0 boot.hhdm_offset) 0 page_size r.1.memory).1 },
    )

pub pp_alloc : Boot → Pmm → Outcome (ℕ × Pmm)
pp_alloc boot s = get_free_page boot s >>= λ r. pp_alloc_at boot r.1 r.0

-- `_pp_free`.
pub pp_free_at : Pmm → ℕ → Pmm
pp_free_at s page_index =
    if ltb max_pages page_index
    then s
    else if page_free s page_index
    then s
    else set_page s page_index true

pub pp_free : Pmm → ℕ → Outcome Pmm
pp_free s ptr = ptr_to_page s ptr >>= λ r. done (pp_free_at r.1 r.0)

low_memory : ℕ
low_memory = 0x100000

pub chunk_pages : Chunk → ℕ
chunk_pages c = sub64 c.bounds c.base / page_size

pub chunk_mapping : Chunk → ℕ → Mapping
unfolding low_memory chunk_pages
chunk_mapping c pages_used = record {
  offset = if ltb low_memory c.base then c.base else low_memory;
  page_start_index = pages_used;
  page_end_index = add64 pages_used (align_up (chunk_pages c) page_size);
}

-- The loop of `generate_page_mapping` from chunk `i` on.
map_chunks : List Chunk → (i pages_used : ℕ) → (ℕ → Mapping) → (ℕ → Mapping) × ℕ
map_chunks [] i pages_used mappings = (mappings, pages_used)
map_chunks (c ∷ cs) i pages_used mappings =
    map_chunks cs (i + 1) (add64 pages_used (chunk_pages c + 1))
      (λ k. if k == i then chunk_mapping c pages_used else mappings k)

pub generate_page_mapping : List Chunk → Pmm → Pmm
generate_page_mapping chunks s =
    let (mappings, pages_used) = map_chunks chunks 0 0 s.page_mappings in
    record s { page_mappings = mappings; free_pages = pages_used }

-- One round of the loops of `setup_pmm` that mark the pages of the kernel and of the bitmap.
reserve_page : Pmm → ℕ → Pmm
reserve_page s i =
    if ltb max_pages i
    then s
    else set_page (if page_free s i then s else record s { free_pages = sub64 s.free_pages 1 }) i
        false

-- `for (i = i; i < i + n; i++)`
reserve : Pmm → ℕ → ℕ → Pmm
reserve s zero i = s
reserve s (suc n) i = reserve (reserve_page s i) n (i + 1)

-- `for (i = first; i <= last; i++)`
pub reserve_range : Pmm → ℕ → ℕ → Pmm
reserve_range s first last = reserve s (last + 1 - first) first

-- `setup_pmm` from the mappings to its self-test: `bitmap` is the address of `page_bitmap`.
pub reserve_tables : Boot → List Chunk → (bitmap : ℕ) → Pmm → Pmm
reserve_tables boot chunks bitmap s =
    let s1 = generate_page_mapping chunks (record s { chunk_count = length chunks }) in
    let k_phys_start = boot.physical_base in
    let k_phys_end = add64 k_phys_start (align_up boot.executable_size page_size) in
    let s2 = reserve_range s1 (k_phys_start / page_size) (k_phys_end / page_size) in
    let bitmap_start = add64 (sub64 bitmap boot.virtual_base) boot.physical_base in
    let bitmap_end = add64 bitmap_start max_pages in
    reserve_range s2 (bitmap_start / page_size) (add64 bitmap_end (page_size - 1) / page_size)

-- `setup_pmm` up to its self-test. `chunks` are the chunks that `desc.chunk_count` counts; each needs
-- one of the `MAX_SEGMENTS` mappings.
pub setup_tables : Boot → List Chunk → (bitmap : ℕ) → Pmm → Outcome Pmm
unfolding reserve_tables
setup_tables boot chunks bitmap s =
    if ltb max_segments (length chunks)
    then undefined
    else done (reserve_tables boot chunks bitmap s)

-- The self-test allocates a page. The pointer to it is overwritten by that of the test string,
-- so the comparison that follows is of the string with itself, and the page is not given back.
pub setup_pmm : Boot → List Chunk → (bitmap : ℕ) → Pmm → Outcome Pmm
setup_pmm boot chunks bitmap s =
    setup_tables boot chunks bitmap s >>= λ s'. pp_alloc boot s' >>= λ r. done r.1
