-- ===== src/Memory/Heap.antt =====
-- kernel/src/memory/heap.c: the kernel heap, a free list in address order inside the heap's own
-- memory. Log output is left out. What `pp_alloc` and `map_page` do for a new page comes through
-- `PageSource`.
pub mod Blocks
pub mod Carve
pub mod Fit
pub mod Policy
pub mod Malloc
pub mod Relink
pub mod Link
pub mod Merge
pub mod Insert
pub mod Put
pub mod Release
pub mod Free
pub mod Grow
pub mod Serve
pub mod Setup
pub mod Resize
pub mod Zeroed
mod Tests
use ada_os.Base.{
  ℕ, zero, suc, ◌+◌, ◌-◌, ◌*◌, ◌/◌, ◌%◌, Bool, true, false, ◌&&◌, ◌||◌, not, Option, none, some,
  ltb, leb, ◌==◌, if◌then◌else◌, Outcome, done, panicked, spinning, ◌>>=◌,
}
use ada_os.Core.{Memory, memcpy, memset}
use ada_os.Core.Words.{load64, store64}
use ada_os.Memory.Layout.{add64, sub64, mul64, page_size}

-- `sizeof(struct heap_free_block)` and `ALIGN_UP_HEAP(sizeof(size_t))`.
abbrev pub min_alloc_size : ℕ
min_alloc_size = 16

abbrev pub header_sz : ℕ
header_sz = 16

abbrev pub null : ℕ
null = 0

-- `((size) + HEAP_ALIGNMENT - 1) & ~(HEAP_ALIGNMENT - 1)`
abbrev pub align_up_heap : ℕ → ℕ
align_up_heap size = add64 size 15 / 16 * 16

-- `heap_free_block_t`: the size at the block's address, and the next block behind it.
abbrev pub size_of : Memory → ℕ → ℕ
size_of m block = load64 m block

abbrev pub next_of : Memory → ℕ → ℕ
next_of m block = load64 m (block + 8)

abbrev pub set_size : Memory → ℕ → ℕ → Memory
set_size m block size = store64 m block size

abbrev pub set_next : Memory → ℕ → ℕ → Memory
set_next m block next = store64 m (block + 8) next

-- The head of the free list, and the memory that the list lies in.
pub record FreeList : Type 0 where
  pub free_list_head : ℕ
  pub memory : Memory

-- `while (current && current < block) { previous = current; current = current->next; }`, with
-- the final `previous`.
pub find_place : ℕ → Memory → (block previous current : ℕ) → Outcome ℕ
find_place zero m block previous current = spinning
find_place (suc fuel) m block previous current =
    let rest = find_place fuel m block current (next_of m current) in
    if not (current == null) && ltb current block then rest else done previous

-- `block->next = previous->next; previous->next = block;`, or the same at the head.
pub link_after : FreeList → (previous block : ℕ) → FreeList
link_after l previous block =
    if previous == null
    then record { free_list_head = block; memory = set_next l.memory block l.free_list_head }
    else record l {
      memory = set_next (set_next l.memory block (next_of l.memory previous)) previous block;
    }

-- `block->size += other->size; block->next = other->next;` for the next block `other`.
pub absorb : Memory → (block other : ℕ) → Memory
absorb m block other =
    let m' = set_size m block (add64 (size_of m block) (size_of m other)) in
    set_next m' block (next_of m' other)

abbrev pub touches : Memory → (block other : ℕ) → Bool
touches m block other = add64 block (size_of m block) == other

pub merge_next : Memory → (block : ℕ) → Memory
merge_next m block =
    let next = next_of m block in
    if not (next == null) && touches m block next then absorb m block next else m

pub merge_previous : Memory → (previous block : ℕ) → Memory
merge_previous m previous block =
    if not (previous == null) && touches m previous block then absorb m previous block else m

-- The end of `kfree` and of `heap_grow_pages`: the block is put behind `previous`, and merged
-- with the blocks that it touches.
pub link_block : FreeList → (previous block : ℕ) → FreeList
unfolding link_after merge_next merge_previous absorb
link_block l previous block =
    let l' = link_after l previous block in
    record l' { memory = merge_previous (merge_next l'.memory block) previous block }

-- The first-fit loop of `kmalloc`: `previous` and the block found, if one is large enough.
pub find_fit : ℕ → Memory → (total_size previous current : ℕ) → Outcome (Option (ℕ × ℕ))
find_fit zero m total_size previous current = spinning
find_fit (suc fuel) m total_size previous current =
    let rest = find_fit fuel m total_size current (next_of m current) in
    if current == null
    then done none
    else if leb total_size (size_of m current)
    then done (some (previous, current))
    else rest

pub relink : FreeList → (previous next : ℕ) → FreeList
relink l previous next =
    if previous == null
    then record l { free_list_head = next }
    else record l { memory = set_next l.memory previous next }

-- `kmalloc` on the block that it found: the tail of a larger block stays in the list; the write
-- through `size_ptr` puts the size that is there already.
pub carve : FreeList → (total_size previous current : ℕ) → FreeList
unfolding relink
carve l total_size previous current =
    let size = size_of l.memory current in
    if leb (add64 total_size min_alloc_size) size
    then (let rest = add64 current total_size in
        let m1 = set_size l.memory rest (sub64 size total_size) in
        let m2 = set_next m1 rest (next_of m1 current) in
        let m3 = set_size m2 current total_size in
        let l' = relink (record l { memory = m3 }) previous rest in
        record l' { memory = set_size l'.memory current (size_of l'.memory current) })
    else (let l' = relink l previous (next_of l.memory current) in
        record l' { memory = set_size l'.memory current (size_of l'.memory current) })

-- Each block takes 16 bytes at least, so a list has at most `heap_size / 16` of them.
abbrev pub walk : ℕ → ℕ
walk heap_size = heap_size / 16 + 1

-- The size of a block that holds `size` bytes and the header.
pub total_size_of : ℕ → ℕ
total_size_of size =
    let total = add64 (align_up_heap size) header_sz in
    if ltb total min_alloc_size then min_alloc_size else total

-- One round of the loop of `heap_grow_pages`: a physical page, mapped at the address. `false` when
-- there is no page; `map_page` failing is a panic.
pub record PageSource : Type 1 where
  pub State : Type 0
  pub provide : ℕ → State → Outcome (Bool × State)

module _ (source : PageSource) where
  open source use {State, provide}

  -- The static variables of heap.c.
  pub record Heap : Type 0 where
    pub heap_start : ℕ
    pub heap_size : ℕ
    pub free : FreeList
    pub open free use *
    pub pages : State

  -- `for (i = i; i < i + n; i++)`: `false` when a page is missing, and then the pages before it
  -- stay mapped.
  grow_loop : ℕ → (base i : ℕ) → State → Outcome (Bool × State)
  grow_loop zero base i pages = done (true, pages)
  grow_loop (suc n) base i pages = provide (add64 base (mul64 i page_size)) pages >>= λ r.
      let rest = grow_loop n base (i + 1) r.1 in if r.0 then rest else done (false, r.1)

  pub heap_grow_pages : ℕ → Heap → Outcome (Bool × Heap)
  unfolding grow_loop
  heap_grow_pages pages h =
      if pages == 0
      then done (false, h)
      else (let base = add64 h.heap_start h.heap_size in
          let new_region_size = mul64 pages page_size in
          grow_loop pages base 0 h.pages >>= λ r.
          (if not r.0
            then done (false, record h { pages = r.1 })
            else (let m = set_next (set_size h.memory base new_region_size) base null in
                let l = record h.free { memory = m } in
                (if h.free_list_head == null
                  then done (record l { free_list_head = base })
                  else (find_place (walk h.heap_size) m base null h.free_list_head >>= λ previous.
                      done (link_block l previous base)))
                >>= λ l'. done (
                  true,
                  record h {
                    heap_size = add64 h.heap_size new_region_size;
                    free = l';
                    pages = r.1;
                  },
                ))))

  -- `retry_search`, over the number of times that the heap may still grow.
  kmalloc_search : ℕ → ℕ → Heap → Outcome (ℕ × Heap)
  kmalloc_search zero total_size h = spinning
  kmalloc_search (suc tries) total_size h =
      find_fit (walk h.heap_size) h.memory total_size null h.free_list_head >>= elim [
        | some (previous, current) ↦
            done (
              add64 current header_sz,
              record h { free = carve h.free total_size previous current },
            )
        | none ↦ heap_grow_pages 16 h >>= λ r.
            (if r.0
              then kmalloc_search tries total_size r.1
              else (heap_grow_pages 1 r.1 >>= λ r'.
                  (if r'.0 then kmalloc_search tries total_size r'.1 else done (null, r'.1))))
      ]

  -- A request needs at most one page for every 4096 bytes, and one search more.
  abbrev tries_for : ℕ → ℕ
  tries_for total_size = total_size / page_size + 2

  pub kmalloc : ℕ → Heap → Outcome (ℕ × Heap)
  unfolding kmalloc_search
  kmalloc size h =
      if size == 0
      then done (null, h)
      else kmalloc_search (tries_for (total_size_of size)) (total_size_of size) h

  pub kfree : ℕ → Heap → Outcome Heap
  kfree ptr h =
      if ptr == null
      then done h
      else (let block_start = sub64 ptr header_sz in
          let block_size = load64 h.memory block_start in
          if ltb block_start h.heap_start || leb (add64 h.heap_start h.heap_size) block_start
          then panicked
          else if ltb block_size min_alloc_size
          then panicked
          else if not (block_start % 16 == 0)
          then panicked
          else (find_place (walk h.heap_size) h.memory block_start null h.free_list_head
              >>= λ previous. done (record h {
                free =
                    link_block (record h.free { memory = set_size h.memory block_start block_size })
                      previous block_start;
              })))

  pub kcalloc : (num size : ℕ) → Heap → Outcome (ℕ × Heap)
  kcalloc num size h =
      if not (size == 0) && ltb (0xffff_ffff_ffff_ffff / size) num
      then done (null, h)
      else (kmalloc (mul64 num size) h >>= λ r.
          (if r.0 == null
            then done r
            else done (
              r.0,
              record r.1 {
                free = record r.1.free { memory = (memset r.0 0 (mul64 num size) r.1.memory).1 };
              },
            )))

  pub krealloc : (ptr new_size : ℕ) → Heap → Outcome (ℕ × Heap)
  krealloc ptr new_size h =
      if ptr == null
      then kmalloc new_size h
      else if new_size == 0
      then (kfree ptr h >>= λ h'. done (null, h'))
      else (let old_total = load64 h.memory (sub64 ptr header_sz) in
          let old_payload = if leb header_sz old_total then old_total - header_sz else 0 in
          if leb new_size old_payload
          then done (ptr, h)
          else (kmalloc new_size h >>= λ r.
              (if r.0 == null
                then done (null, r.1)
                else (kfree ptr (record r.1 {
                  free = record r.1.free { memory = (memcpy r.0 ptr old_payload r.1.memory).1 };
                })
                    >>= λ h'. done (r.0, h')))))

  -- The heap's first 256 pages are one free block.
  pub setup_heap : (start : ℕ) → Heap → Outcome Heap
  setup_heap start h = heap_grow_pages 256 (record h { heap_start = start; heap_size = 0 }) >>= λ r.
      (if not r.0
        then panicked
        else done (record r.1 {
          free = record {
            free_list_head = start;
            memory = set_next (set_size r.1.memory start r.1.heap_size) start null;
          };
        }))
