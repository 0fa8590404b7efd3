-- ===== src/Kmain/Managing.antt =====
-- The memory managers' setup comes to an end, and leaves a heap that has all its blocks.
use ada_os.Base.{inl}
use ada_os.Base.{ltb}
use ada_os.Base.{◌&&◌}
use ada_os.Memory.Physical.{pp_alloc}
use ada_os.Base.{not}
use ada_os.Base.{◌==◌}
use ada_os.Base.{◌∙◌}
use ada_os.Memory.Physical.{setup_pmm}
use ada_os.Base.{
  ℕ, ◌+◌, ◌-◌, ◌%◌, ◌^◌, ◌≤◌, ◌≡◌, refl, inr, arith, List, [], ◌∷◌, true, some, if◌then◌else◌, done,
  Ends, map-Ends, >>=-Ends, Returns-Ends, run-Ends, length, length-take_le, Bool-cases, ◌||◌,
}
use ada_os.Core.{Memory}
use ada_os.Memory.Layout.{add64, Boot}
use ada_os.Memory.Map
use ada_os.Memory.Physical.{Pmm}
use ada_os.Memory.Physical.Returning.{pp_alloc-Returns, pp_free-Returns, setup_pmm-Returns}
use ada_os.Memory.Virtual.Returning.{setup_vmm-Returns}
use ada_os.Memory.Virtual.Source.{kernel_pages, kernel_pages-IsPageSource}
use ada_os.Memory.Heap.{kfree, total_size_of, header_sz}
use ada_os.Memory.Heap.Blocks.{Block}
use ada_os.Memory.Heap.Policy.{take_block}
use ada_os.Memory.Heap.Malloc.{IsHeap, kmalloc-take_block, total_size_of_lem}
use ada_os.Memory.Heap.Free.{kfree-kmalloc}
use ada_os.Memory.Heap.Setup.{first_size, first_blocks, setup_heap-Fresh}
use ada_os.Util.State.{GlobalState, set_state, pmm_initialized, vmm_initialized, heap_initialized}
use ada_os.Kmain.{Environment, Managed, is_block_sane, kernel_heap_start, start_heap, start_memory}

-- What `start_heap` leaves: a well-formed heap at 2 ^ 40 above the start of the upper half, whose first
-- 256 pages are one free block again; and the flag of the heap.
pub record HeapReady (boot : Boot) (s : GlobalState) (k : Managed boot) : Type 0 where
  pub heap :
      IsHeap (kernel_pages boot k.top_level) k.heap (first_blocks (boot.hhdm_offset + 2 ^ 40))
  pub state : (i : ℕ) → k.state i ≡ (if i == 8 then 1 else s i)

module _ (boot : Boot) (aligned : boot.hhdm_offset % 16 ≡ 0)
    (room : boot.hhdm_offset + 2 ^ 40 + first_size + 32 ≤ 2 ^ 64) where
  abbrev first_address : ℕ
  first_address = boot.hhdm_offset + 2 ^ 40

  abbrev taken : Block × List Block
  taken = ((first_address, 6160), (first_address + 6160, first_size - 6160) ∷ [])

  first_fit : take_block (total_size_of 6144) (first_blocks first_address) ≡ some taken
  unfolding take_block
  first_fit =
      let (least, most, whole) = total_size_of_lem 6144 (omega arith) in
      let exact : total_size_of 6144 ≡ 6160 = omega arith in rw exact refl

  start_heap-HeapReady :
      (top_level : ℕ) (memory : Memory) (pages : Pmm) (s : GlobalState)
      → Ends (HeapReady boot s) (start_heap boot top_level memory pages s)
  unfolding start_heap
  start_heap-HeapReady top_level memory pages s =
      let source = kernel_pages boot top_level in
      let start : kernel_heap_start boot ≡ first_address = omega (arith, room) in
      rw start (
        >>=-Ends _ _ _ _
          (setup_heap-Fresh source (kernel_pages-IsPageSource boot top_level) first_address _
            (omega arith) (omega (arith, aligned)) room refl)
          (λ h fresh.
            let (h1, run, k) =
              kmalloc-take_block source fresh.heap 6144 taken (omega arith) (omega arith)
                first_fit in
            let (h2, back, w) =
              kfree-kmalloc source fresh.heap 6144 taken (omega arith) (omega arith) first_fit in
            let freed : kfree source (add64 first_address header_sz) h1 ≡ done h2 =
              rw run at back in
            let sane : is_block_sane boot (add64 first_address header_sz) ≡ true =
              ground (arith, room) in
            inr (
              record { state = set_state heap_initialized 1 s; top_level = top_level; heap = h2 },
              rw (run, sane, freed) refl,
              record { heap = w; state = λ i. refl },
            )))

-- At most 32 chunks of memory are free, for so many mappings the page allocator has.
abbrev pub HasMappings : Environment → Type 0
HasMappings e =
    (d : Map.Descriptor) × (Map.get_memory_descriptor e.entries ≡ done d)
    × (length d.free_chunks ≤ 32)

-- What `start_memory` leaves, by the run: the page of its test is what `pp_alloc` gave, once the page
-- allocator was set up on the map's chunks. The heap is ready; and of the flags those of the page
-- tables and of the heap are set, and that of the page allocator exactly if the page lies above 0
-- and below the upper half.
pub record MemoryReady (e : Environment) (pages : Pmm) (s : GlobalState) (k : Managed e.boot)
    : Type 0 where
  pub found : Map.Descriptor
  pub described : Map.get_memory_descriptor e.entries ≡ done found
  pub tables : Pmm
  pub tables_run : setup_pmm e.boot (Map.counted_chunks found) e.bitmap pages ≡ done tables
  pub page : ℕ × Pmm
  pub page_run : pp_alloc e.boot tables ≡ done page
  pub heap :
      IsHeap (kernel_pages e.boot k.top_level) k.heap (first_blocks (e.boot.hhdm_offset + 2 ^ 40))
  pub state :
      (i : ℕ)
      → k.state i ≡ (
          if i == 8 || i == 7
          then 1
          else if i == 6 && (ltb 0 page.0 && ltb page.0 e.boot.hhdm_offset)
          then 1
          else s i)

flags_in_order :
    (page hhdm i : ℕ) (s : GlobalState)
    → (let s' : GlobalState =
          set_state vmm_initialized 1
            (if not (page == 0) && ltb page hhdm then set_state pmm_initialized 1 s else s) in
        (if i == 8 then 1 else s' i))
      ≡ (if i == 8 || i == 7 then 1 else if i == 6 && (ltb 0 page && ltb page hhdm) then 1 else s i)
flags_in_order page hhdm i s = elim (Bool-cases (not (page == 0) && ltb page hhdm)) [
  | inl sane ↦ rw sane (ground (arith, sane))
  | inr bogus ↦ rw bogus (ground (arith, bogus))
]

-- The setup of the memory managers returns or panics, for every state of the page allocator and every
-- memory map with at most 32 free chunks, if the upper half starts at a multiple of 16 with room for
-- the heap. What it leaves is `MemoryReady`: the heap is well-formed and has all its first 256 pages
-- as one free block, since the block of the test is given back; the flags of the page tables and of
-- the heap are set; that of the page allocator is set exactly if the page that was allocated for its
-- test lies above 0 and below the upper half; and no other flag has changed.
pub start_memory-MemoryReady :
    (e : Environment) (memory : Memory) (pages : Pmm) (cr3 : ℕ) (s : GlobalState)
    → HasMappings e
    → e.boot.hhdm_offset % 16 ≡ 0
    → e.boot.hhdm_offset + 2 ^ 40 + first_size + 32 ≤ 2 ^ 64
    → Ends (MemoryReady e pages s) (start_memory e memory pages cr3 s)
unfolding start_memory
start_memory-MemoryReady e memory pages cr3 s (d, described, few) aligned room =
    let boot = e.boot in
    let chunks = Map.counted_chunks d in
    let few' = length-take_le d.chunk_count d.free_chunks in
    let setup = setup_pmm-Returns boot chunks e.bitmap pages (omega (arith, few, few')) in
    rw described (
      >>=-Ends _ _ _ _ (run-Ends _ _ (Returns-Ends _ setup)) (λ s1 u1.
        >>=-Ends _ _ _ _ (run-Ends _ _ (Returns-Ends _ (pp_alloc-Returns boot s1))) (λ p u2.
          >>=-Ends _ _ _ _ (Returns-Ends _ (pp_free-Returns p.1 p.0)) (λ s2 u3.
            >>=-Ends _ _ _ _
              (Returns-Ends _ (setup_vmm-Returns boot e.sections chunks e.framebuffer _))
              (λ v u4.
                map-Ends _ _ _
                  (λ k ready. record {
                    found = d;
                    described = described;
                    tables = s1;
                    tables_run = u1.0;
                    page = p;
                    page_run = u2.0;
                    heap = ready.heap;
                    state = λ i. ready.state i ∙ flags_in_order p.0 boot.hhdm_offset i s;
                  })
                  (start_heap-HeapReady boot aligned room v.top_level memory v.pages _))))))
