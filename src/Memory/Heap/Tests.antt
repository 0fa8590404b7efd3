-- ===== src/Memory/Heap/Tests.antt =====
-- The heap at a concrete state: 64 KiB with one free block, and a source of three pages.
use ada_os.Base.{
  ℕ, zero, suc, ◌*◌, ◌≡◌, refl, ◌∙◌, inl, inr, Bool, true, false, List, [], ◌∷◌, some, Outcome,
  done, ◌>>=◌, arith,
}
use ada_os.Core.{Memory}
use ada_os.Core.Words.{load64-store64_self, load64-store64_apart}
use ada_os.Memory.Heap.{
  null, set_size, set_next, size_of, next_of, PageSource, Heap, kmalloc, kfree, kcalloc, krealloc,
  total_size_of, heap_grow_pages,
}
use ada_os.Memory.Heap.Blocks.{Block}
use ada_os.Memory.Heap.Grow.{IsPageSource, GrowResult, heap_grow_pages-Grown}
use ada_os.Memory.Heap.Serve.{Answers, kmalloc-Answers}
use ada_os.Memory.Heap.Policy.{take_block}
use ada_os.Memory.Heap.Malloc.{IsHeap, Allocated, kmalloc-take_block}
use ada_os.Memory.Heap.Zeroed.{Zeroed, kcalloc-Zeroed}
use ada_os.Memory.Heap.Resize.{Moved, krealloc-Moved}
use ada_os.Memory.Heap.Free.{InUse, Freed, kfree-put_block, kfree-kmalloc}

give : ℕ → ℕ → Outcome (Bool × ℕ)
give address zero = done (false, 0)
give address (suc n) = done (true, n)

abbrev three_pages : PageSource
three_pages = record { State = ℕ; provide = give }

abbrev one_block_memory : Memory
one_block_memory = set_next (set_size (λ _. 0) 4096 65536) 4096 null

abbrev one_block : Heap three_pages
one_block = record {
  heap_start = 4096;
  heap_size = 65536;
  free = record { free_list_head = 4096; memory = one_block_memory };
  pages = 3;
}

abbrev blocks : List Block
blocks = (4096, 65536) ∷ []

one_block-IsHeap : IsHeap three_pages one_block blocks
one_block-IsHeap =
    let m0 = set_size (λ _. 0) 4096 65536 in
    let size : size_of one_block_memory 4096 ≡ 65536 =
      load64-store64_apart m0 4104 null 4096 (inl (omega arith))
      ∙ load64-store64_self (λ _. 0) 4096 65536 (omega arith) in
    let next : next_of one_block_memory 4096 ≡ null =
      load64-store64_self m0 4104 null (omega arith) in
    record {
      start = omega arith;
      limit = omega arith;
      ordered = (omega arith, omega arith, omega arith, omega arith, omega arith, tt);
      chain = (refl, omega arith, size, next);
    }

-- 100 bytes take 112 and the header
abbrev taken : Block × List Block
taken = ((4096, 128), (4224, 65408) ∷ [])

takes : take_block (total_size_of 100) blocks ≡ some taken
unfolding total_size_of take_block
takes = refl

kmalloc-take_block_example :
    (h' : Heap three_pages) × (kmalloc three_pages 100 one_block ≡ done (4112, h'))
    × Allocated three_pages one_block h' 100 4096 128 blocks ((4224, 65408) ∷ [])
kmalloc-take_block_example =
    kmalloc-take_block three_pages one_block-IsHeap 100 taken (omega arith) (omega arith) takes

kfree-kmalloc_example :
    (h' : Heap three_pages) × ((kmalloc three_pages 100 one_block >>= λ r.
    kfree three_pages r.0 r.1)
      ≡ done h')
    × IsHeap three_pages h' blocks
kfree-kmalloc_example =
    kfree-kmalloc three_pages one_block-IsHeap 100 taken (omega arith) (omega arith) takes

-- the same heap with its first 128 bytes in use
abbrev used_memory : Memory
used_memory = set_size (set_next (set_size (λ _. 0) 4224 65408) 4224 null) 4096 128

abbrev used_heap : Heap three_pages
used_heap = record {
  heap_start = 4096;
  heap_size = 65536;
  free = record { free_list_head = 4224; memory = used_memory };
  pages = 3;
}

used_heap-IsHeap : IsHeap three_pages used_heap ((4224, 65408) ∷ [])
used_heap-IsHeap =
    let m0 = set_size (λ _. 0) 4224 65408 in
    let m1 = set_next m0 4224 null in
    let size : size_of used_memory 4224 ≡ 65408 =
      load64-store64_apart m1 4096 128 4224 (inr (omega arith))
      ∙ load64-store64_apart m0 4232 null 4224 (inl (omega arith))
      ∙ load64-store64_self (λ _. 0) 4224 65408 (omega arith) in
    let next : next_of used_memory 4224 ≡ null =
      load64-store64_apart m1 4096 128 4232 (inr (omega arith))
      ∙ load64-store64_self m0 4232 null (omega arith) in
    record {
      start = omega arith;
      limit = omega arith;
      ordered = (omega arith, omega arith, omega arith, omega arith, omega arith, tt);
      chain = (refl, omega arith, size, next);
    }

first_block-InUse : InUse three_pages used_heap ((4224, 65408) ∷ []) 4096 128
first_block-InUse = record {
  low = omega arith;
  high = omega arith;
  least = omega arith;
  aligned = (omega arith, omega arith);
  header =
      load64-store64_self (set_next (set_size (λ _. 0) 4224 65408) 4224 null) 4096 128
        (omega arith);
  apart = (inr (omega arith), tt);
}

kfree-put_block_example :
    (h' : Heap three_pages) × (kfree three_pages 4112 used_heap ≡ done h')
    × Freed three_pages used_heap h' 4096 128 ((4224, 65408) ∷ [])
kfree-put_block_example = kfree-put_block three_pages used_heap-IsHeap first_block-InUse

give_returns : IsPageSource three_pages
unfolding give
give_returns a zero = inl ((false, 0), refl)
give_returns a (suc n) = inl ((true, n), refl)

-- more than the free block has, so the heap grows by single pages
kmalloc-Answers_example : Answers three_pages 70000 (kmalloc three_pages 70000 one_block)
kmalloc-Answers_example =
    kmalloc-Answers three_pages give_returns 70000 one_block-IsHeap (omega arith) (omega arith)
      (omega arith)

heap_grow_pages-Grown_example :
    GrowResult three_pages one_block 8192 blocks (heap_grow_pages three_pages 2 one_block)
heap_grow_pages-Grown_example =
    heap_grow_pages-Grown three_pages one_block-IsHeap 2 (omega arith) (omega arith) (omega arith)
      give_returns

-- 200 bytes take 208 and the header
abbrev larger : Block × List Block
larger = ((4224, 224), (4448, 65184) ∷ [])

takes_larger : take_block (total_size_of 200) ((4224, 65408) ∷ []) ≡ some larger
unfolding total_size_of take_block
takes_larger = refl

krealloc-Moved_example :
    (h' : Heap three_pages) × (krealloc three_pages 4112 200 used_heap ≡ done (4240, h'))
    × Moved three_pages used_heap h' 4096 128 200 larger
krealloc-Moved_example =
    krealloc-Moved three_pages used_heap-IsHeap first_block-InUse 200 larger (omega arith)
      (omega arith) takes_larger

-- ten times 20 bytes
abbrev cells : Block × List Block
cells = ((4096, 224), (4320, 65312) ∷ [])

takes_cells : take_block (total_size_of (10 * 20)) blocks ≡ some cells
unfolding total_size_of take_block
takes_cells = refl

kcalloc-Zeroed_example :
    (h' : Heap three_pages) × (kcalloc three_pages 10 20 one_block ≡ done (4112, h'))
    × Zeroed three_pages one_block h' 200 blocks cells
kcalloc-Zeroed_example =
    kcalloc-Zeroed three_pages one_block-IsHeap 10 20 cells (omega arith) (omega arith) takes_cells
