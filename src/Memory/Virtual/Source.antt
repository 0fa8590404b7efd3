-- ===== src/Memory/Virtual/Source.antt =====
-- The page source of the kernel's heap: `pp_alloc` and `map_page`, as `heap_grow_pages` calls them.
use ada_os.Base.{
  ℕ, ◌+◌, ◌*◌, ◌/◌, ◌%◌, ◌^◌, ◌≤◌, ◌≡◌, Bool, true, false, ◌==◌, if◌then◌else◌, bit_or, Outcome,
  done, panicked, ◌>>=◌, >>=-Returns, done-Returns, if-Returns, inr, refl, List,
}
use ada_os.Memory.Layout.{Boot, page_size}
use ada_os.Memory.Physical.{Pmm, pp_alloc}
use ada_os.Memory.Heap.{PageSource, Heap, kmalloc}
use ada_os.Memory.Heap.Blocks.{Block}
use ada_os.Memory.Heap.Malloc.{IsHeap}
use ada_os.Memory.Heap.Grow.{IsPageSource, heap_end}
use ada_os.Memory.Heap.Serve.{Answers, kmalloc-Answers}
use ada_os.Memory.Virtual.{null, map_page, pte_present, pte_writable, pte_nx}
use ada_os.Memory.Physical.Returning.{pp_alloc-Returns}
use ada_os.Memory.Virtual.Returning.{map_page-Returns}

-- One round of the loop of `heap_grow_pages`.
pub provide_page : Boot → (top_level virt : ℕ) → Pmm → Outcome (Bool × Pmm)
provide_page boot top_level virt s = pp_alloc boot s >>= λ r.
    (if r.0 == null
      then done (false, r.1)
      else (map_page boot top_level virt r.0 (bit_or pte_present (bit_or pte_writable pte_nx)) r.1
          >>= λ r'. if r'.0 then done (true, r'.1) else panicked))

abbrev pub kernel_pages : Boot → ℕ → PageSource
kernel_pages boot top_level = record { State = Pmm; provide = provide_page boot top_level }

pub kernel_pages-IsPageSource :
    (boot : Boot) (top_level : ℕ) → IsPageSource (kernel_pages boot top_level)
unfolding provide_page
kernel_pages-IsPageSource boot top_level virt s =
    >>=-Returns (pp_alloc boot s) _ (pp_alloc-Returns boot s) (λ r. if-Returns _ (done-Returns _) (
      >>=-Returns _ _ (map_page-Returns boot top_level virt r.0 _ r.1)
        (λ r'. if-Returns _ (done-Returns _) (inr refl))))

-- `kmalloc` over the kernel's own page allocator and page tables returns or panics, in every state
-- of those two: for a well-formed heap whose end is a multiple of 16 and has room above it. If it
-- returns, the heap is well-formed and the result is NULL or a block in use with room for the
-- request.
pub kmalloc-kernel_pages :
    (boot : Boot) (top_level : ℕ) {h : Heap (kernel_pages boot top_level)} {bs : List Block}
    → (size : ℕ) → IsHeap (kernel_pages boot top_level) h bs
    → heap_end h % 16 ≡ 0
    → size + 32 ≤ 2 ^ 64
    → heap_end h + (size / page_size + 3) * 65536 + 32 ≤ 2 ^ 64
    → Answers (kernel_pages boot top_level) size (kmalloc (kernel_pages boot top_level) size h)
kmalloc-kernel_pages boot top_level size w aligned small room =
    kmalloc-Answers (kernel_pages boot top_level) (kernel_pages-IsPageSource boot top_level) size w
      aligned small room
