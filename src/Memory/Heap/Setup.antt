-- ===== src/Memory/Heap/Setup.antt =====
-- `setup_heap`: the first heap.
use ada_os.Base.{
  ℕ, ◌+◌, ◌*◌, ◌%◌, ◌^◌, ◌≤◌, ◌<◌, ◌≡◌, refl, ◌∙◌, inl, inr, arith, List, [], ◌∷◌, Ends,
}
use ada_os.Core.Words.{load64-store64_self, load64-store64_apart}
use ada_os.Memory.Layout.{page_size}
use ada_os.Memory.Heap.{null, set_size, set_next, PageSource, Heap, setup_heap}
use ada_os.Memory.Heap.Blocks.{Block}
use ada_os.Memory.Heap.Malloc.{IsHeap}
use ada_os.Memory.Heap.Grow.{IsPageSource, heap_grow_pages-Grown}

-- The first heap has 256 pages.
abbrev pub first_size : ℕ
first_size = 256 * page_size

abbrev pub first_blocks : ℕ → List Block
first_blocks start = (start, first_size) ∷ []

-- What `setup_heap` leaves.
pub record Fresh (source : PageSource) (start : ℕ) (h : Heap source) : Type 0 where
  pub heap : IsHeap source h (first_blocks start)
  pub extent : (h.heap_start ≡ start) × (h.heap_size ≡ first_size)

-- The block that the end of `setup_heap` writes over the region.
abbrev first : (source : PageSource) → ℕ → Heap source → Heap source
first source start h = record h {
  free = record {
    free_list_head = start;
    memory = set_next (set_size h.memory start h.heap_size) start null;
  };
}

first-Fresh :
    (source : PageSource) (start : ℕ) (h : Heap source)
    → 0 < start
    → start % 16 ≡ 0
    → start + first_size + 32 ≤ 2 ^ 64
    → h.heap_start ≡ start
    → h.heap_size ≡ first_size
    → Fresh source start (first source start h)
first-Fresh source start h pos aligned room at_start whole =
    let m = set_size h.memory start h.heap_size in
    record {
      heap = record {
        start = omega (arith, at_start);
        limit = omega (arith, at_start, whole, room);
        ordered = (
          omega (arith, at_start),
          omega arith,
          aligned,
          refl,
          omega (arith, at_start, whole),
          tt,
        );
        chain = (
          refl,
          λ e. omega (arith, e),
          load64-store64_apart m (start + 8) null start (inl (omega arith))
              ∙ load64-store64_self h.memory start h.heap_size (omega (arith, whole))
              ∙ whole,
          load64-store64_self m (start + 8) null (omega arith),
        );
      };
      extent = (at_start, whole);
    }

-- `setup_heap`, before there is any block and with a page source that returns or panics, panics or
-- leaves a well-formed heap with one free block, the 256 pages from the start on. The start is a
-- multiple of 16 other than 0 that leaves room for them.
pub setup_heap-Fresh :
    (source : PageSource)
    → IsPageSource source
    → (start : ℕ) (h : Heap source) → 0 < start
    → start % 16 ≡ 0
    → start + first_size + 32 ≤ 2 ^ 64
    → h.free_list_head ≡ null
    → Ends (Fresh source start) (setup_heap source start h)
unfolding setup_heap
setup_heap-Fresh source ok start h pos aligned room empty =
    let h0 : Heap source = record h { heap_start = start; heap_size = 0 } in
    let w0 : IsHeap source h0 [] = record {
      start = pos;
      limit = omega (arith, room);
      ordered = tt;
      chain = empty;
    } in
    elim (heap_grow_pages-Grown source w0 256 (omega arith) (omega (arith, aligned))
      (omega (arith, room)) ok) [
        | inl (h1, run, g) ↦ inr (
          first source start h1,
          rw run refl,
          first-Fresh source start h1 pos aligned room g.extent.0 (omega (arith, g.extent)),
        )
        | inr (inl (ps, run)) ↦ inl (rw run refl)
        | inr (inr run) ↦ inl (rw run refl)
      ]
