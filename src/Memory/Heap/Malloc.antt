-- ===== src/Memory/Heap/Malloc.antt =====
-- `kmalloc` where the free list has a large enough block.
use ada_os.Base.{
  ℕ, suc, ◌+◌, ◌/◌, ◌%◌, ◌^◌, ◌≤◌, ◌<◌, ◌≡◌, refl, ◌∙◌, sym, inl, inr, arith, ◌==◌, List, ◌∷◌, ◌++◌,
  length, false, leb, Bool-cases, Option, some, Outcome, done,
}
use mathlib.Core.Path.{subst}
use mathlib.Core.Option.{some-injective}
use ada_os.Memory.Layout.{add64, page_size}
use ada_os.Memory.Heap.{
  null, size_of, walk, find_fit, carve, PageSource, Heap, kmalloc, total_size_of, header_sz,
}
use ada_os.Memory.Heap.Blocks.{Block, Seg, Ordered, length-Ordered, last_of, Outside, Ordered-split}
use ada_os.Memory.Heap.Policy.{take_block}
use ada_os.Memory.Heap.Fit.{Fit, find_fit_lem}
use ada_os.Memory.Heap.Carve.{left_over, taken_size, carve-Carved, left_over-Ordered}

-- A heap that stands for the blocks `bs`.
pub record IsHeap (source : PageSource) (h : Heap source) (bs : List Block) : Type 0 where
  pub start : 0 < h.heap_start
  pub limit : h.heap_start + h.heap_size + 32 ≤ 2 ^ 64
  pub ordered : Ordered h.heap_start (h.heap_start + h.heap_size) bs
  pub chain : Seg h.memory h.free_list_head bs null

-- A request that does not wrap round: the payload in whole units of 16 bytes, and the header.
pub total_size_of_lem :
    (size : ℕ)
    → size + 32 ≤ 2 ^ 64
    → (size + 16 ≤ total_size_of size)
      × (total_size_of size < size + 32)
      × (total_size_of size % 16 ≡ 0)
unfolding total_size_of
total_size_of_lem size small = ground arith

-- What `kmalloc` leaves: the block `(a, z)` is out of the list `bs`, of which `rest` is left.
pub record Allocated (source : PageSource) (h h' : Heap source) (size a z : ℕ)
    (bs rest : List Block) : Type 0 where
  pub heap : IsHeap source h' rest
  pub header : size_of h'.memory a ≡ z
  pub room : size + 16 ≤ z
  pub same : (x : ℕ) → Outside x bs → h'.memory x ≡ h.memory x
  pub extent : (h'.heap_start ≡ h.heap_start) × (h'.heap_size ≡ h.heap_size)

module _ (source : PageSource) {h : Heap source} {bs : List Block} (w : IsHeap source h bs) where
  pub walk_enough : length bs < walk h.heap_size
  walk_enough =
      let n = length-Ordered h.heap_start (h.heap_start + h.heap_size) bs (omega arith) w.ordered in
      omega (arith, n)

  pub takes_of :
      {total previous : ℕ} {run : Outcome (Option (ℕ × ℕ))} (f : Fit total previous bs run)
      → take_block total bs
        ≡ some (
          (f.address, taken_size total f.size),
          f.front ++ left_over total f.address f.size f.back,
        )
  takes_of {total} f = elim (Bool-cases (leb (total + 16) f.size)) [
    | inl part ↦ f.takes ∙ rw part
    | inr whole ↦ f.takes ∙ rw whole
  ]

  served :
      (size : ℕ)
      (f : Fit
        (total_size_of size)
        null
        bs
        (find_fit (walk h.heap_size) h.memory (total_size_of size) null h.free_list_head))
      → 0 < size
      → kmalloc source size h
        ≡ done (
          add64 f.address header_sz,
          record h { free = carve h.free (total_size_of size) (last_of null f.front) f.address },
        )
  unfolding kmalloc
  served size f pos =
      let nonzero : (size == 0) ≡ false = ground arith in
      let tries : total_size_of size / page_size + 2 ≡ suc (total_size_of size / page_size + 1) =
        omega arith in
      rw (nonzero, tries, f.returns)

  pub Fit-Allocated :
      (size : ℕ)
      (f : Fit
        (total_size_of size)
        null
        bs
        (find_fit (walk h.heap_size) h.memory (total_size_of size) null h.free_list_head))
      → size + 32 ≤ 2 ^ 64
      → Allocated source h
          (record h { free = carve h.free (total_size_of size) (last_of null f.front) f.address })
          size
          f.address
          (taken_size (total_size_of size) f.size)
          bs
          (f.front ++ left_over (total_size_of size) f.address f.size f.back)
  Fit-Allocated size f small =
      let (least, most, whole) = total_size_of_lem size small in
      let (o, o') =
        Ordered-split h.heap_start _ f.front ((f.address, f.size) ∷ f.back)
          (rw f.splits at w.ordered) in
      let total = total_size_of size in
      let hi = h.heap_start + h.heap_size in
      let c =
        carve-Carved h.free total f.front f.back f.address f.size h.heap_start hi w.start w.limit o
          o' (rw f.splits at w.chain) (omega arith) f.large whole in
      let left =
        left_over-Ordered h.free total f.front f.back f.address f.size h.heap_start hi w.start
          w.limit o o' (rw f.splits at w.chain) (omega arith) f.large whole in
      record {
        heap = record { start = w.start; limit = w.limit; ordered = left; chain = c.chain };
        header = c.header;
        room = ground (arith, f.large);
        same = λ x out. c.same x (rw f.splits at out);
        extent = (refl, refl);
      }

  -- `kmalloc` of a size above 0, which lies 32 below 2 ^ 64 at least and which first fit can serve
  -- from the list `bs`, returns the address behind the header of the block that first fit takes.
  -- The free list then stands for what first fit leaves; the header has the block's size, which is
  -- the size asked for and 16 bytes more, at least; and no byte outside the free blocks has
  -- changed.
  pub kmalloc-take_block :
      (size : ℕ) (t : Block × List Block)
      → 0 < size
      → size + 32 ≤ 2 ^ 64
      → take_block (total_size_of size) bs ≡ some t
      → (h' : Heap source) × (kmalloc source size h ≡ done (add64 t.0.0 header_sz, h'))
        × Allocated source h h' size t.0.0 t.0.1 bs t.1
  unfolding kmalloc
  kmalloc-take_block size t pos small e =
      elim (find_fit_lem (walk h.heap_size) h.memory (total_size_of size) null h.free_list_head bs
        w.chain walk_enough) [
          | inl f ↦
              subst
                (λ (t : Block × List Block).
                  (h' : Heap source) × (kmalloc source size h ≡ done (add64 t.0.0 header_sz, h'))
                  × Allocated source h h' size t.0.0 t.0.1 bs t.1)
                (some-injective _ _ (sym (takes_of f) ∙ e))
                (
                  record h {
                    free = carve h.free (total_size_of size) (last_of null f.front) f.address;
                  },
                  served size f pos,
                  Fit-Allocated size f small,
                )
          | inr (_, empty) ↦ absurd (cc)
        ]
