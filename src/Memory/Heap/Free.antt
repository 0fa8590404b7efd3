-- ===== src/Memory/Heap/Free.antt =====
-- `kfree`: it puts the block back, and undoes `kmalloc`.
use ada_os.Base.{
  ℕ, ◌+◌, ◌%◌, ◌^◌, ◌≤◌, ◌<◌, ◌≡◌, ◌∙◌, sym, ◌⊎◌, arith, ◌==◌, List, true, false, leb, ltb, ◌||◌,
  some, done, ◌>>=◌, subst,
}
use ada_os.Core.Words.{store64, load64-store64_self, store64-outside}
use ada_os.Memory.Layout.{add64, sub64}
use ada_os.Memory.Heap.{
  null, size_of, set_size, header_sz, walk, FreeList, find_place, link_block, PageSource, Heap,
  kmalloc, kfree, total_size_of,
}
use ada_os.Memory.Heap.Blocks.{
  Block, Seg, Ordered, SameHeaders, Seg-frame, last_of, Outside, Apart, SameHeaders-store64,
}
use ada_os.Memory.Heap.Policy.{take_block, put_block}
use ada_os.Memory.Heap.Link.{Placed, find_place-Placed}
use ada_os.Memory.Heap.Insert.{Place}
use ada_os.Memory.Heap.Put.{link_block-Put}
use ada_os.Memory.Heap.Malloc.{
  IsHeap, Allocated, walk_enough, kmalloc-take_block, total_size_of_lem,
}
use ada_os.Memory.Heap.Release.{put_block-Ordered, take_block-TakenFrom}

-- A block of the heap that is not free: its header has its size, and it is clear of the free ones.
pub record InUse (source : PageSource) (h : Heap source) (bs : List Block) (a z : ℕ) : Type 0 where
  pub low : h.heap_start ≤ a
  pub high : a + z ≤ h.heap_start + h.heap_size
  pub least : 16 ≤ z
  pub aligned : (a % 16 ≡ 0) × (z % 16 ≡ 0)
  pub header : size_of h.memory a ≡ z
  pub apart : Apart a z bs

-- What `kfree` leaves.
pub record Freed (source : PageSource) (h h' : Heap source) (a z : ℕ) (bs : List Block)
    : Type 0 where
  pub heap : IsHeap source h' (put_block a z bs)
  pub same : (x : ℕ) → Outside x bs → (x < a) ⊎ (a + z ≤ x) → h'.memory x ≡ h.memory x

module _ (source : PageSource) {h : Heap source} {bs : List Block} (w : IsHeap source h bs)
    {a z : ℕ} (b : InUse source h bs a z) where
  rewritten : FreeList
  rewritten = record h.free { memory = set_size h.memory a (size_of h.memory a) }

  kfree_run :
      (p : Placed a null bs (find_place (walk h.heap_size) h.memory a null h.free_list_head))
      → kfree source (add64 a header_sz) h
        ≡ done (record h { free = link_block rewritten (last_of null p.front) a })
  unfolding kfree rewritten
  kfree_run p =
      let exact : sub64 (add64 a header_sz) header_sz ≡ a =
        omega (arith, b.high, b.least, w.limit) in
      let nonnull : (add64 a header_sz == null) ≡ false =
        ground (arith, b.high, b.least, w.limit) in
      let inside : (ltb a h.heap_start || leb (add64 h.heap_start h.heap_size) a) ≡ false =
        ground (arith, b.low, b.high, b.least, w.limit) in
      let sized : ltb (size_of h.memory a) 16 ≡ false = rw (b.header) (ground (arith, b.least)) in
      let even : (a % 16 == 0) ≡ true = ground (arith, b.aligned) in
      rw (nonnull, exact, inside, sized, even, p.returns)

  rewritten_same : SameHeaders h.memory rewritten.memory bs
  unfolding rewritten
  rewritten_same =
      let m = h.memory in
      let e : a + 0 ≡ a = omega arith in
      subst (λ (k : ℕ). SameHeaders m (store64 m k (size_of m a)) bs) e
        (SameHeaders-store64 m a z 0 (size_of m a) h.heap_start (h.heap_start + h.heap_size) bs
          (omega (arith, b.least)) w.ordered b.apart)

  placed :
      (p : Placed a null bs (find_place (walk h.heap_size) h.memory a null h.free_list_head))
      → Place rewritten h.heap_start (h.heap_start + h.heap_size) a z p.front p.back
  unfolding rewritten
  placed p =
      let m = h.memory in
      let small : size_of m a < 2 ^ 64 = rw (b.header) (omega (arith, b.high, w.limit)) in
      record {
        pos = w.start;
        small = omega (arith, w.limit);
        low = b.low;
        least = b.least;
        high = b.high;
        aligned = b.aligned;
        ordered = subst (Ordered h.heap_start (h.heap_start + h.heap_size)) p.splits w.ordered;
        chain =
            subst (λ (l : List Block). Seg rewritten.memory h.free_list_head l null) p.splits
              (Seg-frame m rewritten.memory h.free_list_head bs null rewritten_same w.chain);
        size = load64-store64_self m a (size_of m a) small ∙ b.header;
        below = p.below;
        from = p.from;
        apart = subst (Apart a z) p.splits b.apart;
      }

  -- `kfree` of a block in use puts it back into the list, in its place and merged with the free
  -- blocks that it touches. No byte outside the free blocks and the freed one has changed.
  pub kfree-put_block :
      (h' : Heap source) × (kfree source (add64 a header_sz) h ≡ done h') × Freed source h h' a z bs
  unfolding rewritten
  kfree-put_block =
      let m = h.memory in
      let p =
        find_place-Placed (walk h.heap_size) m a null h.free_list_head bs w.chain
          (walk_enough source w) in
      let k = link_block-Put p.front p.back (placed p) in
      let back = sym p.splits in
      (
        record h { free = link_block rewritten (last_of null p.front) a },
        kfree_run p,
        record {
          heap = record {
            start = w.start;
            limit = w.limit;
            ordered =
                put_block-Ordered h.heap_start _ a z bs b.low b.least b.aligned.0 b.aligned.1 b.high
                  w.ordered b.apart;
            chain =
                subst
                  (λ (l : List Block).
                    Seg (link_block rewritten (last_of null p.front) a).memory
                      (link_block rewritten (last_of null p.front) a).free_list_head
                      (put_block a z l) null)
                  back (k.chain);
          };
          same = λ x out beside.
              k.same x (subst (Outside x) p.splits out) beside
              ∙ store64-outside m a (size_of m a) x (ground (arith, b.least));
        },
      )

module _ (source : PageSource) {h : Heap source} {bs : List Block} (w : IsHeap source h bs) where
  -- A block that `kmalloc` took is in use in the heap that it left.
  pub kmalloc-InUse :
      (size : ℕ) (t : Block × List Block) {h' : Heap source}
      → size + 32 ≤ 2 ^ 64
      → take_block (total_size_of size) bs ≡ some t
      → Allocated source h h' size t.0.0 t.0.1 bs t.1
      → InUse source h' t.1 t.0.0 t.0.1
  kmalloc-InUse size t {h'} small e k =
      let (least, most, whole) = total_size_of_lem size small in
      let f =
        take_block-TakenFrom h.heap_start (h.heap_start + h.heap_size) (total_size_of size) bs t
          whole w.ordered e in
      record {
        low = omega (arith, f.low, k.extent);
        high = omega (arith, f.high, k.extent);
        least = omega (arith, k.room);
        aligned = f.aligned;
        header = k.header;
        apart = f.apart;
      }

  -- For a size above 0, which lies 32 below 2 ^ 64 at least and which first fit can serve from the
  -- free blocks, `kfree` of what `kmalloc` returned gives back a heap with the blocks that it had
  -- before.
  pub kfree-kmalloc :
      (size : ℕ) (t : Block × List Block)
      → 0 < size
      → size + 32 ≤ 2 ^ 64
      → take_block (total_size_of size) bs ≡ some t
      → (h' : Heap source) × ((kmalloc source size h >>= λ r. kfree source r.0 r.1) ≡ done h')
        × IsHeap source h' bs
  kfree-kmalloc size t pos small e =
      let (h1, run, k) = kmalloc-take_block source w size t pos small e in
      let (least, most, whole) = total_size_of_lem size small in
      let f =
        take_block-TakenFrom h.heap_start (h.heap_start + h.heap_size) (total_size_of size) bs t
          whole w.ordered e in
      let (h2, run', freed) = kfree-put_block source k.heap (kmalloc-InUse size t small e k) in
      (h2, rw run run', subst (IsHeap source h2) f.restores freed.heap)
