-- ===== src/Memory/Heap/Serve.antt =====
-- `kmalloc` on a heap that may have to grow: it returns.
use ada_os.Base.{
  ℕ, zero, suc, ◌+◌, ◌*◌, ◌/◌, ◌%◌, ◌^◌, ◌≤◌, ◌<◌, ◌≡◌, refl, ◌⊎◌, inl, inr, arith, ◌==◌,
  if◌then◌else◌, List, [], ◌∷◌, true, false, ltb, Bool-cases, none, Outcome, done, panicked,
}
use ada_os.Memory.Layout.{add64, page_size}
use ada_os.Memory.Heap.{
  null, header_sz, walk, find_fit, carve, PageSource, Heap, kmalloc, kmalloc_search, tries_for,
  total_size_of,
}
use ada_os.Memory.Heap.Blocks.{Block, Ordered, last_of}
use ada_os.Memory.Heap.Policy.{take_block, put_block, join}
use ada_os.Memory.Heap.Fit.{Fit, find_fit_lem}
use ada_os.Memory.Heap.Malloc.{IsHeap, walk_enough, takes_of, Fit-Allocated, total_size_of_lem}
use ada_os.Memory.Heap.Release.{join_gap, put_block-Ordered}
use ada_os.Memory.Heap.Free.{InUse, kmalloc-InUse}
use ada_os.Memory.Heap.Grow.{
  heap_end, Grown, IsPageSource, heap_grow_pages-Grown, Ordered-raise, Apart-end,
}

-- The size of the free block that ends at `e`, or 0.
last_room : ℕ → List Block → ℕ
last_room e [] = 0
last_room e ((a, s) ∷ bs) = if a + s == e then s else last_room e bs

last_room-put_block :
    (lo e n : ℕ) (bs : List Block)
    → Ordered lo e bs
    → lo ≤ e
    → 16 ≤ n
    → e % 16 ≡ 0
    → n % 16 ≡ 0
    → last_room (e + n) (put_block e n bs) ≡ last_room e bs + n
unfolding last_room put_block join
last_room-put_block lo e n [] o h1 h2 h3 h4 = ground arith
last_room-put_block lo e n ((c, t) ∷ []) o h1 h2 h3 h4 = ground (arith, o.1, o.4)
last_room-put_block lo e n ((c, t) ∷ (d, u) ∷ bs) o h1 h2 h3 h4 =
    let rest = (d, u) ∷ bs in
    let before : ltb c e ≡ true = ground (arith, o.1, o.4) in
    let gap : c + t + 1 ≤ d = o.5.0 in
    let inside : d + u ≤ e = o.5.4 in
    let ih =
      last_room-put_block (c + t + 1) e n ((d, u) ∷ bs) o.5 (omega (arith, o.5.1)) h2 h3 h4 in
    let ordered =
      put_block-Ordered (c + t + 1) (e + n) e n rest (omega (arith, o.5.1)) h2 h3 h4 (omega arith)
        (Ordered-raise (c + t + 1) e (e + n) rest (omega arith) o.5)
        (Apart-end (c + t + 1) e n rest o.5) in
    let not_last : (c + t == e) ≡ false = ground (arith, o.5.1) in
    let not_grown : (c + t == e + n) ≡ false = ground (arith, o.5.1) in
    rw (before, not_last, join_gap c (e + n) c t (put_block e n rest) ordered, not_grown) ih

-- If first fit finds nothing then the block at the end is too small as well.
last_room-none :
    (e total : ℕ) (bs : List Block)
    → 0 < total
    → take_block total bs ≡ none
    → last_room e bs < total
unfolding last_room take_block
last_room-none e total [] pos h = omega arith
last_room-none e total ((a, s) ∷ bs) pos h = ground (arith, last_room-none e total bs pos)

-- What `kmalloc` gives: NULL, or the address behind the header of a block in use with room for the
-- request.
abbrev pub Given : (source : PageSource) → Heap source → List Block → (size p : ℕ) → Type 0
Given source h' bs' size p =
    (p ≡ null)
    ⊎ ((a z : ℕ) × (p ≡ a + header_sz) × (size + header_sz ≤ z) × InUse source h' bs' a z)

abbrev pub Answers : (source : PageSource) → ℕ → Outcome (ℕ × Heap source) → Type 0
Answers source size run =
    ((p : ℕ) × (h' : Heap source) × (bs' : List Block) × (run ≡ done (p, h'))
      × IsHeap source h' bs'
      × Given source h' bs' size p)
    ⊎ (run ≡ panicked)

module _ (source : PageSource) (ok : IsPageSource source) (size : ℕ)
    (small : size + 32 ≤ 2 ^ 64) where
  abbrev total : ℕ
  total = total_size_of size

  found :
      {h : Heap source} {bs : List Block} (w : IsHeap source h bs) (tries : ℕ)
      → Fit total null bs (find_fit (walk h.heap_size) h.memory total null h.free_list_head)
      → Answers source size (kmalloc_search source (suc tries) total h)
  unfolding kmalloc_search
  found {h} {bs} w tries f =
      let k = Fit-Allocated source w size f small in
      let e = takes_of source w f in
      let u = kmalloc-InUse source w size _ small e k in
      let exact : add64 f.address header_sz ≡ f.address + header_sz =
        omega (arith, u.high, u.least, k.heap.limit) in
      inl (
        f.address + header_sz,
        record h { free = carve h.free total (last_of null f.front) f.address },
        _,
        rw (f.returns, exact),
        k.heap,
        inr (f.address, _, refl, k.room, u),
      )

  -- Enough searches are left for the block at the end of the heap to grow to the size.
  record Hopeful (h : Heap source) (bs : List Block) (tries : ℕ) : Type 0 where
    heap : IsHeap source h bs
    aligned : heap_end h % 16 ≡ 0
    room : heap_end h + tries * 65536 + 32 ≤ 2 ^ 64
    enough : total ≤ last_room (heap_end h) bs + tries * page_size

  hope_after :
      {h h' : Heap source} {bs : List Block} {tries : ℕ} (pages : ℕ)
      → Hopeful h bs (suc tries)
      → 0 < pages
      → pages ≤ 16
      → Grown source h h' (pages * page_size) bs
      → Hopeful h' (put_block (heap_end h) (pages * page_size) bs) tries
  hope_after {h} {h'} {bs} {tries} pages k pos few g =
      let n = pages * page_size in
      let e : heap_end h' ≡ heap_end h + n = omega (arith, g.extent) in
      let r =
        last_room-put_block h.heap_start (heap_end h) n bs k.heap.ordered (omega arith)
          (omega arith) k.aligned (omega arith) in
      record {
        heap = g.heap;
        aligned = omega (arith, e, k.aligned);
        room = omega (arith, e, k.room);
        enough = rw (e, r) (omega (arith, k.enough));
      }

  after_growth :
      {h : Heap source} {bs : List Block} (tries : ℕ)
      → ((h' : Heap source) (bs' : List Block)
          → Hopeful h' bs' tries
          → Answers source size (kmalloc_search source (suc tries) total h'))
      → Hopeful h bs (suc tries)
      → (find_fit (walk h.heap_size) h.memory total null h.free_list_head ≡ done none)
      → Answers source size (kmalloc_search source (suc (suc tries)) total h)
  unfolding kmalloc_search
  after_growth {h} {bs} tries next k missed =
      elim (heap_grow_pages-Grown source k.heap 16 (omega arith) k.aligned (omega (arith, k.room))
        ok) [
          | inl (h', e, g) ↦
              rw (missed, e) (next h' _ (hope_after 16 k (omega arith) (omega arith) g))
          | inr (inr e) ↦ inr (rw (missed, e))
          | inr (inl (ps, e)) ↦
              let h1 = record h { pages = ps } in
              let w1 : IsHeap source h1 bs = record {
                start = k.heap.start;
                limit = k.heap.limit;
                ordered = k.heap.ordered;
                chain = k.heap.chain;
              } in
              let k1 : Hopeful h1 bs (suc tries) = record {
                heap = w1;
                aligned = k.aligned;
                room = k.room;
                enough = k.enough;
              } in
              elim (heap_grow_pages-Grown source w1 1 (omega arith) k.aligned
                (omega (arith, k.room)) ok) [
                  | inl (h', e', g) ↦
                      rw (missed, e, e') (next h' _ (hope_after 1 k1 (omega arith) (omega arith) g))
                  | inr (inr e') ↦ inr (rw (missed, e, e'))
                  | inr (inl (ps', e')) ↦ inl (
                    null,
                    record h1 { pages = ps' },
                    bs,
                    rw (missed, e, e'),
                    record {
                      start = k.heap.start;
                      limit = k.heap.limit;
                      ordered = k.heap.ordered;
                      chain = k.heap.chain;
                    },
                    inl refl,
                  )
                ]
        ]

  kmalloc_search-Answers :
      (tries : ℕ) (h : Heap source) (bs : List Block)
      → Hopeful h bs tries
      → Answers source size (kmalloc_search source (suc tries) total h)
  kmalloc_search-Answers zero h bs k =
      elim (find_fit_lem (walk h.heap_size) h.memory total null h.free_list_head bs k.heap.chain
        (walk_enough source k.heap)) [
          | inl f ↦ found k.heap zero f
          | inr (e, empty) ↦
              let (least, most, whole) = total_size_of_lem size small in
              let short = last_room-none (heap_end h) total bs (omega arith) empty in
              absurd (omega (arith, k.enough, short))
        ]
  kmalloc_search-Answers (suc tries) h bs k =
      elim (find_fit_lem (walk h.heap_size) h.memory total null h.free_list_head bs k.heap.chain
        (walk_enough source k.heap)) [
          | inl f ↦ found k.heap (suc tries) f
          | inr (e, empty) ↦ after_growth tries (kmalloc_search-Answers tries) k e
        ]

-- `kmalloc` on a well-formed heap returns or panics, even where it has to grow the heap: with the
-- heap's end a multiple of 16, room above it in the address space, and a page source that returns
-- or panics. If it returns, the heap that it leaves is well-formed, and the result is NULL or the
-- address behind the header of a block in use with room for the request, clear of every free one.
pub kmalloc-Answers :
    (source : PageSource) {h : Heap source} {bs : List Block}
    → IsPageSource source
    → (size : ℕ) → IsHeap source h bs
    → heap_end h % 16 ≡ 0
    → size + 32 ≤ 2 ^ 64
    → heap_end h + (size / page_size + 3) * 65536 + 32 ≤ 2 ^ 64
    → Answers source size (kmalloc source size h)
unfolding kmalloc
kmalloc-Answers source {h} {bs} ok size w aligned small room = elim (Bool-cases (size == 0)) [
  | inl zero' ↦ rw zero' (inl (null, h, bs, refl, w, inl refl))
  | inr pos ↦
      let (least, most, whole) = total_size_of_lem size small in
      let tries = total_size_of size / page_size + 1 in
      let n : tries_for source (total_size_of size) ≡ suc tries = omega arith in
      rw (pos, n)
        (kmalloc_search-Answers source ok size small tries h bs (record {
          heap = w;
          aligned = aligned;
          room = omega (arith, room);
          enough = omega arith;
        }))
]
