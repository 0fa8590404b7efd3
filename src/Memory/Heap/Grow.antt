-- ===== src/Memory/Heap/Grow.antt =====
-- `heap_grow_pages`: the new region becomes part of the free list.
use ada_os.Base.{
  ℕ, zero, suc, ◌+◌, ◌*◌, ◌%◌, ◌^◌, ◌≤◌, ◌<◌, ◌≡◌, refl, ◌∙◌, sym, ◌⊎◌, inl, inr, arith, ◌==◌, List,
  [], ◌∷◌, Bool, true, false, Bool-cases, Outcome, done, panicked, subst, Returns,
}
use ada_os.Core.{Memory}
use ada_os.Core.Words.{load64-store64_self, load64-store64_apart, store64-outside}
use ada_os.Memory.Layout.{add64, mul64, page_size}
use ada_os.Memory.Heap.{
  null, size_of, next_of, set_size, set_next, walk, FreeList, find_place, link_block, PageSource,
  Heap, grow_loop, heap_grow_pages,
}
use ada_os.Memory.Heap.Blocks.{
  Block, Seg, Ordered, Seg-frame, SameHeaders-of, last_of, Outside, Apart,
}
use ada_os.Memory.Heap.Policy.{put_block}
use ada_os.Memory.Heap.Link.{Placed, find_place-Placed}
use ada_os.Memory.Heap.Insert.{Place}
use ada_os.Memory.Heap.Put.{link_block-Put}
use ada_os.Memory.Heap.Malloc.{IsHeap, walk_enough}
use ada_os.Memory.Heap.Release.{put_block-Ordered}

pub Ordered-raise :
    (lo hi hi' : ℕ) (bs : List Block) → hi ≤ hi' → Ordered lo hi bs → Ordered lo hi' bs
Ordered-raise lo hi hi' [] h o = tt
Ordered-raise lo hi hi' ((a, s) ∷ bs) h o =
    (o.0, o.1, o.2, o.3, omega (arith, o.4), Ordered-raise (a + s + 1) hi hi' bs h o.5)

pub Apart-end : (lo hi s : ℕ) (bs : List Block) → Ordered lo hi bs → Apart hi s bs
Apart-end lo hi s [] o = tt
Apart-end lo hi s ((a, z) ∷ bs) o = (inl o.4, Apart-end (a + z + 1) hi s bs o.5)

-- The heap's end, where it grows.
abbrev pub heap_end : {source : PageSource} → Heap source → ℕ
heap_end h = h.heap_start + h.heap_size

-- What a growth by `n` bytes leaves: they are given to the free list, and no byte of the heap
-- outside its free blocks has changed.
pub record Grown (source : PageSource) (h h' : Heap source) (n : ℕ) (bs : List Block) : Type 0 where
  pub heap : IsHeap source h' (put_block (heap_end h) n bs)
  pub extent : (h'.heap_start ≡ h.heap_start) × (h'.heap_size ≡ h.heap_size + n)
  pub same : (x : ℕ) → x < heap_end h → Outside x bs → h'.memory x ≡ h.memory x

module _ (source : PageSource) {h : Heap source} {bs : List Block} (w : IsHeap source h bs) (n : ℕ)
    (least : 16 ≤ n) (aligned : (heap_end h % 16 ≡ 0) × (n % 16 ≡ 0))
    (room : heap_end h + n + 32 ≤ 2 ^ 64) where
  abbrev written : Memory
  written = set_next (set_size h.memory (heap_end h) n) (heap_end h) null

  written_below : (x : ℕ) → x < heap_end h → written x ≡ h.memory x
  written_below x lt =
      store64-outside (set_size h.memory (heap_end h) n) (heap_end h + 8) null x (inl (omega arith))
      ∙ store64-outside h.memory (heap_end h) n x (inl lt)

  written_size : size_of written (heap_end h) ≡ n
  written_size =
      load64-store64_apart (set_size h.memory (heap_end h) n) (heap_end h + 8) null (heap_end h)
        (inl (omega arith))
      ∙ load64-store64_self h.memory (heap_end h) n (omega arith)

  written_next : next_of written (heap_end h) ≡ null
  written_next =
      load64-store64_self (set_size h.memory (heap_end h) n) (heap_end h + 8) null (omega arith)

  written_chain : Seg written h.free_list_head bs null
  written_chain =
      Seg-frame h.memory written h.free_list_head bs null
        (SameHeaders-of h.memory written h.heap_start (heap_end h) bs w.ordered
          (λ x lo lt. written_below x lt))
        w.chain

  pub grown_list : FreeList
  grown_list = record { free_list_head = h.free_list_head; memory = written }

  grown-Place :
      (p : Placed
        (heap_end h)
        null
        bs
        (find_place (walk h.heap_size) written (heap_end h) null h.free_list_head))
      → Place grown_list h.heap_start (heap_end h + n) (heap_end h) n p.front p.back
  unfolding grown_list
  grown-Place p = record {
    pos = w.start;
    small = omega (arith, room);
    low = omega arith;
    least = least;
    high = omega arith;
    aligned = aligned;
    ordered =
        subst (Ordered h.heap_start (heap_end h + n)) p.splits
          (Ordered-raise h.heap_start (heap_end h) (heap_end h + n) bs (omega arith) w.ordered);
    chain = subst (λ (l : List Block). Seg written h.free_list_head l null) p.splits written_chain;
    size = written_size;
    below = p.below;
    from = p.from;
    apart =
        subst (Apart (heap_end h) n) p.splits (Apart-end h.heap_start (heap_end h) n bs w.ordered);
  }

  grown-Ordered : Ordered h.heap_start (heap_end h + n) (put_block (heap_end h) n bs)
  grown-Ordered =
      put_block-Ordered h.heap_start (heap_end h + n) (heap_end h) n bs (omega arith) least
        aligned.0 aligned.1 (omega arith)
        (Ordered-raise h.heap_start (heap_end h) (heap_end h + n) bs (omega arith) w.ordered)
        (Apart-end h.heap_start (heap_end h) n bs w.ordered)

  -- A list that stands for the grown list of blocks makes a grown heap.
  Grown-of :
      (l : FreeList) (ps : source.State)
      → Seg l.memory l.free_list_head (put_block (heap_end h) n bs) null
      → ((x : ℕ) → x < heap_end h → Outside x bs → l.memory x ≡ h.memory x)
      → Grown source h (record h { heap_size = add64 h.heap_size n; free = l; pages = ps }) n bs
  Grown-of l ps chain same =
      let e : add64 h.heap_size n ≡ h.heap_size + n = omega (arith, room) in
      let r : h.heap_start + add64 h.heap_size n ≡ heap_end h + n = omega (arith, e) in
      record {
        heap = record {
          start = w.start;
          limit = omega (arith, r, room);
          ordered = rw r grown-Ordered;
          chain = chain;
        };
        extent = (refl, e);
        same = same;
      }

-- A page source that returns or panics.
abbrev pub IsPageSource : PageSource → Type 0
IsPageSource source = (a : ℕ) (s : source.State) → Returns (source.provide a s)

-- How the loop over the new pages ends: all pages are there, or one is missing, or it panics.
abbrev pub LoopEnds : (source : PageSource) → Outcome (Bool × source.State) → Type 0
LoopEnds source run = ((b : Bool) × (ps : source.State) × (run ≡ done (b, ps))) ⊎ (run ≡ panicked)

grow_loop-Ends :
    (source : PageSource)
    → IsPageSource source
    → (n base i : ℕ) (ps : source.State) → LoopEnds source (grow_loop source n base i ps)
unfolding grow_loop
grow_loop-Ends source ok zero base i ps = inl (true, ps, refl)
grow_loop-Ends source ok (suc n) base i ps = elim (ok (add64 base (mul64 i page_size)) ps) [
  | inl ((true, ps'), e) ↦ rw e (grow_loop-Ends source ok n base (i + 1) ps')
  | inl ((false, ps'), e) ↦ rw e (inl (false, ps', refl))
  | inr e ↦ rw e (inr refl)
]

-- The three ways in which `heap_grow_pages` ends.
abbrev pub GrowResult :
    (source : PageSource) → Heap source → ℕ → List Block → Outcome (Bool × Heap source) → Type 0
GrowResult source h n bs run =
    ((h' : Heap source) × (run ≡ done (true, h')) × Grown source h h' n bs)
    ⊎ (((ps : source.State) × (run ≡ done (false, record h { pages = ps }))) ⊎ (run ≡ panicked))

module _ (source : PageSource) {h : Heap source} {bs : List Block} (w : IsHeap source h bs)
    (pages : ℕ) (some_pages : 0 < pages) (aligned : heap_end h % 16 ≡ 0)
    (room : heap_end h + pages * page_size + 32 ≤ 2 ^ 64) where
  abbrev n : ℕ
  n = pages * page_size

  whole : (heap_end h % 16 ≡ 0) × (n % 16 ≡ 0)
  whole = (aligned, omega arith)

  exact_end : add64 h.heap_start h.heap_size ≡ heap_end h
  exact_end = omega (arith, room)

  exact_size : mul64 pages page_size ≡ n
  exact_size = omega (arith, room)

  chain_null : h.free_list_head ≡ null → bs ≡ []
  chain_null e = null_chain bs w.chain
    where
      null_chain : (l : List Block) → Seg h.memory h.free_list_head l null → l ≡ []
      null_chain [] s = refl
      null_chain (b ∷ l) s = absurd (omega (arith, s.0, s.1))

  abbrev grown_memory : Memory
  grown_memory = written source w n (omega arith) whole room

  grow_empty :
      (ps : source.State)
      → grow_loop source pages (heap_end h) 0 h.pages ≡ done (true, ps)
      → (h.free_list_head == null) ≡ true
      → GrowResult source h n bs (heap_grow_pages source pages h)
  unfolding heap_grow_pages put_block
  grow_empty ps e empty =
      let nonzero : (pages == 0) ≡ false = ground arith in
      let none_free : bs ≡ [] = chain_null (ground arith) in
      let l : FreeList = record { free_list_head = heap_end h; memory = grown_memory } in
      let chain : Seg grown_memory (heap_end h) (put_block (heap_end h) n bs) null = rw none_free (
        refl,
        omega (arith, w.start),
        written_size source w n (omega arith) whole room,
        written_next source w n (omega arith) whole room,
      ) in
      inl (
        record h { heap_size = add64 h.heap_size n; free = l; pages = ps },
        rw (nonzero, exact_end, exact_size, e, empty),
        Grown-of source w n (omega arith) whole room l ps chain
            (λ x lt out. written_below source w n (omega arith) whole room x lt),
      )

  grow_linked :
      (ps : source.State)
      → grow_loop source pages (heap_end h) 0 h.pages ≡ done (true, ps)
      → (h.free_list_head == null) ≡ false
      → GrowResult source h n bs (heap_grow_pages source pages h)
  unfolding heap_grow_pages grown_list
  grow_linked ps e linked =
      let nonzero : (pages == 0) ≡ false = ground arith in
      let p =
        find_place-Placed (walk h.heap_size) grown_memory (heap_end h) null h.free_list_head bs
          (written_chain source w n (omega arith) whole room) (walk_enough source w) in
      let k = link_block-Put p.front p.back (grown-Place source w n (omega arith) whole room p) in
      let l0 = grown_list source w n (omega arith) whole room in
      let l = link_block l0 (last_of null p.front) (heap_end h) in
      inl (
        record h { heap_size = add64 h.heap_size n; free = l; pages = ps },
        rw (nonzero, exact_end, exact_size, e, linked, p.returns),
        Grown-of source w n (omega arith) whole room l ps
            (subst
              (λ (b : List Block). Seg l.memory l.free_list_head (put_block (heap_end h) n b) null)
              (sym p.splits) k.chain)
            (λ x lt out.
              k.same x (subst (Outside x) p.splits out) (inl lt)
              ∙ written_below source w n (omega arith) whole room x lt),
      )

  -- `heap_grow_pages`, by at least one page, of a heap whose end is a multiple of 16, with room for
  -- the pages and 32 bytes more between that end and 2 ^ 64, either gives the new region to the
  -- free list, merged with a free block at the old end, and no byte of the old heap outside its
  -- free blocks has changed; or it returns 0 with a heap in which only the page source's state has
  -- changed; or it panics. The page source is one that returns or panics.
  pub heap_grow_pages-Grown :
      IsPageSource source → GrowResult source h n bs (heap_grow_pages source pages h)
  unfolding heap_grow_pages
  heap_grow_pages-Grown ok =
      let nonzero : (pages == 0) ≡ false = ground arith in
      elim (grow_loop-Ends source ok pages (heap_end h) 0 h.pages) [
        | inl (true, ps, e) ↦ elim (Bool-cases (h.free_list_head == null)) [
          | inl empty ↦ grow_empty ps e empty
          | inr linked ↦ grow_linked ps e linked
        ]
        | inl (false, ps, e) ↦ inr (inl (ps, rw (nonzero, exact_end, exact_size, e)))
        | inr e ↦ inr (inr (rw (nonzero, exact_end, exact_size, e)))
      ]
