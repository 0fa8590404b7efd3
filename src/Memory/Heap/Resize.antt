-- ===== src/Memory/Heap/Resize.antt =====
-- `krealloc` of a block that has to move.
use ada_os.Base.{
  ℕ, ◌+◌, ◌-◌, ◌^◌, ◌≤◌, ◌<◌, ◌≡◌, refl, subst, ◌∙◌, ◌⊎◌, inl, inr, arith, List, [], ◌∷◌, Option,
  none, some, true, false, leb, leb→le, ◌==◌, if◌then◌else◌, Bool-cases, Option-cases, done,
}
use ada_os.Core.{Memory, memcpy}
use ada_os.Core.Words.{load64_congr}
use ada_os.Core.Copying.{within, memmove-at, memcpy-eq-memmove}
use ada_os.Memory.Layout.{add64, sub64}
use ada_os.Memory.Heap.{null, header_sz, PageSource, Heap, kmalloc, kfree, krealloc, total_size_of}
use ada_os.Memory.Heap.Blocks.{Block, Ordered, SameHeaders, Seg-frame, Outside, Apart}
use ada_os.Memory.Heap.Policy.{take_block, put_block}
use ada_os.Memory.Heap.Malloc.{IsHeap, Allocated, kmalloc-take_block, total_size_of_lem}
use ada_os.Memory.Heap.Free.{InUse, Freed, kfree-put_block}
use ada_os.Memory.Heap.Release.{take_block-TakenFrom}

-- Two blocks that have no byte in common.
abbrev pub Clear : (a z : ℕ) → Block → Type 0
Clear a z b = (b.0 + b.1 ≤ a) ⊎ (a + z ≤ b.0)

abbrev pub ClearOf : (a z : ℕ) → Block × List Block → Type 0
ClearOf a z t = Apart a z t.1 × Clear a z t.0

some_inj : {A : Type 0} {x y : A} → some x ≡ some y → x ≡ y
some_inj e = cc

some-ne-none : {A : Type 0} {x : A} → ◌≡◌ {A = Option A} none (some x) → ⊥
some-ne-none e = cc

-- A block that is clear of the free ones is clear of the block that first fit takes, and of those
-- that it leaves.
pub take_block-Clear :
    (total a z : ℕ) (bs : List Block) (t : Block × List Block)
    → Apart a z bs
    → take_block total bs ≡ some t
    → ClearOf a z t
unfolding take_block
take_block-Clear total a z [] t apart e = absurd (some-ne-none e)
take_block-Clear total a z ((c, s) ∷ bs) t apart e = elim (Bool-cases (leb total s)) [
  | inl fits ↦ elim (Bool-cases (leb (total + 16) s)) [
    | inl part ↦
        let large = leb→le total s fits in
        subst (ClearOf a z) (some_inj (rw (fits, part) at e))
          ((ground (arith, apart.0), apart.1), ground (arith, apart.0))
    | inr whole ↦ subst (ClearOf a z) (some_inj (rw (fits, whole) at e)) (apart.1, apart.0)
  ]
  | inr small ↦ elim (Option-cases (take_block total bs)) [
    | inl nothing ↦ absurd (some-ne-none (rw (small, nothing) at e))
    | inr ((b, rest), later) ↦
        let k = take_block-Clear total a z bs (b, rest) apart.1 later in
        subst (ClearOf a z) (some_inj (rw (small, later) at e)) ((apart.0, k.0), k.1)
  ]
]

pub SameHeaders-beside :
    (m m' : Memory) (d n lo hi : ℕ) (bs : List Block)
    → Ordered lo hi bs
    → Apart d n bs
    → ((x : ℕ) → (x < d) ⊎ (d + n ≤ x) → m' x ≡ m x)
    → SameHeaders m m' bs
SameHeaders-beside m m' d n lo hi [] o apart same = tt
SameHeaders-beside m m' d n lo hi ((c, t) ∷ bs) o apart same = (
  load64_congr m m' c (λ x from to. same x (ground (arith, apart.0, o.1))),
  load64_congr m m' (c + 8) (λ x from to. same x (ground (arith, apart.0, o.1))),
  SameHeaders-beside m m' d n (c + t + 1) hi bs o.5 apart.1 same,
)

Outside-Apart : (x a z : ℕ) (bs : List Block) → Apart a z bs → a ≤ x → x < a + z → Outside x bs
Outside-Apart x a z [] apart from to = tt
Outside-Apart x a z ((c, t) ∷ bs) apart from to =
    (ground (arith, apart.0), Outside-Apart x a z bs apart.1 from to)

memcpy-at :
    (dest src n : ℕ) (m : Memory) (x : ℕ)
    → (src + n ≤ dest) ⊎ (dest + n ≤ src)
    → (memcpy dest src n m).1 x ≡ (if within dest n x then m (src + (x - dest)) else m x)
memcpy-at dest src n m x apart = memcpy-eq-memmove dest src n m x apart ∙ memmove-at dest src n m x

memcpy-beside :
    (dest src n : ℕ) (m : Memory) (x : ℕ)
    → (src + n ≤ dest) ⊎ (dest + n ≤ src)
    → (x < dest) ⊎ (dest + n ≤ x)
    → (memcpy dest src n m).1 x ≡ m x
memcpy-beside dest src n m x apart out = ground (arith, memcpy-at dest src n m x apart)

-- What `krealloc` leaves when it moves the block `a` of size `z` into the block that first fit takes:
-- the old block is free, and the new one begins with its bytes.
pub record Moved (source : PageSource) (h h' : Heap source) (a z new_size : ℕ)
    (t : Block × List Block) : Type 0 where
  pub heap : IsHeap source h' (put_block a z t.1)
  pub room : new_size + 16 ≤ t.0.1
  pub bytes :
      (i : ℕ) → i < z - 16 → h'.memory (t.0.0 + header_sz + i) ≡ h.memory (a + header_sz + i)

module _ (source : PageSource) {h : Heap source} {bs : List Block} (w : IsHeap source h bs)
    {a z : ℕ} (b : InUse source h bs a z) (new_size : ℕ) (t : Block × List Block)
    (grows : z - 16 < new_size) (small : new_size + 32 ≤ 2 ^ 64)
    (fits : take_block (total_size_of new_size) bs ≡ some t) where
  -- The heap when the payload is copied.
  abbrev copied : Heap source → Heap source
  copied h1 = record h1 {
    free = record h1.free {
      memory = (memcpy (add64 t.0.0 header_sz) (add64 a header_sz) (z - 16) h1.memory).1;
    };
  }

  module _ (h1 : Heap source) (k : Allocated source h h1 new_size t.0.0 t.0.1 bs t.1) where
    clear : ClearOf a z t
    clear = take_block-Clear (total_size_of new_size) a z bs t b.apart fits

    addresses :
        (add64 t.0.0 header_sz ≡ t.0.0 + 16)
        × (add64 a header_sz ≡ a + 16)
        × (t.0.0 + t.0.1 + 32 ≤ 2 ^ 64)
        × (h.heap_start ≤ t.0.0)
    addresses =
        let (least, most, whole) = total_size_of_lem new_size small in
        let f =
          take_block-TakenFrom h.heap_start (h.heap_start + h.heap_size) (total_size_of new_size) bs
            t whole w.ordered fits in
        (
          omega (arith, f.high, w.limit, k.room),
          omega (arith, b.high, b.least, w.limit),
          omega (arith, f.high, w.limit),
          f.low,
        )

    copied-at :
        (x : ℕ) → (copied h1).memory x ≡ (memcpy (t.0.0 + 16) (a + 16) (z - 16) h1.memory).1 x
    copied-at x = rw (addresses.0, addresses.1) refl

    apart_payloads : (a + 16 + (z - 16) ≤ t.0.0 + 16) ⊎ (t.0.0 + 16 + (z - 16) ≤ a + 16)
    apart_payloads = ground (arith, clear.1, k.room, b.least, grows)

    copied-beside :
        (x : ℕ)
        → (x < t.0.0 + 16) ⊎ (t.0.0 + 16 + (z - 16) ≤ x)
        → (copied h1).memory x ≡ h1.memory x
    copied-beside x out =
        copied-at x ∙ memcpy-beside (t.0.0 + 16) (a + 16) (z - 16) h1.memory x apart_payloads out

    -- Outside the new block nothing has changed by the copy.
    copied-outside :
        (x : ℕ) → (x < t.0.0) ⊎ (t.0.0 + t.0.1 ≤ x) → (copied h1).memory x ≡ h1.memory x
    copied-outside x out = copied-beside x (ground (arith, out, k.room, grows))

    copied-IsHeap : Apart t.0.0 t.0.1 t.1 → IsHeap source (copied h1) t.1
    copied-IsHeap apart = record {
      start = k.heap.start;
      limit = k.heap.limit;
      ordered = k.heap.ordered;
      chain =
          Seg-frame h1.memory (copied h1).memory h1.free_list_head t.1 null
            (SameHeaders-beside h1.memory (copied h1).memory t.0.0 t.0.1 h1.heap_start
              (h1.heap_start + h1.heap_size) t.1 k.heap.ordered apart copied-outside)
            k.heap.chain;
    }

    -- The header of the old block, in the heap after the copy.
    old_byte : (x : ℕ) → a ≤ x → x < a + z → (copied h1).memory x ≡ h.memory x
    old_byte x from to =
        copied-outside x (ground (arith, clear.1, from, to))
        ∙ k.same x (Outside-Apart x a z bs b.apart from to)

    copied-InUse : InUse source (copied h1) t.1 a z
    copied-InUse = record {
      low = omega (arith, b.low, k.extent);
      high = omega (arith, b.high, k.extent);
      least = b.least;
      aligned = b.aligned;
      header =
          load64_congr h.memory (copied h1).memory a
            (λ x from to. old_byte x from (omega (arith, to, b.least)))
          ∙ b.header;
      apart = clear.0;
    }

    -- A byte of the new block's payload, after the copy.
    new_byte : (i : ℕ) → i < z - 16 → (copied h1).memory (t.0.0 + 16 + i) ≡ h.memory (a + 16 + i)
    new_byte i less =
        let src : a + 16 + (t.0.0 + 16 + i - (t.0.0 + 16)) ≡ a + 16 + i = omega arith in
        let inside : within (t.0.0 + 16) (z - 16) (t.0.0 + 16 + i) ≡ true = ground arith in
        copied-at (t.0.0 + 16 + i)
        ∙ memcpy-at (t.0.0 + 16) (a + 16) (z - 16) h1.memory (t.0.0 + 16 + i) apart_payloads
        ∙ rw (inside, src)
            (k.same (a + 16 + i)
              (Outside-Apart (a + 16 + i) a z bs b.apart (omega arith) (omega arith)))

    krealloc_run :
        (h2 : Heap source)
        → kmalloc source new_size h ≡ done (add64 t.0.0 header_sz, h1)
        → kfree source (add64 a header_sz) (copied h1) ≡ done h2
        → krealloc source (add64 a header_sz) new_size h ≡ done (add64 t.0.0 header_sz, h2)
    unfolding krealloc
    krealloc_run h2 run freed =
        let exact : sub64 (add64 a header_sz) header_sz ≡ a =
          omega (arith, b.high, b.least, w.limit) in
        let nonnull : (add64 a header_sz == null) ≡ false =
          ground (arith, b.high, b.least, w.limit) in
        let some_size : (new_size == 0) ≡ false = ground (arith, grows) in
        let header : leb header_sz z ≡ true = ground (arith, b.least) in
        let larger : leb new_size (z - 16) ≡ false = ground (arith, grows) in
        let there : (add64 t.0.0 header_sz == null) ≡ false = ground (arith, addresses.0) in
        rw (nonnull, some_size, exact, b.header, header, larger, run, there, freed) refl

    moved :
        (h2 : Heap source)
        → Apart t.0.0 t.0.1 t.1
        → Freed source (copied h1) h2 a z t.1
        → Moved source h h2 a z new_size t
    moved h2 apart g = record {
      heap = g.heap;
      room = k.room;
      bytes = λ i less.
          g.same (t.0.0 + 16 + i)
            (Outside-Apart (t.0.0 + 16 + i) t.0.0 t.0.1 t.1 apart (omega arith)
              (omega (arith, k.room, grows, less)))
            (ground (arith, clear.1, k.room, grows, less))
          ∙ new_byte i less;
    }

  -- `krealloc` of a block in use to a size above its payload, which lies 32 below 2 ^ 64 at least
  -- and which first fit can serve, returns the address behind the header of the block that first
  -- fit takes. That block has room for the new size and begins with the bytes of the old payload;
  -- the old block is free again, merged with the free blocks that it touches; and the heap is
  -- well-formed.
  pub krealloc-Moved :
      (h' : Heap source) × (krealloc source (add64 a header_sz) new_size h
        ≡ done (add64 t.0.0 header_sz, h'))
      × Moved source h h' a z new_size t
  krealloc-Moved =
      let (h1, run, k) = kmalloc-take_block source w new_size t (omega arith) small fits in
      let (least, most, whole) = total_size_of_lem new_size small in
      let f =
        take_block-TakenFrom h.heap_start (h.heap_start + h.heap_size) (total_size_of new_size) bs t
          whole w.ordered fits in
      let (h2, freed, g) =
        kfree-put_block source (copied-IsHeap h1 k f.apart) (copied-InUse h1 k) in
      (h2, krealloc_run h1 k h2 run freed, moved h1 k h2 f.apart g)
