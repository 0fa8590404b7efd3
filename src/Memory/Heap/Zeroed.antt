-- ===== src/Memory/Heap/Zeroed.antt =====
-- `kcalloc`: a block of zero bytes, or NULL for a size that does not fit a word.
use ada_os.Base.{
  ℕ, ◌+◌, ◌*◌, ◌/◌, ◌^◌, ◌≤◌, ◌<◌, ◌≡◌, refl, ◌∙◌, ◌⊎◌, inl, inr, arith, List, [], ◌∷◌, some, Bool,
  true, false, ◌&&◌, not, ltb, ◌==◌, ==_iff, Bool-cases, done,
}
use native.Mathlib.Nat.{le-div_iff_mul-le}
use ada_os.Core.{Memory, memset}
use ada_os.Core.Copying.{within, memset-at}
use ada_os.Memory.Layout.{add64, mul64}
use ada_os.Memory.Heap.{null, header_sz, PageSource, Heap, kmalloc, kcalloc, total_size_of}
use ada_os.Memory.Heap.Blocks.{Block, Seg-frame, Outside, Apart}
use ada_os.Memory.Heap.Policy.{take_block}
use ada_os.Memory.Heap.Malloc.{IsHeap, Allocated, kmalloc-take_block, total_size_of_lem}
use ada_os.Memory.Heap.Release.{take_block-TakenFrom}
use ada_os.Memory.Heap.Resize.{SameHeaders-beside, take_block-Clear}

memset-outside : (s n : ℕ) (m : Memory) (a : ℕ) → (a < s) ⊎ (s + n ≤ a) → (memset s 0 n m).1 a ≡ m a
memset-outside s n m a h =
    let out : within s n a ≡ false = ground (arith, h) in memset-at s 0 n m a ∙ rw out refl

memset-inside : (s n : ℕ) (m : Memory) (i : ℕ) → i < n → (memset s 0 n m).1 (s + i) ≡ 0
memset-inside s n m i h =
    let inside : within s n (s + i) ≡ true = ground (arith, h) in
    memset-at s 0 n m (s + i) ∙ rw inside refl

-- The test of `kcalloc` on the product of its arguments.
abbrev overflows : (num size : ℕ) → Bool
overflows num size = not (size == 0) && ltb (0xffff_ffff_ffff_ffff / size) num

overflows_iff_false : (num size : ℕ) → num * size < 2 ^ 64 → overflows num size ≡ false
overflows_iff_false num size h = elim (Bool-cases (size == 0)) [
  | inl zero' ↦ rw zero' refl
  | inr some' ↦
      let below : num ≤ 0xffff_ffff_ffff_ffff / size =
        (le-div_iff_mul-le {k = size} {x = num} {y = 0xffff_ffff_ffff_ffff}
            (ground (arith, some'))).1
          (omega (arith, h)) in
      ground (arith, some', below)
]

-- What `kcalloc` leaves in the block that first fit takes.
pub record Zeroed (source : PageSource) (h h' : Heap source) (total : ℕ) (bs : List Block)
    (t : Block × List Block) : Type 0 where
  pub heap : IsHeap source h' t.1
  pub room : total + 16 ≤ t.0.1
  pub zeros : (i : ℕ) → i < total → h'.memory (t.0.0 + header_sz + i) ≡ 0
  pub same : (x : ℕ) → Outside x bs → h'.memory x ≡ h.memory x

Outside-Apart_one : (x : ℕ) (bs : List Block) → Outside x bs → Apart x 1 bs
Outside-Apart_one x [] o = tt
Outside-Apart_one x ((c, z) ∷ bs) o = (ground (arith, o.0), Outside-Apart_one x bs o.1)

module _ (source : PageSource) {h : Heap source} {bs : List Block} (w : IsHeap source h bs)
    (num size : ℕ) (t : Block × List Block) (pos : 0 < num * size)
    (small : num * size + 32 ≤ 2 ^ 64)
    (fits : take_block (total_size_of (num * size)) bs ≡ some t) where
  -- The heap when the payload is cleared.
  abbrev cleared : Heap source → Heap source
  cleared h1 = record h1 {
    free = record h1.free { memory = (memset (add64 t.0.0 header_sz) 0 (num * size) h1.memory).1 };
  }

  module _ (h1 : Heap source) (k : Allocated source h h1 (num * size) t.0.0 t.0.1 bs t.1)
      (payload : add64 t.0.0 header_sz ≡ t.0.0 + header_sz) (apart : Apart t.0.0 t.0.1 t.1) where
    -- Outside the block nothing is cleared.
    cleared-outside :
        (x : ℕ) → (x < t.0.0) ⊎ (t.0.0 + t.0.1 ≤ x) → (cleared h1).memory x ≡ h1.memory x
    cleared-outside x out =
        memset-outside (add64 t.0.0 header_sz) (num * size) h1.memory x
          (ground (arith, payload, k.room, out))

    cleared-Zeroed : Zeroed source h (cleared h1) (num * size) bs t
    cleared-Zeroed = record {
      heap = record {
        start = k.heap.start;
        limit = k.heap.limit;
        ordered = k.heap.ordered;
        chain =
            Seg-frame h1.memory (cleared h1).memory h1.free_list_head t.1 null
              (SameHeaders-beside h1.memory (cleared h1).memory t.0.0 t.0.1 h1.heap_start
                (h1.heap_start + h1.heap_size) t.1 k.heap.ordered apart cleared-outside)
              k.heap.chain;
      };
      room = k.room;
      zeros =
          λ i less. rw payload (memset-inside (t.0.0 + header_sz) (num * size) h1.memory i less);
      same = λ x o.
          let out =
            (take_block-Clear (total_size_of (num * size)) x 1 bs t (Outside-Apart_one x bs o)
              fits).1 in
          cleared-outside x (ground (arith, out)) ∙ k.same x o;
    }

  kcalloc_run :
      (h1 : Heap source)
      → add64 t.0.0 header_sz ≡ t.0.0 + header_sz
      → kmalloc source (num * size) h ≡ done (add64 t.0.0 header_sz, h1)
      → kcalloc source num size h ≡ done (add64 t.0.0 header_sz, cleared h1)
  unfolding kcalloc
  kcalloc_run h1 payload run =
      let fit = overflows_iff_false num size (omega (arith, small)) in
      let exact : mul64 num size ≡ num * size = omega (arith, small) in
      let there : (add64 t.0.0 header_sz == null) ≡ false = ground (arith, payload) in
      rw (fit, exact, run, there) refl

  -- `kcalloc` of a product that is not 0, lies 32 below 2 ^ 64 at least, and that first fit can
  -- serve, returns the address behind the header of the block that first fit takes. So many bytes of
  -- it are 0, no byte outside the free blocks has changed, and the heap is well-formed.
  pub kcalloc-Zeroed :
      (h' : Heap source) × (kcalloc source num size h ≡ done (add64 t.0.0 header_sz, h'))
      × Zeroed source h h' (num * size) bs t
  kcalloc-Zeroed =
      let (h1, run, k) = kmalloc-take_block source w (num * size) t pos small fits in
      let (least, most, whole) = total_size_of_lem (num * size) small in
      let f =
        take_block-TakenFrom h.heap_start (h.heap_start + h.heap_size) (total_size_of (num * size))
          bs t whole w.ordered fits in
      let payload : add64 t.0.0 header_sz ≡ t.0.0 + header_sz =
        omega (arith, f.high, w.limit, k.room) in
      (cleared h1, kcalloc_run h1 payload run, cleared-Zeroed h1 k payload f.apart)

-- A product that is no word gives NULL, and the heap is as it was.
pub kcalloc_overflow :
    (source : PageSource) (h : Heap source) (num size : ℕ)
    → 2 ^ 64 ≤ num * size
    → kcalloc source num size h ≡ done (null, h)
unfolding kcalloc
kcalloc_overflow source h num size large = elim (Bool-cases (overflows num size)) [
  | inl over ↦ rw over refl
  | inr fine ↦ elim (Bool-cases (size == 0)) [
    | inl zero' ↦
        let none_at_all : num * 0 ≡ 0 = omega arith in
        let e : size ≡ 0 = (==_iff size 0).0 zero' in absurd (omega (arith, rw e at large))
    | inr some' ↦
        let below : num ≤ 0xffff_ffff_ffff_ffff / size = ground (arith, fine, some') in
        let product =
          (le-div_iff_mul-le {k = size} {x = num} {y = 0xffff_ffff_ffff_ffff}
              (ground (arith, some'))).0
            below in
        absurd (omega (arith, large, product))
  ]
]
