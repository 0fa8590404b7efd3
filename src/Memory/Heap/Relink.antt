-- ===== src/Memory/Heap/Relink.antt =====
-- Putting a new successor behind the front part of a list: `relink`, and the write through
-- `size_ptr` that follows it in `kmalloc`.
use ada_os.Base.{
  ℕ, ◌+◌, ◌^◌, ◌≤◌, ◌<◌, ◌≡◌, refl, ◌∙◌, ◌⊎◌, inl, inr, arith, ◌==◌, List, [], ◌∷◌, ◌++◌, false,
}
use ada_os.Core.Words.{load64_congr, load64-store64_self, store64-outside}
use ada_os.Memory.Heap.{null, size_of, set_size, FreeList, relink}
use ada_os.Memory.Heap.Blocks.{
  Block, Seg, Ordered, Seg-frame, Seg-append, SameHeaders-of, end_of, last_of, Outside,
  Outside-of_ge, Seg-relink, set_next-Outside, last_of-ge, Ordered-tighten,
}

pub record Relinked (l l' : FreeList) (front : List Block) (r : ℕ) : Type 0 where
  pub chain : Seg l'.memory l'.free_list_head front r
  pub same : (x : ℕ) → Outside x front → l'.memory x ≡ l.memory x

pub relink-Relinked :
    (l : FreeList) (front : List Block) (lo hi q r : ℕ)
    → 0 < lo
    → Ordered lo hi front
    → r < 2 ^ 64
    → Seg l.memory l.free_list_head front q
    → Relinked l (relink l (last_of null front) r) front r
unfolding relink
relink-Relinked l [] lo hi q r pos o small s = record { chain = refl; same = λ x out. refl }
relink-Relinked l ((c, t) ∷ bs) lo hi q r pos o small s =
    let later = last_of-ge lo hi c t bs o in
    let there : (last_of c bs == null) ≡ false = ground (arith, later) in
    rw there (record {
      chain = Seg-relink l.memory c t bs lo hi l.free_list_head q r o small s;
      same = λ x out. set_next-Outside l.memory c t bs lo hi r x o out;
    })

abbrev pub rewrite_size : FreeList → ℕ → FreeList
rewrite_size l a = record l { memory = set_size l.memory a (size_of l.memory a) }

-- The list `front ++ tail` after `relink`, with a header at `a` between the two that keeps its
-- size.
pub record Finished (l l' : FreeList) (front tail : List Block) (a v : ℕ) : Type 0 where
  pub chain : Seg l'.memory l'.free_list_head (front ++ tail) null
  pub header : size_of l'.memory a ≡ v
  pub same : (x : ℕ) → Outside x front → (x < a) ⊎ (a + 8 ≤ x) → l'.memory x ≡ l.memory x

pub relink-Finished :
    (l : FreeList) (front tail : List Block) (lo hi q r a v : ℕ)
    → 0 < lo
    → Ordered lo hi front
    → end_of lo front ≤ a
    → Ordered (a + 16) hi tail
    → r < 2 ^ 64
    → v < 2 ^ 64
    → size_of l.memory a ≡ v
    → Seg l.memory l.free_list_head front q
    → Seg l.memory r tail null
    → Finished l (rewrite_size (relink l (last_of null front) r) a) front tail a v
relink-Finished l front tail lo hi q r a v pos o gap o' small small' size s s' =
    let l1 = relink l (last_of null front) r in
    let k = relink-Relinked l front lo hi q r pos o small s in
    let m1 = l1.memory in
    let behind : (x : ℕ) → a ≤ x → m1 x ≡ l.memory x =
      λ x h. k.same x (Outside-of_ge lo hi x front o (omega arith)) in
    let size1 : size_of m1 a ≡ v = load64_congr l.memory m1 a (λ x h h'. behind x h) ∙ size in
    let m2 = set_size m1 a (size_of m1 a) in
    let front2 =
      SameHeaders-of m1 m2 lo a front (Ordered-tighten lo hi a front o (omega arith))
        (λ x h h'. store64-outside m1 a (size_of m1 a) x (inl h')) in
    let tail2 = SameHeaders-of l.memory m2 (a + 16) hi tail o' (λ x h h'.
      store64-outside m1 a (size_of m1 a) x (inr (omega arith)) ∙ behind x (omega arith)) in
    record {
      chain =
          Seg-append m2 l1.free_list_head front tail r null
            (Seg-frame m1 m2 l1.free_list_head front r front2 k.chain)
            (Seg-frame l.memory m2 r tail null tail2 s');
      header = load64-store64_self m1 a (size_of m1 a) (rw size1 small') ∙ size1;
      same = λ x out beside. store64-outside m1 a (size_of m1 a) x beside ∙ k.same x out;
    }
