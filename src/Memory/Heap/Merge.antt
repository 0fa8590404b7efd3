-- ===== src/Memory/Heap/Merge.antt =====
-- Merging a block with the next one, in memory and on the list.
use ada_os.Base.{
  ℕ, ◌+◌, ◌^◌, ◌≤◌, ◌<◌, ◌≡◌, refl, ◌∙◌, sym, ◌≢◌, ◌⊎◌, inl, inr, arith, ◌==◌, if◌then◌else◌, List,
  [], ◌∷◌, true, false, Bool-cases, not, ◌&&◌, ap, ap₂,
}
use ada_os.Core.{Memory}
use ada_os.Core.Words.{load64-store64_self, load64-store64_apart, store64-outside}
use ada_os.Memory.Layout.{add64}
use ada_os.Memory.Heap.{
  null, size_of, next_of, set_size, absorb, touches, merge_next, merge_previous,
}
use ada_os.Memory.Heap.Blocks.{Block, Seg, Ordered, Seg-frame, SameHeaders-of, head-le}
use ada_os.Memory.Heap.Policy.{join}

-- `absorb` gives the block the other's bytes and successor, and writes only to the block's header.
pub record Absorbed (m m' : Memory) (a c s t : ℕ) : Type 0 where
  pub size : size_of m' a ≡ s + t
  pub next : next_of m' a ≡ next_of m c
  pub same : (x : ℕ) → (x < a) ⊎ (a + 16 ≤ x) → m' x ≡ m x

absorb-Absorbed :
    (m : Memory) (a c s t : ℕ)
    → a + 16 ≤ c
    → s + t < 2 ^ 64
    → next_of m c < 2 ^ 64
    → size_of m a ≡ s
    → size_of m c ≡ t
    → Absorbed m (absorb m a c) a c s t
unfolding absorb
absorb-Absorbed m a c s t apart small small' size size' =
    let m1 = set_size m a (add64 (size_of m a) (size_of m c)) in
    let sum : add64 (size_of m a) (size_of m c) ≡ s + t = rw (size, size') (omega arith) in
    let n : next_of m1 c ≡ next_of m c =
      load64-store64_apart m a (add64 (size_of m a) (size_of m c)) (c + 8) (inr (omega arith)) in
    record {
      size =
          load64-store64_apart m1 (a + 8) (next_of m1 c) a (inl (omega arith))
          ∙ load64-store64_self m a _ (rw sum small)
          ∙ sum;
      next = load64-store64_self m1 (a + 8) (next_of m1 c) (rw n small') ∙ n;
      same = λ x h.
          store64-outside m1 (a + 8) (next_of m1 c) x (ground arith)
          ∙ store64-outside m a (add64 (size_of m a) (size_of m c)) x (ground arith);
    }

merge_next_end : (m : Memory) (a : ℕ) → next_of m a ≡ null → merge_next m a ≡ m
unfolding merge_next
merge_next_end m a next = let stop : (next_of m a == null) ≡ true = ground (arith, next) in rw stop

merge_next_touch :
    (m : Memory) (a s c : ℕ)
    → c ≢ null
    → a + s < 2 ^ 64
    → size_of m a ≡ s
    → next_of m a ≡ c
    → merge_next m a ≡ (if a + s == c then absorb m a c else m)
unfolding merge_next
merge_next_touch m a s c nonnull small size next =
    let more : (c == null) ≡ false = ground arith in
    let exact : add64 a s ≡ a + s = omega arith in
    let body : merge_next m a ≡ (if not (c == null) && add64 a s == c then absorb m a c else m) =
      ap₂ (λ (n z : ℕ). if not (n == null) && add64 a z == n then absorb m a n else m) next size in
    body ∙ rw (more, exact)

-- The chain from the block through `bs`, where the block's size and successor are known.
pub merge_next-join :
    (m : Memory) (a s q hi : ℕ) (bs : List Block)
    → a ≢ null
    → 16 ≤ s
    → hi < 2 ^ 64
    → a + s ≤ hi
    → size_of m a ≡ s
    → next_of m a ≡ q
    → Seg m q bs null
    → Ordered (a + s) hi bs
    → Seg (merge_next m a) a (join a s bs) null
      × ((x : ℕ) → (x < a) ⊎ (a + 16 ≤ x) → merge_next m a x ≡ m x)
unfolding join
merge_next-join m a s q hi [] nonnull least small inside size next chain o =
    let e = merge_next_end m a (next ∙ chain) in
    rw e ((refl, nonnull, size, next ∙ chain), λ x h. refl)
merge_next-join m a s q hi ((c, t) ∷ bs) nonnull least small inside size next chain o =
    let at_c : next_of m a ≡ c = next ∙ chain.0 in
    let e = merge_next_touch m a s c chain.1 (omega arith) size at_c in
    elim (Bool-cases (a + s == c)) [
      | inl touch ↦
          let adjacent : a + s ≡ c = ground arith in
          let k =
            absorb-Absorbed m a c s t (omega arith) (omega (arith, o.4))
              (omega (arith, head-le m (next_of m c) (c + t + 1) hi bs chain.3 o.5)) size
              (chain.2) in
          let rest =
            Seg-frame m (absorb m a c) (next_of m c) bs null
              (SameHeaders-of m (absorb m a c) (c + t + 1) hi bs o.5
                (λ x h h'. k.same x (inr (omega arith))))
              chain.3 in
          rw (e, touch) ((refl, nonnull, k.size, rw (k.next) rest), k.same)
      | inr gap ↦
          rw (e, gap)
            ((refl, nonnull, size, rw at_c (refl, chain.1, chain.2, chain.3)), λ x h. refl)
    ]

-- Where the previous block leads to the block, merging it is merging it with its next one.
pub merge_previous-merge_next :
    (m : Memory) (d a : ℕ)
    → d ≢ null
    → a ≢ null
    → next_of m d ≡ a
    → merge_previous m d a ≡ merge_next m d
unfolding merge_previous merge_next
merge_previous-merge_next m d a nonnull nonnull' next =
    let here : (d == null) ≡ false = ground arith in
    let there : (a == null) ≡ false = ground arith in
    rw (here) (
      rw there at
        (ap (λ (n : ℕ). if not (n == null) && touches m d n then absorb m d n else m) (sym next)))

pub merge_previous-null : (m : Memory) (a : ℕ) → merge_previous m null a ≡ m
unfolding merge_previous
merge_previous-null m a = refl
