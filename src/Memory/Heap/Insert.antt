-- ===== src/Memory/Heap/Insert.antt =====
-- `link_block` refines `put_block`: the two merges give the list with the block back in it.
use ada_os.Base.{
  ℕ, ◌+◌, ◌%◌, ◌^◌, ◌≤◌, ◌<◌, ◌≡◌, ◌∙◌, ◌≢◌, ◌⊎◌, inl, inr, arith, List, [], ◌∷◌, ◌++◌,
}
use ada_os.Core.{Memory}
use ada_os.Core.Words.{load64_congr, load64-store64_self, load64-store64_apart, store64-outside}
use ada_os.Memory.Heap.{null, size_of, next_of, set_next, FreeList, link_after, merge_next, relink}
use ada_os.Memory.Heap.Blocks.{
  Block, Seg, Ordered, Seg-frame, SameHeaders-of, end_of, last_of, Outside, Ordered-tighten,
  Ordered-split, Seg-split, head-le, Apart,
}
use ada_os.Memory.Heap.Policy.{join}
use ada_os.Memory.Heap.Relink.{relink-Relinked}
use ada_os.Memory.Heap.Link.{Below, From, link_after-relink}
use ada_os.Memory.Heap.Merge.{merge_next-join}

end_of_front :
    (lo hi a s : ℕ) (bs : List Block)
    → lo ≤ a + 1
    → Below a bs
    → Apart a s bs
    → Ordered lo hi bs
    → end_of lo bs ≤ a + 1
end_of_front lo hi a s [] h b p o = h
end_of_front lo hi a s ((c, t) ∷ bs) h b p o =
    end_of_front (c + t + 1) hi a s bs (ground (arith, p.0, b.0)) b.1 p.1 o.5

Outside-front :
    (x a s : ℕ) (bs : List Block) → a ≤ x → 0 < s → Below a bs → Apart a s bs → Outside x bs
Outside-front x a s [] h pos b p = tt
Outside-front x a s ((c, t) ∷ bs) h pos b p =
    (inr (ground (arith, p.0, b.0)), Outside-front x a s bs h pos b.1 p.1)

Ordered-back :
    (lo hi a s : ℕ) (bs : List Block)
    → From a bs
    → Apart a s bs
    → Ordered lo hi bs
    → Ordered (a + s) hi bs
Ordered-back lo hi a s [] f p o = tt
Ordered-back lo hi a s ((c, t) ∷ bs) f p o =
    let past : a + s ≤ c = ground (arith, p.0, o.1) in (past, o.1, o.2, o.3, o.4, o.5)

pub Apart-append :
    (a s : ℕ) (bs cs : List Block) → Apart a s (bs ++ cs) → Apart a s bs × Apart a s cs
Apart-append a s [] cs p = (tt, p)
Apart-append a s (b ∷ bs) cs p =
    let (front, back) = Apart-append a s bs cs p.1 in ((p.0, front), back)

-- The place of the block `(a, s)` between `front` and `back` in a list of a heap.
pub record Place (l : FreeList) (lo hi a s : ℕ) (front back : List Block) : Type 0 where
  pub pos : 0 < lo
  pub small : hi < 2 ^ 64
  pub low : lo ≤ a
  pub least : 16 ≤ s
  pub high : a + s ≤ hi
  pub aligned : (a % 16 ≡ 0) × (s % 16 ≡ 0)
  pub ordered : Ordered lo hi (front ++ back)
  pub chain : Seg l.memory l.free_list_head (front ++ back) null
  pub size : size_of l.memory a ≡ s
  pub below : Below a front
  pub from : From a back
  pub apart : Apart a s (front ++ back)

-- After `link_after` and the first merge: the list up to the block, and from the block on.
pub record Linked (l l' : FreeList) (m2 : Memory) (a s : ℕ) (front back : List Block) : Type 0 where
  pub before : Seg m2 l'.free_list_head front a
  pub after : Seg m2 a (join a s back) null
  pub same : (x : ℕ) → Outside x front → (x < a) ⊎ (a + s ≤ x) → m2 x ≡ l.memory x

module _ {l : FreeList} {lo hi a s : ℕ} {front back : List Block}
    (p : Place l lo hi a s front back) where
  front_parts : Ordered lo hi front × Apart a s front × (end_of lo front ≤ a + 1)
  front_parts =
      let (o, o') = Ordered-split lo hi front back p.ordered in
      let (q, q') = Apart-append a s front back p.apart in
      (o, q, end_of_front lo hi a s front (omega (arith, p.low)) p.below q o)

  pub back-Ordered : Ordered (a + s) hi back
  back-Ordered =
      let (o, o') = Ordered-split lo hi front back p.ordered in
      let (q, q') = Apart-append a s front back p.apart in
      Ordered-back (end_of lo front) hi a s back p.from q' o'

  pub linked :
      Linked l
        (link_after l (last_of null front) a)
        (merge_next (link_after l (last_of null front) a).memory a)
        a
        s
        front
        back
  linked =
      let (o, apart, gap) = front_parts in
      let o' = back-Ordered in
      let m = l.memory in
      let nonnull : a ≢ null = omega (arith, p.low, p.pos) in
      let (q, before, after) = Seg-split m l.free_list_head front back null p.chain in
      let m0 = set_next m a q in
      let q_small : q < 2 ^ 64 = omega (arith, head-le m q (a + s) hi back after o', p.small) in
      let outside0 : (x : ℕ) → (x < a) ⊎ (a + 16 ≤ x) → m0 x ≡ m x =
        λ x h. store64-outside m (a + 8) q x (ground arith) in
      let o_front = Ordered-tighten lo hi a front o gap in
      let before0 =
        Seg-frame m m0 l.free_list_head front q
          (SameHeaders-of m m0 lo a front o_front (λ x h h'. outside0 x (inl h'))) before in
      let after0 =
        Seg-frame m m0 q back null
          (SameHeaders-of m m0 (a + s) hi back o'
            (λ x h h'. outside0 x (inr (omega (arith, p.least)))))
          after in
      let l0 = record l { memory = m0 } in
      let k = relink-Relinked l0 front lo hi q a p.pos o (omega (arith, p.high, p.small)) before0 in
      let l1 = relink l0 (last_of null front) a in
      let m1 = l1.memory in
      let behind : (x : ℕ) → a ≤ x → m1 x ≡ m0 x =
        λ x h. k.same x (Outside-front x a s front h (omega (arith, p.least)) p.below apart) in
      let size1 : size_of m1 a ≡ s =
        load64_congr m0 m1 a (λ x h h'. behind x h)
        ∙ load64-store64_apart m (a + 8) q a (inl (omega arith))
        ∙ p.size in
      let next1 : next_of m1 a ≡ q =
        load64_congr m0 m1 (a + 8) (λ x h h'. behind x (omega arith))
        ∙ load64-store64_self m (a + 8) q q_small in
      let after1 =
        Seg-frame m0 m1 q back null
          (SameHeaders-of m0 m1 (a + s) hi back o' (λ x h h'. behind x (omega arith))) after0 in
      let (joined, same) =
        merge_next-join m1 a s q hi back nonnull p.least p.small p.high size1 next1 after1 o' in
      let m2 = merge_next m1 a in
      rw (link_after-relink l front a q before) (record {
        before =
            Seg-frame m1 m2 l1.free_list_head front a
              (SameHeaders-of m1 m2 lo a front o_front (λ x h h'. same x (inl h'))) k.chain;
        after = joined;
        same = λ x out h.
            same x (ground (arith, p.least)) ∙ k.same x out ∙ outside0 x (ground (arith, p.least));
      })
