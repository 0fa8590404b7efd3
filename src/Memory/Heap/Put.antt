-- ===== src/Memory/Heap/Put.antt =====
-- The last merge of `link_block`, with the block in front, and the whole of it against `put_block`.
use mathlib.Core.List.{append_assoc}
use ada_os.Base.{
  ℕ, ◌+◌, ◌^◌, ◌≤◌, ◌<◌, ◌≡◌, refl, ◌∙◌, sym, ◌⊎◌, inl, arith, List, [], ◌∷◌, ◌++◌, true, ltb, ap,
  lt→ltb, subst,
}
use ada_os.Core.{Memory}
use ada_os.Memory.Heap.{null, FreeList, link_after, merge_next, merge_previous, link_block}
use ada_os.Memory.Heap.Blocks.{
  Block, Seg, Ordered, Seg-frame, Seg-append, SameHeaders-of, last_of, Outside, Ordered-tighten,
  Ordered-split, Seg-split, Outside-append, Apart,
}
use ada_os.Memory.Heap.Policy.{join, put_block}
use ada_os.Memory.Heap.Link.{Below, From}
use ada_os.Memory.Heap.Merge.{merge_next-join, merge_previous-merge_next, merge_previous-null}
use ada_os.Memory.Heap.Release.{Ordered-join}
use ada_os.Memory.Heap.Insert.{Place, linked, back-Ordered, Apart-append}

-- A list by its last block.
record Snoc (p : ℕ) (bs : List Block) : Type 0 where
  init : List Block
  address : ℕ
  size : ℕ
  splits : bs ≡ init ++ (address, size) ∷ []
  last : last_of p bs ≡ address

snoc : (p c t : ℕ) (bs : List Block) → Snoc p ((c, t) ∷ bs)
snoc p c t [] = record { init = []; address = c; size = t; splits = refl; last = refl }
snoc p c t ((d, u) ∷ bs) =
    let s = snoc c d u bs in
    record {
      init = (c, t) ∷ s.init;
      address = s.address;
      size = s.size;
      splits = ap (λ l. (c, t) ∷ l) s.splits;
      last = s.last;
    }

put_block-From : (a s : ℕ) (bs : List Block) → From a bs → put_block a s bs ≡ join a s bs
unfolding put_block join
put_block-From a s [] f = refl
put_block-From a s ((c, t) ∷ bs) f = ground arith

From-join :
    (lo hi d u : ℕ) (init rest bs : List Block)
    → Ordered lo hi (init ++ (d, u) ∷ bs)
    → From lo (init ++ join d u rest)
unfolding join
From-join lo hi d u [] [] bs o = o.0
From-join lo hi d u [] ((c, t) ∷ rest) bs o = ground (arith, o.0)
From-join lo hi d u ((e, v) ∷ init) rest bs o = o.0

join-From : (a s : ℕ) (bs : List Block) → From (a + s + 1) bs → join a s bs ≡ (a, s) ∷ bs
unfolding join
join-From a s [] f = refl
join-From a s ((c, t) ∷ bs) f = ground arith

put_block-append :
    (lo hi a s d u : ℕ) (init back : List Block)
    → Ordered lo hi (init ++ (d, u) ∷ back)
    → Below a (init ++ (d, u) ∷ [])
    → From a back
    → put_block a s (init ++ (d, u) ∷ back) ≡ init ++ join d u (join a s back)
unfolding put_block
put_block-append lo hi a s d u [] back o b f =
    let before : ltb d a ≡ true = lt→ltb d a b.0 in rw (before, put_block-From a s back f)
put_block-append lo hi a s d u ((e, v) ∷ init) back o b f =
    let before : ltb e a ≡ true = lt→ltb e a b.0 in
    let ih = put_block-append (e + v + 1) hi a s d u init back o.5 b.1 f in
    rw (before, ih)
      (join-From e v (init ++ join d u (join a s back))
        (From-join (e + v + 1) hi d u init (join a s back) back o.5))

-- What `link_block` leaves: the list with the block in it. Bytes outside the blocks and the freed
-- one have not changed.
pub record Put (l l' : FreeList) (a s : ℕ) (bs : List Block) : Type 0 where
  pub chain : Seg l'.memory l'.free_list_head (put_block a s bs) null
  pub same : (x : ℕ) → Outside x bs → (x < a) ⊎ (a + s ≤ x) → l'.memory x ≡ l.memory x

link_first :
    {l : FreeList} {lo hi a s : ℕ} {back : List Block}
    → Place l lo hi a s [] back
    → Put l (link_block l null a) a s back
unfolding link_block
link_first {l} {a} {s} {back} p =
    let k = linked p in
    let m2 = merge_next (link_after l null a).memory a in
    rw (merge_previous-null m2 a) (record {
      chain = rw (put_block-From a s back p.from, k.before) (k.after);
      same = λ x out h. k.same x tt h;
    })

-- The second merge, given the memory after the first.
record MergedBack (m2 m3 : Memory) (head a s d u : ℕ) (init back : List Block) : Type 0 where
  chain : Seg m3 head (init ++ join d u (join a s back)) null
  same : (x : ℕ) → Outside x (init ++ (d, u) ∷ []) → m3 x ≡ m2 x

merged_back :
    (m2 : Memory) (head lo hi a s d u : ℕ) (init back : List Block)
    → hi < 2 ^ 64
    → 0 < a
    → Ordered lo hi (init ++ (d, u) ∷ [])
    → d + u ≤ a
    → Ordered (d + u) hi (join a s back)
    → Seg m2 head (init ++ (d, u) ∷ []) a
    → Seg m2 a (join a s back) null
    → MergedBack m2 (merge_previous m2 d a) head a s d u init back
merged_back m2 head lo hi a s d u init back small pos o past o' before after =
    let (q, first, last) = Seg-split m2 head init ((d, u) ∷ []) a before in
    let (o_init, o_last) = Ordered-split lo hi init ((d, u) ∷ []) o in
    let (joined, same) =
      merge_next-join m2 d u a hi (join a s back) last.1 (o_last.1) small (o_last.4) (last.2)
        (last.3) after o' in
    let m3 = merge_next m2 d in
    let outside : (x : ℕ) → (x < d) ⊎ (d + u ≤ x) → m3 x ≡ m2 x =
      λ x h. same x (ground (arith, o_last.1)) in
    let front =
      Seg-frame m2 m3 head init q
        (SameHeaders-of m2 m3 lo d init
          (Ordered-tighten lo hi d init o_init (omega (arith, o_last.0)))
          (λ x h h'. outside x (inl h')))
        first in
    rw (merge_previous-merge_next m2 d a last.1 (omega (arith, pos)) last.3) (record {
      chain =
          Seg-append m3 head init (join d u (join a s back)) d null (rw (last.0) at front) joined;
      same = λ x out. let (_, here) = Outside-append x init ((d, u) ∷ []) out in outside x here.0;
    })

Below-last : (a d u : ℕ) (init : List Block) → Below a (init ++ (d, u) ∷ []) → d < a
Below-last a d u [] b = b.0
Below-last a d u (x ∷ init) b = Below-last a d u init b.1

link_later :
    {l : FreeList} {lo hi a s c t : ℕ} {front back : List Block}
    → Place l lo hi a s ((c, t) ∷ front) back
    → Put l (link_block l (last_of null ((c, t) ∷ front)) a) a s ((c, t) ∷ front ++ back)
unfolding link_block
link_later {l} {lo} {hi} {a} {s} {c} {t} {front} {back} p =
    let k = linked p in
    let v = snoc null c t front in
    let d = v.address in
    let u = v.size in
    let all = (c, t) ∷ front in
    let l1 = link_after l (last_of null all) a in
    let m2 = merge_next l1.memory a in
    let (o_front, _) = Ordered-split lo hi all back p.ordered in
    let (apart, _) = Apart-append a s all back p.apart in
    let o_snoc = subst (Ordered lo hi) v.splits o_front in
    let (_, o_last) = Ordered-split lo hi v.init ((d, u) ∷ []) o_snoc in
    let below = subst (Below a) v.splits p.below in
    let (_, apart_last) =
      Apart-append a s v.init ((d, u) ∷ []) (subst (Apart a s) v.splits apart) in
    let first : d < a = Below-last a d u v.init below in
    let past : d + u ≤ a = ground (arith, apart_last.0) in
    let joined =
      Ordered-join (d + u) hi a s back past p.least p.aligned.0 p.aligned.1 p.high
        (back-Ordered p) in
    let r =
      merged_back m2 l1.free_list_head lo hi a s d u v.init back p.small
        (omega (arith, p.pos, p.low)) o_snoc past joined
        (subst (λ (b : List Block). Seg m2 l1.free_list_head b a) v.splits k.before) k.after in
    let one_list =
      ap (λ (b : List Block). b ++ back) v.splits ∙ append_assoc v.init ((d, u) ∷ []) back in
    let put : put_block a s (all ++ back) ≡ v.init ++ join d u (join a s back) =
      ap (put_block a s) one_list
      ∙ put_block-append lo hi a s d u v.init back (subst (Ordered lo hi) one_list p.ordered) below
          p.from in
    let r' =
      subst (λ (z : ℕ). MergedBack m2 (merge_previous m2 z a) l1.free_list_head a s d u v.init back)
        (sym v.last) r in
    record {
      chain = rw put (r'.chain);
      same = λ x out h.
          let (out_front, _) = Outside-append x all back out in
          r'.same x (subst (Outside x) v.splits out_front) ∙ k.same x out_front h;
    }

-- `link_block` behind the place that the loop finds puts the block into the list, whatever its
-- neighbours are.
pub link_block-Put :
    {l : FreeList} {lo hi a s : ℕ} (front back : List Block)
    → Place l lo hi a s front back
    → Put l (link_block l (last_of null front) a) a s (front ++ back)
link_block-Put [] back p = link_first p
link_block-Put ((c, t) ∷ front) back p = link_later p
