-- ===== src/Memory/Heap/Carve.antt =====
-- `kmalloc` on the block that it found: the list of blocks that it leaves, and the header.
use ada_os.Base.{
  ℕ, ◌+◌, ◌-◌, ◌%◌, ◌^◌, ◌≤◌, ◌<◌, ◌≡◌, refl, ◌∙◌, ◌≢◌, ◌⊎◌, inl, inr, arith, if◌then◌else◌, List,
  ◌∷◌, ◌++◌, true, false, leb, Bool-cases, leb→le,
}
use ada_os.Core.Words.{load64-store64_self, load64-store64_apart, store64-outside}
use ada_os.Memory.Layout.{add64, sub64}
use ada_os.Memory.Heap.{null, size_of, next_of, set_size, set_next, FreeList, carve}
use ada_os.Memory.Heap.Blocks.{
  Block, Seg, Ordered, Seg-frame, SameHeaders-of, end_of, last_of, Outside, Ordered-tighten,
  Ordered-append, Ordered-weaken, Seg-split, head-le, Outside-append,
}
use ada_os.Memory.Heap.Relink.{relink-Finished}

-- The blocks behind `front` when `total` bytes of the block `(a, s)` are taken.
abbrev pub left_over : ℕ → (a s : ℕ) → List Block → List Block
left_over total a s back = if leb (total + 16) s then (a + total, s - total) ∷ back else back

abbrev pub taken_size : ℕ → ℕ → ℕ
taken_size total s = if leb (total + 16) s then total else s

-- After `carve` the list is as before, with `left_over` in place of the block; the block's header
-- has its size, and the bytes of no other block have changed.
pub record Carved (l l' : FreeList) (total : ℕ) (front back : List Block) (a s : ℕ) : Type 0 where
  pub chain : Seg l'.memory l'.free_list_head (front ++ left_over total a s back) null
  pub header : size_of l'.memory a ≡ taken_size total s
  pub same : (x : ℕ) → Outside x (front ++ (a, s) ∷ back) → l'.memory x ≡ l.memory x

module _ (l : FreeList) (total : ℕ) (front back : List Block) (a s lo hi : ℕ) (pos : 0 < lo)
    (small : hi + 32 ≤ 2 ^ 64) (o : Ordered lo hi front)
    (o' : Ordered (end_of lo front) hi ((a, s) ∷ back))
    (chain : Seg l.memory l.free_list_head (front ++ (a, s) ∷ back) null) (least : 16 ≤ total)
    (large : total ≤ s) (whole : total % 16 ≡ 0) where
  carve_whole :
      leb (total + 16) s ≡ false
      → Carved l (carve l total (last_of null front) a) total front back a s
  unfolding carve
  carve_whole tight =
      let (q, before, after) =
        Seg-split l.memory l.free_list_head front ((a, s) ∷ back) null chain in
      let n = next_of l.memory a in
      let f =
        relink-Finished l front back lo hi q n a s pos o o'.0
          (Ordered-weaken (a + s + 1) (a + 16) hi back (omega arith) o'.5)
          (omega (arith, head-le l.memory n (a + s + 1) hi back after.3 o'.5)) (omega arith)
          (after.2) before after.3 in
      let test : leb (add64 total 16) (size_of l.memory a) ≡ false = rw (after.2) (ground arith) in
      rw test (record {
        chain = rw tight f.chain;
        header = rw tight f.header;
        same = λ x out.
            let (out1, out2) = Outside-append x front ((a, s) ∷ back) out in
            f.same x out1 (ground (arith, out2.0));
      })

  carve_part :
      leb (total + 16) s ≡ true
      → Carved l (carve l total (last_of null front) a) total front back a s
  unfolding carve
  carve_part room =
      let (q, before, after) =
        Seg-split l.memory l.free_list_head front ((a, s) ∷ back) null chain in
      let space = leb→le (total + 16) s room in
      let m = l.memory in
      let n = next_of m a in
      let rest = a + total in
      let m1 = set_size m rest (s - total) in
      let m2 = set_next m1 rest (next_of m1 a) in
      let m3 = set_size m2 a total in
      let n_small : n < 2 ^ 64 = omega (arith, head-le m n (a + s + 1) hi back after.3 o'.5) in
      let n1 : next_of m1 a ≡ n =
        load64-store64_apart m rest (s - total) (a + 8) (inl (omega arith)) in
      let size3 : size_of m3 rest ≡ s - total =
        load64-store64_apart m2 a total rest (inr (omega arith))
        ∙ load64-store64_apart m1 (rest + 8) (next_of m1 a) rest (inl (omega arith))
        ∙ load64-store64_self m rest (s - total) (omega arith) in
      let next3 : next_of m3 rest ≡ n =
        load64-store64_apart m2 a total (rest + 8) (inr (omega arith))
        ∙ load64-store64_self m1 (rest + 8) (next_of m1 a) (rw n1 n_small)
        ∙ n1 in
      let apart : (x : ℕ) → (x < a) ⊎ (a + s ≤ x) → m3 x ≡ m x = λ x h.
        store64-outside m2 a total x (ground arith)
        ∙ store64-outside m1 (rest + 8) (next_of m1 a) x (ground arith)
        ∙ store64-outside m rest (s - total) x (ground arith) in
      let nonzero : rest ≢ null = λ e. omega arith in
      let l3 = record l { memory = m3 } in
      let front3 =
        Seg-frame m m3 l.free_list_head front q
          (SameHeaders-of m m3 lo a front (Ordered-tighten lo hi a front o (omega (arith, o'.0)))
            (λ x h h'. apart x (inl h')))
          before in
      let back3 =
        Seg-frame m m3 n back null
          (SameHeaders-of m m3 (a + s + 1) hi back o'.5 (λ x h h'. apart x (inr (omega arith))))
          after.3 in
      let tail_ordered : Ordered (a + 16) hi ((rest, s - total) ∷ back) = (
        omega arith,
        omega arith,
        omega (arith, o'.2),
        omega (arith, o'.3),
        omega (arith, o'.4),
        Ordered-weaken (a + s + 1) (rest + (s - total) + 1) hi back (omega arith) o'.5,
      ) in
      let f =
        relink-Finished l3 front ((rest, s - total) ∷ back) lo hi q rest a total pos o o'.0
          tail_ordered (omega (arith, o'.4)) (omega (arith, o'.4))
          (load64-store64_self m2 a total (omega (arith, o'.4))) front3
          (refl, nonzero, size3, rw next3 back3) in
      let exact : add64 a total ≡ rest = omega (arith, o'.4) in
      let left : sub64 s total ≡ s - total = omega (arith, o'.4) in
      let test : leb (add64 total 16) s ≡ true = ground (arith, o'.4) in
      rw (after.2, test, exact, left)
        (record {
          chain = rw room f.chain;
          header = rw room f.header;
          same = λ x out.
              let (out1, out2) = Outside-append x front ((a, s) ∷ back) out in
              f.same x out1 (ground (arith, out2.0)) ∙ apart x (out2.0);
        })

  pub carve-Carved : Carved l (carve l total (last_of null front) a) total front back a s
  carve-Carved = elim (Bool-cases (leb (total + 16) s)) [
    | inl room ↦ carve_part room
    | inr tight ↦ carve_whole tight
  ]

  -- What is left is in order again.
  pub left_over-Ordered : Ordered lo hi (front ++ left_over total a s back)
  left_over-Ordered = Ordered-append lo hi front _ o (elim (Bool-cases (leb (total + 16) s)) [
    | inl room ↦
        let space = leb→le (total + 16) s room in
        rw room (
          omega (arith, o'.0),
          omega arith,
          omega (arith, o'.2),
          omega (arith, o'.3),
          omega (arith, o'.4),
          Ordered-weaken (a + s + 1) (a + total + (s - total) + 1) hi back (omega arith) o'.5,
        )
    | inr tight ↦
        rw tight (Ordered-weaken (a + s + 1) (end_of lo front) hi back (omega (arith, o'.0)) o'.5)
  ])
