-- ===== src/Memory/Heap/Link.antt =====
-- The end of `kfree` and of `heap_grow_pages`: `find_place` and `link_block` refine `put_block`.
use ada_os.Base.{
  ℕ, zero, suc, ◌≤◌, ◌<◌, ◌≡◌, refl, ◌≢◌, inl, inr, arith, ◌==◌, List, [], ◌∷◌, ◌++◌, length, true,
  false, ltb, Bool-cases, ap, ltb→lt, ltb→ge, Outcome, done,
}
use ada_os.Core.{Memory}
use ada_os.Memory.Heap.{null, next_of, set_next, FreeList, find_place, link_after, relink}
use ada_os.Memory.Heap.Blocks.{Block, Seg, last_of}

-- Every block begins below `a`.
abbrev pub Below : ℕ → List Block → Type 0
Below a [] = Unit
Below a ((c, t) ∷ bs) = (c < a) × Below a bs

-- The list begins at `a` or later.
abbrev pub From : ℕ → List Block → Type 0
From a [] = Unit
From a ((c, t) ∷ bs) = a ≤ c

-- Where the loop stops: behind the blocks that begin below the address.
pub record Placed (a previous : ℕ) (bs : List Block) (run : Outcome ℕ) : Type 0 where
  pub front : List Block
  pub back : List Block
  pub splits : bs ≡ front ++ back
  pub returns : run ≡ done (last_of previous front)
  pub below : Below a front
  pub from : From a back

place_step :
    (fuel : ℕ) (m : Memory) (a previous c t : ℕ) (bs : List Block)
    → c ≢ null
    → Placed a c bs (find_place fuel m a c (next_of m c))
    → Placed a previous ((c, t) ∷ bs) (find_place (suc fuel) m a previous c)
unfolding find_place
place_step fuel m a previous c t bs nonnull p =
    let here : (c == null) ≡ false = ground arith in
    elim (Bool-cases (ltb c a)) [
      | inl before ↦ record {
        front = (c, t) ∷ p.front;
        back = p.back;
        splits = ap (λ l. (c, t) ∷ l) p.splits;
        returns = rw (here, before) p.returns;
        below = (ltb→lt c a before, p.below);
        from = p.from;
      }
      | inr behind ↦ record {
        front = [];
        back = (c, t) ∷ bs;
        splits = refl;
        returns = rw (here, behind);
        below = tt;
        from = ltb→ge c a behind;
      }
    ]

pub find_place-Placed :
    (fuel : ℕ) (m : Memory) (a previous p : ℕ) (bs : List Block)
    → Seg m p bs null
    → length bs < fuel
    → Placed a previous bs (find_place fuel m a previous p)
unfolding find_place
find_place-Placed zero m a previous p bs s enough = absurd (omega arith)
find_place-Placed (suc fuel) m a previous p [] s enough =
    let here : (p == null) ≡ true = ground (arith, s) in
    record { front = []; back = []; splits = refl; returns = rw here; below = tt; from = tt }
find_place-Placed (suc fuel) m a previous p ((c, t) ∷ bs) s enough = rw (s.0) (
    place_step fuel m a previous c t bs s.1
      (find_place-Placed fuel m a c (next_of m c) bs s.3 (omega arith)))

-- The last block's `next` is where the segment ends.
next_of_last :
    (m : Memory) (p c t : ℕ) (bs : List Block) (q : ℕ)
    → Seg m p ((c, t) ∷ bs) q
    → next_of m (last_of c bs) ≡ q
next_of_last m p c t [] q s = s.3
next_of_last m p c t ((d, u) ∷ bs) q s = next_of_last m (next_of m c) d u bs q s.3

pub last-ne-null :
    (m : Memory) (p c t : ℕ) (bs : List Block) (q : ℕ)
    → Seg m p ((c, t) ∷ bs) q
    → last_of c bs ≢ null
last-ne-null m p c t [] q s = s.1
last-ne-null m p c t ((d, u) ∷ bs) q s = last-ne-null m (next_of m c) d u bs q s.3

-- Linking in is relinking, once the block's own `next` is set.
pub link_after-relink :
    (l : FreeList) (front : List Block) (a q : ℕ)
    → Seg l.memory l.free_list_head front q
    → link_after l (last_of null front) a
      ≡ relink (record l { memory = set_next l.memory a q }) (last_of null front) a
unfolding link_after relink
link_after-relink l [] a q s =
    ap
      (λ (k : ℕ).
        let r : FreeList = record { free_list_head = a; memory = set_next l.memory a k } in r)
      s
link_after-relink l ((c, t) ∷ bs) a q s =
    let there : (last_of c bs == null) ≡ false =
      ground (arith, last-ne-null l.memory l.free_list_head c t bs q s) in
    rw (there, next_of_last l.memory l.free_list_head c t bs q s)
