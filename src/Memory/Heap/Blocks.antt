-- ===== src/Memory/Heap/Blocks.antt =====
-- What a free list stands for: its blocks in address order, each with its address and size.
use ada_os.Base.{
  ℕ, ◌+◌, ◌*◌, ◌%◌, ◌^◌, ◌≤◌, ◌<◌, ◌≡◌, refl, ◌∙◌, ◌≢◌, ◌⊎◌, inl, inr, arith, List, [], ◌∷◌, ◌++◌,
  length,
}
use ada_os.Core.{Memory}
use ada_os.Core.Words.{
  store64, load64_congr, load64-store64_self, load64-store64_apart, store64-outside,
}
use ada_os.Memory.Heap.{null, size_of, next_of, set_next}

abbrev pub Block : Type 0
Block = ℕ × ℕ

-- From `p` the `next` pointers lead through the blocks to `q`.
abbrev pub Seg : Memory → ℕ → List Block → ℕ → Type 0
Seg m p [] q = p ≡ q
Seg m p ((a, s) ∷ bs) q = (p ≡ a) × (a ≢ null) × (size_of m a ≡ s) × Seg m (next_of m a) bs q

-- The blocks lie between `lo` and `hi` with a gap between each two, on 16-byte boundaries and of
-- 16 bytes at least.
abbrev pub Ordered : ℕ → ℕ → List Block → Type 0
Ordered lo hi [] = Unit
Ordered lo hi ((a, s) ∷ bs) =
    (lo ≤ a) × (16 ≤ s) × (a % 16 ≡ 0) × (s % 16 ≡ 0) × (a + s ≤ hi) × Ordered (a + s + 1) hi bs

-- The two memories agree on the header of every block.
abbrev pub SameHeaders : Memory → Memory → List Block → Type 0
SameHeaders m m' [] = Unit
SameHeaders m m' ((a, s) ∷ bs) =
    (size_of m' a ≡ size_of m a) × (next_of m' a ≡ next_of m a) × SameHeaders m m' bs

pub Seg-frame :
    (m m' : Memory) (p : ℕ) (bs : List Block) (q : ℕ)
    → SameHeaders m m' bs
    → Seg m p bs q
    → Seg m' p bs q
Seg-frame m m' p [] q same s = s
Seg-frame m m' p ((a, t) ∷ bs) q same s =
    let rest = Seg-frame m m' (next_of m a) bs q same.2 s.3 in
    (s.0, s.1, same.0 ∙ s.2, rw (same.1) rest)

pub Seg-append :
    (m : Memory) (p : ℕ) (bs cs : List Block) (q r : ℕ)
    → Seg m p bs q
    → Seg m q cs r
    → Seg m p (bs ++ cs) r
Seg-append m p [] cs q r s t = rw s t
Seg-append m p ((a, z) ∷ bs) cs q r s t =
    (s.0, s.1, s.2, Seg-append m (next_of m a) bs cs q r s.3 t)

pub Ordered-weaken :
    (lo lo' hi : ℕ) (bs : List Block) → lo' ≤ lo → Ordered lo hi bs → Ordered lo' hi bs
Ordered-weaken lo lo' hi [] h o = tt
Ordered-weaken lo lo' hi ((a, s) ∷ bs) h o = (omega arith, o.1, o.2, o.3, o.4, o.5)

-- No more blocks than the space has room for.
pub length-Ordered :
    (lo hi : ℕ) (bs : List Block) → lo ≤ hi + 1 → Ordered lo hi bs → lo + 17 * length bs ≤ hi + 1
length-Ordered lo hi [] h o = omega arith
length-Ordered lo hi ((a, s) ∷ bs) h o =
    omega (arith, length-Ordered (a + s + 1) hi bs (omega arith) o.5)

-- A change of memory that spares the bytes of every block spares the headers.
pub SameHeaders-of :
    (m m' : Memory) (lo hi : ℕ) (bs : List Block)
    → Ordered lo hi bs
    → ((x : ℕ) → lo ≤ x → x < hi → m' x ≡ m x)
    → SameHeaders m m' bs
SameHeaders-of m m' lo hi [] o same = tt
SameHeaders-of m m' lo hi ((a, s) ∷ bs) o same = (
  load64_congr m m' a (λ x lo' hi'. same x (omega arith) (omega arith)),
  load64_congr m m' (a + 8) (λ x lo' hi'. same x (omega arith) (omega arith)),
  SameHeaders-of m m' (a + s + 1) hi bs o.5 (λ x lo' hi'. same x (omega arith) hi'),
)

-- The block `b` of 16 bytes at least lies before or behind every block.
abbrev pub Apart : ℕ → ℕ → List Block → Type 0
Apart a s [] = Unit
Apart a s ((c, t) ∷ bs) = ((c + t ≤ a) ⊎ (a + s ≤ c)) × Apart a s bs

-- A store into the header of a block that is apart from all of them spares the headers.
pub SameHeaders-store64 :
    (m : Memory) (a s k v lo hi : ℕ) (bs : List Block)
    → k + 8 ≤ s
    → Ordered lo hi bs
    → Apart a s bs
    → SameHeaders m (store64 m (a + k) v) bs
SameHeaders-store64 m a s k v lo hi [] small o apart = tt
SameHeaders-store64 m a s k v lo hi ((c, t) ∷ bs) small o apart = (
  load64-store64_apart m (a + k) v c (ground arith),
  load64-store64_apart m (a + k) v (c + 8) (ground arith),
  SameHeaders-store64 m a s k v (c + t + 1) hi bs small o.5 apart.1,
)

pub SameHeaders-trans :
    (m1 m2 m3 : Memory) (bs : List Block)
    → SameHeaders m1 m2 bs
    → SameHeaders m2 m3 bs
    → SameHeaders m1 m3 bs
SameHeaders-trans m1 m2 m3 [] h k = tt
SameHeaders-trans m1 m2 m3 (b ∷ bs) h k =
    (k.0 ∙ h.0, k.1 ∙ h.1, SameHeaders-trans m1 m2 m3 bs h.2 k.2)

-- Where the block behind `bs` may begin at the earliest.
abbrev pub end_of : ℕ → List Block → ℕ
end_of lo [] = lo
end_of lo ((a, s) ∷ bs) = end_of (a + s + 1) bs

-- The address of the last block, or `p` if there is none: `previous` in the C loops.
abbrev pub last_of : ℕ → List Block → ℕ
last_of p [] = p
last_of p ((a, s) ∷ bs) = last_of a bs

-- The byte at `x` belongs to no block.
abbrev pub Outside : ℕ → List Block → Type 0
Outside x [] = Unit
Outside x ((a, s) ∷ bs) = ((x < a) ⊎ (a + s ≤ x)) × Outside x bs

pub end_of-ge : (lo hi : ℕ) (bs : List Block) → Ordered lo hi bs → lo ≤ end_of lo bs
end_of-ge lo hi [] o = omega arith
end_of-ge lo hi ((a, s) ∷ bs) o = omega (arith, end_of-ge (a + s + 1) hi bs o.5)

pub last_of-ge : (lo hi c t : ℕ) (bs : List Block) → Ordered lo hi ((c, t) ∷ bs) → lo ≤ last_of c bs
last_of-ge lo hi c t [] o = o.0
last_of-ge lo hi c t ((d, u) ∷ bs) o = omega (arith, last_of-ge (c + t + 1) hi d u bs o.5)

pub Ordered-append :
    (lo hi : ℕ) (bs cs : List Block)
    → Ordered lo hi bs
    → Ordered (end_of lo bs) hi cs
    → Ordered lo hi (bs ++ cs)
Ordered-append lo hi [] cs o k = k
Ordered-append lo hi ((a, s) ∷ bs) cs o k =
    (o.0, o.1, o.2, o.3, o.4, Ordered-append (a + s + 1) hi bs cs o.5 k)

pub Ordered-split :
    (lo hi : ℕ) (bs cs : List Block)
    → Ordered lo hi (bs ++ cs)
    → Ordered lo hi bs × Ordered (end_of lo bs) hi cs
Ordered-split lo hi [] cs o = (tt, o)
Ordered-split lo hi ((a, s) ∷ bs) cs o =
    let (front, back) = Ordered-split (a + s + 1) hi bs cs o.5 in
    ((o.0, o.1, o.2, o.3, o.4, front), back)

pub Outside-of_ge :
    (lo hi x : ℕ) (bs : List Block) → Ordered lo hi bs → end_of lo bs ≤ x → Outside x bs
Outside-of_ge lo hi x [] o h = tt
Outside-of_ge lo hi x ((a, s) ∷ bs) o h =
    (inr (omega (arith, end_of-ge (a + s + 1) hi bs o.5)), Outside-of_ge (a + s + 1) hi x bs o.5 h)

pub Outside-of_lt : (lo hi x : ℕ) (bs : List Block) → Ordered lo hi bs → x < lo → Outside x bs
Outside-of_lt lo hi x [] o h = tt
Outside-of_lt lo hi x ((a, s) ∷ bs) o h =
    (inl (omega arith), Outside-of_lt (a + s + 1) hi x bs o.5 (omega arith))

-- `last->next = r` makes the segment end at `r`.
pub Seg-relink :
    (m : Memory) (c t : ℕ) (bs : List Block) (lo hi p q r : ℕ)
    → Ordered lo hi ((c, t) ∷ bs)
    → r < 2 ^ 64
    → Seg m p ((c, t) ∷ bs) q
    → Seg (set_next m (last_of c bs) r) p ((c, t) ∷ bs) r
Seg-relink m c t [] lo hi p q r o small s = (
  s.0,
  s.1,
  load64-store64_apart m (c + 8) r c (inl (omega arith)) ∙ s.2,
  load64-store64_self m (c + 8) r small,
)
Seg-relink m c t ((d, u) ∷ bs) lo hi p q r o small s =
    let last = last_of d bs in
    let later = last_of-ge (c + t + 1) hi d u bs o.5 in
    let next = load64-store64_apart m (last + 8) r (c + 8) (inl (omega (arith, later))) in
    let rest = Seg-relink m d u bs (c + t + 1) hi (next_of m c) q r o.5 small s.3 in
    (
      s.0,
      s.1,
      load64-store64_apart m (last + 8) r c (inl (omega (arith, later))) ∙ s.2,
      rw next rest,
    )

-- That store changes bytes of the last block alone.
pub set_next-Outside :
    (m : Memory) (c t : ℕ) (bs : List Block) (lo hi r x : ℕ)
    → Ordered lo hi ((c, t) ∷ bs)
    → Outside x ((c, t) ∷ bs)
    → set_next m (last_of c bs) r x ≡ m x
set_next-Outside m c t [] lo hi r x o out = store64-outside m (c + 8) r x (ground arith)
set_next-Outside m c t ((d, u) ∷ bs) lo hi r x o out =
    set_next-Outside m d u bs (c + t + 1) hi r x o.5 out.1

pub Ordered-tighten :
    (lo hi hi' : ℕ) (bs : List Block)
    → Ordered lo hi bs
    → end_of lo bs ≤ hi' + 1
    → Ordered lo hi' bs
Ordered-tighten lo hi hi' [] o h = tt
Ordered-tighten lo hi hi' ((a, s) ∷ bs) o h = (
  o.0,
  o.1,
  o.2,
  o.3,
  omega (arith, end_of-ge (a + s + 1) hi bs o.5),
  Ordered-tighten (a + s + 1) hi hi' bs o.5 h,
)

pub Seg-split :
    (m : Memory) (p : ℕ) (bs cs : List Block) (q : ℕ)
    → Seg m p (bs ++ cs) q
    → (r : ℕ) × Seg m p bs r × Seg m r cs q
Seg-split m p [] cs q s = (p, refl, s)
Seg-split m p ((a, z) ∷ bs) cs q s =
    let (r, front, back) = Seg-split m (next_of m a) bs cs q s.3 in
    (r, (s.0, s.1, s.2, front), back)

-- The head of a list is NULL or inside the heap.
pub head-le :
    (m : Memory) (p lo hi : ℕ) (bs : List Block) → Seg m p bs null → Ordered lo hi bs → p ≤ hi
head-le m p lo hi [] s o = omega (arith, s)
head-le m p lo hi ((a, z) ∷ bs) s o = omega (arith, s.0)

pub Outside-append :
    (x : ℕ) (bs cs : List Block) → Outside x (bs ++ cs) → Outside x bs × Outside x cs
Outside-append x [] cs h = (tt, h)
Outside-append x (b ∷ bs) cs h =
    let (front, back) = Outside-append x bs cs h.1 in ((h.0, front), back)
