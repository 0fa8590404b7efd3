-- ===== src/Memory/Heap/Release.antt =====
-- The list of blocks after a block is given back: in address order, and merged with its
-- neighbours.
use ada_os.Base.{
  ℕ, ◌+◌, ◌-◌, ◌%◌, ◌≤◌, ◌≡◌, refl, ◌≢◌, inl, inr, arith, ◌==◌, if◌then◌else◌, List, [], ◌∷◌, true,
  leb, ltb, Bool-cases, leb→le, Option, none, some, ltb→lt, ltb→ge,
}
use ada_os.Memory.Heap.Blocks.{Block, Ordered, Apart, Ordered-weaken}
use ada_os.Memory.Heap.Policy.{take_block, free_bytes, join, put_block}

pub free_bytes-join : (a s : ℕ) (bs : List Block) → free_bytes (join a s bs) ≡ s + free_bytes bs
unfolding join free_bytes
free_bytes-join a s [] = refl
free_bytes-join a s ((c, t) ∷ bs) = ground arith

-- No byte is lost: the free bytes grow by the size of the block.
pub free_bytes-put_block :
    (a s : ℕ) (bs : List Block) → free_bytes (put_block a s bs) ≡ s + free_bytes bs
unfolding put_block free_bytes
free_bytes-put_block a s [] = refl
free_bytes-put_block a s ((c, t) ∷ bs) = ground (
  arith,
  free_bytes-join c t (put_block a s bs),
  free_bytes-join a s ((c, t) ∷ bs),
  free_bytes-put_block a s bs,
)

-- In front of a list that begins at its end or later.
pub Ordered-join :
    (lo hi a s : ℕ) (bs : List Block)
    → lo ≤ a
    → 16 ≤ s
    → a % 16 ≡ 0
    → s % 16 ≡ 0
    → a + s ≤ hi
    → Ordered (a + s) hi bs
    → Ordered lo hi (join a s bs)
unfolding join
Ordered-join lo hi a s [] h1 h2 h3 h4 h5 o = (h1, h2, h3, h4, h5, tt)
Ordered-join lo hi a s ((c, t) ∷ bs) h1 h2 h3 h4 h5 o = elim (Bool-cases (a + s == c)) [
  | inl touch ↦
      let e : a + s ≡ c = ground arith in
      rw touch (
        h1,
        omega arith,
        h3,
        omega (arith, o.3),
        omega (arith, o.4),
        Ordered-weaken (c + t + 1) (a + (s + t) + 1) hi bs (omega arith) o.5,
      )
  | inr gap ↦
      let e : a + s ≢ c = ground arith in
      rw gap (h1, h2, h3, h4, h5, (omega (arith, o.0), o.1, o.2, o.3, o.4, o.5))
]

-- The first block of the list begins at `c` or later when everything in it does.
pub put_block-Ordered :
    (lo hi a s : ℕ) (bs : List Block)
    → lo ≤ a
    → 16 ≤ s
    → a % 16 ≡ 0
    → s % 16 ≡ 0
    → a + s ≤ hi
    → Ordered lo hi bs
    → Apart a s bs
    → Ordered lo hi (put_block a s bs)
unfolding put_block
put_block-Ordered lo hi a s [] h1 h2 h3 h4 h5 o apart = (h1, h2, h3, h4, h5, tt)
put_block-Ordered lo hi a s ((c, t) ∷ bs) h1 h2 h3 h4 h5 o apart = elim (Bool-cases (ltb c a)) [
  | inl before ↦
      let lt = ltb→lt c a before in
      let past : c + t ≤ a = ground (arith, apart.0) in
      let rest =
        put_block-Ordered (c + t) hi a s bs past h2 h3 h4 h5
          (Ordered-weaken (c + t + 1) (c + t) hi bs (omega arith) o.5) apart.1 in
      rw before (Ordered-join lo hi c t (put_block a s bs) o.0 o.1 o.2 o.3 o.4 rest)
  | inr behind ↦
      let ge = ltb→ge c a behind in
      let past : a + s ≤ c = ground (arith, apart.0) in
      rw behind
        (Ordered-join lo hi a s ((c, t) ∷ bs) h1 h2 h3 h4 h5 (past, o.1, o.2, o.3, o.4, o.5))
]

pub join_gap :
    (lo hi a s : ℕ) (bs : List Block) → Ordered (a + s + 1) hi bs → join a s bs ≡ (a, s) ∷ bs
unfolding join
join_gap lo hi a s [] o = refl
join_gap lo hi a s ((c, t) ∷ bs) o = ground (arith, o.0)

put_block_front :
    (hi a s : ℕ) (bs : List Block) → Ordered (a + s + 1) hi bs → put_block a s bs ≡ (a, s) ∷ bs
unfolding put_block join
put_block_front hi a s [] o = refl
put_block_front hi a s ((c, t) ∷ bs) o = ground (arith, o.0)

pub Apart-behind : (a s lo hi : ℕ) (bs : List Block) → a + s ≤ lo → Ordered lo hi bs → Apart a s bs
Apart-behind a s lo hi [] h o = tt
Apart-behind a s lo hi ((c, t) ∷ bs) h o =
    (inr (omega (arith, o.0)), Apart-behind a s (c + t + 1) hi bs (omega (arith, o.0)) o.5)

-- What first fit takes from a list between `lo` and `hi`: a block of the space, clear of all that
-- is left; and what is lost from the list is that block and no more.
pub record TakenFrom (lo hi total : ℕ) (bs : List Block) (t : Block × List Block) : Type 0 where
  pub low : lo ≤ t.0.0
  pub high : t.0.0 + t.0.1 ≤ hi
  pub aligned : (t.0.0 % 16 ≡ 0) × (t.0.1 % 16 ≡ 0)
  pub large : total ≤ t.0.1
  pub apart : Apart t.0.0 t.0.1 t.1
  pub bytes : free_bytes bs ≡ t.0.1 + free_bytes t.1
  pub restores : put_block t.0.0 t.0.1 t.1 ≡ bs

abbrev TakenIf : (lo hi total : ℕ) → List Block → Option (Block × List Block) → Type 0
TakenIf lo hi total bs none = Unit
TakenIf lo hi total bs (some t) = TakenFrom lo hi total bs t

taken_later :
    (lo hi total a s : ℕ) (bs : List Block) (t : Block × List Block)
    → Ordered lo hi ((a, s) ∷ bs)
    → TakenFrom (a + s + 1) hi total bs t
    → TakenFrom lo hi total ((a, s) ∷ bs) (t.0, (a, s) ∷ t.1)
unfolding put_block free_bytes
taken_later lo hi total a s bs t o k =
    let before : ltb a t.0.0 ≡ true = ground (arith, k.low) in
    record {
      low = omega (arith, k.low, o.0);
      high = k.high;
      aligned = k.aligned;
      large = k.large;
      apart = (inl (omega (arith, k.low)), k.apart);
      bytes = omega (arith, k.bytes);
      restores = rw (before, k.restores) (join_gap lo hi a s bs o.5);
    }

taken_here :
    (lo hi total a s : ℕ) (bs : List Block)
    → total % 16 ≡ 0
    → total ≤ s
    → Ordered lo hi ((a, s) ∷ bs)
    → TakenFrom lo hi total
        ((a, s) ∷ bs)
        (if leb (total + 16) s then ((a, total), (a + total, s - total) ∷ bs) else ((a, s), bs))
unfolding put_block join free_bytes
taken_here lo hi total a s bs whole large o = elim (Bool-cases (leb (total + 16) s)) [
  | inl room ↦
      let space = leb→le (total + 16) s room in
      rw room (record {
        low = o.0;
        high = omega (arith, o.4);
        aligned = (o.2, whole);
        large = omega arith;
        apart = (inr (omega arith), Apart-behind a total (a + s + 1) hi bs (omega arith) o.5);
        bytes = omega arith;
        restores = ground arith;
      })
  | inr tight ↦ rw tight (record {
    low = o.0;
    high = o.4;
    aligned = (o.2, o.3);
    large = large;
    apart = Apart-behind a s (a + s + 1) hi bs (omega arith) o.5;
    bytes = refl;
    restores = put_block_front hi a s bs o.5;
  })
]

taken_if :
    (lo hi total : ℕ) (bs : List Block)
    → total % 16 ≡ 0
    → Ordered lo hi bs
    → TakenIf lo hi total bs (take_block total bs)
unfolding take_block
taken_if lo hi total [] whole o = tt
taken_if lo hi total ((a, s) ∷ bs) whole o = elim (Bool-cases (leb total s)) [
  | inl fits ↦
      let k = taken_here lo hi total a s bs whole (leb→le total s fits) o in
      elim (Bool-cases (leb (total + 16) s)) [
        | inl room ↦ rw (fits, room) (rw room at k)
        | inr tight ↦ rw (fits, tight) (rw tight at k)
      ]
  | inr small ↦ rw small (later (take_block total bs) (taken_if (a + s + 1) hi total bs whole o.5))
]
  where
    later :
        (r : Option (Block × List Block))
        → TakenIf (a + s + 1) hi total bs r
        → TakenIf lo hi total
            ((a, s) ∷ bs)
            (elim r [ none ↦ none | some (b, rest) ↦ some (b, (a, s) ∷ rest) ])
    later none k = tt
    later (some t) k = taken_later lo hi total a s bs t o k

-- What first fit takes is an aligned block of the space, large enough and clear of the blocks that
-- are left. The free bytes are those left and the block's; and giving the block back restores the
-- list, whether or not a larger block was split.
pub take_block-TakenFrom :
    (lo hi total : ℕ) (bs : List Block) (t : Block × List Block)
    → total % 16 ≡ 0
    → Ordered lo hi bs
    → take_block total bs ≡ some t
    → TakenFrom lo hi total bs t
take_block-TakenFrom lo hi total bs t whole o e = rw e at (taken_if lo hi total bs whole o)
