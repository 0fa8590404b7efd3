-- ===== src/Memory/Heap/Fit.antt =====
-- The first-fit loop of `kmalloc`, and the list of blocks that a first fit leaves.
use ada_os.Base.{
  ℕ, zero, suc, ◌+◌, ◌-◌, ◌≤◌, ◌<◌, ◌≡◌, refl, ◌≢◌, ◌⊎◌, inl, inr, arith, ◌==◌, if◌then◌else◌, List,
  [], ◌∷◌, ◌++◌, length, false, leb, Bool-cases, leb→le, Option, none, some, Outcome, done, ap,
}
use ada_os.Core.{Memory}
use ada_os.Memory.Heap.{null, size_of, next_of, find_fit}
use ada_os.Memory.Heap.Policy.{take_block}
use ada_os.Memory.Heap.Blocks.{Block, Seg, last_of}

-- `previous` and the block at which the loop stops split the list.
pub record Fit (total : ℕ) (previous : ℕ) (bs : List Block) (run : Outcome (Option (ℕ × ℕ)))
    : Type 0 where
  pub front : List Block
  pub address : ℕ
  pub size : ℕ
  pub back : List Block
  pub splits : bs ≡ front ++ (address, size) ∷ back
  pub returns : run ≡ done (some (last_of previous front, address))
  pub large : total ≤ size
  pub takes : take_block total bs ≡ (
      if leb (total + 16) size
      then some ((address, total), front ++ (address + total, size - total) ∷ back)
      else some ((address, size), front ++ back))

abbrev pub FitResult : ℕ → ℕ → List Block → Outcome (Option (ℕ × ℕ)) → Type 0
FitResult total previous bs run =
    Fit total previous bs run ⊎ ((run ≡ done none) × (take_block total bs ≡ none))

Fit-cons :
    (fuel : ℕ) (m : Memory) (total previous a z : ℕ) (bs : List Block)
    → a ≢ null
    → size_of m a ≡ z
    → leb total z ≡ false
    → Fit total a bs (find_fit fuel m total a (next_of m a))
    → Fit total previous ((a, z) ∷ bs) (find_fit (suc fuel) m total previous a)
unfolding find_fit take_block
Fit-cons fuel m total previous a z bs nonnull size small f =
    let here : (a == null) ≡ false = ground arith in
    record {
      front = (a, z) ∷ f.front;
      address = f.address;
      size = f.size;
      back = f.back;
      splits = ap (λ l. (a, z) ∷ l) f.splits;
      returns = rw (here, size, small) f.returns;
      large = f.large;
      takes = elim (Bool-cases (leb (total + 16) f.size)) [
        | inl part ↦ rw (small, f.takes, part)
        | inr whole ↦ rw (small, f.takes, whole)
      ];
    }

fit_step :
    (fuel : ℕ) (m : Memory) (total previous a z : ℕ) (bs : List Block)
    → a ≢ null
    → size_of m a ≡ z
    → FitResult total a bs (find_fit fuel m total a (next_of m a))
    → FitResult total previous ((a, z) ∷ bs) (find_fit (suc fuel) m total previous a)
unfolding find_fit take_block
fit_step fuel m total previous a z bs nonnull size ih =
    let here : (a == null) ≡ false = ground arith in
    elim (Bool-cases (leb total z)) [
      | inl fits ↦ inl (record {
        front = [];
        address = a;
        size = z;
        back = bs;
        splits = refl;
        returns = rw (here, size, fits);
        large = leb→le total z fits;
        takes = rw fits;
      })
      | inr small ↦ elim ih [
        | inl f ↦ inl (Fit-cons fuel m total previous a z bs nonnull size small f)
        | inr (e, empty) ↦ inr (rw (here, size, small) e, rw (small, empty))
      ]
    ]

-- The loop stops at the first block that is large enough, or reaches the end if there is none.
pub find_fit_lem :
    (fuel : ℕ) (m : Memory) (total previous p : ℕ) (bs : List Block)
    → Seg m p bs null
    → length bs < fuel
    → FitResult total previous bs (find_fit fuel m total previous p)
unfolding find_fit take_block
find_fit_lem zero m total previous p bs s enough = absurd (omega arith)
find_fit_lem (suc fuel) m total previous p [] s enough = inr (ground (arith, s), refl)
find_fit_lem (suc fuel) m total previous p ((a, z) ∷ bs) s enough =
    let ih = find_fit_lem fuel m total a (next_of m a) bs s.3 (omega arith) in
    rw (s.0) (fit_step fuel m total previous a z bs s.1 s.2 ih)
