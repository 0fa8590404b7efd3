-- ===== src/Memory/Heap/Policy.antt =====
-- The heap's policy on lists of blocks: first fit, and giving back with merging.
use ada_os.Base.{ℕ, ◌+◌, ◌-◌, List, [], ◌∷◌, Option, none, some, leb, ltb, ◌==◌, if◌then◌else◌}
use ada_os.Memory.Heap.Blocks.{Block}

-- First fit: the block that is taken, and the list that is left.
unfoldable pub take_block : ℕ → List Block → Option (Block × List Block)
take_block total [] = none
take_block total ((a, s) ∷ bs) =
    if leb total s
    then (if leb (total + 16) s
        then some ((a, total), (a + total, s - total) ∷ bs)
        else some ((a, s), bs))
    else elim (take_block total bs) [ none ↦ none | some (b, rest) ↦ some (b, (a, s) ∷ rest) ]

-- The number of free bytes.
unfoldable pub free_bytes : List Block → ℕ
free_bytes [] = 0
free_bytes ((a, s) ∷ bs) = s + free_bytes bs

-- A block in front of a list, as one block with the first if the two touch.
unfoldable pub join : ℕ → ℕ → List Block → List Block
join a s [] = (a, s) ∷ []
join a s ((c, t) ∷ bs) = if a + s == c then (a, s + t) ∷ bs else (a, s) ∷ (c, t) ∷ bs

unfoldable pub put_block : ℕ → ℕ → List Block → List Block
unfolding join
put_block a s [] = (a, s) ∷ []
put_block a s ((c, t) ∷ bs) =
    if ltb c a then join c t (put_block a s bs) else join a s ((c, t) ∷ bs)
