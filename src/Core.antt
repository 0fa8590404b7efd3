-- ===== src/Core.antt =====
-- kernel/src/core.c: the byte loops `memcpy`, `mempcpy`, `memset`, `memmove` and `memcmp`.
-- Memory is a function from addresses to bytes. Each loop recurs on the rounds that are left.
pub mod Copying
pub mod Comparing
pub mod Words
mod Tests
use ada_os.Base.{ℕ, zero, suc, ◌+◌, ◌%◌, Bool, true, false, ltb, ◌==◌, if◌then◌else◌}

abbrev pub Memory : Type 0
Memory = ℕ → ℕ

unfoldable pub store : Memory → ℕ → ℕ → Memory
store m p v a = if a == p then v else m a

-- `for (i = i; i < i + n; i++) pdest[i] = psrc[i];`
copy_up : ℕ → ℕ → (dest src : ℕ) → Memory → Memory
copy_up zero i dest src m = m
copy_up (suc n) i dest src m = copy_up n (i + 1) dest src (store m (dest + i) (m (src + i)))

-- `for (i = n; i > 0; i--) pdest[i - 1] = psrc[i - 1];`
copy_down : ℕ → (dest src : ℕ) → Memory → Memory
copy_down zero dest src m = m
copy_down (suc n) dest src m = copy_down n dest src (store m (dest + n) (m (src + n)))

-- Each function returns what it returns in C beside the memory.
pub memcpy : (dest src n : ℕ) → Memory → ℕ × Memory
unfolding copy_up store
memcpy dest src n m = (dest, copy_up n 0 dest src m)

pub mempcpy : (dest src n : ℕ) → Memory → ℕ × Memory
unfolding memcpy
mempcpy dest src n m = let (_, m') = memcpy dest src n m in (dest + n, m')

fill : ℕ → ℕ → (s c : ℕ) → Memory → Memory
fill zero i s c m = m
fill (suc n) i s c m = fill n (i + 1) s c (store m (s + i) (c % 256))

pub memset : (s c n : ℕ) → Memory → ℕ × Memory
unfolding fill store
memset s c n m = (s, fill n 0 s c m)

pub memmove : (dest src n : ℕ) → Memory → ℕ × Memory
unfolding copy_up copy_down store
memmove dest src n m = (
  dest,
  if ltb dest src
      then copy_up n 0 dest src m
      else if ltb src dest
      then copy_down n dest src m
      else m,
)

-- The sign of an `int` result.
pub data Sign : Type 0 where
  minus_one nought one : Sign

compare_from : ℕ → ℕ → (s1 s2 : ℕ) → Memory → Sign
compare_from zero i s1 s2 m = nought
compare_from (suc n) i s1 s2 m =
    let rest = compare_from n (i + 1) s1 s2 m in
    if m (s1 + i) == m (s2 + i)
    then rest
    else if ltb (m (s1 + i)) (m (s2 + i))
    then minus_one
    else one

pub memcmp : (s1 s2 n : ℕ) → Memory → Sign
unfolding compare_from
memcmp s1 s2 n m = compare_from n 0 s1 s2 m
