-- ===== src/Core/Copying.antt =====
-- What `memset`, `memcpy` and `memmove` leave at every address.
use ada_os.Base.{
  ℕ, zero, suc, ◌+◌, ◌-◌, ◌%◌, ◌≤◌, ◌<◌, ◌==◌, false, ◌∙◌, ◌≡◌, Bool, ◌&&◌, ltb, leb, if◌then◌else◌,
  arith, ◌⊎◌, refl,
}
use ada_os.Core.{Memory, store, copy_up, copy_down, fill, memcpy, mempcpy, memset, memmove}

-- `lo <= a && a < lo + n`
abbrev pub within : ℕ → ℕ → ℕ → Bool
within lo n a = leb lo a && ltb a (lo + n)

fill-at :
    (n i s c : ℕ) (m : Memory) (a : ℕ)
    → fill n i s c m a ≡ (if within (s + i) n a then c % 256 else m a)
unfolding fill store
fill-at zero i s c m a = ground arith
fill-at (suc n) i s c m a = ground (arith, fill-at n (i + 1) s c (store m (s + i) (c % 256)) a)

-- `memset` returns `s`; it writes the low byte of `c` to each of the `n` bytes at `s`, and to no
-- other address.
pub memset-at :
    (s c n : ℕ) (m : Memory) (a : ℕ)
    → (memset s c n m).1 a ≡ (if within s n a then c % 256 else m a)
unfolding memset
memset-at s c n m a = ground (arith, fill-at n 0 s c m a)

copy_up-at :
    (n i dest src : ℕ) (m : Memory) (a : ℕ)
    → (dest ≤ src) ⊎ (src + i + n ≤ dest + i)
    → copy_up n i dest src m a ≡ (if within (dest + i) n a then m (src + (a - dest)) else m a)
unfolding copy_up store
copy_up-at zero i dest src m a h = ground arith
copy_up-at (suc n) i dest src m a h =
    ground (arith, copy_up-at n (i + 1) dest src (store m (dest + i) (m (src + i))) a)

copy_down-at :
    (n dest src : ℕ) (m : Memory) (a : ℕ)
    → src ≤ dest
    → copy_down n dest src m a ≡ (if within dest n a then m (src + (a - dest)) else m a)
unfolding copy_down store
copy_down-at zero dest src m a h = ground arith
copy_down-at (suc n) dest src m a h =
    ground (arith, copy_down-at n dest src (store m (dest + n) (m (src + n))) a)

-- Whatever the overlap of the two regions, `memmove` leaves in the destination the bytes that the
-- source held before the call, and changes no other address.
pub memmove-at :
    (dest src n : ℕ) (m : Memory) (a : ℕ)
    → (memmove dest src n m).1 a ≡ (if within dest n a then m (src + (a - dest)) else m a)
unfolding memmove
memmove-at dest src n m a = ground (arith, copy_up-at n 0 dest src m a, copy_down-at n dest src m a)

-- For regions that do not overlap, `memcpy` and `memmove` leave the same memory.
pub memcpy-eq-memmove :
    (dest src n : ℕ) (m : Memory) (a : ℕ)
    → (src + n ≤ dest) ⊎ (dest + n ≤ src)
    → (memcpy dest src n m).1 a ≡ (memmove dest src n m).1 a
unfolding memcpy
memcpy-eq-memmove dest src n m a h =
    ground (arith, memmove-at dest src n m a, copy_up-at n 0 dest src m a)

-- `mempcpy` copies as `memcpy` does, and returns the address behind the copy.
pub mempcpy-memcpy :
    (dest src n : ℕ) (m : Memory) (a : ℕ)
    → ((mempcpy dest src n m).0 ≡ dest + n)
      × ((mempcpy dest src n m).1 a ≡ (memcpy dest src n m).1 a)
unfolding mempcpy
mempcpy-memcpy dest src n m a = (refl, refl)

copy_up_frame :
    (n i dest src : ℕ) (m : Memory) (a : ℕ)
    → (a < dest) ⊎ (dest + i + n ≤ a)
    → copy_up n i dest src m a ≡ m a
unfolding copy_up store
copy_up_frame zero i dest src m a h = refl
copy_up_frame (suc n) i dest src m a h =
    let other : (a == dest + i) ≡ false = ground (arith, h) in
    copy_up_frame n (i + 1) dest src _ a (ground (arith, h)) ∙ rw other refl

-- `memcpy` writes to its destination only.
pub memcpy_frame :
    (dest src n : ℕ) (m : Memory) (a : ℕ)
    → (a < dest) ⊎ (dest + n ≤ a)
    → (memcpy dest src n m).1 a ≡ m a
unfolding memcpy
memcpy_frame dest src n m a h = copy_up_frame n 0 dest src m a (ground (arith, h))
