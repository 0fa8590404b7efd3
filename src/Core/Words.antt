-- ===== src/Core/Words.antt =====
-- 64-bit loads and stores through a pointer, little-endian as the processor makes them.
use ada_os.Base.{ℕ, zero, suc, ◌+◌, ◌*◌, ◌/◌, ◌%◌, ◌^◌, ◌≤◌, ◌<◌, ◌≡◌, refl, ◌⊎◌, inl, arith}
use ada_os.Core.{Memory, store}

load_bytes : Memory → ℕ → ℕ → ℕ
load_bytes m a zero = 0
load_bytes m a (suc n) = m a + 256 * load_bytes m (a + 1) n

store_bytes : Memory → ℕ → ℕ → ℕ → Memory
store_bytes m a v zero = m
store_bytes m a v (suc n) = store_bytes (store m a (v % 256)) (a + 1) (v / 256) n

pub load64 : Memory → ℕ → ℕ
unfolding load_bytes
load64 m a = load_bytes m a 8

pub store64 : Memory → ℕ → ℕ → Memory
unfolding store_bytes store
store64 m a v = store_bytes m a v 8

-- The number of values of `n` bytes.
values : ℕ → ℕ
values zero = 1
values (suc n) = 256 * values n

store_bytes-outside :
    (n : ℕ) (m : Memory) (a v x : ℕ) → (x < a) ⊎ (a + n ≤ x) → store_bytes m a v n x ≡ m x
unfolding store_bytes store
store_bytes-outside zero m a v x h = refl
store_bytes-outside (suc n) m a v x h =
    ground (arith, store_bytes-outside n (store m a (v % 256)) (a + 1) (v / 256) x)

store_self : (m : Memory) (a v : ℕ) → store m a v a ≡ v
unfolding store
store_self m a v = ground arith

load_bytes-store_bytes :
    (n : ℕ) (m : Memory) (a v : ℕ) → v < values n → load_bytes (store_bytes m a v n) a n ≡ v
unfolding load_bytes store_bytes values
load_bytes-store_bytes zero m a v h = omega arith
load_bytes-store_bytes (suc n) m a v h =
    let m' = store m a (v % 256) in
    rw
      (
        store_bytes-outside n m' (a + 1) (v / 256) a (inl (omega arith)),
        store_self m a (v % 256),
        load_bytes-store_bytes n m' (a + 1) (v / 256) (omega arith),
      )
      (omega arith)

load_bytes_congr :
    (n : ℕ) (m m' : Memory) (a : ℕ)
    → ((x : ℕ) → a ≤ x → x < a + n → m' x ≡ m x)
    → load_bytes m' a n ≡ load_bytes m a n
unfolding load_bytes
load_bytes_congr zero m m' a same = refl
load_bytes_congr (suc n) m m' a same = omega (
  arith,
  same a (omega arith) (omega arith),
  load_bytes_congr n m m' (a + 1) (λ x lo hi. same x (omega arith) (omega arith)),
)

pub load64-store64_self : (m : Memory) (a v : ℕ) → v < 2 ^ 64 → load64 (store64 m a v) a ≡ v
unfolding load64 store64 values
load64-store64_self m a v h = load_bytes-store_bytes 8 m a v h

pub store64-outside : (m : Memory) (a v x : ℕ) → (x < a) ⊎ (a + 8 ≤ x) → store64 m a v x ≡ m x
unfolding store64
store64-outside m a v x h = store_bytes-outside 8 m a v x h

pub load64_congr :
    (m m' : Memory) (a : ℕ) → ((x : ℕ) → a ≤ x → x < a + 8 → m' x ≡ m x) → load64 m' a ≡ load64 m a
unfolding load64
load64_congr m m' a same = load_bytes_congr 8 m m' a same

-- A store leaves a load that does not overlap it alone.
pub load64-store64_apart :
    (m : Memory) (a v b : ℕ) → (b + 8 ≤ a) ⊎ (a + 8 ≤ b) → load64 (store64 m a v) b ≡ load64 m b
load64-store64_apart m a v b apart =
    load64_congr m (store64 m a v) b (λ x lo hi. store64-outside m a v x (ground arith))
