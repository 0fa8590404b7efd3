-- ===== src/Platform/Msr.antt =====
-- kernel/src/platform/x86_64/msr.c: the halves in which a model-specific register is written and read.
use ada_os.Base.{ℕ, ◌+◌, ◌*◌, ◌/◌, ◌%◌, ◌^◌, ◌<◌, ◌≡◌, arith}

-- EAX and EDX for `write_msr`.
pub write_msr : (value : ℕ) → ℕ × ℕ
write_msr value = (value % 2 ^ 32, value / 2 ^ 32 % 2 ^ 32)

-- What `read_msr` makes of EAX and EDX.
pub read_msr : (lo hi : ℕ) → ℕ
read_msr lo hi = hi % 2 ^ 32 * 2 ^ 32 + lo % 2 ^ 32

-- What is written is read again.
pub read_msr-write_msr :
    (value : ℕ) → value < 2 ^ 64 → read_msr (write_msr value).0 (write_msr value).1 ≡ value
unfolding read_msr write_msr
read_msr-write_msr value h = omega arith
