-- ===== src/Memory/Layout.antt =====
-- kernel/src/memory/header/memmap.h: the constants and macros that the memory managers share, and
-- what they read of the boot loader's responses.
use ada_os.Base.{ℕ, ◌+◌, ◌-◌, ◌*◌, ◌/◌, ◌%◌, ◌^◌}

abbrev pub u64_mod : ℕ
u64_mod = 2 ^ 64

-- `uint64_t` addition and subtraction.
abbrev pub add64 : ℕ → ℕ → ℕ
add64 a b = (a + b) % u64_mod

abbrev pub sub64 : ℕ → ℕ → ℕ
sub64 a b = (a + u64_mod - b) % u64_mod

abbrev pub mul64 : ℕ → ℕ → ℕ
mul64 a b = a * b % u64_mod

abbrev pub page_size : ℕ
page_size = 4096

abbrev pub max_pages : ℕ
max_pages = 1024 * 1024

-- The lengths of `page_mappings` and of `free_chunks`.
abbrev pub max_segments : ℕ
max_segments = 32

abbrev pub max_chunks : ℕ
max_chunks = 128

-- `((value) + (align) - 1) & ~((align) - 1)` on a `uint64_t`, for a power of two `align`: masking
-- the low bits off rounds down to a multiple.
abbrev pub align_up : ℕ → ℕ → ℕ
align_up value align = add64 value (align - 1) / align * align

-- `get_k_addr()`, `get_hhdm()` and `get_exe()`: the responses, present (a missing one panics).
pub record Boot : Type 0 where
  pub physical_base : ℕ
  pub virtual_base : ℕ
  pub hhdm_offset : ℕ
  pub executable_size : ℕ
