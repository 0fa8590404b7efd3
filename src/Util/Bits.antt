-- ===== src/Util/Bits.antt =====
-- kernel/src/util/bits.c: ranges of bits of a `uint32_t`.
use ada_os.Base.{
  ℕ, ◌+◌, ◌-◌, ◌/◌, ◌%◌, ◌^◌, ◌≤◌, ◌<◌, ◌≡◌, refl, Bool, false, ◌||◌, ltb, leb, ◌==◌, if◌then◌else◌,
  arith, Outcome, done, undefined, ◌>>=◌,
}

-- `uint8_t width = high - low + 1`
abbrev pub width_of : (high low : ℕ) → ℕ
width_of high low = (high + 257 - low) % 256

-- A shift of 32 bits by 32 or more is undefined. Masking with `2^width - 1` keeps `width` bits.
pub extract_bit_range : (value high low : ℕ) → Outcome ℕ
extract_bit_range value high low =
    let width = width_of high low in
    if ltb 32 width || leb 32 low then undefined else done (value % 2 ^ 32 / 2 ^ low % 2 ^ width)

unfoldable pub test_bit_range : (value high low expected : ℕ) → Outcome Bool
test_bit_range value high low expected =
    extract_bit_range value high low >>= λ bits. done (bits == expected)

-- A range that lies in the word, upper end included, is defined.
pub extract_bit_range-inside :
    (value high low : ℕ)
    → high < 32
    → low ≤ high
    → extract_bit_range value high low ≡ done (value % 2 ^ 32 / 2 ^ low % 2 ^ (high + 1 - low))
unfolding extract_bit_range
extract_bit_range-inside value high low h k =
    let e : (high + 257 - low) % 256 ≡ high + 1 - low = omega arith in
    let narrow : ltb 32 (high + 1 - low) ≡ false = ground arith in
    let start : leb 32 low ≡ false = ground arith in rw (e, narrow, start) refl

-- A range of 33 bits is not.
pub extract_bit_range-wide : (value low : ℕ) → extract_bit_range value (low + 32) low ≡ undefined
unfolding extract_bit_range
extract_bit_range-wide value low =
    let e : (low + 32 + 257 - low) % 256 ≡ 33 = omega arith in rw e refl
