-- ===== src/Crypt/Random.antt =====
-- kernel/src/crypt/random.c: the Mersenne Twister and numbers in a range. Words have 32 bits.
pub mod Sequence
pub mod Range
mod Tests
use ada_os.Base.{
  ℕ, zero, suc, ◌+◌, ◌-◌, ◌*◌, ◌/◌, ◌%◌, ◌^◌, Bool, true, false, ltb, leb, ◌==◌, if◌then◌else◌,
  bit_and, bit_or, bit_xor, Option, none, some,
}

abbrev pub word : ℕ
word = 2 ^ 32

abbrev pub n : ℕ
n = 624

abbrev pub m : ℕ
m = 397

abbrev pub umask : ℕ
umask = 0x7fff_ffff_8000_0000

abbrev pub lmask : ℕ
lmask = 0x7fff_ffff

-- `mt_state_t`.
pub record MtState : Type 0 where
  pub state_array : ℕ → ℕ
  pub state_index : ℕ

abbrev put_word : (ℕ → ℕ) → ℕ → ℕ → ℕ → ℕ
put_word array i x j = if j == i then x else array j

-- `for (i = i; i < i + rounds; i++)` of `setup_random`; the product has 64 bits and is cut to 32.
seed_from : (rounds i seed : ℕ) → (ℕ → ℕ) → (ℕ → ℕ)
seed_from zero i seed array = array
seed_from (suc rounds) i seed array =
    let next = (1812433253 * bit_xor seed (seed / 2 ^ 30) + i) % word in
    seed_from rounds (i + 1) next (put_word array i next)

pub setup_random : ℕ → MtState → MtState
unfolding seed_from
setup_random seed s = record {
  state_array = seed_from 623 1 seed (put_word s.state_array 0 seed);
  state_index = 0;
}

-- The matrix that a word with the upper bit of one number and the lower bits of the next goes
-- through.
pub twist : ℕ → ℕ
twist x = let half = x / 2 in if x % 2 == 1 then bit_xor half 0x9908_b0df else half

pub temper : ℕ → ℕ
temper x =
    let y1 = bit_xor x (x / 2 ^ 11) in
    let y2 = bit_xor y1 (bit_and (y1 * 2 ^ 7 % word) 0x9d2c_5680) in
    let y3 = bit_xor y2 (bit_and (y2 * 2 ^ 15 % word) 0xefc6_0000) in bit_xor y3 (y3 / 2 ^ 18)

-- `j = k - d; if (j < 0) j += n;`
abbrev pub step_back : ℕ → ℕ → ℕ
step_back k d = if ltb k d then k + n - d else k - d

pub random_uint32 : MtState → ℕ × MtState
random_uint32 s =
    let k = s.state_index in
    let upper = bit_and (s.state_array k) umask in
    let lower = bit_and (s.state_array (step_back k (n - 1))) lmask in
    let x = bit_xor (s.state_array (step_back k (n - m))) (twist (bit_or upper lower)) in
    (
      temper x,
      record {
        state_array = put_word s.state_array k x;
        state_index = if leb n (k + 1) then 0 else k + 1;
      },
    )

-- `random_range`; `none` where a range of 0 is divided by, which raises the processor's divide error.
pub random_range : (min max : ℕ) → MtState → Option (ℕ × MtState)
random_range min max s =
    if ltb max min
    then some (word - 1, s)
    else if max == 0
    then some (min, s)
    else (let range = (max + word - min + 1) % word in
        if range == 0
        then none
        else (let (r, s') = random_uint32 s in some ((min + r % range) % word, s')))
