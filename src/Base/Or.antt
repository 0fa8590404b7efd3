-- ===== src/Base/Or.antt =====
-- The bitwise or of C on machine words, digit by digit, and of parts that share no bit.
use Prim.Native.Nat.{
  ℕ, zero, suc, ◌+◌, ◌*◌, ◌/◌, ◌%◌, ◌^◌, ◌≤◌, ◌<◌, max, bit_or, digits, bit_or-bitwise,
}
use mathlib.Core.Path.{◌≡◌, refl, ◌∙◌, sym}
use native.Mathlib.Omega.{arith}

-- More rounds than the first number has digits change nothing.
spare_rounds_aux :
    (k rounds x y : ℕ)
    → x ≤ k
    → x ≤ rounds
    → digits (λ d. d) max rounds x y ≡ digits (λ d. d) max x x y
spare_rounds_aux k zero zero y h h' = refl
spare_rounds_aux k (suc rounds) zero y h h' = refl
spare_rounds_aux k zero (suc x) y h h' = absurd (omega arith)
spare_rounds_aux zero (suc rounds) (suc x) y h h' = absurd (omega arith)
spare_rounds_aux (suc k) (suc rounds) (suc x) y h h' = omega (
  arith,
  spare_rounds_aux k rounds (suc x / 2) (y / 2) (omega arith) (omega arith),
  spare_rounds_aux k x (suc x / 2) (y / 2) (omega arith) (omega arith),
)

spare_rounds :
    (rounds x y : ℕ) → x ≤ rounds → digits (λ d. d) max rounds x y ≡ digits (λ d. d) max x x y
spare_rounds rounds x y h = spare_rounds_aux x rounds x y (omega arith) h

pub or_left_zero : (y : ℕ) → bit_or 0 y ≡ y
or_left_zero y = bit_or-bitwise 0 y

pub or_split : (x y : ℕ) → bit_or x y ≡ bit_or (x / 2) (y / 2) * 2 + max (x % 2) (y % 2)
or_split zero y = omega (arith, or_left_zero y, or_left_zero (y / 2))
or_split (suc x) y = omega (
  arith,
  bit_or-bitwise (suc x) y,
  bit_or-bitwise (suc x / 2) (y / 2),
  spare_rounds x (suc x / 2) (y / 2) (omega arith),
)

or_right_zero_aux : (k x : ℕ) → x ≤ k → bit_or x 0 ≡ x
or_right_zero_aux k zero h = or_left_zero 0
or_right_zero_aux zero (suc x) h = absurd (omega arith)
or_right_zero_aux (suc k) (suc x) h =
    omega (arith, or_split (suc x) 0, or_right_zero_aux k (suc x / 2) (omega arith))

pub or_right_zero : (x : ℕ) → bit_or x 0 ≡ x
or_right_zero x = or_right_zero_aux x x (omega arith)

-- `x` without its lowest `k` bits, and those bits alone.
halve : ℕ → ℕ → ℕ
halve zero x = x
halve (suc k) x = halve k (x / 2)

low_bits : ℕ → ℕ → ℕ
low_bits zero x = 0
low_bits (suc k) x = low_bits k (x / 2) * 2 + x % 2

halve-or : (k x y : ℕ) → halve k (bit_or x y) ≡ bit_or (halve k x) (halve k y)
unfolding halve
halve-or zero x y = refl
halve-or (suc k) x y =
    let e : bit_or x y / 2 ≡ bit_or (x / 2) (y / 2) = omega (arith, or_split x y) in
    rw e (halve-or k (x / 2) (y / 2))

-- Where `y` has no bits among the low ones, `bit_or x y` has those of `x`.
low_bits-or : (k x y : ℕ) → low_bits k y ≡ 0 → low_bits k (bit_or x y) ≡ low_bits k x
unfolding low_bits
low_bits-or zero x y h = refl
low_bits-or (suc k) x y h =
    let e : bit_or x y / 2 ≡ bit_or (x / 2) (y / 2) = omega (arith, or_split x y) in
    let d : bit_or x y % 2 ≡ x % 2 = omega (arith, or_split x y) in
    let ih = low_bits-or k (x / 2) (y / 2) (omega arith) in rw (e, d, ih) refl

halve_twelve : (x : ℕ) → halve 12 x ≡ x / 4096
unfolding halve
halve_twelve x = omega arith

low_bits_forty : (x : ℕ) → low_bits 40 x ≡ x % 2 ^ 40
unfolding low_bits
low_bits_forty x = omega arith

-- The address bits of a page table entry: those of a page-aligned address, whatever the flags,
-- and the present bit that is put in last.
pub or_keeps_address :
    (address flags : ℕ)
    → address % 4096 ≡ 0
    → flags / 4096 % 2 ^ 40 ≡ 0
    → (bit_or (bit_or address flags) 1 / 4096 % 2 ^ 40 ≡ address / 4096 % 2 ^ 40)
      × (bit_or (bit_or address flags) 1 % 2 ≡ 1)
or_keeps_address address flags aligned clear =
    let x = bit_or address flags in
    let up : bit_or x 1 / 4096 ≡ bit_or (address / 4096) (flags / 4096) =
      sym (halve_twelve (bit_or x 1))
      ∙ halve-or 12 x 1
      ∙ (rw (halve_twelve x, halve_twelve 1) (or_right_zero (x / 4096)))
      ∙ sym (halve_twelve x)
      ∙ halve-or 12 address flags
      ∙ (rw (halve_twelve address, halve_twelve flags) refl) in
    let low =
      low_bits-or 40 (address / 4096) (flags / 4096) (low_bits_forty (flags / 4096) ∙ clear) in
    (
      omega (
        arith,
        up,
        low,
        low_bits_forty (address / 4096),
        low_bits_forty (bit_or (address / 4096) (flags / 4096)),
      ),
      omega (arith, or_split x 1),
    )

halve_word : (x : ℕ) → halve 64 x ≡ x / 2 ^ 64
unfolding halve
halve_word x = omega arith

-- The or of two words is a word.
pub or-lt : (x y : ℕ) → x < 2 ^ 64 → y < 2 ^ 64 → bit_or x y < 2 ^ 64
or-lt x y hx hy =
    let h : halve 64 x ≡ 0 = halve_word x ∙ omega arith in
    let e : bit_or x y / 2 ^ 64 ≡ y / 2 ^ 64 =
      sym (halve_word (bit_or x y))
      ∙ halve-or 64 x y
      ∙ (rw h (or_left_zero (halve 64 y)))
      ∙ halve_word y in
    omega (arith, e)
