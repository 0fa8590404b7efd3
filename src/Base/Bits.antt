-- ===== src/Base/Bits.antt =====
-- Checks of every value of a small range, and what they say of the bits of a byte.
use Prim.Native.Nat.{ℕ, zero, suc, ◌-◌, ◌/◌, ◌%◌, ◌^◌, ◌<◌, bit_and, bit_or}
use mathlib.Core.Path.{◌≡◌, refl}
use mathlib.Core.Bool.{Bool, true, false, ◌&&◌}
use native.Mathlib.Omega.{arith}
use ada_os.Base.Tests.{◌==◌, ==_iff, if◌then◌else◌, leb, leb→le}

unfoldable pub holds_below : (ℕ → Bool) → ℕ → Bool
holds_below p zero = true
holds_below p (suc top) = if p top then holds_below p top else false

pub holds_below-at :
    (p : ℕ → Bool) (top : ℕ) {x : ℕ} → x < top → holds_below p top ≡ true → p x ≡ true
unfolding holds_below
holds_below-at p zero under all = absurd (omega arith)
holds_below-at p (suc top) {x} under all = ground (arith, holds_below-at p top {x = x})

pub and_left : (a b : Bool) → (a && b) ≡ true → a ≡ true
and_left a b h = ground arith

pub and_right : (a b : Bool) → (a && b) ≡ true → b ≡ true
and_right a b h = ground arith

-- Bit `k` of `x`, as the C expression `(x >> k) & 1` has it.
unfoldable pub bit_at : ℕ → ℕ → ℕ
bit_at x k = x / 2 ^ k % 2

-- `x |= 1 << k` and `x &= ~(1 << k)` on a `uint8_t`.
pub set_bit : ℕ → ℕ → ℕ
set_bit x k = bit_or x (2 ^ k)

unfoldable pub clear_bit : ℕ → ℕ → ℕ
clear_bit x k = bit_and x (255 - 2 ^ k)

abbrev set_bit_test : ℕ → ℕ → ℕ → Bool
set_bit_test k j x =
    (bit_at (bit_or x (2 ^ k)) j == (if k == j then 1 else bit_at x j))
    && leb (bit_or x (2 ^ k)) 255

abbrev clear_bit_test : ℕ → ℕ → ℕ → Bool
clear_bit_test k j x =
    (bit_at (bit_and x (255 - 2 ^ k)) j == (if k == j then 0 else bit_at x j))
    && leb (bit_and x (255 - 2 ^ k)) 255

abbrev every : (ℕ → ℕ → ℕ → Bool) → Bool
every test = holds_below (λ k. holds_below (λ j. holds_below (test k j) 256) 8) 8

every-at :
    (test : ℕ → ℕ → ℕ → Bool) {k j x : ℕ}
    → every test ≡ true
    → k < 8
    → j < 8
    → x < 256
    → test k j x ≡ true
every-at test all hk hj hx =
    holds_below-at _ 256 hx (holds_below-at _ 8 hj (holds_below-at _ 8 hk all))

set_bit_table : every set_bit_test ≡ true
unfolding holds_below bit_at
set_bit_table = refl

clear_bit_table : every clear_bit_test ≡ true
unfolding holds_below bit_at
clear_bit_table = refl

module _ (k j x : ℕ) (hk : k < 8) (hj : j < 8) (hx : x < 256) where
  set_bit_checked : set_bit_test k j x ≡ true
  set_bit_checked = every-at set_bit_test set_bit_table hk hj hx

  clear_bit_checked : clear_bit_test k j x ≡ true
  clear_bit_checked = every-at clear_bit_test clear_bit_table hk hj hx

  pub bit_at-set_bit : bit_at (set_bit x k) j ≡ (if k == j then 1 else bit_at x j)
  unfolding set_bit
  bit_at-set_bit = (==_iff _ _).0 (and_left _ _ set_bit_checked)

  pub bit_at-clear_bit : bit_at (clear_bit x k) j ≡ (if k == j then 0 else bit_at x j)
  unfolding clear_bit
  bit_at-clear_bit = (==_iff _ _).0 (and_left _ _ clear_bit_checked)

  pub set_bit-lt : set_bit x k < 256
  unfolding set_bit
  set_bit-lt = omega (arith, leb→le (bit_or x (2 ^ k)) 255 (and_right _ _ set_bit_checked))

  pub clear_bit-lt : clear_bit x k < 256
  unfolding clear_bit
  clear_bit-lt =
      omega (arith, leb→le (bit_and x (255 - 2 ^ k)) 255 (and_right _ _ clear_bit_checked))
