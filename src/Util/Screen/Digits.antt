-- ===== src/Util/Screen/Digits.antt =====
-- The digits that `k_puti` prints.
use ada_os.Base.{
  ℕ, zero, suc, ◌+◌, ◌-◌, ◌*◌, ◌/◌, ◌%◌, ◌^◌, ◌<◌, ◌≡◌, refl, ◌∙◌, ap, List, [], ◌∷◌, leb, false,
  arith, Bool-cases, inl, inr,
}
use ada_os.Util.Screen.{number_text, grow_divisor, digits_from}

-- The number that a decimal text stands for.
unfoldable pub read_decimal : ℕ → List ℕ → ℕ
read_decimal v [] = v
read_decimal v (c ∷ cs) = read_decimal (v * 10 + (c - 48)) cs

-- The divisor and the number of digits at which the first loop of `k_puti` stops.
data StopsAt (n : ℕ) : ℕ × ℕ → Type 0 where
  one : n < 10 → StopsAt n (1, 1)
  two : n < 100 → StopsAt n (10, 2)
  three : n < 1000 → StopsAt n (100, 3)
  four : n < 10000 → StopsAt n (1000, 4)
  five : n < 100000 → StopsAt n (10000, 5)
  six : n < 1000000 → StopsAt n (100000, 6)
  seven : n < 10000000 → StopsAt n (1000000, 7)
  eight : n < 100000000 → StopsAt n (10000000, 8)
  nine : n < 1000000000 → StopsAt n (100000000, 9)
  ten : n < 10000000000 → StopsAt n (1000000000, 10)

step :
    (n rounds div count div' : ℕ)
    → div * 10 % 2 ^ 32 ≡ div'
    → (n < div * 10 → StopsAt n (div, count))
    → StopsAt n (grow_divisor rounds n div' (count + 1))
    → StopsAt n (grow_divisor (suc rounds) n div count)
unfolding grow_divisor
step n rounds div count div' e stop go = elim (Bool-cases (leb div (n / 10))) [
  | inl more ↦ rw (more, e) go
  | inr enough ↦ rw enough (stop (ground arith))
]

last_step : (n : ℕ) → n < 2 ^ 32 → StopsAt n (grow_divisor 1 n 1000000000 10)
unfolding grow_divisor
last_step n h =
    let enough : leb 1000000000 (n / 10) ≡ false = ground arith in rw enough (ten (omega arith))

stops : (n : ℕ) → n < 2 ^ 32 → StopsAt n (grow_divisor 10 n 1 1)
stops n h = step n 9 1 1 10 refl one (
    step n 8 10 2 100 refl two (
      step n 7 100 3 1000 refl three (
        step n 6 1000 4 10000 refl four (
          step n 5 10000 5 100000 refl five (
            step n 4 100000 6 1000000 refl six (
              step n 3 1000000 7 10000000 refl seven (
                step n 2 10000000 8 100000000 refl eight
                  (step n 1 100000000 9 1000000000 refl nine (last_step n h)))))))))

value_from : (count div n v : ℕ) → ℕ
value_from zero div n v = v
value_from (suc count) div n v = value_from count (div / 10) (n % div) (v * 10 + n / div)

read_decimal-digits_from :
    (count div n v : ℕ) → read_decimal v (digits_from count div n) ≡ value_from count div n v
unfolding digits_from read_decimal value_from
read_decimal-digits_from zero div n v = refl
read_decimal-digits_from (suc count) div n v =
    let e : v * 10 + (n / div + 48 - 48) ≡ v * 10 + n / div = omega arith in
    ap (λ (z : ℕ). read_decimal z (digits_from count (div / 10) (n % div))) e
    ∙ read_decimal-digits_from count (div / 10) (n % div) (v * 10 + n / div)

value : (n : ℕ) {r : ℕ × ℕ} → StopsAt n r → value_from r.1 r.0 n 0 ≡ n
unfolding value_from
value n (one h) = omega arith
value n (two h) = omega arith
value n (three h) = omega arith
value n (four h) = omega arith
value n (five h) = omega arith
value n (six h) = omega arith
value n (seven h) = omega arith
value n (eight h) = omega arith
value n (nine h) = omega arith
value n (ten h) = omega arith

-- The text that `k_puti` prints of a 32-bit number, read as a decimal, is the number.
pub read_decimal-number_text : (n : ℕ) → n < 2 ^ 32 → read_decimal 0 (number_text n) ≡ n
unfolding number_text
read_decimal-number_text n h =
    let (div, digit_count) = grow_divisor 10 n 1 1 in
    read_decimal-digits_from digit_count div n 0 ∙ value n (stops n h)
