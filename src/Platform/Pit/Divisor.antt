-- ===== src/Platform/Pit/Divisor.antt =====
-- What the timer counts from, after its divisor is written.
use ada_os.Base.{
  ℕ, ◌+◌, ◌-◌, ◌*◌, ◌/◌, ◌%◌, ◌≤◌, ◌<◌, ◌≡◌, ◌↔◌, refl, subst, true, false, leb, ltb, ◌==◌, leb→le,
  ltb→lt, ltb→ge, if◌then◌else◌, arith, Bool-cases, inl, inr, List, [], ◌∷◌, some, holds_below,
  holds_below-at,
}
use ada_os.Platform.Pic.{Out, out}
use ada_os.Platform.Pit.{pit_frequency, set_pit_frequency}

-- The number that two writes to a port leave in the timer, which takes the low byte first.
unfoldable pub loaded : (port : ℕ) → List Out → ℕ
loaded port [] = 0
loaded port (o ∷ os) = if o.port == port then o.value + 256 * loaded port os else loaded port os

slow_table : holds_below (λ f. leb 65536 (pit_frequency / (f + 1))) 18 ≡ true
unfolding holds_below
slow_table = refl

slow : (f : ℕ) → 0 < f → f < 19 → 65536 ≤ pit_frequency / f
slow f pos h =
    let e : f - 1 + 1 ≡ f = omega arith in
    subst (λ (k : ℕ). 65536 ≤ pit_frequency / k) e
      (leb→le _ _ (
        holds_below-at (λ i. leb 65536 (pit_frequency / (i + 1))) 18 {x = f - 1} (omega arith)
          slow_table))

quotient_below : (n f q : ℕ) → 18 < f → n < 19 * q → n / f < q
quotient_below n f q h k = grind arith

fast : (f : ℕ) → 18 < f → pit_frequency / f < 65536
fast f h = quotient_below pit_frequency f 65536 h (omega arith)

-- The two bytes hold a divisor exactly if it is below 65536.
fits : (d : ℕ) → (d % 256 + 256 * (d / 256 % 256 + 256 * 0) ≡ d) ↔ (d < 65536)
fits d = (λ e. omega arith, λ h. omega arith)

-- `set_pit_frequency` of a frequency other than 0 makes three writes. They load the timer with the
-- divisor of that frequency exactly if the frequency is above 18 Hz; below, the divisor does not fit
-- into the two bytes.
pub loaded-set_pit_frequency :
    (frequency : ℕ)
    → 0 < frequency
    → (outs : List Out) × (set_pit_frequency frequency ≡ some outs)
      × ((loaded 0x40 outs ≡ pit_frequency / frequency) ↔ (18 < frequency))
unfolding set_pit_frequency loaded
loaded-set_pit_frequency frequency pos =
    let d = pit_frequency / frequency in
    let other : (frequency == 0) ≡ false = ground arith in
    (
      out 0x43 0x36 ∷ out 0x40 (d % 256) ∷ out 0x40 (d / 256 % 256) ∷ [],
      rw other refl,
      (
        λ e. elim (Bool-cases (ltb 18 frequency)) [
          | inl above ↦ ltb→lt _ _ above
          | inr below ↦
              let wide = slow frequency pos (omega (arith, ltb→ge 18 frequency below)) in
              absurd (omega (arith, (fits d).0 e, wide))
        ],
        λ h. (fits d).1 (fast frequency h),
      ),
    )
