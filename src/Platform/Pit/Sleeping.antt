-- ===== src/Platform/Pit/Sleeping.antt =====
-- Waiting ends when the clock goes on, and not before its time.
use ada_os.Base.{
  ℕ, zero, suc, ◌+◌, ◌-◌, ◌*◌, ◌/◌, ◌%◌, ◌^◌, ◌≤◌, ◌<◌, ◌≡◌, refl, sym, subst, true, false, ltb,
  ltb→lt, lt→ltb, ltb→ge, arith, Bool-cases, inl, inr, done, spinning,
}
use ada_os.Memory.Layout.{add64, sub64}
use ada_os.Platform.Pit.{sleep_loop, span_of, pit_sleep_ms, apic_sleep_ms}

-- A clock that never goes back, and that goes on within `gap` rounds of a waiting loop, which has
-- two reads in a round.
pub record IsRunning (ticks : ℕ → ℕ) (gap : ℕ) : Type 0 where
  pub forward : (i : ℕ) → ticks i ≤ ticks (i + 1)
  pub goes_on : (i : ℕ) → ticks i < ticks (i + 2 * gap)

-- The wait returns after `reads` reads: the last one is the first test at which the clock has come
-- to `target`.
pub record Slept (ticks : ℕ → ℕ) (target reads : ℕ) : Type 0 where
  pub reached : target ≤ ticks (reads - 1)
  pub not_before : (i : ℕ) → i + 3 ≤ reads → ticks i < target

le_via : {a b c : ℕ} → a ≤ b → b ≤ c → a ≤ c
le_via p q = omega arith

forward_by :
    (ticks : ℕ → ℕ) → ((i : ℕ) → ticks i ≤ ticks (i + 1)) → (k i : ℕ) → ticks i ≤ ticks (i + k)
forward_by ticks forward zero i =
    let e : i + 0 ≡ i = omega arith in subst (λ j. ticks i ≤ ticks j) (sym e) (omega arith)
forward_by ticks forward (suc k) i =
    let e : i + k + 1 ≡ i + suc k = omega arith in
    subst (λ j. ticks i ≤ ticks j) e (le_via (forward_by ticks forward k i) (forward (i + k)))

forward_le :
    (ticks : ℕ → ℕ) → ((i : ℕ) → ticks i ≤ ticks (i + 1)) → (j i : ℕ) → j ≤ i → ticks j ≤ ticks i
forward_le ticks forward j i h =
    let e : j + (i - j) ≡ i = omega arith in
    subst (λ k. ticks j ≤ ticks k) e (forward_by ticks forward (i - j) j)

step_on : {a b c : ℕ} (n : ℕ) → a < b → b + n ≤ c → a + suc n ≤ c
step_on n p q = omega arith

next_goal : (i n gap : ℕ) → i + 2 * gap + 2 * (n * gap) ≡ i + 2 * (suc n * gap)
next_goal i n gap = grind arith

-- After `n` times the rounds of a gap, the clock has gone on by `n`.
goes_on_by :
    (ticks : ℕ → ℕ) (gap : ℕ)
    → ((i : ℕ) → ticks i < ticks (i + 2 * gap))
    → (n i : ℕ) → ticks i + n ≤ ticks (i + 2 * (n * gap))
goes_on_by ticks gap goes_on zero i =
    let e : i + 2 * (0 * gap) ≡ i = omega arith in
    subst (λ j. ticks i + 0 ≤ ticks j) (sym e) (omega arith)
goes_on_by ticks gap goes_on (suc n) i =
    subst (λ j. ticks i + suc n ≤ ticks j) (next_goal i n gap)
      (step_on n (goes_on i) (goes_on_by ticks gap goes_on n (i + 2 * gap)))

lt_via : {a b c : ℕ} → a ≤ b → b < c → a < c
lt_via p q = omega arith

not_less : {a b : ℕ} → b ≤ a → ltb a b ≡ false
not_less h = ground arith

two_less : (j i : ℕ) → j + 2 ≤ i + 2 → j ≤ i
two_less j i h = omega arith

one_less : (j i : ℕ) → j + 3 ≤ i + 1 → j + 2 ≤ i
one_less j i h = omega arith

no_loop : {a b : ℕ} → b ≤ a → a < b → ⊥
no_loop p q = omega arith

not_done :
    (ticks : ℕ → ℕ) (i rounds : ℕ) {target : ℕ}
    → target ≤ ticks (i + 2 * rounds)
    → ticks i < target
    → 0 < rounds
not_done ticks i zero {target} at_end early =
    let e : i + 2 * 0 ≡ i = omega arith in
    absurd (no_loop (subst (λ j. target ≤ ticks j) e at_end) early)
not_done ticks i (suc rounds) at_end early = omega arith

spare : {rounds fuel : ℕ} → rounds < suc fuel → 0 < rounds → rounds - 1 < fuel
spare h k = omega arith

closer :
    (ticks : ℕ → ℕ) (i rounds : ℕ) {target : ℕ}
    → target ≤ ticks (i + 2 * rounds)
    → 0 < rounds
    → target ≤ ticks (i + 2 + 2 * (rounds - 1))
closer ticks i rounds {target} at_end pos =
    let e : i + 2 * rounds ≡ i + 2 + 2 * (rounds - 1) = omega arith in
    subst (λ j. target ≤ ticks j) e at_end

last_read : (ticks : ℕ → ℕ) (i : ℕ) {target : ℕ} → target ≤ ticks i → target ≤ ticks (i + 1 - 1)
last_read ticks i {target} h =
    let e : i ≡ i + 1 - 1 = omega arith in subst (λ j. target ≤ ticks j) e h

-- The loop, from read `i` on, when the target is at hand in `rounds` rounds.
sleep_loop-Slept :
    (ticks : ℕ → ℕ) (span start target : ℕ)
    → ((i : ℕ) → ticks i ≤ ticks (i + 1))
    → ((i : ℕ) → start ≤ ticks i)
    → (rounds fuel i : ℕ) → rounds < fuel
    → target ≤ ticks (i + 2 * rounds)
    → ((j : ℕ) → j + 2 ≤ i → ticks j < target)
    → (reads : ℕ) × (sleep_loop fuel ticks span i start target ≡ done reads)
      × Slept ticks target reads
unfolding sleep_loop
sleep_loop-Slept ticks span start target forward from rounds zero i enough at_end before =
    absurd (omega arith)
sleep_loop-Slept ticks span start target forward from rounds (suc fuel) i enough at_end before =
    elim (Bool-cases (ltb (ticks i) target)) [
      | inl early ↦
          let on : ltb (ticks (i + 1)) start ≡ false = not_less (from (i + 1)) in
          rw (early, on)
            (sleep_loop-Slept ticks span start target forward from (rounds - 1) fuel (i + 2)
              (spare enough (not_done ticks i rounds at_end (ltb→lt _ _ early)))
              (closer ticks i rounds at_end (not_done ticks i rounds at_end (ltb→lt _ _ early)))
              (λ j h. lt_via (forward_le ticks forward j i (two_less j i h)) (ltb→lt _ _ early)))
      | inr late ↦ (
        i + 1,
        rw late refl,
        record {
          reached = last_read ticks i (ltb→ge _ _ late);
          not_before = λ j h. before j (one_less j i h);
        },
      )
    ]

from_first : (ticks : ℕ → ℕ) → ((i : ℕ) → ticks i ≤ ticks (i + 1)) → (i : ℕ) → ticks 0 ≤ ticks i
from_first ticks forward i = forward_le ticks forward 0 i (omega arith)

-- The clock comes to a target that lies at most `n` ahead of its first value.
comes_to :
    (ticks : ℕ → ℕ) (gap : ℕ)
    → IsRunning ticks gap
    → (n target : ℕ) → target ≤ ticks 0 + n
    → target ≤ ticks (1 + 2 * (n * gap))
comes_to ticks gap clock n target h = le_via h (
    le_via (goes_on_by ticks gap clock.goes_on n 0)
      (forward_le ticks clock.forward (0 + 2 * (n * gap)) (1 + 2 * (n * gap)) (omega arith)))

-- `pit_sleep_ms` of a span of one tick at least returns, on a clock that goes on within `gap`
-- rounds of its loop and does not wrap, with fuel for the rounds of the span. It returns at the
-- first test at which the clock is one tick short of the span that the milliseconds come to, or
-- beyond: not earlier, and not later.
pub pit_sleep_ms-Slept :
    (ticks : ℕ → ℕ) (gap : ℕ)
    → IsRunning ticks gap
    → (fuel goal_frequency ms : ℕ) → 0 < span_of ms goal_frequency
    → ticks 0 + span_of ms goal_frequency < 2 ^ 64
    → span_of ms goal_frequency * gap < fuel
    → (reads : ℕ) × (pit_sleep_ms fuel ticks goal_frequency ms ≡ done reads)
      × Slept ticks (ticks 0 + span_of ms goal_frequency - 1) reads
unfolding pit_sleep_ms
pit_sleep_ms-Slept ticks gap clock fuel goal_frequency ms pos room enough =
    let span = span_of ms goal_frequency in
    let target : sub64 (add64 (ticks 0) span) 1 ≡ ticks 0 + span - 1 = omega arith in
    rw target (
      sleep_loop-Slept ticks span (ticks 0) (ticks 0 + span - 1) clock.forward
        (from_first ticks clock.forward) (span * gap) fuel 1 enough
        (comes_to ticks gap clock span (ticks 0 + span - 1) (omega arith))
        (λ j h. absurd (omega arith)))

-- `apic_sleep_ms` returns, on a clock that goes on within `gap` rounds of its loop and does not wrap,
-- at the first test at which the milliseconds are over.
pub apic_sleep_ms-Slept :
    (ticks : ℕ → ℕ) (gap : ℕ)
    → IsRunning ticks gap
    → (fuel ms : ℕ) → ticks 0 + ms < 2 ^ 64
    → ms * gap < fuel
    → (reads : ℕ) × (apic_sleep_ms fuel ticks ms ≡ done reads) × Slept ticks (ticks 0 + ms) reads
unfolding apic_sleep_ms
apic_sleep_ms-Slept ticks gap clock fuel ms room enough =
    let target : add64 (ticks 0) ms ≡ ticks 0 + ms = omega arith in
    rw target (
      sleep_loop-Slept ticks ms (ticks 0) (ticks 0 + ms) clock.forward
        (from_first ticks clock.forward) (ms * gap) fuel 1 enough
        (comes_to ticks gap clock ms (ticks 0 + ms) (omega arith)) (λ j h. absurd (omega arith)))

never :
    (ticks : ℕ → ℕ) (target : ℕ)
    → ((i : ℕ) → ticks i < target)
    → (fuel i : ℕ) → sleep_loop fuel ticks 0 i 0 target ≡ spinning
unfolding sleep_loop
never ticks target below zero i = refl
never ticks target below (suc fuel) i =
    let early : ltb (ticks i) target ≡ true = lt→ltb _ _ (below i) in
    let on : ltb (ticks (i + 1)) 0 ≡ false = ground arith in
    rw (early, on) (never ticks target below fuel (i + 2))

-- Waiting for no time at all at tick 0 never ends before the clock comes to its last value: the
-- target wraps to it.
pub pit_sleep_ms_zero :
    (fuel : ℕ) (ticks : ℕ → ℕ) (goal_frequency : ℕ)
    → ticks 0 ≡ 0
    → ((i : ℕ) → ticks i < 2 ^ 64 - 1)
    → pit_sleep_ms fuel ticks goal_frequency 0 ≡ spinning
unfolding pit_sleep_ms
pit_sleep_ms_zero fuel ticks goal_frequency first below = rw first (
    let none_left : 0 * goal_frequency % 2 ^ 32 / 1000 ≡ 0 = omega arith in
    rw none_left (never ticks (2 ^ 64 - 1) below fuel 1))
